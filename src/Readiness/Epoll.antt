-- ===== src/Readiness/Epoll.antt =====
-- src/backends_epoll_backend.cpp on Linux. Each method is one step on the record, with what the system
-- calls answer as arguments.
use Prim.Native.Nat.{bit_and}
use vio.Prelude.{
  ℕ, suc, Bool, true, false, not, ◌&&◌, ◌||◌, Option, none, some, List, [], ◌∷◌, ltb, ◌==◌,
  if◌then◌else◌,
}
use vio.Prelude.Int.{ℤ, eq_ℤ}
use vio.Error.{VioError, Result, VoidResult, ok, err, make_error, closed, invalid_state}
use vio.Backend.Operation.{
  Operation, HandleToken, Completion, OperationKind, read, write, is_socket_operation,
}
use vio.Backend.Virtual
use vio.Backend.Virtual.{VirtualBackend}
use vio.Readiness.{
  SysResult, success, failed, Errno, provider_failure, closed_error, int_max, initialization_result,
}
use vio.Readiness.Cookie.{wake_event_cookie, pack_event_cookie, unpack_event_cookie}

-- A descriptor that the backend owns is open or not.
pub record EpollBackend : Type 0 where
  pub fallback : VirtualBackend
  pub epoll_fd : Bool
  pub wake_fd : Bool
  pub stopped : Bool
  pub initialization_error : Option VioError

-- `EPOLLIN | EPOLLERR | EPOLLHUP | EPOLLRDHUP` and `EPOLLOUT | EPOLLERR | EPOLLHUP`.
pub record EpollMasks : Type 0 where
  pub read_mask : ℕ
  pub write_mask : ℕ

pub record EpollEvent : Type 0 where
  pub cookie : ℕ
  pub events : ℕ

-- The answer of `epoll_wait`.
pub data WaitResult : Type 0 where
  ready : List EpollEvent → WaitResult
  wait_failed : ℤ → WaitResult

abbrev fresh : EpollBackend
fresh = record {
  fallback = Virtual.new;
  epoll_fd = false;
  wake_fd = false;
  stopped = false;
  initialization_error = none;
}

abbrev pub close_owned_descriptors : EpollBackend → EpollBackend
close_owned_descriptors b = record b { epoll_fd = false; wake_fd = false }

-- The constructor, with the answers of `epoll_create1`, `eventfd` and `epoll_ctl`.
unfoldable pub new : SysResult → SysResult → SysResult → EpollBackend
new (failed e) made added = record fresh { initialization_error = some (provider_failure e) }
new success (failed e) added =
    close_owned_descriptors
      (record fresh { epoll_fd = true; initialization_error = some (provider_failure e) })
new success success (failed e) = close_owned_descriptors (record fresh {
  epoll_fd = true;
  wake_fd = true;
  initialization_error = some (provider_failure e);
})
new success success success = record fresh { epoll_fd = true; wake_fd = true }

-- What follows the registration in the virtual backend; `ctl` is the answer of `epoll_ctl`.
abbrev pub registered :
    EpollBackend → HandleToken → Result ℕ → SysResult → EpollBackend × Result HandleToken
registered b token (err e) ctl =
    (record b { fallback = (Virtual.close_handle b.fallback token).0 }, err e)
registered b token (ok cookie) (failed e) =
    (record b { fallback = (Virtual.close_handle b.fallback token).0 }, err (provider_failure e))
registered b token (ok cookie) success = (b, ok token)

abbrev pub register_in :
    EpollBackend
    → VirtualBackend × Result HandleToken
    → SysResult
    → EpollBackend × Result HandleToken
register_in b (fallback, err e) ctl = (record b { fallback = fallback }, err e)
register_in b (fallback, ok token) ctl =
    registered (record b { fallback = fallback }) token (pack_event_cookie token) ctl

unfoldable pub register_handle : EpollBackend → ℕ → SysResult → EpollBackend × Result HandleToken
register_handle b native_handle ctl =
    if b.stopped
    then (b, err (make_error closed ""))
    else if native_handle == 0 || ltb int_max native_handle
    then (b, err (make_error invalid_state "native handle id must be a valid file descriptor"))
    else elim (initialization_result b.initialization_error) [
      | err e ↦ (b, err e)
      | ok _ ↦ register_in b (Virtual.register_handle b.fallback native_handle) ctl
    ]

-- The guards that most methods begin with.
abbrev pub guarded : EpollBackend → EpollBackend × VoidResult → EpollBackend × VoidResult
guarded b next =
    if b.stopped
    then (b, closed_error)
    else elim (initialization_result b.initialization_error) [ err e ↦ (b, err e) | ok _ ↦ next ]

abbrev pub with_fallback : EpollBackend → VirtualBackend × VoidResult → EpollBackend × VoidResult
with_fallback b (fallback, result) = (record b { fallback = fallback }, result)

unfoldable pub submit : EpollBackend → Operation → EpollBackend × VoidResult
submit b operation = guarded b (
    if not (is_socket_operation operation)
    then (
      b,
      err (make_error invalid_state "epoll backend accepts socket readiness operations only"),
    )
    else with_fallback b (Virtual.submit b.fallback operation))

unfoldable pub cancel : EpollBackend → ℕ → EpollBackend × VoidResult
cancel b operation_id = guarded b (with_fallback b (Virtual.cancel b.fallback operation_id))

-- The end of `close_handle`, with the answer of `epoll_ctl`.
abbrev pub deleted : Errno → EpollBackend → HandleToken → SysResult → EpollBackend × VoidResult
deleted os b token success = with_fallback b (Virtual.close_handle b.fallback token)
deleted os b token (failed e) =
    if not (eq_ℤ e os.ebadf) && not (eq_ℤ e os.enoent)
    then (b, err (provider_failure e))
    else with_fallback b (Virtual.close_handle b.fallback token)

unfoldable pub close_handle :
    Errno → EpollBackend → HandleToken → SysResult → EpollBackend × VoidResult
close_handle os b token ctl = guarded b (
    if token.native_handle == 0
      || ltb int_max token.native_handle
      || not (Virtual.is_current_handle b.fallback token)
    then (b, err (make_error invalid_state "backend handle token is not current"))
    else deleted os b token ctl)

-- The loop that empties the event counter, over the answers of `eventfd_read`: the answers left, or an
-- error; `none` where the answers end before the loop does.
unfoldable pub drain_wake : Errno → List SysResult → Option (Result (List SysResult))
drain_wake os [] = none
drain_wake os (success ∷ answers) = drain_wake os answers
drain_wake os (failed e ∷ answers) =
    let retry = drain_wake os answers in
    if eq_ℤ e os.eintr
    then retry
    else if eq_ℤ e os.eagain
    then some (ok answers)
    else some (err (provider_failure e))

abbrev pub complete_if :
    Bool → VirtualBackend → HandleToken → OperationKind → VirtualBackend × VoidResult
complete_if readiness fallback token kind =
    if readiness then Virtual.complete_ready fallback token kind else (fallback, ok tt)

-- What an event does for a current token: reads complete before writes.
unfoldable pub complete_event :
    EpollMasks → VirtualBackend → HandleToken → ℕ → VirtualBackend × VoidResult
complete_event masks fallback token events =
    let (f, reads) = complete_if (not (bit_and events masks.read_mask == 0)) fallback token read in
    elim reads [
      | err e ↦ (f, err e)
      | ok _ ↦ complete_if (not (bit_and events masks.write_mask == 0)) f token write
    ]

-- The loop of `poll` over the events: the virtual backend, and the number of events observed or an
-- error; `none` where the answers of `eventfd_read` end too early.
unfoldable pub poll_loop :
    Errno
    → EpollMasks
    → List EpollEvent
    → VirtualBackend
    → ℕ
    → List SysResult
    → VirtualBackend × Option (Result ℕ)
poll_loop os masks [] f observed answers = (f, some (ok observed))
poll_loop os masks (event ∷ events) f observed answers =
    let token = unpack_event_cookie event.cookie in
    if event.cookie == wake_event_cookie
    then elim (drain_wake os answers) [
      | none ↦ (f, none)
      | some (err e) ↦ (f, some (err e))
      | some (ok rest) ↦ poll_loop os masks events f (suc observed) rest
    ]
    else elim (Virtual.is_current_handle f token) [
      | false ↦ poll_loop os masks events f observed answers
      | true ↦
          let (f', completed) = complete_event masks f token event.events in
          elim completed [
            | err e ↦ (f', some (err e))
            | ok _ ↦ poll_loop os masks events f' (suc observed) answers
          ]
    ]

unfoldable pub poll :
    Errno
    → EpollMasks
    → EpollBackend
    → WaitResult
    → List SysResult
    → EpollBackend × Option (Result ℕ)
poll os masks b waited answers =
    if b.stopped then (b, some (ok 0)) else elim b.initialization_error [
      | some e ↦ (b, some (err e))
      | none ↦ elim waited [
        | wait_failed e ↦
            if eq_ℤ e os.eintr then (b, some (ok 0)) else (b, some (err (provider_failure e)))
        | ready events ↦
            let (f, result) = poll_loop os masks events b.fallback 0 answers in
            (record b { fallback = f }, result)
      ]
    ]

abbrev pub drain_completions : EpollBackend → ℕ → EpollBackend × Result (List Completion)
drain_completions b room =
    let (f, result) = Virtual.drain_completions b.fallback room in
    (record b { fallback = f }, result)

-- The loop of `wake` over the answers of `eventfd_write`; `none` where they end too early.
unfoldable pub wake_loop : Errno → List SysResult → Option VoidResult
wake_loop os [] = none
wake_loop os (success ∷ answers) = some (ok tt)
wake_loop os (failed e ∷ answers) =
    let retry = wake_loop os answers in
    if eq_ℤ e os.eintr
    then retry
    else if eq_ℤ e os.eagain
    then some (ok tt)
    else some (err (provider_failure e))

unfoldable pub wake : Errno → EpollBackend → List SysResult → Option VoidResult
wake os b answers =
    if b.stopped then some closed_error else elim (initialization_result b.initialization_error) [
      | err e ↦ some (err e)
      | ok _ ↦ wake_loop os answers
    ]

unfoldable pub shutdown : EpollBackend → EpollBackend × VoidResult
shutdown b = if b.stopped then (b, ok tt) else (
  close_owned_descriptors (record b { stopped = true; fallback = (Virtual.shutdown b.fallback).0 }),
  ok tt,
)
