-- ===== src/Readiness/Kqueue.antt =====
-- src/backends_kqueue_backend.cpp on the BSDs and macOS. Each method is one step on the record, with
-- what the system calls answer as arguments, in the order of the calls.
use vio.Prelude.{
  ℕ, suc, Bool, true, false, not, ◌&&◌, ◌||◌, Option, none, some, List, [], ◌∷◌, ltb, ◌==◌,
  if◌then◌else◌,
}
use vio.Prelude.Int.{ℤ, pos, eq_ℤ}
use vio.Error.{
  VioError, Result, VoidResult, ok, err, make_error, closed, invalid_state, backend_failure,
}
use vio.Backend.Operation.{Operation, HandleToken, Completion, read, write, is_socket_operation}
use vio.Backend.Virtual
use vio.Backend.Virtual.{VirtualBackend}
use vio.Readiness.{
  SysResult, success, failed, Errno, provider_failure, closed_error, int_max, initialization_result,
}
use vio.Readiness.Cookie.{pack_kqueue_cookie, unpack_event_cookie}

pub record KqueueBackend : Type 0 where
  pub fallback : VirtualBackend
  pub kqueue_fd : Bool
  pub stopped : Bool
  pub initialization_error : Option VioError

pub data ChangeErrorPolicy : Type 0 where
  strict cleanup : ChangeErrorPolicy

-- The answer of `kevent` to a change: an `errno`, or how many receipts came, and the receipt's
-- `EV_ERROR` flag and its data.
pub data ChangeAnswer : Type 0 where
  change_failed : ℤ → ChangeAnswer
  receipt : ℕ → Bool → ℤ → ChangeAnswer

unfoldable pub receipt_error : Errno → ℤ → ChangeErrorPolicy → VoidResult
receipt_error os provider_code strict = err (provider_failure provider_code)
receipt_error os provider_code cleanup =
    if eq_ℤ provider_code os.ebadf || eq_ℤ provider_code os.enoent
    then ok tt
    else err (provider_failure provider_code)

-- The loop of `apply_filter_change`: the result and the answers left; `none` where they end too early.
unfoldable pub apply_filter_change :
    Errno → ChangeErrorPolicy → List ChangeAnswer → Option (VoidResult × List ChangeAnswer)
apply_filter_change os policy [] = none
apply_filter_change os policy (change_failed e ∷ answers) =
    let retry = apply_filter_change os policy answers in
    if eq_ℤ e os.eintr then retry else some (receipt_error os e policy, answers)
apply_filter_change os policy (receipt received error_flag code ∷ answers) =
    if not (received == 1) || not error_flag
    then some
        (err (make_error backend_failure "kqueue did not return a filter-change receipt"), answers)
    else if eq_ℤ code (pos 0)
    then some (ok tt, answers)
    else some (receipt_error os code policy, answers)

abbrev pub delete_filter : Errno → List ChangeAnswer → Option (VoidResult × List ChangeAnswer)
delete_filter os answers = apply_filter_change os cleanup answers

-- A loop that calls again after `EINTR`, of `wake` and of both calls of `set_close_on_exec`; `none` where
-- the answers end too early.
unfoldable pub retry_loop : Errno → List SysResult → Option VoidResult
retry_loop os [] = none
retry_loop os (success ∷ answers) = some (ok tt)
retry_loop os (failed e ∷ answers) =
    let retry = retry_loop os answers in
    if eq_ℤ e os.eintr then retry else some (err (provider_failure e))

-- With the answers to reading the flags and to setting them.
unfoldable pub set_close_on_exec : Errno → List SysResult → List SysResult → Option VoidResult
set_close_on_exec os reads sets = elim (retry_loop os reads) [
  | none ↦ none
  | some (err e) ↦ some (err e)
  | some (ok _) ↦ retry_loop os sets
]

abbrev fresh : KqueueBackend
fresh = record {
  fallback = Virtual.new;
  kqueue_fd = false;
  stopped = false;
  initialization_error = none;
}

abbrev pub close_owned_descriptor : KqueueBackend → KqueueBackend
close_owned_descriptor b = record b { kqueue_fd = false }

-- The constructor, with the answer of `kqueue`, what `set_close_on_exec` returns, and the answers to
-- the change that adds the wake event.
unfoldable pub new : Errno → SysResult → VoidResult → List ChangeAnswer → Option KqueueBackend
new os (failed e) cloexec answers =
    some (record fresh { initialization_error = some (provider_failure e) })
new os success (err e) answers =
    some (close_owned_descriptor (record fresh { kqueue_fd = true; initialization_error = some e }))
new os success (ok _) answers = elim (apply_filter_change os strict answers) [
  | none ↦ none
  | some (err e, rest) ↦
      some
        (close_owned_descriptor (record fresh { kqueue_fd = true; initialization_error = some e }))
  | some (ok _, rest) ↦ some (record fresh { kqueue_fd = true })
]

abbrev pub undo : KqueueBackend → HandleToken → KqueueBackend
undo b token = record b { fallback = (Virtual.close_handle b.fallback token).0 }

-- The end of `register_handle` where the write filter was refused: the read filter is deleted.
abbrev pub read_deleted :
    KqueueBackend
    → HandleToken
    → VioError
    → Option (VoidResult × List ChangeAnswer)
    → Option (KqueueBackend × Result HandleToken)
read_deleted b token e none = none
read_deleted b token e (some _) = some (undo b token, err e)

-- `register_handle` after the change that adds the write filter.
abbrev pub write_added :
    Errno
    → KqueueBackend
    → HandleToken
    → Option (VoidResult × List ChangeAnswer)
    → Option (KqueueBackend × Result HandleToken)
write_added os b token none = none
write_added os b token (some (ok _, rest)) = some (b, ok token)
write_added os b token (some (err e, rest)) = read_deleted b token e (delete_filter os rest)

-- After the change that adds the read filter.
abbrev pub read_added :
    Errno
    → KqueueBackend
    → HandleToken
    → Option (VoidResult × List ChangeAnswer)
    → Option (KqueueBackend × Result HandleToken)
read_added os b token none = none
read_added os b token (some (err e, rest)) = some (undo b token, err e)
read_added os b token (some (ok _, rest)) =
    write_added os b token (apply_filter_change os strict rest)

abbrev pub register_filters :
    Errno
    → KqueueBackend
    → HandleToken
    → Result ℕ
    → List ChangeAnswer
    → Option (KqueueBackend × Result HandleToken)
register_filters os b token (err e) answers = some (undo b token, err e)
register_filters os b token (ok cookie) answers =
    read_added os b token (apply_filter_change os strict answers)

abbrev pub register_in :
    Errno
    → KqueueBackend
    → VirtualBackend × Result HandleToken
    → List ChangeAnswer
    → Option (KqueueBackend × Result HandleToken)
register_in os b (fallback, err e) answers = some (record b { fallback = fallback }, err e)
register_in os b (fallback, ok token) answers =
    register_filters os (record b { fallback = fallback }) token (pack_kqueue_cookie token) answers

unfoldable pub register_handle :
    Errno → KqueueBackend → ℕ → List ChangeAnswer → Option (KqueueBackend × Result HandleToken)
register_handle os b native_handle answers =
    if b.stopped
    then some (b, err (make_error closed ""))
    else if native_handle == 0 || ltb int_max native_handle
    then some (b, err (make_error invalid_state "native handle id must be a valid file descriptor"))
    else elim (initialization_result b.initialization_error) [
      | err e ↦ some (b, err e)
      | ok _ ↦ register_in os b (Virtual.register_handle b.fallback native_handle) answers
    ]

abbrev pub guarded {ℓ} : {A : Type ℓ} → KqueueBackend → (VoidResult → A) → A → A
guarded b stop next =
    if b.stopped
    then stop closed_error
    else elim (initialization_result b.initialization_error) [ err e ↦ stop (err e) | ok _ ↦ next ]

abbrev pub with_fallback : KqueueBackend → VirtualBackend × VoidResult → KqueueBackend × VoidResult
with_fallback b (fallback, result) = (record b { fallback = fallback }, result)

unfoldable pub submit : KqueueBackend → Operation → KqueueBackend × VoidResult
submit b operation =
    guarded b (λ r. (b, r))
      (if not (is_socket_operation operation)
        then (
          b,
          err (make_error invalid_state "kqueue backend accepts socket readiness operations only"),
        )
        else with_fallback b (Virtual.submit b.fallback operation))

unfoldable pub cancel : KqueueBackend → ℕ → KqueueBackend × VoidResult
cancel b operation_id =
    guarded b (λ r. (b, r)) (with_fallback b (Virtual.cancel b.fallback operation_id))

-- `close_handle` from the write filter on.
abbrev pub delete_write :
    Errno → KqueueBackend → HandleToken → List ChangeAnswer → Option (KqueueBackend × VoidResult)
delete_write os b token answers = elim (delete_filter os answers) [
  | none ↦ none
  | some (err e, rest) ↦ some (b, err e)
  | some (ok _, rest) ↦ some (with_fallback b (Virtual.close_handle b.fallback token))
]

abbrev pub delete_filters :
    Errno → KqueueBackend → HandleToken → List ChangeAnswer → Option (KqueueBackend × VoidResult)
delete_filters os b token answers = elim (delete_filter os answers) [
  | none ↦ none
  | some (err e, rest) ↦ some (b, err e)
  | some (ok _, rest) ↦ delete_write os b token rest
]

unfoldable pub close_handle :
    Errno → KqueueBackend → HandleToken → List ChangeAnswer → Option (KqueueBackend × VoidResult)
close_handle os b token answers =
    let stale = err (make_error invalid_state "backend handle token is not current") in
    guarded b (λ r. some (b, r))
      (if token.native_handle == 0
          || ltb int_max token.native_handle
          || not (Virtual.is_current_handle b.fallback token)
        then some (b, stale)
        else delete_filters os b token answers)

pub data Filter : Type 0 where
  evfilt_user evfilt_read evfilt_write evfilt_other : Filter

pub record KqueueEvent : Type 0 where
  pub filter : Filter
  pub is_wake_ident : Bool
  pub error_flag : Bool
  pub code : ℤ
  pub cookie : ℕ

-- The answer of `kevent` to a wait.
pub data WaitResult : Type 0 where
  ready : List KqueueEvent → WaitResult
  wait_failed : ℤ → WaitResult

abbrev pub is_wake : Filter → Bool → Bool
is_wake evfilt_user ident = ident
is_wake evfilt_read ident = false
is_wake evfilt_write ident = false
is_wake evfilt_other ident = false

abbrev pub complete_event : VirtualBackend → HandleToken → Filter → VirtualBackend × VoidResult
complete_event f token evfilt_read = Virtual.complete_ready f token read
complete_event f token evfilt_write = Virtual.complete_ready f token write
complete_event f token evfilt_user = (f, ok tt)
complete_event f token evfilt_other = (f, ok tt)

-- The loop of `poll` over the events.
unfoldable pub poll_loop : List KqueueEvent → VirtualBackend → ℕ → VirtualBackend × Result ℕ
poll_loop [] f observed = (f, ok observed)
poll_loop (event ∷ events) f observed =
    let token = unpack_event_cookie event.cookie in
    let woken = poll_loop events f (suc observed) in
    let skipped = poll_loop events f observed in
    if is_wake event.filter event.is_wake_ident
    then woken
    else if event.error_flag && not (eq_ℤ event.code (pos 0))
    then (f, err (provider_failure event.code))
    else elim (Virtual.is_current_handle f token) [
      | false ↦ skipped
      | true ↦
          let (f', completed) = complete_event f token event.filter in
          elim completed [ err e ↦ (f', err e) | ok _ ↦ poll_loop events f' (suc observed) ]
    ]

unfoldable pub poll : Errno → KqueueBackend → WaitResult → KqueueBackend × Result ℕ
poll os b waited = if b.stopped then (b, ok 0) else elim b.initialization_error [
  | some e ↦ (b, err e)
  | none ↦ elim waited [
    | wait_failed e ↦ if eq_ℤ e os.eintr then (b, ok 0) else (b, err (provider_failure e))
    | ready events ↦
        let (f, result) = poll_loop events b.fallback 0 in (record b { fallback = f }, result)
  ]
]

abbrev pub drain_completions : KqueueBackend → ℕ → KqueueBackend × Result (List Completion)
drain_completions b room =
    let (f, result) = Virtual.drain_completions b.fallback room in
    (record b { fallback = f }, result)

unfoldable pub wake : Errno → KqueueBackend → List SysResult → Option VoidResult
wake os b answers = guarded b some (retry_loop os answers)

unfoldable pub shutdown : KqueueBackend → KqueueBackend × VoidResult
shutdown b = if b.stopped then (b, ok tt) else (
  close_owned_descriptor (record b { stopped = true; fallback = (Virtual.shutdown b.fallback).0 }),
  ok tt,
)
