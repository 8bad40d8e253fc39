-- ===== src/Readiness/Undone.antt =====
-- A registration that fails leaves no handle current that was not.
use vio.Prelude.{
  ℕ, ◌≡◌, refl, ◌||◌, Option, none, some, List, ◌==◌, ltb, arith, Option-cases, inl, inr, if_rule,
}
use vio.Error.{VioError, Result, VoidResult, ok, err}
use vio.Registry
use vio.Backend.Operation.{HandleToken}
use vio.Backend.Virtual
use vio.Backend.Virtual.{VirtualBackend}
use vio.Readiness.{SysResult, success, failed, Errno, int_max, initialization_result}
use vio.Readiness.Cookie.{pack_event_cookie, pack_kqueue_cookie}
use vio.Readiness.Epoll
use vio.Readiness.Epoll.{EpollBackend}
use vio.Readiness.Kqueue
use vio.Readiness.Kqueue.{KqueueBackend, ChangeAnswer}

-- The same tokens are current.
abbrev pub SameCurrent : VirtualBackend → VirtualBackend → Type 0
SameCurrent f g =
    (token : HandleToken) → Virtual.is_current_handle g token ≡ Virtual.is_current_handle f token

refused-SameCurrent :
    (f : VirtualBackend) (native_handle : ℕ) (e : VioError)
    → (Virtual.register_handle f native_handle).1 ≡ err e
    → SameCurrent f (Virtual.register_handle f native_handle).0
unfolding Virtual.register_handle Registry.register_handle Virtual.is_current_handle
    Registry.is_current
refused-SameCurrent f native_handle e h token =
    elim (Option-cases (f.registry.entries native_handle)) [
      | inl n ↦ ground arith
      | inr (entry, n) ↦ ground arith
    ]

undone-SameCurrent :
    (f : VirtualBackend) (native_handle : ℕ) (token : HandleToken)
    → (Virtual.register_handle f native_handle).1 ≡ ok token
    → SameCurrent f (Virtual.close_handle (Virtual.register_handle f native_handle).0 token).0
unfolding Virtual.register_handle Registry.register_handle Virtual.close_handle Registry.close
    Virtual.is_current_handle Registry.is_current
undone-SameCurrent f native_handle token h other =
    elim (Option-cases (f.registry.entries native_handle)) [
      | inl n ↦ ground arith
      | inr (entry, n) ↦ ground arith
    ]

-- Where the result is an error, the same tokens are current as in `f`.
abbrev pub UndoneIfError : VirtualBackend → VirtualBackend → Result HandleToken → Type 0
UndoneIfError f g (ok token) = Unit {0}
UndoneIfError f g (err e) = SameCurrent f g

abbrev pub EpollUndone : VirtualBackend → EpollBackend × Result HandleToken → Type 0
EpollUndone f (b, result) = UndoneIfError f b.fallback result

-- Where the answers end before the call does, nothing is asked.
abbrev pub KqueueUndone : VirtualBackend → Option (KqueueBackend × Result HandleToken) → Type 0
KqueueUndone f none = Unit {0}
KqueueUndone f (some (b, result)) = UndoneIfError f b.fallback result

epoll_registered :
    (f : VirtualBackend) (b : EpollBackend) (token : HandleToken) (cookie : Result ℕ)
    (ctl : SysResult)
    → SameCurrent f (Virtual.close_handle b.fallback token).0
    → EpollUndone f (Epoll.registered b token cookie ctl)
epoll_registered f b token (err e) ctl h = h
epoll_registered f b token (ok c) (failed e) h = h
epoll_registered f b token (ok c) success h = tt

epoll_register_in :
    (b : EpollBackend) (native_handle : ℕ) (result : Result HandleToken) (ctl : SysResult)
    → (Virtual.register_handle b.fallback native_handle).1 ≡ result
    → EpollUndone b.fallback
        (Epoll.register_in b ((Virtual.register_handle b.fallback native_handle).0, result) ctl)
epoll_register_in b native_handle (err e) ctl h = refused-SameCurrent b.fallback native_handle e h
epoll_register_in b native_handle (ok token) ctl h =
    epoll_registered b.fallback
      (record b { fallback = (Virtual.register_handle b.fallback native_handle).0 }) token
      (pack_event_cookie token) ctl (undone-SameCurrent b.fallback native_handle token h)

epoll_initialized :
    (b : EpollBackend) (native_handle : ℕ) (o : VoidResult) (ctl : SysResult)
    → EpollUndone b.fallback (elim o [
      | err e ↦ (b, err e)
      | ok _ ↦ Epoll.register_in b (Virtual.register_handle b.fallback native_handle) ctl
    ])
epoll_initialized b native_handle (err e) ctl = λ token. refl
epoll_initialized b native_handle (ok _) ctl =
    epoll_register_in b native_handle (Virtual.register_handle b.fallback native_handle).1 ctl refl

module _ (os : Errno) (f : VirtualBackend) where
  kqueue_read_deleted :
      (b : KqueueBackend) (token : HandleToken) (e : VioError)
      (answer : Option (VoidResult × List ChangeAnswer))
      → SameCurrent f (Virtual.close_handle b.fallback token).0
      → KqueueUndone f (Kqueue.read_deleted b token e answer)
  kqueue_read_deleted b token e none h = tt
  kqueue_read_deleted b token e (some _) h = h

  kqueue_write_added :
      (b : KqueueBackend) (token : HandleToken) (answer : Option (VoidResult × List ChangeAnswer))
      → SameCurrent f (Virtual.close_handle b.fallback token).0
      → KqueueUndone f (Kqueue.write_added os b token answer)
  kqueue_write_added b token none h = tt
  kqueue_write_added b token (some (ok _, rest)) h = tt
  kqueue_write_added b token (some (err e, rest)) h =
      kqueue_read_deleted b token e (Kqueue.delete_filter os rest) h

  kqueue_read_added :
      (b : KqueueBackend) (token : HandleToken) (answer : Option (VoidResult × List ChangeAnswer))
      → SameCurrent f (Virtual.close_handle b.fallback token).0
      → KqueueUndone f (Kqueue.read_added os b token answer)
  kqueue_read_added b token none h = tt
  kqueue_read_added b token (some (err e, rest)) h = h
  kqueue_read_added b token (some (ok _, rest)) h =
      kqueue_write_added b token (Kqueue.apply_filter_change os Kqueue.strict rest) h

  kqueue_filters :
      (b : KqueueBackend) (token : HandleToken) (cookie : Result ℕ) (answers : List ChangeAnswer)
      → SameCurrent f (Virtual.close_handle b.fallback token).0
      → KqueueUndone f (Kqueue.register_filters os b token cookie answers)
  kqueue_filters b token (err e) answers h = h
  kqueue_filters b token (ok cookie) answers h =
      kqueue_read_added b token (Kqueue.apply_filter_change os Kqueue.strict answers) h

kqueue_register_in :
    (os : Errno) (b : KqueueBackend) (native_handle : ℕ) (result : Result HandleToken)
    (answers : List ChangeAnswer)
    → (Virtual.register_handle b.fallback native_handle).1 ≡ result
    → KqueueUndone b.fallback (
        Kqueue.register_in os b
          ((Virtual.register_handle b.fallback native_handle).0, result)
          answers)
kqueue_register_in os b native_handle (err e) answers h =
    refused-SameCurrent b.fallback native_handle e h
kqueue_register_in os b native_handle (ok token) answers h =
    kqueue_filters os b.fallback
      (record b { fallback = (Virtual.register_handle b.fallback native_handle).0 }) token
      (pack_kqueue_cookie token) answers (undone-SameCurrent b.fallback native_handle token h)

kqueue_initialized :
    (os : Errno) (b : KqueueBackend) (native_handle : ℕ) (o : VoidResult)
    (answers : List ChangeAnswer)
    → KqueueUndone b.fallback (elim o [
      | err e ↦ some (b, err e)
      | ok _ ↦ Kqueue.register_in os b (Virtual.register_handle b.fallback native_handle) answers
    ])
kqueue_initialized os b native_handle (err e) answers = λ token. refl
kqueue_initialized os b native_handle (ok _) answers =
    kqueue_register_in os b native_handle (Virtual.register_handle b.fallback native_handle).1
      answers refl

-- Where `register_handle` of the epoll backend, or of the kqueue backend, returns an error, whatever the
-- system calls answer, the handles that are current are those that were current before the call.
pub failed_registration_undone :
    (os : Errno) (b : EpollBackend) (k : KqueueBackend) (native_handle : ℕ) (ctl : SysResult)
    (answers : List ChangeAnswer)
    → EpollUndone b.fallback (Epoll.register_handle b native_handle ctl)
      × KqueueUndone k.fallback (Kqueue.register_handle os k native_handle answers)
unfolding Epoll.register_handle Kqueue.register_handle
failed_registration_undone os b k native_handle ctl answers = (
  if_rule (λ (x : EpollBackend × Result HandleToken). EpollUndone b.fallback x) b.stopped
      (λ _ token. refl)
      (λ _.
        if_rule (λ (x : EpollBackend × Result HandleToken). EpollUndone b.fallback x)
          (native_handle == 0 || ltb int_max native_handle) (λ _ token. refl)
          (λ _.
            epoll_initialized b native_handle (initialization_result b.initialization_error) ctl)),
  if_rule (λ (x : Option (KqueueBackend × Result HandleToken)). KqueueUndone k.fallback x) k.stopped
      (λ _ token. refl)
      (λ _.
        if_rule (λ (x : Option (KqueueBackend × Result HandleToken)). KqueueUndone k.fallback x)
          (native_handle == 0 || ltb int_max native_handle) (λ _ token. refl)
          (λ _.
            kqueue_initialized os k native_handle (initialization_result k.initialization_error)
              answers)),
)
