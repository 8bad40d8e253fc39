-- ===== src/Readiness/Tests.antt =====
-- A token packed and unpacked, and registrations that the operating system refuses.
use vio.Prelude.{
  ◌+◌, ◌*◌, ◌<◌, ◌≡◌, ◌≢◌, refl, true, none, some, Option, false, List, [], ◌∷◌, arith, size_mod,
}
use vio.Prelude.Int.{pos}
use vio.Error.{Result, ok, err}
use vio.Registry
use vio.Backend.Operation.{HandleToken}
use vio.Backend.Virtual
use vio.Readiness.{Errno, failed, provider_failure}
use vio.Readiness.Cookie.{
  half, pack_event_cookie, pack_kqueue_cookie, unpack_event_cookie, wake_event_cookie, unpack-pack,
}
use vio.Readiness.Epoll
use vio.Readiness.Epoll.{EpollBackend}
use vio.Readiness.Kqueue
use vio.Readiness.Kqueue.{KqueueBackend, ChangeAnswer, receipt, change_failed}
use vio.Readiness.Undone.{EpollUndone, KqueueUndone, failed_registration_undone}

abbrev os : Errno
os = record { eintr = pos 4; eagain = pos 11; ebadf = pos 9; enoent = pos 2 }

abbrev epoll : EpollBackend
epoll = record {
  fallback = Virtual.new;
  epoll_fd = true;
  wake_fd = true;
  stopped = false;
  initialization_error = none;
}

abbrev kqueue : KqueueBackend
kqueue = record {
  fallback = Virtual.new;
  kqueue_fd = true;
  stopped = false;
  initialization_error = none;
}

-- The read filter is added at the second call, the write filter is refused, the read filter deleted.
abbrev answers : List ChangeAnswer
answers =
    change_failed (pos 4)
    ∷ receipt 1 true (pos 0)
    ∷ receipt 1 true (pos 22)
    ∷ receipt 1 true (pos 0)
    ∷ []

abbrev token : HandleToken
token = record { native_handle = 7; generation = 3 }

unpack-pack_example :
    (unpack_event_cookie (3 * half + 7) ≡ token)
    × (3 * half + 7 < size_mod)
    × (3 * half + 7 ≢ wake_event_cookie)
    × (pack_kqueue_cookie token ≡ ok (3 * half + 7))
unfolding pack_event_cookie
unpack-pack_example = unpack-pack token (3 * half + 7) refl (omega arith)

abbrev result_of : Option (KqueueBackend × Result HandleToken) → Option (Result HandleToken)
result_of none = none
result_of (some (b, result)) = some result

kqueue_refused :
    result_of (Kqueue.register_handle os kqueue 7 answers) ≡ some (err (provider_failure (pos 22)))
unfolding Kqueue.register_handle Virtual.register_handle Virtual.new Registry.register_handle
    Kqueue.apply_filter_change Kqueue.receipt_error pack_kqueue_cookie Registry.empty
kqueue_refused = refl

failed_registration_undone_example :
    EpollUndone epoll.fallback (Epoll.register_handle epoll 7 (failed (pos 1)))
    × KqueueUndone kqueue.fallback (Kqueue.register_handle os kqueue 7 answers)
failed_registration_undone_example =
    failed_registration_undone os epoll kqueue 7 (failed (pos 1)) answers
