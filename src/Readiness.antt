-- ===== src/Readiness.antt =====
-- src/backends_epoll_backend.cpp and src/backends_kqueue_backend.cpp, on the platforms that have them:
-- the two backends that wait for readiness and leave the rest to a virtual backend. What a system call
-- answers is an argument, and so are the platform's error numbers and event masks.
pub mod Cookie
pub mod Epoll
pub mod Kqueue
pub mod Undone
mod Tests
use vio.Prelude.{
  Bool, true, false, not, ◌||◌, ◌&&◌, Option, none, some, ltb, ◌==◌, if◌then◌else◌, ℕ, List, [],
  ◌∷◌,
}
use vio.Prelude.Int.{ℤ, eq_ℤ}
use vio.Error.{VioError, VoidResult, ok, err, make_error, provider_error, backend_failure, closed}

-- A system call succeeds, or fails with an `errno`.
pub data SysResult : Type 0 where
  success : SysResult
  failed : ℤ → SysResult

pub record Errno : Type 0 where
  pub eintr : ℤ
  pub eagain : ℤ
  pub ebadf : ℤ
  pub enoent : ℤ

abbrev pub provider_failure : ℤ → VioError
provider_failure provider_code = provider_error backend_failure provider_code ""

abbrev pub closed_error : VoidResult
closed_error = err (make_error closed "")

-- `std::numeric_limits<int>::max()`.
abbrev pub int_max : ℕ
int_max = 2147483647

abbrev pub initialization_result : Option VioError → VoidResult
initialization_result none = ok tt
initialization_result (some e) = err e
