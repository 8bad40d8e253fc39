-- ===== src/Error/Tests.antt =====
-- Errors of one code with and without a provider's code.
use Prim.Native.Nat.{Ordering}
use vio.Prelude.{◌≡◌, ◌↔◌, true}
use vio.Prelude.Int.{negsuc}
use vio.Error.{make_error, provider_error, backend_failure, same_error, compare_error}
use vio.Error.Order.{compare_error_laws}

compare_error_laws_example :
    let a = make_error backend_failure "a" in
    let b = provider_error backend_failure (negsuc 3) "b" in
    ((compare_error a b ≡ Ordering.eq) ↔ (same_error a b ≡ true))
    × ((compare_error a b ≡ Ordering.lt) ↔ (compare_error b a ≡ Ordering.gt))
compare_error_laws_example =
    compare_error_laws (make_error backend_failure "a")
      (provider_error backend_failure (negsuc 3) "b")
