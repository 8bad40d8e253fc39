-- ===== src/Error/Order.antt =====
-- The comparisons of errors.
use Prim.Native.Nat.{Ordering}
use vio.Prelude.{◌≡◌, ◌↔◌, true, Option, arith}
use vio.Prelude.Int.{ℤ}
use vio.Error.{VioError, same_error, compare_error, same_provider, compare_provider}

compare_provider_laws :
    (a b c : Option ℤ)
    → ((compare_provider a b ≡ Ordering.eq) ↔ (same_provider a b ≡ true))
      × ((compare_provider a b ≡ Ordering.lt) ↔ (compare_provider b a ≡ Ordering.gt))
      × (compare_provider a b ≡ Ordering.lt
          → compare_provider b c ≡ Ordering.lt
          → compare_provider a c ≡ Ordering.lt)
unfolding compare_provider same_provider
compare_provider_laws a b c = (
  (λ e. ground arith, λ e. ground arith),
  (λ e. ground arith, λ e. ground arith),
  λ e f. ground arith,
)

-- Two errors compare equal exactly if `==` holds of them, and exchanging them exchanges less and
-- greater.
pub compare_error_laws :
    (a b : VioError)
    → ((compare_error a b ≡ Ordering.eq) ↔ (same_error a b ≡ true))
      × ((compare_error a b ≡ Ordering.lt) ↔ (compare_error b a ≡ Ordering.gt))
unfolding compare_error same_error
compare_error_laws a b =
    let laws = compare_provider_laws a.provider_code b.provider_code b.provider_code in
    (
      (λ e. ground (arith, laws), λ e. ground (arith, laws)),
      (λ e. ground (arith, laws), λ e. ground (arith, laws)),
    )

-- The order of errors is transitive.
pub compare_error_trans :
    (a b c : VioError)
    → compare_error a b ≡ Ordering.lt
    → compare_error b c ≡ Ordering.lt
    → compare_error a c ≡ Ordering.lt
unfolding compare_error
compare_error_trans a b c e f =
    ground (arith, compare_provider_laws a.provider_code b.provider_code c.provider_code)
