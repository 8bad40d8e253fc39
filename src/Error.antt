-- ===== src/Error.antt =====
-- include/voris/io/error.hpp and src/error.cpp: error codes, errors, and `std::expected` results.
-- The source location that an error carries is left out: no operation reads it.
pub mod Order
mod Tests
use Prim.Native.String.{String}
use Prim.Native.Nat.{compare, Ordering}
use vio.Prelude.{ℕ, Bool, true, false, ◌&&◌, Option, some, ltb, ◌==◌, if◌then◌else◌}
use vio.Prelude.Int.{ℤ, ltb_ℤ, eq_ℤ}

pub data VioErrorCode : Type 0 where
  none : VioErrorCode
  invalid_state cancelled deadline_exceeded resource_exhausted : VioErrorCode
  operation_in_progress closed backend_failure unsupported : VioErrorCode

-- The enumerator's `std::uint8_t`.
pub code_number : VioErrorCode → ℕ
code_number VioErrorCode.none = 0
code_number invalid_state = 1
code_number cancelled = 2
code_number deadline_exceeded = 3
code_number resource_exhausted = 4
code_number operation_in_progress = 5
code_number closed = 6
code_number backend_failure = 7
code_number unsupported = 8

pub to_string : VioErrorCode → String
to_string VioErrorCode.none = "none"
to_string invalid_state = "invalid_state"
to_string cancelled = "cancelled"
to_string deadline_exceeded = "deadline_exceeded"
to_string resource_exhausted = "resource_exhausted"
to_string operation_in_progress = "operation_in_progress"
to_string closed = "closed"
to_string backend_failure = "backend_failure"
to_string unsupported = "unsupported"

pub record VioError : Type 0 where
  pub classification : VioErrorCode
  pub provider_code : Option ℤ
  pub diagnostic : String

unfoldable pub make_error : VioErrorCode → String → VioError
make_error c d = record { classification = c; provider_code = Option.none; diagnostic = d }

unfoldable pub provider_error : VioErrorCode → ℤ → String → VioError
provider_error c p d = record { classification = c; provider_code = some p; diagnostic = d }

same_provider : Option ℤ → Option ℤ → Bool
same_provider Option.none Option.none = true
same_provider (some a) (some b) = eq_ℤ a b
same_provider _ _ = false

-- `operator==`: the diagnostic is not compared.
pub same_error : VioError → VioError → Bool
same_error a b =
    code_number a.classification == code_number b.classification
    && same_provider a.provider_code b.provider_code

-- `<=>` of `std::optional`: an empty one comes first.
compare_provider : Option ℤ → Option ℤ → Ordering
compare_provider Option.none Option.none = Ordering.eq
compare_provider Option.none (some b) = Ordering.lt
compare_provider (some a) Option.none = Ordering.gt
compare_provider (some a) (some b) =
    if ltb_ℤ a b then Ordering.lt else if eq_ℤ a b then Ordering.eq else Ordering.gt

-- `operator<=>`: by the code, then by the provider's code.
pub compare_error : VioError → VioError → Ordering
compare_error a b = elim (compare (code_number a.classification) (code_number b.classification)) [
  | Ordering.eq ↦ compare_provider a.provider_code b.provider_code
  | Ordering.lt ↦ Ordering.lt
  | Ordering.gt ↦ Ordering.gt
]

-- `io_result<T>`; `void_result` is `Result Unit`.
pub data Result {ℓ} (A : Type ℓ) : Type ℓ where
  ok : A → Result A
  err : VioError → Result A

abbrev pub VoidResult : Type 0
VoidResult = Result (Unit {0})

abbrev pub has_value {ℓ} : {A : Type ℓ} → Result A → Bool
has_value (ok a) = true
has_value (err e) = false
