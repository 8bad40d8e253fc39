-- ===== src/Prelude/Lists.antt =====
-- Lists measured and counted by native numbers, under the library's names.
use Prim.Native.Nat.{ℕ, zero, suc, ◌+◌, ◌≤◌}
use mathlib.Core.Path.{◌≡◌, refl}
use mathlib.Core.Bool.{Bool, true, false, ◌||◌}
use mathlib.Core.List.{List, [], ◌∷◌, ◌++◌}
use native.Mathlib.Omega.{arith}
use vio.Prelude.Tests.{◌==◌, if◌then◌else◌}

module _ {ℓ} {A : Type ℓ} where
  abbrev pub length : List A → ℕ
  length [] = 0
  length (x ∷ xs) = suc (length xs)

  pub length-append : (xs ys : List A) → length (xs ++ ys) ≡ length xs + length ys
  length-append [] ys = omega arith
  length-append (x ∷ xs) ys = omega (arith, length-append xs ys)

  abbrev pub is_empty : List A → Bool
  is_empty [] = true
  is_empty (x ∷ xs) = false

  abbrev pub All {κ} : (A → Type κ) → List A → Type κ
  All P [] = Unit
  All P (x ∷ xs) = P x × All P xs

-- How many places of a list hold the number `n`.
abbrev pub count : ℕ → List ℕ → ℕ
count n [] = zero
count n (y ∷ ys) = let later = count n ys in if y == n then suc later else later

pub count-append :
    (n : ℕ) (front back : List ℕ) → count n (front ++ back) ≡ count n back + count n front
count-append n [] back = omega arith
count-append n (y ∷ front) back = ground (arith, count-append n front back)

-- Sets and identifiers: membership, and `std::remove` of all the places that hold a number.
abbrev pub contains : ℕ → List ℕ → Bool
contains id [] = false
contains id (x ∷ xs) = x == id || contains id xs

unfoldable pub erase : ℕ → List ℕ → List ℕ
erase id [] = []
erase id (x ∷ xs) = let rest = erase id xs in if x == id then rest else x ∷ rest

pub contains-count : (id : ℕ) (ids : List ℕ) → contains id ids ≡ false → count id ids ≡ 0
contains-count id [] e = refl
contains-count id (x ∷ ids) e = ground (arith, contains-count id ids)

pub count-erase :
    (id j : ℕ) (ids : List ℕ) → count id (erase j ids) ≡ (if j == id then 0 else count id ids)
unfolding erase
count-erase id j [] = ground arith
count-erase id j (x ∷ ids) = ground (arith, count-erase id j ids)

-- The first place that holds a number leaves the list.
unfoldable pub erase_first : ℕ → List ℕ → List ℕ
erase_first id [] = []
erase_first id (x ∷ xs) = let rest = erase_first id xs in if x == id then xs else x ∷ rest

pub length-erase_first-le : (id : ℕ) (xs : List ℕ) → length (erase_first id xs) ≤ length xs
unfolding erase_first
length-erase_first-le id [] = omega arith
length-erase_first-le id (x ∷ xs) = ground (arith, length-erase_first-le id xs)

-- The items on which a test holds, and the first few items.
abbrev pub keep {ℓ} : {A : Type ℓ} → (A → Bool) → List A → List A
keep test [] = []
keep test (x ∷ xs) = let rest = keep test xs in if test x then x ∷ rest else rest

abbrev pub first {ℓ} : {A : Type ℓ} → ℕ → List A → List A
first zero xs = []
first (suc n) [] = []
first (suc n) (x ∷ xs) = x ∷ first n xs

abbrev pub tail {ℓ} : {A : Type ℓ} → List A → List A
tail [] = []
tail (x ∷ xs) = xs
