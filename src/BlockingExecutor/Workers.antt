-- ===== src/BlockingExecutor/Workers.antt =====
-- The workers of an executor as a list.
use vio.Prelude.{
  ℕ, zero, suc, ◌+◌, ◌≤◌, ◌≡◌, refl, ap, Bool, true, false, ◌||◌, List, [], ◌∷◌, length, count,
  arith,
}
use vio.BlockingExecutor.{
  Phase, waiting, running, exited, worker, set_worker, started, is_exited, all_exited,
}

abbrev pub ended : Phase → List ℕ
ended (running work) = work ∷ []
ended waiting = []
ended exited = []

-- How many workers run the work.
abbrev pub busy : ℕ → List Phase → ℕ
busy work [] = 0
busy work (p ∷ ps) = count work (ended p) + busy work ps

abbrev pub any_exited : List Phase → Bool
any_exited [] = false
any_exited (p ∷ ps) = is_exited p || any_exited ps

pub busy-set_worker :
    (work : ℕ) (ps : List Phase) (i : ℕ) (q p : Phase)
    → worker ps i ≡ p
    → is_exited p ≡ false
    → busy work (set_worker ps i q) + count work (ended p) ≡ busy work ps + count work (ended q)
busy-set_worker work [] i q p h live = ground arith
busy-set_worker work (r ∷ ps) zero q p h live = ground (arith, ap (λ x. count work (ended x)) h)
busy-set_worker work (r ∷ ps) (suc i) q p h live =
    ground (arith, busy-set_worker work ps i q p h live)

pub any_exited-set_worker :
    (ps : List Phase) (i : ℕ) (q : Phase)
    → is_exited q ≡ false
    → any_exited ps ≡ false
    → any_exited (set_worker ps i q) ≡ false
any_exited-set_worker [] i q h e = refl
any_exited-set_worker (r ∷ ps) zero q h e = ground arith
any_exited-set_worker (r ∷ ps) (suc i) q h e = ground (arith, any_exited-set_worker ps i q h)

pub length-set_worker :
    (ps : List Phase) (i : ℕ) (q : Phase) → length (set_worker ps i q) ≡ length ps
length-set_worker [] i q = refl
length-set_worker (r ∷ ps) zero q = refl
length-set_worker (r ∷ ps) (suc i) q = ground (arith, length-set_worker ps i q)

pub busy-all_exited : (work : ℕ) (ps : List Phase) → all_exited ps ≡ true → busy work ps ≡ 0
busy-all_exited work [] e = refl
busy-all_exited work (exited ∷ ps) e = ground (arith, busy-all_exited work ps e)
busy-all_exited work (waiting ∷ ps) e = ground arith
busy-all_exited work (running w ∷ ps) e = ground arith

pub any_exited-all_exited :
    (ps : List Phase) → 1 ≤ length ps → all_exited ps ≡ true → any_exited ps ≡ true
any_exited-all_exited [] h e = elim h [ ]
any_exited-all_exited (p ∷ ps) h e = ground arith

pub all_exited-set_worker :
    (ps : List Phase) (i : ℕ) (q p : Phase)
    → worker ps i ≡ p
    → is_exited p ≡ false
    → all_exited ps ≡ false
all_exited-set_worker [] i q p h live = ground (arith, ap is_exited h)
all_exited-set_worker (r ∷ ps) zero q p h live = ground (arith, ap is_exited h)
all_exited-set_worker (r ∷ ps) (suc i) q p h live =
    ground (arith, all_exited-set_worker ps i q p h live)

pub length-started : (n : ℕ) → length (started n) ≡ n
length-started zero = refl
length-started (suc n) = ground (arith, length-started n)

pub busy-started : (work n : ℕ) → busy work (started n) ≡ 0
busy-started work zero = refl
busy-started work (suc n) = ground (arith, busy-started work n)

pub any_exited-started : (n : ℕ) → any_exited (started n) ≡ false
any_exited-started zero = refl
any_exited-started (suc n) = any_exited-started n
