-- ===== src/VirtualClock/Monotonic.antt =====
-- The virtual clock never moves backwards.
use vio.Prelude.{◌≡◌, ◌⊎◌, inl, inr, Bool-cases, true, some, List, [], ◌∷◌, arith}
use vio.Prelude.Int.{ℤ, pos, ◌+ℤ◌, ◌≤ℤ◌, ◌<ℤ◌, ltb_ℤ}
use vio.Deadline.{expired}
use vio.VirtualClock.{VirtualClock, advance_to, advance_by, sleep_until, sleep_for}

pub data ClockCall : Type 0 where
  to by until for_time : ℤ → ClockCall

pub step : VirtualClock → ClockCall → VirtualClock
step c (to t) = (advance_to c t).0
step c (by d) = (advance_by c d).0
step c (until t) = sleep_until c t
step c (for_time d) = sleep_for c d

pub run : VirtualClock → List ClockCall → VirtualClock
run c [] = c
run c (x ∷ xs) = run (step c x) xs

step-le : (c : VirtualClock) (x : ClockCall) → c.current ≤ℤ (step c x).current
unfolding step advance_to advance_by sleep_until sleep_for ◌+ℤ◌
step-le c (to t) = ground arith
step-le c (by d) = ground arith
step-le c (until t) = ground arith
step-le c (for_time d) = ground arith

-- Over any advances and sleeps, accepted or refused, the clock does not move backwards.
pub run-le : (c : VirtualClock) (xs : List ClockCall) → c.current ≤ℤ (run c xs).current
unfolding run
run-le c [] = omega arith
run-le c (x ∷ xs) = omega (arith, step-le c x, run-le (step c x) xs)

-- Sleeping until a time point expires the deadline at that point, and ends there unless the point had
-- passed; sleeping for a duration that is not negative moves the clock by just that duration, and for
-- a negative one not at all.
pub sleep_expires :
    (c : VirtualClock) (t : ℤ)
    → (expired (record { time = some t }) (sleep_until c t).current ≡ true)
      × (((sleep_until c t).current ≡ t) ⊎ ((t ≤ℤ c.current) × (sleep_until c t ≡ c)))
      × (((pos 0 ≤ℤ t) × ((sleep_for c t).current ≡ c.current +ℤ t))
          ⊎ ((t <ℤ pos 0) × (sleep_for c t ≡ c)))
unfolding expired sleep_until sleep_for advance_to advance_by ◌+ℤ◌
sleep_expires c t = (
  ground arith,
  elim (Bool-cases (ltb_ℤ c.current t)) [
    | inl e ↦ inl (ground arith)
    | inr e ↦ inr (ground arith, ground arith)
  ],
  elim (Bool-cases (ltb_ℤ t (pos 0))) [
    | inl e ↦ inr (ground arith, ground arith)
    | inr e ↦ inl (ground arith, ground arith)
  ],
)
