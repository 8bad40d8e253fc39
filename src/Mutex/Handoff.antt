-- ===== src/Mutex/Handoff.antt =====
-- Unlocking serves the queue, oldest first.
use vio.Prelude.{
  ℕ, ◌≡◌, refl, Bool, true, false, Option, none, some, List, [], ◌∷◌, keep, tail, Bool-cases, inl,
  inr, arith,
}
use vio.Waiter.{can_resume, prepared}
use vio.Mutex.{World, transfer_loop, transfer_or_unlock, unlock, with_waiter}

-- The waiter that comes first in a queue, if there is one.
abbrev pub served : List ℕ → Option ℕ
served [] = none
served (i ∷ _) = some i

abbrev pub is_some : Option ℕ → Bool
is_some none = false
is_some (some i) = true

module _ (accepts : ℕ → Bool) where
  transfer_loop-keep :
      (can : ℕ → Bool) (queue : List ℕ) (w : World)
      → ((j : ℕ) → can_resume (w.store.waiter j) ≡ can j)
      → let after = transfer_loop accepts queue w in
        (after.mutex.handoff ≡ served (keep can queue))
        × (after.mutex.locked ≡ is_some (served (keep can queue)))
        × (keep can after.mutex.waiters ≡ tail (keep can queue))
  unfolding transfer_loop
  transfer_loop-keep can [] w c = (refl, refl, refl)
  transfer_loop-keep can (i ∷ queue) w c = elim (Bool-cases (can i)) [
    | inl t ↦ ground (arith, c i)
    | inr f ↦ ground (
      arith,
      c i,
      transfer_loop-keep can queue (with_waiter w i (prepared (w.store.waiter i)))
          (λ j. ground (arith, c i, c j)),
    )
  ]

-- Unlocking a live and locked mutex: the lock stays taken and is handed over to the oldest waiter
-- that can resume, and the others that can resume stay in the queue, in order; without such a waiter
-- the mutex is unlocked.
pub unlock_serves_oldest :
    (accepts : ℕ → Bool) (w : World)
    → w.mutex.alive ≡ true
    → w.mutex.locked ≡ true
    → let waiting = keep (λ i. can_resume (w.store.waiter i)) w.mutex.waiters in
      let after = unlock accepts w in
      (after.mutex.handoff ≡ served waiting)
      × (after.mutex.locked ≡ is_some (served waiting))
      × (keep (λ i. can_resume (w.store.waiter i)) after.mutex.waiters ≡ tail waiting)
unfolding unlock transfer_or_unlock
unlock_serves_oldest accepts w alive locked = ground (
  arith,
  transfer_loop-keep accepts (λ i. can_resume (w.store.waiter i)) w.mutex.waiters w (λ j. refl),
)
