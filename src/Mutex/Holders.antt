-- ===== src/Mutex/Holders.antt =====
-- A mutex that is used by any calls has one holder at most.
use vio.Prelude.{
  ℕ, ◌-◌, ◌≡◌, refl, Bool, true, false, none, List, [], ◌≤◌, ◌∷◌, ◌==◌, if◌then◌else◌, arith,
}
use vio.Waiter.{Store}
use vio.Mutex.{new, lock, try_complete_immediate, await_suspend, unlock}
use vio.Mutex.Exclusion.{
  Session, IsExclusive, MutexCall, tries, unlocks, locks, readies, observes, detaches, resumes,
  suspends, awaited, is_waiting, step, run, try_lock-IsExclusive, lock-IsExclusive,
  ready-IsExclusive, suspend-IsExclusive, observe-IsExclusive, resume-IsExclusive,
}
use vio.Mutex.Transfer.{unlock-IsExclusive, detach-IsExclusive}

at_most_one : (s : Session) → IsExclusive s → s.holders ≤ 1
at_most_one s v = ground (arith, v.one)

abbrev pub start : ℕ → Store → Session
start max_waiters store = record {
  world = record { mutex = new max_waiters; store = store };
  holders = 0;
  granted = none;
}

new-IsExclusive :
    (max_waiters : ℕ) (store : Store)
    → ((j : ℕ) → (store.waiter j).reserved ≡ false)
    → ((j : ℕ) → (store.waiter j).continuation ≡ false)
    → ((j : ℕ) → (store.waiter j).held ≡ false)
    → IsExclusive (start max_waiters store)
new-IsExclusive max_waiters store unreserved idle unheld = record {
  alive = refl;
  one = ground arith;
  matched = unreserved;
  kept = λ j h. ground (arith, unreserved j);
  waits = λ j h. ground (arith, idle j);
  told = λ j h. ground (arith, unheld j);
}

-- A guarded step.
keeps :
    (s t : Session) (b : Bool)
    → (b ≡ true → IsExclusive s)
    → (b ≡ false → IsExclusive t)
    → IsExclusive (if b then s else t)
keeps s t true p q = p refl
keeps s t false p q = q refl

module _ (accepts : ℕ → Bool) where
  step-IsExclusive : (s : Session) (c : MutexCall) → IsExclusive s → IsExclusive (step accepts s c)
  unfolding step
  step-IsExclusive s tries v = try_lock-IsExclusive s v
  step-IsExclusive s unlocks v =
      keeps s (record s { world = unlock accepts s.world; holders = s.holders - 1 })
        (s.holders == 0) (λ _. v) (λ h. unlock-IsExclusive accepts s v h)
  step-IsExclusive s (locks i) v =
      keeps s (record s { world = lock s.world i }) (s.world.store.waiter i).held (λ _. v)
        (λ h. lock-IsExclusive s v i h)
  step-IsExclusive s (readies i) v =
      keeps s (awaited s i (try_complete_immediate s.world i).0) (is_waiting s.world i) (λ _. v)
        (λ h. ready-IsExclusive s v i h)
  step-IsExclusive s (suspends i scheduler) v =
      keeps s (awaited s i (await_suspend s.world i scheduler).0) (is_waiting s.world i) (λ _. v)
        (λ h. suspend-IsExclusive s v i scheduler h)
  step-IsExclusive s (observes i) v = observe-IsExclusive s v i
  step-IsExclusive s (detaches i) v = detach-IsExclusive accepts s v i
  step-IsExclusive s (resumes i) v = resume-IsExclusive s v i

  run-IsExclusive :
      (cs : List MutexCall) (s : Session) → IsExclusive s → IsExclusive (run accepts s cs)
  unfolding run
  run-IsExclusive [] s v = v
  run-IsExclusive (c ∷ cs) s v = run-IsExclusive cs (step accepts s c) (step-IsExclusive s c v)

  -- A mutex that starts unlocked, in a store where no operation is alive, waits or has a reservation,
  -- has one holder at most after any calls: of the callers that `try_lock` or `await_resume` told that
  -- they hold it, no second one is told so before the first has unlocked it. An operation is awaited
  -- once, and only a holder unlocks.
  pub run_one_holder :
      (max_waiters : ℕ) (store : Store) (cs : List MutexCall)
      → ((j : ℕ) → (store.waiter j).reserved ≡ false)
      → ((j : ℕ) → (store.waiter j).continuation ≡ false)
      → ((j : ℕ) → (store.waiter j).held ≡ false)
      → (run accepts (start max_waiters store) cs).holders ≤ 1
  run_one_holder max_waiters store cs unreserved idle unheld =
      at_most_one (run accepts (start max_waiters store) cs) (
        run-IsExclusive cs (start max_waiters store)
          (new-IsExclusive max_waiters store unreserved idle unheld))
