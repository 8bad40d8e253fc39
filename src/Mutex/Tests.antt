-- ===== src/Mutex/Tests.antt =====
-- A mutex that is locked and for which two operations wait.
use vio.Prelude.{◌≡◌, ◌≤◌, ◌++◌, refl, true, false, some, List, [], ◌∷◌, keep, tail}
use vio.Waiter.{Store, fresh_waiter, can_resume}
use vio.Mutex.{
  World, try_lock, lock, try_complete_immediate, await_suspend, await_resume, enqueue_waiter,
  unlock, transfer_or_unlock, transfer_loop, resume_waiter,
}
use vio.Mutex.Exclusion.{MutexCall, tries, unlocks, locks, observes, resumes, suspends, step, run}
use vio.Mutex.Holders.{start, run_one_holder}
use vio.Mutex.Handoff.{served, is_some, unlock_serves_oldest}

abbrev idle : Store
idle = record { waiter = λ _. record fresh_waiter { held = false }; ready = []; terminated = false }

abbrev calls : List MutexCall
calls = tries ∷ locks 0 ∷ suspends 0 (some 9) ∷ locks 1 ∷ suspends 1 (some 9) ∷ []

abbrev waiting : World
waiting = (run (λ _. true) (start 2 idle) calls).world

waiting_queue : waiting.mutex.waiters ≡ 0 ∷ 1 ∷ []
unfolding run step lock try_lock try_complete_immediate await_suspend enqueue_waiter
waiting_queue = refl

passed_on :
    (run
      (λ _. true)
      (start 2 idle)
      (calls ++ unlocks ∷ tries ∷ resumes 0 ∷ observes 0 ∷ [])).holders
    ≡ 1
unfolding run step lock try_lock try_complete_immediate await_suspend enqueue_waiter unlock
    transfer_or_unlock transfer_loop resume_waiter await_resume
passed_on = refl

run_one_holder_example :
    (run
      (λ _. true)
      (start 2 idle)
      (calls ++ unlocks ∷ tries ∷ resumes 0 ∷ observes 0 ∷ [])).holders
    ≤ 1
run_one_holder_example =
    run_one_holder (λ _. true) 2 idle (calls ++ unlocks ∷ tries ∷ resumes 0 ∷ observes 0 ∷ [])
      (λ _. refl) (λ _. refl) (λ _. refl)

unlock_serves_oldest_example :
    ((unlock (λ _. true) waiting).mutex.handoff
      ≡ served (keep (λ i. can_resume (waiting.store.waiter i)) waiting.mutex.waiters))
    × ((unlock (λ _. true) waiting).mutex.locked
        ≡ is_some (served (keep (λ i. can_resume (waiting.store.waiter i)) waiting.mutex.waiters)))
    × (keep (λ i. can_resume (waiting.store.waiter i)) (unlock (λ _. true) waiting).mutex.waiters
        ≡ tail (keep (λ i. can_resume (waiting.store.waiter i)) waiting.mutex.waiters))
unfolding run step lock try_lock try_complete_immediate await_suspend enqueue_waiter
unlock_serves_oldest_example = unlock_serves_oldest (λ _. true) waiting refl refl
