-- ===== src/Semaphore/Tests.antt =====
-- A semaphore with one permit, and three operations of which the first gets the permit and the others
-- wait.
use vio.Prelude.{
  ◌≡◌, ◌++◌, ◌-◌, ◌+◌, min, refl, true, false, some, List, [], ◌∷◌, length, size_max, keep, first,
  arith,
}
use vio.Waiter.{Store, fresh_waiter, can_resume}
use vio.Semaphore.{
  World, new, acquire, try_complete_immediate, await_suspend, enqueue_waiter, release, release_loop,
  close, close_loop,
}
use vio.Semaphore.Release.{release_serves_oldest, close_resumes_all}
use vio.Semaphore.Waiting.{
  SemaphoreCall, closes, acquires, readies, observes, detaches, resumes, releases, suspends,
  IsServed, step, run, run-new-IsServed,
}

abbrev idle : Store
idle = record { waiter = λ _. record fresh_waiter { held = false }; ready = []; terminated = false }

abbrev calls : List SemaphoreCall
calls =
    acquires 0
    ∷ readies 0
    ∷ acquires 1
    ∷ suspends 1 (some 9)
    ∷ acquires 2
    ∷ suspends 2 (some 9)
    ∷ []

abbrev waiting : World
waiting = run (λ _. true) (record { semaphore = new 1 2; store = idle }) calls

waiting_queue : waiting.semaphore.waiters ≡ 1 ∷ 2 ∷ []
unfolding run step acquire try_complete_immediate await_suspend enqueue_waiter
waiting_queue = refl

release_serves_oldest_example :
    ((release (λ _. true) waiting 1).store.ready
      ≡ waiting.store.ready
        ++ first 1 (keep (λ i. can_resume (waiting.store.waiter i)) waiting.semaphore.waiters))
    × ((release (λ _. true) waiting 1).semaphore.permits
        ≡ min size_max (
            waiting.semaphore.permits
            + (1
                - length
                    (keep (λ i. can_resume (waiting.store.waiter i)) waiting.semaphore.waiters))))
unfolding run step acquire try_complete_immediate await_suspend enqueue_waiter release release_loop
release_serves_oldest_example = release_serves_oldest (λ _. true) waiting 1 refl (omega arith) refl

close_resumes_all_example :
    ((close (λ _. true) waiting).store.ready
      ≡ waiting.store.ready
        ++ keep (λ i. can_resume (waiting.store.waiter i)) waiting.semaphore.waiters)
    × ((close (λ _. true) waiting).semaphore.waiters ≡ [])
    × ((close (λ _. true) waiting).semaphore.alive ≡ false)
unfolding run step acquire try_complete_immediate await_suspend enqueue_waiter close close_loop
close_resumes_all_example = close_resumes_all (λ _. true) waiting refl

run-new-IsServed_example : IsServed (
    run
      (λ _. true)
      (record { semaphore = new 1 2; store = idle })
      (calls ++ releases 1 ∷ resumes 1 ∷ observes 1 ∷ detaches 2 ∷ closes ∷ []))
run-new-IsServed_example =
    run-new-IsServed (λ _. true) 1 2 idle
      (calls ++ releases 1 ∷ resumes 1 ∷ observes 1 ∷ detaches 2 ∷ closes ∷ [])
