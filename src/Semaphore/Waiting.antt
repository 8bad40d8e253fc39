-- ===== src/Semaphore/Waiting.antt =====
-- Nobody waits while there is a permit, and the queue stays bounded.
use vio.Prelude.{
  ℕ, zero, suc, ◌≤◌, ◌≡◌, ◌⊎◌, inl, inr, refl, Bool, false, Option, none, some, List, [], ◌∷◌,
  length, length-append, length-erase_first-le, Bool-cases, arith,
}
use vio.Waiter.{Store, put, can_resume, prepared}
use vio.Semaphore.{
  World, new, with_waiter, detached, try_acquire, acquire, try_complete_immediate, enqueue_waiter,
  await_suspend, await_resume, grant, release_loop, release, detach, close, resume_waiter,
}

-- What the holders of a semaphore, of its operations and of its schedulers may do.
pub data SemaphoreCall : Type 0 where
  tries closes : SemaphoreCall
  acquires readies observes detaches resumes releases : ℕ → SemaphoreCall
  suspends : ℕ → Option ℕ → SemaphoreCall

pub record IsServed (w : World) : Type 0 where
  pub idle : (w.semaphore.permits ≡ 0) ⊎ (length w.semaphore.waiters ≡ 0)
  pub bounded : length w.semaphore.waiters ≤ w.semaphore.max_waiters

try_complete_immediate-IsServed :
    (w : World) (i : ℕ) → IsServed w → IsServed (try_complete_immediate w i).0
unfolding try_complete_immediate
try_complete_immediate-IsServed w i v = ground arith

enqueue_waiter-IsServed :
    (w : World) (i scheduler : ℕ) → IsServed w → IsServed (enqueue_waiter w i scheduler).0
unfolding enqueue_waiter try_complete_immediate
enqueue_waiter-IsServed w i scheduler v = ground (arith, length-append w.semaphore.waiters (i ∷ []))

module _ (accepts : ℕ → Bool) where
  unfoldable pub step : World → SemaphoreCall → World
  step w tries = (try_acquire w).0
  step w closes = close accepts w
  step w (acquires i) = acquire w i
  step w (readies i) = (try_complete_immediate w i).0
  step w (observes i) = (await_resume w i).0
  step w (detaches i) = detach accepts w i
  step w (resumes i) = (resume_waiter w i).0
  step w (releases n) = release accepts w n
  step w (suspends i scheduler) = (await_suspend w i scheduler).0

  unfoldable pub run : World → List SemaphoreCall → World
  run w [] = w
  run w (c ∷ cs) = run (step w c) cs

  release_loop-idle :
      (queue : List ℕ) (n : ℕ) (s : Store)
      → let (remaining, rest, s') = release_loop accepts queue n s in
        ((remaining ≡ 0) ⊎ (length rest ≡ 0)) × (length rest ≤ length queue)
  unfolding release_loop
  release_loop-idle [] n s = (inr refl, omega arith)
  release_loop-idle (i ∷ queue) zero s = (inl refl, omega arith)
  release_loop-idle (i ∷ queue) (suc n) s = elim (Bool-cases (can_resume (s.waiter i))) [
    | inl can ↦ ground (arith, release_loop-idle queue n (grant accepts s i))
    | inr not_ ↦ ground (arith, release_loop-idle queue (suc n) (put s i (prepared (s.waiter i))))
  ]

  release-IsServed : (w : World) (n : ℕ) → IsServed w → IsServed (release accepts w n)
  unfolding release
  release-IsServed w n v = ground (arith, release_loop-idle w.semaphore.waiters n w.store)

  detach-IsServed : (w : World) (i : ℕ) → IsServed w → IsServed (detach accepts w i)
  unfolding detach
  detach-IsServed w i v =
      let w' = with_waiter w i (record (detached (w.store.waiter i)) { reserved = false }) in
      ground (
        arith,
        length-erase_first-le i w.semaphore.waiters,
        release-IsServed w' 1 (record { idle = v.idle; bounded = v.bounded }),
      )

  step-IsServed : (w : World) (c : SemaphoreCall) → IsServed w → IsServed (step w c)
  unfolding step
  step-IsServed w tries v = unfold try_acquire in ground arith
  step-IsServed w closes v = unfold close in ground arith
  step-IsServed w (acquires i) v = unfold acquire in record { idle = v.idle; bounded = v.bounded }
  step-IsServed w (readies i) v = try_complete_immediate-IsServed w i v
  step-IsServed w (observes i) v = unfold await_resume in ground arith
  step-IsServed w (detaches i) v = detach-IsServed w i v
  step-IsServed w (resumes i) v = unfold resume_waiter in ground arith
  step-IsServed w (releases n) v = release-IsServed w n v
  step-IsServed w (suspends i none) v = unfold await_suspend in ground arith
  step-IsServed w (suspends i (some scheduler)) v =
      unfold await_suspend in enqueue_waiter-IsServed w i scheduler v

  run-IsServed : (w : World) (cs : List SemaphoreCall) → IsServed w → IsServed (run w cs)
  unfolding run
  run-IsServed w [] v = v
  run-IsServed w (c ∷ cs) v = run-IsServed (step w c) cs (step-IsServed w c v)

-- From a new semaphore with any waiters in the store, after any calls in any order: nobody is queued
-- while a permit is available, and no more than `max_waiters` are queued.
pub run-new-IsServed :
    (accepts : ℕ → Bool) (permits max_waiters : ℕ) (store : Store) (cs : List SemaphoreCall)
    → IsServed (run accepts (record { semaphore = new permits max_waiters; store = store }) cs)
run-new-IsServed accepts permits max_waiters store cs =
    run-IsServed accepts _ cs (record { idle = inr refl; bounded = omega arith })
