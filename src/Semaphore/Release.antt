-- ===== src/Semaphore/Release.antt =====
-- Releasing permits serves the queue, oldest first.
use mathlib.Core.List.{append_assoc, append-nil}
use vio.Prelude.{
  ℕ, zero, suc, ◌+◌, ◌-◌, ◌≤◌, ◌≡◌, refl, ◌∙◌, Bool, true, false, List, [], ◌∷◌, ◌++◌, length, min,
  size_max, keep, first, Bool-cases, inl, inr, arith,
}
use vio.Waiter.{Store, put, can_resume, prepared}
use vio.Semaphore.{World, grant, release_loop, release, close_one, close_loop, close}

module _ (accepts : ℕ → Bool) where
  can_resume-grant :
      (s : Store) (i j : ℕ) → can_resume ((grant accepts s i).waiter j) ≡ can_resume (s.waiter j)
  can_resume-grant s i j = ground arith

  can_resume-prepared :
      (s : Store) (i j : ℕ)
      → can_resume ((put s i (prepared (s.waiter i))).waiter j) ≡ can_resume (s.waiter j)
  can_resume-prepared s i j = ground arith

  release_loop-terminated :
      (queue : List ℕ) (n : ℕ) (s : Store)
      → (release_loop accepts queue n s).2.terminated ≡ false
      → s.terminated ≡ false
  unfolding release_loop
  release_loop-terminated [] n s e = e
  release_loop-terminated (i ∷ queue) zero s e = e
  release_loop-terminated (i ∷ queue) (suc n) s e = elim (Bool-cases (can_resume (s.waiter i))) [
    | inl can ↦ ground (arith, release_loop-terminated queue n (grant accepts s i))
    | inr not_ ↦
        ground (arith, release_loop-terminated queue (suc n) (put s i (prepared (s.waiter i))))
  ]

  -- With `can` the waiters that can resume: what the loop schedules, and the permits that it leaves.
  release_loop-first :
      (can : ℕ → Bool) (queue : List ℕ) (n : ℕ) (s : Store)
      → ((j : ℕ) → can_resume (s.waiter j) ≡ can j)
      → (release_loop accepts queue n s).2.terminated ≡ false
      → ((release_loop accepts queue n s).2.ready ≡ s.ready ++ first n (keep can queue))
        × ((release_loop accepts queue n s).0 ≡ n - length (keep can queue))
  unfolding release_loop
  release_loop-first can [] zero s c e = (ground (arith, append-nil s.ready), omega arith)
  release_loop-first can [] (suc n) s c e = (ground (arith, append-nil s.ready), omega arith)
  release_loop-first can (i ∷ queue) zero s c e = (ground (arith, append-nil s.ready), omega arith)
  release_loop-first can (i ∷ queue) (suc n) s c e = elim (Bool-cases (can i)) [
    | inl t ↦ ground (
      arith,
      c i,
      release_loop-terminated queue n (grant accepts s i),
      release_loop-first can queue n (grant accepts s i) (λ j. can_resume-grant s i j ∙ c j),
      append_assoc s.ready (i ∷ []) (first n (keep can queue)),
    )
    | inr f ↦ ground (
      arith,
      c i,
      release_loop-first can queue (suc n) (put s i (prepared (s.waiter i)))
          (λ j. can_resume-prepared s i j ∙ c j),
    )
  ]

-- Releasing permits on a live semaphore, where no scheduler refuses: the waiters that can resume are
-- scheduled in their order, as many as there are permits, and the permits that are left are added,
-- up to the largest number.
pub release_serves_oldest :
    (accepts : ℕ → Bool) (w : World) (n : ℕ)
    → w.semaphore.alive ≡ true
    → w.semaphore.permits ≤ size_max
    → (release accepts w n).store.terminated ≡ false
    → let waiting = keep (λ i. can_resume (w.store.waiter i)) w.semaphore.waiters in
      ((release accepts w n).store.ready ≡ w.store.ready ++ first n waiting)
      × ((release accepts w n).semaphore.permits
          ≡ min size_max (w.semaphore.permits + (n - length waiting)))
unfolding release
release_serves_oldest accepts w n a p e = ground (
  arith,
  append-nil w.store.ready,
  release_loop-first accepts (λ i. can_resume (w.store.waiter i)) w.semaphore.waiters n w.store
      (λ j. refl),
)

module _ (accepts : ℕ → Bool) where
  close_loop-terminated :
      (queue : List ℕ) (s : Store)
      → (close_loop accepts queue s).terminated ≡ false
      → s.terminated ≡ false
  unfolding close_loop
  close_loop-terminated [] s e = e
  close_loop-terminated (i ∷ queue) s e =
      ground (arith, close_loop-terminated queue (close_one accepts s i))

  can_resume-close :
      (s : Store) (i j : ℕ)
      → can_resume ((close_one accepts s i).waiter j) ≡ can_resume (s.waiter j)
  can_resume-close s i j = ground arith

  close_loop-keep :
      (can : ℕ → Bool) (queue : List ℕ) (s : Store)
      → ((j : ℕ) → can_resume (s.waiter j) ≡ can j)
      → (close_loop accepts queue s).terminated ≡ false
      → (close_loop accepts queue s).ready ≡ s.ready ++ keep can queue
  unfolding close_loop
  close_loop-keep can [] s c e = ground (arith, append-nil s.ready)
  close_loop-keep can (i ∷ queue) s c e = ground (
    arith,
    c i,
    close_loop-terminated queue (close_one accepts s i),
    close_loop-keep can queue (close_one accepts s i) (λ j. can_resume-close s i j ∙ c j),
    append_assoc s.ready (i ∷ []) (keep can queue),
  )

-- Destroying a semaphore, where no scheduler refuses, schedules every queued waiter that can resume,
-- in order, and leaves the semaphore dead, with nobody queued.
pub close_resumes_all :
    (accepts : ℕ → Bool) (w : World)
    → (close accepts w).store.terminated ≡ false
    → ((close accepts w).store.ready
        ≡ w.store.ready ++ keep (λ i. can_resume (w.store.waiter i)) w.semaphore.waiters)
      × ((close accepts w).semaphore.waiters ≡ [])
      × ((close accepts w).semaphore.alive ≡ false)
unfolding close
close_resumes_all accepts w e = (
  close_loop-keep accepts (λ i. can_resume (w.store.waiter i)) w.semaphore.waiters w.store
      (λ j. refl) e,
  refl,
  refl,
)
