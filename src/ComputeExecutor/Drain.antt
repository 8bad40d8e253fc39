-- ===== src/ComputeExecutor/Drain.antt =====
-- Running an executor until it is idle, with continuations that may submit more.
use vio.Prelude.{
  ℕ, zero, suc, ◌≤◌, ◌<◌, ◌≡◌, refl, ap, subst, subst⁻¹, Bool, true, List, [], ◌∷◌, ◌++◌, length,
  size_max, arith, inc,
}
use mathlib.Core.List.{append_assoc}
use vio.ComputeExecutor.{Executor, take_front, run_until_idle}

-- An executor without the first continuation of its queue.
abbrev pub taken_off : Executor → List ℕ → Executor
taken_off e queue = record e { queue = queue; capacity_waiters = 0 }

module _ {S : Type 0} (runs : Executor × S → ℕ → Executor × S) where
  -- Running `works` one after the other, each of which is the oldest in the queue when it is taken off,
  -- leads to `after`, where the queue is empty.
  abbrev pub RunsAll : Executor × S → List ℕ → Executor × S → Type 0
  RunsAll (e, s) [] after = (e.queue ≡ []) × (after ≡ (e, s))
  RunsAll (e, s) (work ∷ works) after =
      (queue : List ℕ) × (e.queue ≡ work ∷ queue)
      × RunsAll (runs (taken_off e queue, s) work) works after

  run_until_idle-nil :
      (fuel : ℕ) (e : Executor) (s : S)
      → e.queue ≡ []
      → run_until_idle runs (suc fuel) (e, s) ≡ ((e, s), true, 0)
  unfolding run_until_idle
  run_until_idle-nil fuel e s h = ground (arith, ap (take_front e) h)

  -- A round counts one continuation, whatever the rest of the loop answers with.
  abbrev counted : (Executor × S) × Bool × ℕ → (Executor × S) × Bool × ℕ
  counted (after, done, ran) = (after, done, inc ran)

  run_until_idle-cons :
      (fuel : ℕ) (e : Executor) (s : S) (work : ℕ) (queue : List ℕ)
      → e.queue ≡ work ∷ queue
      → run_until_idle runs (suc fuel) (e, s)
        ≡ counted (run_until_idle runs fuel (runs (taken_off e queue, s) work))
  unfolding run_until_idle
  run_until_idle-cons fuel e s work queue h = ground (arith, ap (take_front e) h)

-- What a continuation adds to the queue is `adds`, and `rank` bounds what is left to do.
module _ {S : Type 0} (runs : Executor × S → ℕ → Executor × S) (adds : Executor × S → ℕ → List ℕ)
    (rank : Executor × S → ℕ)
    (appends : (e : Executor) (s : S) (work : ℕ)
      → (runs (e, s) work).0.queue ≡ e.queue ++ adds (e, s) work)
    (falls : (e : Executor) (s : S) (work : ℕ) (queue : List ℕ)
      → e.queue ≡ work ∷ queue
      → rank (runs (taken_off e queue, s) work) < rank (e, s)) where
  -- What `run_until_idle` has done by the end, when `queue` was queued.
  abbrev Drained : Executor × S → List ℕ → (Executor × S) × Bool × ℕ → Type 0
  Drained x queue (after, done, ran) =
      (later : List ℕ) × (done ≡ true)
      × RunsAll runs x (queue ++ later) after
      × (ran ≡ length (queue ++ later))
      × (length (queue ++ later) ≤ rank x)

  counted-Drained :
      (e : Executor) (s : S) (work : ℕ) (queue : List ℕ) (r : (Executor × S) × Bool × ℕ)
      → e.queue ≡ work ∷ queue
      → rank (e, s) ≤ size_max
      → Drained (runs (taken_off e queue, s) work) (queue ++ adds (taken_off e queue, s) work) r
      → Drained (e, s) (work ∷ queue) (counted runs r)
  counted-Drained e s work queue r h small (later, done, all, ran, short) =
      let x : Executor × S = (taken_off e queue, s) in
      let same = append_assoc queue (adds x work) later in
      (
        adds x work ++ later,
        done,
        (queue, h, subst (λ works. RunsAll runs (runs x work) works r.0) same all),
        omega (arith, ran, short, falls e s work queue h, ap length same),
        omega (arith, short, falls e s work queue h, ap length same),
      )

  run_until_idle-Drained :
      (fuel : ℕ) (e : Executor) (s : S) (queue : List ℕ)
      → e.queue ≡ queue
      → rank (e, s) < fuel
      → rank (e, s) ≤ size_max
      → Drained (e, s) queue (run_until_idle runs fuel (e, s))
  run_until_idle-Drained zero e s queue h enough small = elim enough [ ]
  run_until_idle-Drained (suc fuel) e s [] h enough small =
      subst⁻¹ (Drained (e, s) []) (run_until_idle-nil runs fuel e s h)
        ([], refl, (h, refl), refl, omega arith)
  run_until_idle-Drained (suc fuel) e s (work ∷ queue) h enough small =
      let x : Executor × S = (taken_off e queue, s) in
      let y = runs x work in
      let less = falls e s work queue h in
      subst⁻¹ (Drained (e, s) (work ∷ queue)) (run_until_idle-cons runs fuel e s work queue h) (
        counted-Drained e s work queue (run_until_idle runs fuel y) h small (
          run_until_idle-Drained fuel y.0 y.1 (queue ++ adds x work)
            (appends (taken_off e queue) s work) (omega (arith, less, enough))
            (omega (arith, less, small))))

-- Running an executor until it is idle, with continuations that may add work at the end of the queue,
-- while what is left to do, as a rank that a counter holds, falls with each: with fuel for more rounds
-- than the rank, the loop ends at an empty queue; until then each continuation was run when it was the
-- oldest in the queue, those that were queued at the start first and in their order; and the answer is
-- how many were run.
pub run_until_idle_drains :
    {S : Type 0} (runs : Executor × S → ℕ → Executor × S) (adds : Executor × S → ℕ → List ℕ)
    (rank : Executor × S → ℕ)
    → ((e : Executor) (s : S) (work : ℕ) → (runs (e, s) work).0.queue ≡ e.queue ++ adds (e, s) work)
    → ((e : Executor) (s : S) (work : ℕ) (queue : List ℕ)
        → e.queue ≡ work ∷ queue
        → rank (runs (taken_off e queue, s) work) < rank (e, s))
    → (fuel : ℕ) (e : Executor) (s : S) → rank (e, s) < fuel
    → rank (e, s) ≤ size_max
    → let (after, done, ran) = run_until_idle runs fuel (e, s) in
      (later : List ℕ) × (done ≡ true)
      × RunsAll runs (e, s) (e.queue ++ later) after
      × (ran ≡ length (e.queue ++ later))
run_until_idle_drains runs adds rank appends falls fuel e s enough small =
    let d =
      run_until_idle-Drained runs adds rank appends falls fuel e s e.queue refl enough small in
    (d.0, d.1, d.2, d.3)
