-- ===== src/Task/Tests.antt =====
-- A task that is awaited before it returns, and one that is awaited between its return and its end.
use vio.Prelude.{ℕ, ◌≡◌, ◌≤◌, ◌⊎◌, refl, false, true, some, List, [], ◌∷◌}
use vio.Error.{ok}
use vio.Task.{
  final_suspend, await_suspend, install_continuation, await_resume, take_result,
  resume_task_continuation,
}
use vio.Task.Awaited.{TaskEvent, returns, finishes, resumes, abandons, awaits, start, step, run}
use vio.Task.Resumed.{is_lost, resumed_with_outcome}

abbrev early : List (TaskEvent ℕ)
early = awaits 4 (some 9) true ∷ returns (ok 42) ∷ finishes ∷ resumes ∷ abandons ∷ []

abbrev between : List (TaskEvent ℕ)
between = returns (ok 42) ∷ awaits 4 (some 9) true ∷ finishes ∷ resumes ∷ []

-- The task completes after `await_ready` was asked.
abbrev race : List (TaskEvent ℕ)
race = returns (ok 42) ∷ finishes ∷ awaits 4 (some 9) false ∷ []

race_received : (run (start 9) race).received ≡ some (ok 42)
unfolding run step final_suspend await_suspend install_continuation await_resume take_result
race_received = refl

early_received : (run (start 9) early).received ≡ some (ok 42)
unfolding run step final_suspend await_suspend install_continuation await_resume take_result
    resume_task_continuation
early_received = refl

between_received : (run (start 9) between).received ≡ some (ok 42)
unfolding run step final_suspend await_suspend install_continuation await_resume take_result
    resume_task_continuation
between_received = refl

resumed_with_outcome_example :
    let s = run (start 9) early in
    (s.resumptions ≤ 1) × ((s.resumptions ≡ 0) ⊎ (s.received ≡ s.outcome)) × (is_lost s ≡ false)
resumed_with_outcome_example = resumed_with_outcome 9 early
