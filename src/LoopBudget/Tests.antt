-- ===== src/LoopBudget/Tests.antt =====
-- A slice of two tasks, one completion and no timer left.
use vio.Prelude.{◌≡◌, List, [], ◌∷◌, min}
use vio.LoopBudget.{LoopBudgetSlice}
use vio.LoopBudget.Consume.{
  Work, task, completion, timer, grants, asked, remaining_work, grants-eq-min,
}

abbrev slice : LoopBudgetSlice
slice = record {
  budget = record { task_budget = 3; completion_budget = 1; timer_budget = 2 };
  consumed_tasks = 1;
  consumed_completions = 0;
  consumed_timers = 2;
}

abbrev requests : List Work
requests = task ∷ timer ∷ task ∷ completion ∷ task ∷ []

grants-eq-min_example :
    grants task slice requests ≡ min (asked task requests) (remaining_work slice task)
grants-eq-min_example = grants-eq-min task slice requests
