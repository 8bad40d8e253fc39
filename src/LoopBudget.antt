-- ===== src/LoopBudget.antt =====
-- include/voris/io/loop_budget.hpp: the limits on one turn of an event loop.
pub mod Consume
mod Tests
use vio.Prelude.{ℕ, suc, ◌-◌, Bool, true, false, ◌||◌, leb, ◌==◌, if◌then◌else◌}
use vio.Error.{Result, VoidResult, ok, err, make_error, invalid_state}

pub record LoopBudget : Type 0 where
  pub task_budget : ℕ
  pub completion_budget : ℕ
  pub timer_budget : ℕ

unfoldable pub validate : LoopBudget → VoidResult
validate b =
    if b.task_budget == 0 || b.completion_budget == 0 || b.timer_budget == 0
    then err (
        make_error invalid_state "loop budgets require non-zero task, completion, and timer limits")
    else ok tt

pub record LoopBudgetSlice : Type 0 where
  pub budget : LoopBudget
  pub consumed_tasks : ℕ
  pub consumed_completions : ℕ
  pub consumed_timers : ℕ

unfoldable pub create : LoopBudget → Result LoopBudgetSlice
create budget = elim (validate budget) [
  | ok _ ↦ ok (record {
    budget = budget;
    consumed_tasks = 0;
    consumed_completions = 0;
    consumed_timers = 0;
  })
  | err e ↦ err e
]

-- The new counter, and whether a unit was left. The increment stays below the limit.
unfoldable pub consume : ℕ → ℕ → ℕ × Bool
consume limit consumed = if leb limit consumed then (consumed, false) else (suc consumed, true)

unfoldable pub remaining : ℕ → ℕ → ℕ
remaining limit consumed = if leb limit consumed then 0 else limit - consumed

unfoldable pub consume_task : LoopBudgetSlice → LoopBudgetSlice × Bool
unfolding consume
consume_task s =
    let (n, done) = consume s.budget.task_budget s.consumed_tasks in
    (record s { consumed_tasks = n }, done)

unfoldable pub consume_completion : LoopBudgetSlice → LoopBudgetSlice × Bool
unfolding consume
consume_completion s =
    let (n, done) = consume s.budget.completion_budget s.consumed_completions in
    (record s { consumed_completions = n }, done)

unfoldable pub consume_timer : LoopBudgetSlice → LoopBudgetSlice × Bool
unfolding consume
consume_timer s =
    let (n, done) = consume s.budget.timer_budget s.consumed_timers in
    (record s { consumed_timers = n }, done)

unfoldable pub remaining_tasks : LoopBudgetSlice → ℕ
unfolding remaining
remaining_tasks s = remaining s.budget.task_budget s.consumed_tasks

unfoldable pub remaining_completions : LoopBudgetSlice → ℕ
unfolding remaining
remaining_completions s = remaining s.budget.completion_budget s.consumed_completions

unfoldable pub remaining_timers : LoopBudgetSlice → ℕ
unfolding remaining
remaining_timers s = remaining s.budget.timer_budget s.consumed_timers
