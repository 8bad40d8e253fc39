-- ===== src/Timer/Paid.antt =====
-- Handing out timers within a budget.
use vio.Prelude.{ℕ, zero, suc, ◌+◌, ◌≤◌, ◌≡◌, arith}
use vio.Prelude.Int.{ℤ}
use vio.LoopBudget.{LoopBudgetSlice, consume_timer, remaining_timers}
use vio.Timer.{TimerHeap}
use vio.Timer.Pop.{
  pop_deadline_batch, plan_ready_batches, pop_batches, pop_paid, pop_ready_for_budget,
}
use vio.Timer.Erase.{IsTimers}
use vio.Timer.Ready.{planned-IsPopped}

-- A slice with `k` timer units less.
abbrev pub after_timers : LoopBudgetSlice → ℕ → LoopBudgetSlice
after_timers slice k = record slice { consumed_timers = slice.consumed_timers + k }

pop_paid-pop_batches :
    (k : ℕ) (t : TimerHeap) (slice : LoopBudgetSlice)
    → k ≤ remaining_timers slice
    → pop_paid k t slice ≡ ((pop_batches k t).0, (pop_batches k t).1, after_timers slice k)
unfolding pop_paid pop_batches remaining_timers consume_timer
pop_paid-pop_batches zero t slice h = ground arith
pop_paid-pop_batches (suc k) t slice h =
    let t' = (pop_deadline_batch t (t.entries 0).deadline).0 in
    ground (arith, pop_paid-pop_batches k t' (after_timers slice 1))

-- The plan for a budget is paid for in full.
pub paid_batches :
    (now : ℤ) (t : TimerHeap) (slice : LoopBudgetSlice)
    → IsTimers t
    → let units = (plan_ready_batches t now (remaining_timers slice)).batch_count in
      pop_ready_for_budget t now slice
      ≡ ((pop_batches units t).0, (pop_batches units t).1, after_timers slice units)
unfolding pop_ready_for_budget
paid_batches now t slice v =
    let units = (plan_ready_batches t now (remaining_timers slice)).batch_count in
    pop_paid-pop_batches units t slice (planned-IsPopped (remaining_timers slice) now t v).within
