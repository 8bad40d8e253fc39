-- ===== src/Timer/Tests.antt =====
-- A heap with four timers, two of one deadline, of which one is cancelled.
use vio.Prelude.{ℕ, ◌≡◌, ◌&&◌, refl, some, none, List, [], ◌∷◌, map, arith, ◌==◌, if◌then◌else◌}
use vio.Prelude.Int.{pos, negsuc}
use vio.LoopBudget.{LoopBudgetSlice, consume_timer, remaining_timers}
use vio.Timer.{
  TimerHandle, new, add, cancel, valid, entry_less, swap_entries, sift_up, smallest_child,
  sift_down, repair_at, take_out, erase_at, put_last,
}
use vio.Timer.Pop.{
  pop_ready, pop_ready_for_budget, pop_deadline_batch, batch_size, next_ready, plan_loop,
  plan_ready_batches, pop_batches, pop_paid,
}
use vio.Timer.Index.{deadline_of}
use vio.Timer.Handed.{HandsOut}
use vio.Timer.Reached.{NoneReady}
use vio.Timer.Calls.{refers_to}
use vio.Timer.Run.{TimerCall, adds, cancels, step, run}
use vio.Timer.Due.{PopsWithin, pop_ready_in_order, add_and_cancel, pop_ready_within_budget}

abbrev calls : List TimerCall
calls = adds (pos 30) ∷ adds (pos 10) ∷ adds (negsuc 4) ∷ adds (pos 20) ∷ adds (pos 10) ∷ []

abbrev third : TimerHandle
third = record { owner_id = 7; id = 3 }

abbrev slice : LoopBudgetSlice
slice = record {
  budget = record { task_budget = 1; completion_budget = 1; timer_budget = 2 };
  consumed_tasks = 0;
  consumed_completions = 0;
  consumed_timers = 0;
}

abbrev ids : List TimerHandle → List ℕ
ids hs = map (λ h. h.id) hs

due : ids (pop_ready (run (new 7) (calls)) (pos 20)).1 ≡ 3 ∷ 2 ∷ 5 ∷ 4 ∷ []
unfolding run step add cancel valid pop_ready entry_less swap_entries sift_up smallest_child
    sift_down repair_at take_out erase_at put_last pop_deadline_batch batch_size next_ready
    plan_loop plan_ready_batches pop_batches
due = refl

paid :
    ids (pop_ready_for_budget (run (new 7) (cancels third ∷ calls)) (pos 30) slice).1
    ≡ 3 ∷ 2 ∷ 5 ∷ []
unfolding run step add cancel valid pop_ready_for_budget consume_timer remaining_timers pop_paid
    entry_less swap_entries sift_up smallest_child sift_down repair_at take_out erase_at put_last
    pop_deadline_batch batch_size next_ready plan_loop plan_ready_batches pop_batches
paid = refl

pop_ready_in_order_example :
    let t = run (new 7) calls in
    HandsOut 7
      (pos 20)
      (deadline_of t)
      (pop_ready t (pos 20)).1
      (deadline_of (pop_ready t (pos 20)).0)
    × NoneReady (pos 20) (pop_ready t (pos 20)).0
pop_ready_in_order_example = pop_ready_in_order 7 calls (pos 20) (omega arith)

add_and_cancel_example :
    let t = run (new 7) calls in
    let (u, added) = add t (pos 15) in
    let (w, done) = cancel t third in
    (deadline_of t added.id ≡ none)
    × ((j : ℕ) → deadline_of u j ≡ (if added.id == j then some (pos 15) else deadline_of t j))
    × (done ≡ refers_to t third)
    × ((j : ℕ) → deadline_of w j ≡ (if done && third.id == j then none else deadline_of t j))
add_and_cancel_example = add_and_cancel 7 calls (pos 15) third (omega arith)

pop_ready_within_budget_example :
    let t = run (new 7) calls in
    PopsWithin 7 (pos 30) t slice (pop_ready_for_budget t (pos 30) slice)
pop_ready_within_budget_example = pop_ready_within_budget 7 calls (pos 30) slice (omega arith)
