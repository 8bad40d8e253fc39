-- ===== src/Timer/Pop.antt =====
-- Handing out timers: `pop_ready` of include/voris/io/timer.hpp and src/timer.cpp, with what it calls.
use vio.Prelude.{
  ℕ, zero, suc, ◌+◌, Bool, true, not, ◌&&◌, ◌||◌, Option, none, some, List, [], ◌∷◌, ◌++◌, ◌==◌,
  if◌then◌else◌,
}
use vio.Prelude.Int.{ℤ, ltb_ℤ, leb_ℤ, eq_ℤ}
use vio.LoopBudget.{LoopBudgetSlice, consume_timer, remaining_timers}
use vio.Timer.{TimerHeap, TimerHandle, erase_at}

-- The loop of `pop_deadline_batch`: each round takes an entry out, so that the size is fuel enough.
-- The handles that it appends are the result.
unfoldable pub batch_loop : ℕ → TimerHeap → ℤ → TimerHeap × List TimerHandle
batch_loop zero t deadline = (t, [])
batch_loop (suc fuel) t deadline =
    let handle : TimerHandle = record { owner_id = t.owner_id; id = (t.entries 0).id } in
    let rest = batch_loop fuel (erase_at t 0) deadline in
    if t.size == 0 || not (eq_ℤ (t.entries 0).deadline deadline)
    then (t, [])
    else (rest.0, handle ∷ rest.1)

unfoldable pub pop_deadline_batch : TimerHeap → ℤ → TimerHeap × List TimerHandle
unfolding batch_loop
pop_deadline_batch t deadline = batch_loop t.size t deadline

-- The loop of `current_deadline_batch_size` over the first `n` entries.
unfoldable pub batch_size : TimerHeap → ℤ → ℕ → ℕ
batch_size t deadline zero = 0
batch_size t deadline (suc n) =
    let count = batch_size t deadline n in
    if eq_ℤ (t.entries n).deadline deadline then suc count else count

abbrev pub is_earlier : ℤ → Option ℤ → Bool
is_earlier d none = true
is_earlier d (some e) = ltb_ℤ d e

-- The loop of `next_ready_deadline_after` over the first `n` entries.
unfoldable pub next_ready : TimerHeap → ℤ → ℤ → ℕ → Option ℤ
next_ready t deadline now zero = none
next_ready t deadline now (suc n) =
    let next = next_ready t deadline now n in
    let d = (t.entries n).deadline in
    if ltb_ℤ deadline d && leb_ℤ d now && is_earlier d next then some d else next

pub record ReadyBatchPlan : Type 0 where
  pub batch_count : ℕ
  pub timer_count : ℕ

abbrev pub empty_plan : ReadyBatchPlan
empty_plan = record { batch_count = 0; timer_count = 0 }

-- The loop breaks where there is no next deadline.
abbrev pub plan_from : (ℤ → ReadyBatchPlan) → Option ℤ → ReadyBatchPlan
plan_from plan none = empty_plan
plan_from plan (some next) = plan next

-- The rest of the loop of `plan_ready_batches`, with the batches that the limit leaves.
unfoldable pub plan_loop : ℕ → TimerHeap → ℤ → ℤ → ReadyBatchPlan
plan_loop zero t now deadline = empty_plan
plan_loop (suc left) t now deadline =
    let size = batch_size t deadline t.size in
    let rest = plan_from (plan_loop left t now) (next_ready t deadline now t.size) in
    if size == 0
    then empty_plan
    else record { batch_count = suc rest.batch_count; timer_count = size + rest.timer_count }

unfoldable pub plan_ready_batches : TimerHeap → ℤ → ℕ → ReadyBatchPlan
plan_ready_batches t now max_batches =
    if max_batches == 0 || t.size == 0 || ltb_ℤ now (t.entries 0).deadline
    then empty_plan
    else plan_loop max_batches t now (t.entries 0).deadline

-- The loop of `pop_ready` over the batches of the plan.
unfoldable pub pop_batches : ℕ → TimerHeap → TimerHeap × List TimerHandle
pop_batches zero t = (t, [])
pop_batches (suc k) t =
    let (t', batch) = pop_deadline_batch t (t.entries 0).deadline in
    let (t'', rest) = pop_batches k t' in (t'', batch ++ rest)

unfoldable pub pop_ready : TimerHeap → ℤ → TimerHeap × List TimerHandle
pop_ready t now = pop_batches (plan_ready_batches t now t.size).batch_count t

-- The loop of the other `pop_ready`, which pays for each batch.
unfoldable pub pop_paid :
    ℕ → TimerHeap → LoopBudgetSlice → TimerHeap × List TimerHandle × LoopBudgetSlice
pop_paid zero t slice = (t, [], slice)
pop_paid (suc k) t slice =
    let (slice', paid) = consume_timer slice in
    let (t', batch) = pop_deadline_batch t (t.entries 0).deadline in
    let (t'', rest, slice'') = pop_paid k t' slice' in
    if not paid then (t, [], slice') else (t'', batch ++ rest, slice'')

unfoldable pub pop_ready_for_budget :
    TimerHeap → ℤ → LoopBudgetSlice → TimerHeap × List TimerHandle × LoopBudgetSlice
pop_ready_for_budget t now slice =
    pop_paid (plan_ready_batches t now (remaining_timers slice)).batch_count t slice
