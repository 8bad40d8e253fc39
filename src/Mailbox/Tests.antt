-- ===== src/Mailbox/Tests.antt =====
-- A mailbox with two user messages and a system message; a continuation is a number that is added.
use vio.Prelude.{ℕ, zero, suc, ◌+◌, ◌*◌, ◌≡◌, refl, Option, none, some, [], ◌∷◌, length}
use vio.BoundedQueue
use vio.LoopBudget.{LoopBudgetSlice}
use vio.Mailbox.{Mailbox, Message, submit, pop_next, run_one, run_until_idle}
use vio.Mailbox.Drain.{waiting}

abbrev message : ℕ → Message ℕ
message n = record { work = some n; enqueued_at = 0 }

abbrev loaded : Mailbox ℕ
loaded = record {
  queue = record { capacity = 4; items = message 3 ∷ message 4 ∷ []; capacity_waiters = 0 };
  system_queue = record { capacity = 4; items = message 1 ∷ []; capacity_waiters = 0 };
}

abbrev add : ℕ → ℕ → ℕ
add n s = s * 10 + n

-- A continuation that leaves the mailbox alone.
abbrev calmly : (ℕ → ℕ → ℕ) → ℕ → Mailbox ℕ × ℕ → Mailbox ℕ × ℕ
calmly effect w (m, s) = (m, effect w s)

abbrev slice : LoopBudgetSlice
slice = record {
  budget = record { task_budget = 2; completion_budget = 1; timer_budget = 1 };
  consumed_tasks = 0;
  consumed_completions = 0;
  consumed_timers = 0;
}

-- A continuation notes its number; while there is credit, it spends one and submits a message.
abbrev replies : ℕ → Mailbox ℕ × (ℕ × ℕ) → Mailbox ℕ × (ℕ × ℕ)
replies n (m, (log, zero)) = (m, (add n log, 0))
replies n (m, (log, suc credit)) = ((submit m (some 9) 0).0, (add n log, credit))

abbrev rank : Mailbox ℕ × (ℕ × ℕ) → ℕ
rank (m, (log, credit)) = length (waiting m) + 2 * credit

abbrev answer : Option ((Mailbox ℕ × (ℕ × ℕ)) × ℕ) → ℕ × ℕ
answer none = (0, 0)
answer (some (after, ran)) = (after.1.0, ran)

served_in_order : answer (run_until_idle replies 6 (loaded, (0, 1)) 0) ≡ (1349, 4)
unfolding run_until_idle run_one pop_next submit BoundedQueue.pop BoundedQueue.try_push
served_in_order = refl
