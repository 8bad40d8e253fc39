-- ===== src/Mailbox/Drain.antt =====
-- How the mailbox is emptied: within the budget, and in which order.
use vio.Prelude.{◌+◌, ◌≤◌, ◌≡◌, ◌⊎◌, none, some, List, [], ◌∷◌, ◌++◌}
use vio.BoundedQueue
use vio.BoundedQueue.{BoundedQueue}
use vio.LoopBudget.{remaining_tasks}
use vio.Mailbox.{Mailbox, Message, Turn, pop_next}

abbrev pub IsEmpty : {W : Type 0} → Mailbox W → Type 0
IsEmpty m = (m.system_queue.items ≡ []) × (m.queue.items ≡ [])

module _ {W S : Type 0} (call : W → Mailbox W × S → Mailbox W × S) where
  -- What `run_for_budget` has done by the end: at most the slice's worth, all of it paid for, and it
  -- stops early only at an empty mailbox.
  pub record WithinBudget (before after : Turn W S) : Type 0 where
    pub paid : after.slice.consumed_tasks + before.ran ≡ before.slice.consumed_tasks + after.ran
    pub bounded : after.ran ≤ before.ran + remaining_tasks before.slice
    pub ended : (remaining_tasks after.slice ≡ 0) ⊎ IsEmpty after.mailbox

-- What is waiting, in the order in which it is served.
abbrev pub waiting : {W : Type 0} → Mailbox W → List (Message W)
waiting m = m.system_queue.items ++ m.queue.items

module _ {W S : Type 0} (call : W → Mailbox W × S → Mailbox W × S) where
  -- What handing over a message does: its continuation, if it has one, is called.
  abbrev pub served : Message W → Mailbox W × S → Mailbox W × S
  served message x = elim message.work [ none ↦ x | some w ↦ call w x ]

  -- Serving `messages` one after the other, each of which is the first that is waiting when it is taken
  -- out, leads to `after`, where the mailbox is empty.
  abbrev pub Drains : Mailbox W × S → List (Message W) → Mailbox W × S → Type 0
  Drains (m, s) [] after = (waiting m ≡ []) × IsEmpty after.0 × (after.1 ≡ s)
  Drains (m, s) (message ∷ messages) after =
      let m' = (pop_next m).0 in
      (waiting m ≡ message ∷ waiting m') × Drains (served message (m', s)) messages after
