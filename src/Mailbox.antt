-- ===== src/Mailbox.antt =====
-- include/voris/io/detail/mailbox.hpp: two bounded queues, of which the system one is served first.
pub mod Drain
mod Tests
use vio.Prelude.{ℕ, zero, suc, ◌+◌, Bool, true, false, Option, none, some, ltb, if◌then◌else◌}
use vio.Error.{VoidResult}
use vio.BoundedQueue
use vio.BoundedQueue.{BoundedQueue}
use vio.LoopBudget.{LoopBudgetSlice, consume_task, remaining_tasks}

-- `work` is `none` for an empty continuation; a time is a count of the steady clock's ticks.
pub record Message (W : Type 0) : Type 0 where
  pub work : Option W
  pub enqueued_at : ℕ

pub record Mailbox (W : Type 0) : Type 0 where
  pub queue : BoundedQueue (Message W)
  pub system_queue : BoundedQueue (Message W)

abbrev pub system_capacity_for : ℕ → ℕ
system_capacity_for user_capacity = user_capacity

module _ {W : Type 0} where
  unfoldable pub new : ℕ → Mailbox W
  new capacity = record {
    queue = BoundedQueue.new capacity;
    system_queue = BoundedQueue.new (system_capacity_for capacity);
  }

  abbrev make_message : Option W → ℕ → Message W
  make_message work now = record { work = work; enqueued_at = now }

  unfoldable pub submit : Mailbox W → Option W → ℕ → Mailbox W × VoidResult
  submit m work now =
      let (q, r) = BoundedQueue.try_push m.queue (make_message work now) in
      (record m { queue = q }, r)

  unfoldable pub submit_system : Mailbox W → Option W → ℕ → Mailbox W × VoidResult
  submit_system m work now =
      let (q, r) = BoundedQueue.try_push m.system_queue (make_message work now) in
      (record m { system_queue = q }, r)

  unfoldable pub pop_next : Mailbox W → Mailbox W × Option (Message W)
  pop_next m =
      let (sys, next) = BoundedQueue.pop m.system_queue in
      elim next [
        | some message ↦ (record m { system_queue = sys }, some message)
        | none ↦
            let (q, next) = BoundedQueue.pop m.queue in
            (record m { queue = q; system_queue = sys }, next)
      ]

  abbrev pub size : Mailbox W → ℕ
  size m = BoundedQueue.size m.queue + BoundedQueue.size m.system_queue

-- A thread's view: the mailbox, whatever else the program has, the slice that pays, and the count.
pub record Turn (W S : Type 0) : Type 0 where
  pub mailbox : Mailbox W
  pub world : S
  pub slice : LoopBudgetSlice
  pub ran : ℕ

-- Running a continuation is user code, which may submit to the mailbox: it is the parameter
-- `call`, over the mailbox and whatever else the program has.
module _ {W S : Type 0} (call : W → Mailbox W × S → Mailbox W × S) where
  pub run : Message W → Mailbox W × S → Mailbox W × S
  run message s = elim message.work [ none ↦ s | some work ↦ call work s ]

  unfoldable pub run_one : Mailbox W × S → (Mailbox W × S) × Bool
  unfolding run
  run_one (m, s) =
      let (m', next) = pop_next m in
      elim next [ none ↦ ((m', s), false) | some message ↦ (run message (m', s), true) ]

  -- The body of the loop of `run_for_budget`, once its test has passed.
  run_paid : Turn W S → Message W → Mailbox W → Turn W S
  run_paid t message m =
      let (m', s') = run message (m, t.world) in
      record { mailbox = m'; world = s'; slice = (consume_task t.slice).0; ran = suc t.ran }

  -- Each round uses a unit of the slice, so that `remaining_tasks` rounds of fuel are enough.
  run_for_budget_loop : ℕ → Turn W S → Turn W S
  run_for_budget_loop zero t = t
  run_for_budget_loop (suc fuel) t = elim (ltb 0 (remaining_tasks t.slice)) [
    | true ↦
        let (m, next) = pop_next t.mailbox in
        elim next [
          | none ↦ record t { mailbox = m }
          | some message ↦ run_for_budget_loop fuel (run_paid t message m)
        ]
    | false ↦ t
  ]

  pub run_for_budget : Mailbox W → S → LoopBudgetSlice → Turn W S
  unfolding run_for_budget_loop
  run_for_budget m s slice =
      run_for_budget_loop (remaining_tasks slice)
        (record { mailbox = m; world = s; slice = slice; ran = 0 })

  -- The loop of `run_until_idle`; `none` means that the fuel ran out.
  pub run_until_idle : ℕ → Mailbox W × S → ℕ → Option ((Mailbox W × S) × ℕ)
  run_until_idle zero s ran = none
  run_until_idle (suc fuel) s ran =
      let (s', more) = run_one s in
      elim more [ true ↦ run_until_idle fuel s' (suc ran) | false ↦ some (s', ran) ]
