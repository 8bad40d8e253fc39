-- ===== src/Shard.antt =====
-- include/voris/io/shard.hpp, src/shard.cpp, include/voris/io/runtime_metrics.hpp. What holds the
-- lifecycle mutex is one step, and so is what holds the mutex of the metrics. Times are counts of the
-- steady clock's nanoseconds.
pub mod Worker
pub mod Invariant
pub mod Thread
pub mod Awake
mod Tests
use vio.Prelude.{
  ℕ, zero, suc, ◌-◌, Bool, true, false, not, Option, none, some, ltb, ◌==◌, if◌then◌else◌, inc,
}
use vio.Prelude.Int.{ℤ, pos, ltb_ℤ}
use vio.Error.{VioError, Result, VoidResult, ok, err, make_error, invalid_state, has_value}
use vio.LoopBudget.{LoopBudget, LoopBudgetSlice, create, consume_task, remaining_tasks}
use vio.Mailbox
use vio.Mailbox.{Mailbox, Message}
use vio.Wakeup
use vio.Wakeup.{BackendWakeup}

pub record RuntimeMetrics : Type 0 where
  pub submitted_tasks : ℕ
  pub completed_tasks : ℕ
  pub queue_depth : ℕ
  pub long_tasks : ℕ
  pub scheduler_lag : ℕ

pub record Shard (W : Type 0) : Type 0 where
  pub mailbox : Mailbox W
  pub budget : LoopBudget
  pub long_task_threshold : ℤ
  pub wakeup : BackendWakeup
  pub metrics : RuntimeMetrics
  pub loop_error : Option VioError
  pub running : Bool
  pub stop_requested : Bool

abbrev no_metrics : RuntimeMetrics
no_metrics = record {
  submitted_tasks = 0;
  completed_tasks = 0;
  queue_depth = 0;
  long_tasks = 0;
  scheduler_lag = 0;
}

-- When a message begins to run, when its continuation is called, and when that returns.
pub record RunTimes : Type 0 where
  pub run_started : ℕ
  pub task_started : ℕ
  pub task_ended : ℕ

module _ {W : Type 0} where
  unfoldable pub new : ℕ → LoopBudget → ℤ → Shard W
  new queue_limit budget threshold = record {
    mailbox = Mailbox.new queue_limit;
    budget = budget;
    long_task_threshold = threshold;
    wakeup = Wakeup.new;
    metrics = no_metrics;
    loop_error = none;
    running = false;
    stop_requested = false;
  }

  -- The metrics after a submission.
  abbrev pub submitted : Shard W → Mailbox W × VoidResult → Shard W × VoidResult
  submitted s (m, result) =
      let counted =
        (if has_value result then inc s.metrics.submitted_tasks else s.metrics.submitted_tasks) in
      (
        record s {
          mailbox = m;
          metrics = record s.metrics { queue_depth = Mailbox.size m; submitted_tasks = counted };
        },
        result,
      )

  -- The part of `submit` that holds the lifecycle mutex.
  unfoldable pub submit_locked : Shard W → W → ℕ → Shard W × VoidResult
  submit_locked s work now =
      if s.stop_requested
      then (s, err (make_error invalid_state "shard is stopped"))
      else submitted s (Mailbox.submit s.mailbox (some work) now)

  unfoldable pub submit_system_locked : Shard W → W → ℕ → Shard W × VoidResult
  submit_system_locked s work now =
      if s.stop_requested
      then (s, err (make_error invalid_state "shard is stopped"))
      else submitted s (Mailbox.submit_system s.mailbox (some work) now)

  abbrev pub wake : Shard W → Shard W
  wake s = record s { wakeup = Wakeup.wake s.wakeup }

  abbrev wake_accepted : Shard W × VoidResult → Shard W × VoidResult
  wake_accepted (s, result) = (if has_value result then wake s else s, result)

  -- An empty continuation is `none`.
  unfoldable pub submit : Shard W → Option W → ℕ → Shard W × VoidResult
  submit s none now = (s, err (make_error invalid_state ""))
  submit s (some work) now = wake_accepted (submit_locked s work now)

  unfoldable pub submit_system : Shard W → Option W → ℕ → Shard W × VoidResult
  submit_system s none now = (s, err (make_error invalid_state ""))
  submit_system s (some work) now = wake_accepted (submit_system_locked s work now)

  abbrev pub enqueue : Shard W → Option W → ℕ → Shard W × VoidResult
  enqueue s next now = submit s next now

  abbrev pub observe_depth : Shard W → Shard W
  observe_depth s = record s { metrics = record s.metrics { queue_depth = Mailbox.size s.mailbox } }

  -- `run_queued_message` before it calls the continuation. A lag below 0 changes nothing.
  abbrev pub message_started : Shard W → Message W → RunTimes → Shard W
  message_started s message times =
      let lag = times.run_started - message.enqueued_at in
      let seen = observe_depth s in
      record seen {
        metrics = record seen.metrics {
          scheduler_lag = if ltb s.metrics.scheduler_lag lag then lag else s.metrics.scheduler_lag;
        };
      }

  abbrev task_duration : Message W → RunTimes → ℕ
  task_duration message times = elim message.work [
    | none ↦ 0
    | some _ ↦ times.task_ended - times.task_started
  ]

  -- And after it.
  abbrev pub message_finished : Shard W → Message W → RunTimes → Shard W
  message_finished s message times =
      let is_long = ltb_ℤ s.long_task_threshold (pos (task_duration message times)) in
      record s {
        metrics = record s.metrics {
          completed_tasks = inc s.metrics.completed_tasks;
          long_tasks = if is_long then inc s.metrics.long_tasks else s.metrics.long_tasks;
        };
      }

  -- `start` with a thread that runs `run_loop`: whether it starts one.
  unfoldable pub start : Shard W → Shard W × Bool
  start s =
      if s.running
      then (s, false)
      else (record s { running = true; loop_error = none; stop_requested = false }, true)

  -- The part of `request_stop` that holds the mutex.
  abbrev pub stop_locked : Shard W → Shard W
  stop_locked s = record s { stop_requested = true }

  abbrev pub request_stop : Shard W → Shard W
  request_stop s = wake (stop_locked s)

  -- `join`, once the thread has returned.
  abbrev pub join : Shard W → Shard W
  join s = record s { running = false }

-- A shard in the hands of one thread: `call` is what a continuation does when it runs, over the shard
-- and whatever else the program has, and `times` is when the n-th message runs.
module _ {W S : Type 0} (call : W → Shard W × S → Shard W × S) (times : ℕ → RunTimes) where
  abbrev run_work : Option W → Shard W × S → Shard W × S
  run_work none t = t
  run_work (some work) t = call work t

  unfoldable pub run_queued_message : Message W → ℕ → Shard W × S → Shard W × S
  run_queued_message message ran (s, world) =
      let (s', world') = run_work message.work (message_started s message (times ran), world) in
      (message_finished s' message (times ran), world')

  unfoldable pub run_one_queued_message : ℕ → Shard W × S → (Shard W × S) × Bool
  run_one_queued_message ran (s, world) =
      let (m, next) = Mailbox.pop_next s.mailbox in
      let popped = record s { mailbox = m } in
      elim next [
        | none ↦ ((observe_depth popped, world), false)
        | some message ↦ (run_queued_message message ran (popped, world), true)
      ]

  -- The loop of `drain`; `none` where the fuel is not enough.
  unfoldable pub drain : ℕ → Shard W × S → ℕ → Option ((Shard W × S) × ℕ)
  drain zero t ran = none
  drain (suc fuel) t ran =
      let (t', more) = run_one_queued_message ran t in
      elim more [ true ↦ drain fuel t' (suc ran) | false ↦ some (t', ran) ]

  -- The loop of `run_one_loop_iteration`, with the slice's units as fuel.
  unfoldable pub iteration_loop : ℕ → LoopBudgetSlice → Shard W × S → ℕ → (Shard W × S) × ℕ
  iteration_loop zero slice t ran = (t, ran)
  iteration_loop (suc fuel) slice t ran = elim (ltb 0 (remaining_tasks slice)) [
    | false ↦ (t, ran)
    | true ↦
        let (m, next) = Mailbox.pop_next t.0.mailbox in
        let popped = record t.0 { mailbox = m } in
        elim next [
          | none ↦ ((popped, t.1), ran)
          | some message ↦
              iteration_loop fuel (consume_task slice).0
                (run_queued_message message ran (popped, t.1)) (suc ran)
        ]
  ]

  unfoldable pub run_one_loop_iteration : Shard W × S → (Shard W × S) × Result ℕ
  run_one_loop_iteration t = elim (create t.0.budget) [
    | err e ↦ (t, err e)
    | ok slice ↦ let (t', ran) = iteration_loop (remaining_tasks slice) slice t 0 in (t', ok ran)
  ]
