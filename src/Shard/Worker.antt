-- ===== src/Shard/Worker.antt =====
-- The thread that runs `run_loop`, and what other threads and the continuations do meanwhile.
use vio.Prelude.{ℕ, suc, ◌-◌, true, Option, none, some, List, [], ◌∷◌, ltb, ◌==◌, if◌then◌else◌}
use vio.Error.{VioError, Result, VoidResult, ok, err}
use vio.LoopBudget.{LoopBudgetSlice, create, consume_task, remaining_tasks}
use vio.Mailbox
use vio.Mailbox.{Mailbox, Message}
use vio.Wakeup
use vio.Shard.{
  Shard, RunTimes, submit_locked, submit_system_locked, wake, stop_locked, observe_depth,
  message_started, message_finished,
}

-- The two loops that run messages: of an iteration, and of the last `drain`.
pub data Phase : Type 0 where
  in_slice : LoopBudgetSlice → ℕ → Phase
  in_drain : Phase

-- Where the thread is: at the test of the loop, before a `pop_next`, with a message before its
-- continuation is called, in the continuation, before the wait, asleep, before `consume_all`, and past
-- the loop, with the queue drained or after an error.
pub data Worker (W : Type 0) : Type 0 where
  checks : Worker W
  serves : Phase → Worker W
  begins : Phase → Message W → Worker W
  works : Phase → Message W → Worker W
  waits parked consumes : Worker W
  exited failed : Worker W

-- `accepted` and `ran` count the submissions that were accepted and the messages that were run;
-- `in_flight` the calls of `wake` that are still to come.
pub record Session (W : Type 0) : Type 0 where
  pub shard : Shard W
  pub worker : Worker W
  pub in_flight : ℕ
  pub accepted : ℕ
  pub ran : ℕ

pub data ShardEvent (W : Type 0) : Type 0 where
  submits submits_system : W → ℕ → ShardEvent W
  requests_stop wakes : ShardEvent W
  goes_on : RunTimes → ShardEvent W

module _ {W : Type 0} where
  abbrev at : Session W → Shard W → Worker W → Session W
  at s shard worker = record s { shard = shard; worker = worker }

  abbrev loop_failed : Shard W → VioError → Shard W
  loop_failed sh e = record (observe_depth sh) { loop_error = some e; stop_requested = true }

  abbrev pub begin_iteration : Session W → Result LoopBudgetSlice → Session W
  begin_iteration s (err e) = at s (loop_failed s.shard e) failed
  begin_iteration s (ok slice) = at s s.shard (serves (in_slice slice 0))

  -- Where the loop of an iteration ends.
  abbrev pub iterated : ℕ → Worker W
  iterated ran = if ran == 0 then waits else checks

  abbrev pub serve_slice :
      Session W → LoopBudgetSlice → ℕ → Mailbox W × Option (Message W) → Session W
  serve_slice s slice ran (m, none) = at s (record s.shard { mailbox = m }) (iterated ran)
  serve_slice s slice ran (m, some message) =
      at s (record s.shard { mailbox = m })
        (begins (in_slice (consume_task slice).0 (suc ran)) message)

  abbrev pub serve_drain : Session W → Mailbox W × Option (Message W) → Session W
  serve_drain s (m, none) = at s (observe_depth (record s.shard { mailbox = m })) exited
  serve_drain s (m, some message) = at s (record s.shard { mailbox = m }) (begins in_drain message)

  -- A step of the thread.
  unfoldable pub go_on : Session W → Worker W → RunTimes → Session W
  go_on s checks times =
      if s.shard.stop_requested
      then at s s.shard (serves in_drain)
      else begin_iteration s (create s.shard.budget)
  go_on s (serves (in_slice slice ran)) times =
      if ltb 0 (remaining_tasks slice)
      then serve_slice s slice ran (Mailbox.pop_next s.shard.mailbox)
      else at s s.shard (iterated ran)
  go_on s (serves in_drain) times = serve_drain s (Mailbox.pop_next s.shard.mailbox)
  go_on s (begins phase message) times =
      at s (message_started s.shard message times) (works phase message)
  go_on s (works phase message) times =
      record (at s (message_finished s.shard message times) (serves phase)) { ran = suc s.ran }
  go_on s waits times =
      let (w, on) = Wakeup.begin_wait s.shard.wakeup in
      at s (record s.shard { wakeup = w }) (if on then consumes else parked)
  go_on s parked times =
      let (w, on) = Wakeup.end_wait s.shard.wakeup in
      at s (record s.shard { wakeup = w }) (if on then consumes else parked)
  go_on s consumes times =
      at s (record s.shard { wakeup = (Wakeup.consume_all s.shard.wakeup).0 }) checks
  go_on s exited times = s
  go_on s failed times = s

  -- A submission up to the end of its critical section.
  abbrev pub submitted_to : Session W → Shard W × VoidResult → Session W
  submitted_to s (shard, err e) = record s { shard = shard }
  submitted_to s (shard, ok _) = record s {
    shard = shard;
    in_flight = suc s.in_flight;
    accepted = suc s.accepted;
  }

  unfoldable pub step : Session W → ShardEvent W → Session W
  step s (submits work now) = submitted_to s (submit_locked s.shard work now)
  step s (submits_system work now) = submitted_to s (submit_system_locked s.shard work now)
  step s requests_stop = record s { shard = stop_locked s.shard; in_flight = suc s.in_flight }
  step s wakes =
      if s.in_flight == 0 then s else record s { shard = wake s.shard; in_flight = s.in_flight - 1 }
  step s (goes_on times) = go_on s s.worker times

  unfoldable pub run : Session W → List (ShardEvent W) → Session W
  run s [] = s
  run s (c ∷ cs) = run (step s c) cs

  -- A shard whose thread was just started.
  abbrev pub started : Shard W → Session W
  started shard = record { shard = shard; worker = checks; in_flight = 0; accepted = 0; ran = 0 }
