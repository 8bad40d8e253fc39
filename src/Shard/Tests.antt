-- ===== src/Shard/Tests.antt =====
-- One message through a shard's thread, and a stop.
use vio.Prelude.{ℕ, ◌+◌, ◌%◌, ◌≡◌, ◌⊎◌, refl, false, ◌&&◌, some, List, [], ◌∷◌, arith, size_mod}
use vio.Prelude.Int.{ℤ, pos}
use vio.Error.{err, make_error, invalid_state}
use vio.BoundedQueue
use vio.LoopBudget
use vio.LoopBudget.{LoopBudget}
use vio.Mailbox
use vio.Wakeup
use vio.Shard.{RunTimes, new, submit, submit_locked}
use vio.Shard.Worker.{
  ShardEvent, submits, requests_stop, wakes, goes_on, parked, exited, go_on, step, run, started,
}
use vio.Shard.Invariant.{is_asleep, is_neglected, is_exited, in_hand, queued}
use vio.Shard.Awake.{worker_never_neglected, accepted_all_run}

abbrev budget : LoopBudget
budget = record { task_budget = 2; completion_budget = 1; timer_budget = 1 }

abbrev threshold : ℤ
threshold = pos 5

abbrev times : RunTimes
times = record { run_started = 12; task_started = 13; task_ended = 20 }

abbrev asleep : List (ShardEvent ℕ)
asleep = goes_on times ∷ goes_on times ∷ goes_on times ∷ submits 7 10 ∷ []

abbrev events : List (ShardEvent ℕ)
events =
    submits 7 10
    ∷ goes_on times
    ∷ goes_on times
    ∷ goes_on times
    ∷ requests_stop
    ∷ goes_on times
    ∷ goes_on times
    ∷ wakes
    ∷ goes_on times
    ∷ goes_on times
    ∷ []

woken : (run (started (new 4 budget threshold)) asleep).worker ≡ parked
unfolding run step go_on new Mailbox.new BoundedQueue.new Mailbox.pop_next BoundedQueue.pop
    BoundedQueue.try_push submit_locked Mailbox.submit LoopBudget.create LoopBudget.validate
    LoopBudget.remaining_tasks LoopBudget.remaining Wakeup.begin_wait Wakeup.end_wait
woken = refl

over : (run (started (new 4 budget threshold)) events).worker ≡ exited
unfolding run step go_on new Mailbox.new BoundedQueue.new Mailbox.pop_next BoundedQueue.pop
    BoundedQueue.try_push submit_locked Mailbox.submit LoopBudget.create LoopBudget.validate
    LoopBudget.remaining_tasks LoopBudget.remaining LoopBudget.consume_task LoopBudget.consume
over = refl

worker_never_neglected_example :
    let s = run (started (new 4 budget threshold)) asleep in
    (is_asleep s.worker && is_neglected s) ≡ false
worker_never_neglected_example = worker_never_neglected 4 budget threshold asleep (omega arith)

accepted_all_run_example :
    let s = run (started (new 4 budget threshold)) events in
    (s.accepted ≡ s.ran + queued s + in_hand s.worker)
    × (s.shard.metrics.submitted_tasks ≡ s.accepted % size_mod)
    × (s.shard.metrics.completed_tasks ≡ s.ran % size_mod)
    × ((is_exited s.worker ≡ false)
        ⊎ ((s.accepted ≡ s.ran)
            × ((submit s.shard (some 8) 30).1 ≡ err (make_error invalid_state "shard is stopped"))))
accepted_all_run_example = accepted_all_run 4 budget threshold events 8 30 (omega arith)
