-- ===== src/Shard/Invariant.antt =====
-- What holds between the thread of a shard, its mailbox and its wake-ups, after any number of steps.
use vio.Prelude.{
  ℕ, suc, ◌+◌, ◌%◌, ◌≤◌, ◌<◌, ◌≡◌, Bool, true, false, not, ◌&&◌, ◌||◌, Option, none, some, [], ◌∷◌,
  length-append, ◌==◌, arith, size_mod,
}
use vio.Error.{VoidResult, ok, err}
use vio.BoundedQueue
use vio.Mailbox
use vio.Mailbox.{Mailbox, Message}
use vio.Shard.Worker.{
  Session, Worker, Phase, in_slice, in_drain, checks, serves, begins, works, waits, parked,
  consumes, exited, failed,
}

abbrev pub is_slice : Phase → Bool
is_slice (in_slice slice ran) = true
is_slice in_drain = false

-- A slice that nothing was taken from has units left.
abbrev pub IsPaidPhase : Phase → Type 0
IsPaidPhase (in_slice slice ran) = (slice.consumed_tasks ≡ ran) × (0 < slice.budget.task_budget)
IsPaidPhase in_drain = Unit {0}

module _ {W : Type 0} where
  -- About to sleep, or asleep.
  abbrev pub is_asleep : Worker W → Bool
  is_asleep waits = true
  is_asleep parked = true
  is_asleep checks = false
  is_asleep (serves phase) = false
  is_asleep (begins phase message) = false
  is_asleep (works phase message) = false
  is_asleep consumes = false
  is_asleep exited = false
  is_asleep failed = false

  -- Past the test of the loop, and not yet woken.
  abbrev pub is_committed : Worker W → Bool
  is_committed waits = true
  is_committed parked = true
  is_committed checks = false
  is_committed (serves phase) = is_slice phase
  is_committed (begins phase message) = is_slice phase
  is_committed (works phase message) = is_slice phase
  is_committed consumes = false
  is_committed exited = false
  is_committed failed = false

  -- Past the loop.
  abbrev pub is_ending : Worker W → Bool
  is_ending waits = false
  is_ending parked = false
  is_ending checks = false
  is_ending (serves phase) = not (is_slice phase)
  is_ending (begins phase message) = not (is_slice phase)
  is_ending (works phase message) = not (is_slice phase)
  is_ending consumes = false
  is_ending exited = true
  is_ending failed = true

  abbrev pub is_exited : Worker W → Bool
  is_exited waits = false
  is_exited parked = false
  is_exited checks = false
  is_exited (serves phase) = false
  is_exited (begins phase message) = false
  is_exited (works phase message) = false
  is_exited consumes = false
  is_exited exited = true
  is_exited failed = false

  -- How many messages the thread has in hand.
  abbrev pub in_hand : Worker W → ℕ
  in_hand waits = 0
  in_hand parked = 0
  in_hand checks = 0
  in_hand (serves phase) = 0
  in_hand (begins phase message) = 1
  in_hand (works phase message) = 1
  in_hand consumes = 0
  in_hand exited = 0
  in_hand failed = 0

  abbrev pub IsPaid : Worker W → Type 0
  IsPaid waits = Unit {0}
  IsPaid parked = Unit {0}
  IsPaid checks = Unit {0}
  IsPaid (serves phase) = IsPaidPhase phase
  IsPaid (begins phase message) = IsPaidPhase phase
  IsPaid (works phase message) = IsPaidPhase phase
  IsPaid consumes = Unit {0}
  IsPaid exited = Unit {0}
  IsPaid failed = Unit {0}

  abbrev pub queued : Session W → ℕ
  queued s = Mailbox.size s.shard.mailbox

  -- There is work, or a request to stop, and no wake-up, made or to come.
  abbrev pub is_neglected : Session W → Bool
  is_neglected s =
      (s.shard.stop_requested || not (queued s == 0))
      && s.shard.wakeup.pending == 0
      && s.in_flight == 0

  abbrev pub is_unheard : Session W → Bool
  is_unheard s = s.shard.stop_requested && s.shard.wakeup.pending == 0 && s.in_flight == 0

  -- After n steps.
  pub record IsAwake (n : ℕ) (s : Session W) : Type 0 where
    pub bound : s.shard.wakeup.pending + s.in_flight ≤ n
    pub counted : s.accepted ≡ s.ran + queued s + in_hand s.worker
    pub submitted : s.shard.metrics.submitted_tasks ≡ s.accepted % size_mod
    pub completed : s.shard.metrics.completed_tasks ≡ s.ran % size_mod
    pub roused : (is_asleep s.worker && is_neglected s) ≡ false
    pub heard : (is_committed s.worker && is_unheard s) ≡ false
    pub stopped : (is_ending s.worker && not s.shard.stop_requested) ≡ false
    pub emptied : (is_exited s.worker && not (queued s == 0)) ≡ false
    pub paid : IsPaid s.worker

  -- A mailbox grows by what it accepts.
  abbrev pub Grows : Mailbox W → Mailbox W × VoidResult → Type 0
  Grows m (m', err e) = Mailbox.size m' ≡ Mailbox.size m
  Grows m (m', ok _) = Mailbox.size m' ≡ suc (Mailbox.size m)

  pub submit-Grows :
      (m : Mailbox W) (work : Option W) (now : ℕ) → Grows m (Mailbox.submit m work now)
  unfolding Mailbox.submit BoundedQueue.try_push
  submit-Grows m work now =
      ground (arith, length-append m.queue.items (record { work = work; enqueued_at = now } ∷ []))

  pub submit_system-Grows :
      (m : Mailbox W) (work : Option W) (now : ℕ) → Grows m (Mailbox.submit_system m work now)
  unfolding Mailbox.submit_system BoundedQueue.try_push
  submit_system-Grows m work now =
      ground
        (arith, length-append m.system_queue.items (record { work = work; enqueued_at = now } ∷ []))

  -- And it shrinks by what is popped.
  abbrev pub Shrinks : Mailbox W → Mailbox W × Option (Message W) → Type 0
  Shrinks m (m', none) = (Mailbox.size m ≡ 0) × (Mailbox.size m' ≡ 0)
  Shrinks m (m', some message) = Mailbox.size m ≡ suc (Mailbox.size m')

  pub pop_next-Shrinks : (m : Mailbox W) → Shrinks m (Mailbox.pop_next m)
  unfolding Mailbox.pop_next BoundedQueue.pop
  pop_next-Shrinks m = ground arith
