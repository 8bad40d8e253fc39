-- ===== src/Shard/Awake.antt =====
-- No wake-up is lost, and no accepted work: what holds of the thread and those who submit to it, in any
-- order of their steps.
use vio.Prelude.{
  ℕ, suc, ◌+◌, ◌-◌, ◌%◌, ◌<◌, ◌≡◌, ◌⊎◌, inl, inr, refl, false, ◌&&◌, some, List, [], ◌∷◌, length,
  ◌==◌, arith, size_mod, subst, Bool-cases, if_rule,
}
use vio.Prelude.Int.{ℤ}
use vio.Error.{make_error, invalid_state, VoidResult, ok, err}
use vio.BoundedQueue
use vio.LoopBudget.{LoopBudget}
use vio.Mailbox
use vio.Mailbox.{Mailbox, Message}
use vio.Shard
use vio.Shard.{Shard, RunTimes, new, submit, submit_locked, submit_system_locked, wake, stop_locked}
use vio.Shard.Worker.{
  Session, ShardEvent, submits, submits_system, requests_stop, wakes, goes_on, step, go_on, run,
  started, submitted_to,
}
use vio.Shard.Invariant.{
  is_asleep, is_exited, in_hand, queued, is_neglected, IsAwake, Grows, submit-Grows,
  submit_system-Grows,
}
use vio.Shard.Thread.{go_on-IsAwake}

module _ {W : Type 0} where
  submitted-IsAwake :
      (n : ℕ) (s : Session W) (r : Mailbox W × VoidResult)
      → suc n < size_mod
      → s.shard.stop_requested ≡ false
      → Grows s.shard.mailbox r
      → IsAwake n s
      → IsAwake (suc n) (submitted_to s (Shard.submitted s.shard r))
  submitted-IsAwake n s (m, err e) small going grows v = record {
    bound = ground (arith, v.bound);
    counted = ground (arith, v.counted);
    submitted = ground (arith, v.submitted);
    completed = ground (arith, v.completed);
    roused = ground (arith, v.roused);
    heard = ground (arith, v.heard);
    stopped = ground (arith, v.stopped);
    emptied = ground (arith, v.emptied);
    paid = v.paid;
  }
  submitted-IsAwake n s (m, ok _) small going grows v = record {
    bound = ground (arith, v.bound);
    counted = ground (arith, v.counted);
    submitted = ground (arith, v.submitted);
    completed = ground (arith, v.completed);
    roused = ground (arith, v.roused);
    heard = ground (arith, v.heard);
    stopped = ground (arith, v.stopped);
    emptied = ground (arith, v.emptied, v.stopped);
    paid = v.paid;
  }

  IsAwake-later : (n : ℕ) (s : Session W) → IsAwake n s → IsAwake (suc n) s
  IsAwake-later n s v = record {
    bound = omega arith;
    counted = v.counted;
    submitted = v.submitted;
    completed = v.completed;
    roused = v.roused;
    heard = v.heard;
    stopped = v.stopped;
    emptied = v.emptied;
    paid = v.paid;
  }

  woken-IsAwake :
      (n : ℕ) (s : Session W)
      → suc n < size_mod
      → s.in_flight == 0 ≡ false
      → IsAwake n s
      → IsAwake (suc n) (record s { shard = wake s.shard; in_flight = s.in_flight - 1 })
  woken-IsAwake n s small some_left v = record {
    bound = ground (arith, v.bound);
    counted = ground (arith, v.counted);
    submitted = v.submitted;
    completed = v.completed;
    roused = ground (arith, v.roused, v.bound);
    heard = ground (arith, v.heard, v.bound);
    stopped = ground (arith, v.stopped);
    emptied = ground (arith, v.emptied);
    paid = v.paid;
  }

  step-IsAwake :
      (n : ℕ) (s : Session W) (c : ShardEvent W)
      → suc n < size_mod
      → IsAwake n s
      → IsAwake (suc n) (step s c)
  unfolding step submit_locked submit_system_locked
  step-IsAwake n s (submits work now) small v =
      if_rule (λ (r : Shard W × VoidResult). IsAwake (suc n) (submitted_to s r))
        s.shard.stop_requested (λ stop. IsAwake-later n s v)
        (λ going.
          submitted-IsAwake n s (Mailbox.submit s.shard.mailbox (some work) now) small going
            (submit-Grows s.shard.mailbox (some work) now) v)
  step-IsAwake n s (submits_system work now) small v =
      if_rule (λ (r : Shard W × VoidResult). IsAwake (suc n) (submitted_to s r))
        s.shard.stop_requested (λ stop. IsAwake-later n s v)
        (λ going.
          submitted-IsAwake n s (Mailbox.submit_system s.shard.mailbox (some work) now) small going
            (submit_system-Grows s.shard.mailbox (some work) now) v)
  step-IsAwake n s requests_stop small v = record {
    bound = ground (arith, v.bound);
    counted = ground (arith, v.counted);
    submitted = v.submitted;
    completed = v.completed;
    roused = ground (arith, v.roused);
    heard = ground (arith, v.heard);
    stopped = ground (arith, v.stopped);
    emptied = ground (arith, v.emptied);
    paid = v.paid;
  }
  step-IsAwake n s wakes small v =
      if_rule (λ (t : Session W). IsAwake (suc n) t) (s.in_flight == 0)
        (λ none_left. IsAwake-later n s v) (λ some_left. woken-IsAwake n s small some_left v)
  step-IsAwake n s (goes_on times) small v =
      IsAwake-later n (go_on s s.worker times) (go_on-IsAwake n s s.worker times refl small v)

  run-IsAwake :
      (cs : List (ShardEvent W)) (n : ℕ) (s : Session W)
      → n + length cs < size_mod
      → IsAwake n s
      → IsAwake (n + length cs) (run s cs)
  unfolding run
  run-IsAwake [] n s small v = subst (λ (k : ℕ). IsAwake k s) (omega arith) v
  run-IsAwake (c ∷ cs) n s small v =
      subst (λ (k : ℕ). IsAwake k (run (step s c) cs)) (omega arith)
        (run-IsAwake cs (suc n) (step s c) (omega arith) (step-IsAwake n s c (omega arith) v))

  started-IsAwake :
      (limit : ℕ) (budget : LoopBudget) (threshold : ℤ)
      → IsAwake {W = W} 0 (started (new limit budget threshold))
  unfolding new Mailbox.new BoundedQueue.new
  started-IsAwake limit budget threshold = record {
    bound = omega arith;
    counted = refl;
    submitted = refl;
    completed = refl;
    roused = refl;
    heard = refl;
    stopped = refl;
    emptied = refl;
    paid = tt;
  }

  -- A new shard whose thread was just started, and fewer than 2^64 submissions, requests to stop, wake-ups
  -- of these and steps of the thread, in any order: the thread is never asleep, or about to sleep, while
  -- work is queued or a stop is requested, unless a wake-up was made or is still to come.
  pub worker_never_neglected :
      (limit : ℕ) (budget : LoopBudget) (threshold : ℤ) (events : List (ShardEvent W))
      → length events < size_mod
      → let s = run (started (new limit budget threshold)) events in
        (is_asleep s.worker && is_neglected s) ≡ false
  worker_never_neglected limit budget threshold events small =
      (run-IsAwake events 0 (started (new limit budget threshold)) (omega arith)
        (started-IsAwake limit budget threshold)).roused

  -- A new shard whose thread was just started, and fewer than 2^64 submissions, requests to stop, wake-ups
  -- of these and steps of the thread, in any order: the accepted messages are as many as those that were
  -- run, those that are queued and the one that the thread has in hand together; the two counters of
  -- the metrics are the numbers of those accepted and run, modulo 2^64; and where the thread has returned
  -- without an error of the loop, as many were run as were accepted, and what is submitted then is refused.
  pub accepted_all_run :
      (limit : ℕ) (budget : LoopBudget) (threshold : ℤ) (events : List (ShardEvent W)) (work : W)
      (now : ℕ)
      → length events < size_mod
      → let s = run (started (new limit budget threshold)) events in
        (s.accepted ≡ s.ran + queued s + in_hand s.worker)
        × (s.shard.metrics.submitted_tasks ≡ s.accepted % size_mod)
        × (s.shard.metrics.completed_tasks ≡ s.ran % size_mod)
        × ((is_exited s.worker ≡ false)
            ⊎ ((s.accepted ≡ s.ran)
                × ((submit s.shard (some work) now).1
                    ≡ err (make_error invalid_state "shard is stopped"))))
  unfolding submit submit_locked
  accepted_all_run limit budget threshold events work now small =
      let s = run (started (new limit budget threshold)) events in
      let v =
        run-IsAwake events 0 (started (new limit budget threshold)) (omega arith)
          (started-IsAwake limit budget threshold) in
      (
        v.counted,
        v.submitted,
        v.completed,
        elim (Bool-cases (is_exited s.worker)) [
          | inr running ↦ inl running
          | inl over ↦ ground (arith, v.counted, v.emptied, v.stopped)
        ],
      )
