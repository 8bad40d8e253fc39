-- ===== src/Shard/Thread.antt =====
-- The steps of a shard's thread keep the invariant.
use vio.Prelude.{
  ℕ, suc, ◌<◌, ◌≡◌, refl, true, false, Option, none, some, ltb, arith, size_mod, if_rule,
}
use vio.Error.{Result, ok, err}
use vio.LoopBudget
use vio.LoopBudget.{
  LoopBudget, LoopBudgetSlice, create, consume, consume_task, remaining, remaining_tasks,
}
use vio.Mailbox
use vio.Mailbox.{Mailbox, Message}
use vio.Wakeup
use vio.Shard.{RunTimes}
use vio.Shard.Worker.{
  Session, Worker, in_slice, in_drain, checks, serves, begins, works, waits, parked, consumes,
  exited, failed, go_on, begin_iteration, iterated, serve_slice, serve_drain,
}
use vio.Shard.Invariant.{IsAwake, Shrinks, pop_next-Shrinks}

module _ {W : Type 0} where
  serve_slice-IsAwake :
      (n : ℕ) (s : Session W) (slice : LoopBudgetSlice) (ran : ℕ)
      (r : Mailbox W × Option (Message W))
      → s.worker ≡ serves (in_slice slice ran)
      → 0 < remaining_tasks slice
      → Shrinks s.shard.mailbox r
      → IsAwake n s
      → IsAwake n (serve_slice s slice ran r)
  unfolding remaining_tasks consume_task remaining consume
  serve_slice-IsAwake n s slice ran (m, none) here left (was, is) v = record {
    bound = v.bound;
    counted = ground (arith, v.counted);
    submitted = v.submitted;
    completed = v.completed;
    roused = ground (arith, v.heard);
    heard = ground (arith, v.heard);
    stopped = ground (arith, v.stopped);
    emptied = ground (arith, v.emptied);
    paid = ground arith;
  }
  serve_slice-IsAwake n s slice ran (m, some message) here left was v = record {
    bound = v.bound;
    counted = ground (arith, v.counted);
    submitted = v.submitted;
    completed = v.completed;
    roused = refl;
    heard = ground (arith, v.heard);
    stopped = refl;
    emptied = refl;
    paid = ground (arith, v.paid);
  }

  serve_drain-IsAwake :
      (n : ℕ) (s : Session W) (r : Mailbox W × Option (Message W))
      → s.worker ≡ serves in_drain
      → Shrinks s.shard.mailbox r
      → IsAwake n s
      → IsAwake n (serve_drain s r)
  serve_drain-IsAwake n s (m, none) here (was, is) v = record {
    bound = v.bound;
    counted = ground (arith, v.counted);
    submitted = v.submitted;
    completed = v.completed;
    roused = refl;
    heard = refl;
    stopped = ground (arith, v.stopped);
    emptied = ground arith;
    paid = tt;
  }
  serve_drain-IsAwake n s (m, some message) here was v = record {
    bound = v.bound;
    counted = ground (arith, v.counted);
    submitted = v.submitted;
    completed = v.completed;
    roused = refl;
    heard = refl;
    stopped = ground (arith, v.stopped);
    emptied = refl;
    paid = tt;
  }

  begin_iteration-IsAwake :
      (n : ℕ) (s : Session W) (o : Result LoopBudgetSlice)
      → s.worker ≡ checks
      → s.shard.stop_requested ≡ false
      → create s.shard.budget ≡ o
      → IsAwake n s
      → IsAwake n (begin_iteration s o)
  unfolding create LoopBudget.validate
  begin_iteration-IsAwake n s (err e) here going e' v = record {
    bound = v.bound;
    counted = ground (arith, v.counted);
    submitted = v.submitted;
    completed = v.completed;
    roused = refl;
    heard = refl;
    stopped = refl;
    emptied = refl;
    paid = tt;
  }
  begin_iteration-IsAwake n s (ok slice) here going e' v = record {
    bound = v.bound;
    counted = ground (arith, v.counted);
    submitted = v.submitted;
    completed = v.completed;
    roused = refl;
    heard = ground (arith, going);
    stopped = refl;
    emptied = refl;
    paid = ground (arith, e');
  }

  begin_drain-IsAwake :
      (n : ℕ) (s : Session W)
      → s.worker ≡ checks
      → s.shard.stop_requested ≡ true
      → IsAwake n s
      → IsAwake n (record s { worker = serves in_drain })
  begin_drain-IsAwake n s here stop v = record {
    bound = v.bound;
    counted = ground (arith, v.counted);
    submitted = v.submitted;
    completed = v.completed;
    roused = refl;
    heard = refl;
    stopped = ground (arith, stop);
    emptied = refl;
    paid = tt;
  }

  -- An iteration that used up its slice has run something.
  iterated-IsAwake :
      (n : ℕ) (s : Session W) (slice : LoopBudgetSlice) (ran : ℕ)
      → s.worker ≡ serves (in_slice slice ran)
      → ltb 0 (remaining_tasks slice) ≡ false
      → IsAwake n s
      → IsAwake n (record s { worker = iterated ran })
  unfolding remaining_tasks remaining
  iterated-IsAwake n s slice ran here used v = record {
    bound = v.bound;
    counted = ground (arith, v.counted);
    submitted = v.submitted;
    completed = v.completed;
    roused = ground (arith, v.paid);
    heard = ground (arith, v.paid);
    stopped = ground arith;
    emptied = ground arith;
    paid = ground arith;
  }

  pub go_on-IsAwake :
      (n : ℕ) (s : Session W) (w : Worker W) (times : RunTimes)
      → s.worker ≡ w
      → suc n < size_mod
      → IsAwake n s
      → IsAwake n (go_on s w times)
  unfolding go_on Wakeup.begin_wait Wakeup.end_wait
  go_on-IsAwake n s checks times here small v =
      if_rule (λ (t : Session W). IsAwake n t) s.shard.stop_requested
        (λ stop. begin_drain-IsAwake n s here stop v)
        (λ going. begin_iteration-IsAwake n s (create s.shard.budget) here going refl v)
  go_on-IsAwake n s (serves (in_slice slice ran)) times here small v =
      if_rule (λ (t : Session W). IsAwake n t) (ltb 0 (remaining_tasks slice))
        (λ left.
          serve_slice-IsAwake n s slice ran (Mailbox.pop_next s.shard.mailbox) here (ground arith)
            (pop_next-Shrinks s.shard.mailbox) v)
        (λ used. iterated-IsAwake n s slice ran here used v)
  go_on-IsAwake n s (serves in_drain) times here small v =
      serve_drain-IsAwake n s (Mailbox.pop_next s.shard.mailbox) here
        (pop_next-Shrinks s.shard.mailbox) v
  go_on-IsAwake n s (begins phase message) times here small v = record {
    bound = v.bound;
    counted = ground (arith, v.counted);
    submitted = v.submitted;
    completed = v.completed;
    roused = refl;
    heard = ground (arith, v.heard);
    stopped = ground (arith, v.stopped);
    emptied = refl;
    paid = ground (arith, v.paid);
  }
  go_on-IsAwake n s (works phase message) times here small v = record {
    bound = v.bound;
    counted = ground (arith, v.counted);
    submitted = v.submitted;
    completed = ground (arith, v.completed);
    roused = refl;
    heard = ground (arith, v.heard);
    stopped = ground (arith, v.stopped);
    emptied = refl;
    paid = ground (arith, v.paid);
  }
  go_on-IsAwake n s waits times here small v = record {
    bound = ground (arith, v.bound);
    counted = ground (arith, v.counted);
    submitted = v.submitted;
    completed = v.completed;
    roused = ground (arith, v.roused);
    heard = ground (arith, v.heard);
    stopped = ground arith;
    emptied = ground arith;
    paid = ground arith;
  }
  go_on-IsAwake n s parked times here small v = record {
    bound = ground (arith, v.bound);
    counted = ground (arith, v.counted);
    submitted = v.submitted;
    completed = v.completed;
    roused = ground (arith, v.roused);
    heard = ground (arith, v.heard);
    stopped = ground arith;
    emptied = ground arith;
    paid = ground arith;
  }
  go_on-IsAwake n s consumes times here small v = record {
    bound = ground (arith, v.bound);
    counted = ground (arith, v.counted);
    submitted = v.submitted;
    completed = v.completed;
    roused = refl;
    heard = refl;
    stopped = refl;
    emptied = refl;
    paid = tt;
  }
  go_on-IsAwake n s exited times here small v = v
  go_on-IsAwake n s failed times here small v = v
