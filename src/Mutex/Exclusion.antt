-- ===== src/Mutex/Exclusion.antt =====
-- At most one holder, through every hand-over.
use vio.Prelude.{
  ℕ, suc, ◌+◌, ◌-◌, ◌≤◌, ◌≡◌, Bool, true, false, not, ◌&&◌, ◌||◌, Option, none, some, List, [], ◌∷◌,
  ◌==◌, if◌then◌else◌, arith,
}
use vio.Error.{VoidResult, has_value}
use vio.Waiter.{can_resume}
use vio.Mutex.{
  World, try_lock, lock, try_complete_immediate, enqueue_waiter, await_suspend, await_resume,
  is_handoff, unlock, detach, resume_waiter,
}

-- What may happen while a mutex is alive.
pub data MutexCall : Type 0 where
  tries unlocks : MutexCall
  locks readies observes detaches resumes : ℕ → MutexCall
  suspends : ℕ → Option ℕ → MutexCall

-- A mutex with the number of callers that were told that they hold it and have not unlocked it, and the
-- operation, if any, whose wait ended with success at once and that was not yet told so.
pub record Session : Type 0 where
  pub world : World
  pub holders : ℕ
  pub granted : Option ℕ

-- The answer of `try_lock` tells the caller that it holds the mutex.
abbrev pub tried : Session → World × VoidResult → Session
tried s (w, result) = record s {
  world = w;
  holders = if has_value result then suc s.holders else s.holders;
}

abbrev pub is_ok : Option VoidResult → Bool
is_ok none = false
is_ok (some result) = has_value result

-- An operation whose result becomes a success has yet to be told so.
abbrev pub awaited : Session → ℕ → World → Session
awaited s i w = record s {
  world = w;
  granted =
      if not (is_ok (s.world.store.waiter i).result) && is_ok (w.store.waiter i).result
      then some i
      else s.granted;
}

-- The answer of `await_resume` tells the caller whether it holds the mutex.
abbrev pub received : Session → ℕ → World × VoidResult → Session
received s i (w, result) = record s {
  world = w;
  holders = if has_value result then suc s.holders else s.holders;
  granted = if is_handoff s.granted i then none else s.granted;
}

-- A suspended operation is not awaited once more.
abbrev pub is_waiting : World → ℕ → Bool
is_waiting w i = (w.store.waiter i).reserved || (w.store.waiter i).continuation

module _ (accepts : ℕ → Bool) where
  -- An operation takes a number that no operation holds, it is awaited once, and only a holder
  -- unlocks.
  unfoldable pub step : Session → MutexCall → Session
  step s tries = tried s (try_lock s.world)
  step s unlocks =
      if s.holders == 0
      then s
      else record s { world = unlock accepts s.world; holders = s.holders - 1 }
  step s (locks i) =
      if (s.world.store.waiter i).held then s else record s { world = lock s.world i }
  step s (readies i) =
      if is_waiting s.world i then s else awaited s i (try_complete_immediate s.world i).0
  step s (suspends i scheduler) =
      if is_waiting s.world i then s else awaited s i (await_suspend s.world i scheduler).0
  step s (observes i) = received s i (await_resume s.world i)
  step s (detaches i) = record s { world = detach accepts s.world i }
  step s (resumes i) = record s { world = (resume_waiter s.world i).0 }

  unfoldable pub run : Session → List MutexCall → Session
  run s [] = s
  run s (c ∷ cs) = run (step s c) cs

abbrev handed : Option ℕ → ℕ
handed none = 0
handed (some i) = 1

-- The lock has one owner at most: a holder, the waiter that it was handed over to, or the operation
-- that was granted it at once. The waiter that it was handed over to and no other has a reservation; a
-- waiter that waits or has a reservation belongs to an operation; and an operation with a success has
-- a reservation or was granted the lock.
pub record IsExclusive (s : Session) : Type 0 where
  pub alive : s.world.mutex.alive ≡ true
  pub one :
      s.holders + handed s.world.mutex.handoff + handed s.granted
      ≤ (if s.world.mutex.locked then 1 else 0)
  pub matched : (j : ℕ) → (s.world.store.waiter j).reserved ≡ is_handoff s.world.mutex.handoff j
  pub kept :
      (j : ℕ)
      → (s.world.store.waiter j).reserved ≡ true
      → ((s.world.store.waiter j).held
          && (s.world.store.waiter j).owner
          && not (s.world.store.waiter j).enqueued)
        ≡ true
  pub waits :
      (j : ℕ)
      → (s.world.store.waiter j).continuation ≡ true
      → ((s.world.store.waiter j).held
          && (s.world.store.waiter j).owner
          && can_resume (s.world.store.waiter j))
        ≡ true
  pub told :
      (j : ℕ)
      → ((s.world.store.waiter j).held && is_ok (s.world.store.waiter j).result) ≡ true
      → ((s.world.store.waiter j).reserved || is_handoff s.granted j) ≡ true

module _ (s : Session) (v : IsExclusive s) where
  pub try_lock-IsExclusive : IsExclusive (tried s (try_lock s.world))
  unfolding try_lock
  try_lock-IsExclusive = record {
    alive = ground (arith, v.alive);
    one = ground (arith, v.one);
    matched = λ j. ground (arith, v.matched j);
    kept = λ j h. ground (arith, v.kept j);
    waits = λ j h. ground (arith, v.waits j);
    told = λ j h. ground (arith, v.told j);
  }

  pub lock-IsExclusive :
      (i : ℕ)
      → (s.world.store.waiter i).held ≡ false
      → IsExclusive (record s { world = lock s.world i })
  unfolding lock
  lock-IsExclusive i e = record {
    alive = v.alive;
    one = v.one;
    matched = λ j. ground (arith, v.matched j, v.kept j);
    kept = λ j h. ground (arith, v.kept j);
    waits = λ j h. ground (arith, v.waits j);
    told = λ j h. ground (arith, v.told j);
  }

  pub ready-IsExclusive :
      (i : ℕ)
      → is_waiting s.world i ≡ false
      → IsExclusive (awaited s i (try_complete_immediate s.world i).0)
  unfolding try_complete_immediate
  ready-IsExclusive i e = record {
    alive = ground (arith, v.alive);
    one = ground (arith, v.one);
    matched = λ j. ground (arith, v.matched j);
    kept = λ j h. ground (arith, v.kept j);
    waits = λ j h. ground (arith, v.waits j);
    told = λ j h. ground (arith, v.told j);
  }

  enqueue-IsExclusive :
      (i scheduler : ℕ)
      → is_waiting s.world i ≡ false
      → IsExclusive (awaited s i (enqueue_waiter s.world i scheduler).0)
  unfolding enqueue_waiter try_complete_immediate
  enqueue-IsExclusive i scheduler e = record {
    alive = ground (arith, v.alive);
    one = ground (arith, v.one);
    matched = λ j. ground (arith, v.matched j);
    kept = λ j h. ground (arith, v.kept j);
    waits = λ j h. ground (arith, v.waits j);
    told = λ j h. ground (arith, v.told j);
  }

  pub suspend-IsExclusive :
      (i : ℕ) (scheduler : Option ℕ)
      → is_waiting s.world i ≡ false
      → IsExclusive (awaited s i (await_suspend s.world i scheduler).0)
  unfolding await_suspend
  suspend-IsExclusive i (some scheduler) e = enqueue-IsExclusive i scheduler e
  suspend-IsExclusive i none e = record {
    alive = ground (arith, v.alive);
    one = ground (arith, v.one);
    matched = λ j. ground (arith, v.matched j);
    kept = λ j h. ground (arith, v.kept j);
    waits = λ j h. ground (arith, v.waits j);
    told = λ j h. ground (arith, v.told j);
  }

  pub observe-IsExclusive : (i : ℕ) → IsExclusive (received s i (await_resume s.world i))
  unfolding await_resume
  observe-IsExclusive i = record {
    alive = ground (arith, v.alive);
    one = ground (arith, v.one, v.matched i, v.kept i, v.told i);
    matched = λ j. ground (arith, v.alive, v.matched i, v.matched j, v.kept i, v.kept j);
    kept = λ j h. ground (arith, v.kept j);
    waits = λ j h. ground (arith, v.waits j);
    told = λ j h. ground (arith, v.told j);
  }

  pub resume-IsExclusive : (i : ℕ) → IsExclusive (record s { world = (resume_waiter s.world i).0 })
  unfolding resume_waiter
  resume-IsExclusive i = record {
    alive = ground (arith, v.alive);
    one = ground (arith, v.one);
    matched = λ j. ground (arith, v.alive, v.matched j, v.kept j);
    kept = λ j h. ground (arith, v.alive, v.kept j);
    waits = λ j h. ground (arith, v.waits j);
    told = λ j h. ground (arith, v.told j);
  }
