-- ===== src/BoundedQueue/Fifo.antt =====
-- The bounded queue against the sequence of the values that it accepts and gives back.
use mathlib.Core.List.{append_assoc}
use vio.Prelude.{ℕ, ◌≡◌, refl, Option, none, some, List, [], ◌∷◌, ◌++◌, arith}
use vio.Error.{VoidResult, ok, err}
use vio.BoundedQueue.{BoundedQueue, new, try_push, pop}
use vio.BoundedQueue.Invariant.{IsBounded, try_push-IsBounded, pop-IsBounded}

-- What a caller may do to a queue.
pub data QueueCall {ℓ} (A : Type ℓ) : Type ℓ where
  pushes : A → QueueCall A
  pops : QueueCall A

-- A queue, with what it has accepted and what it has given back, oldest first.
pub record History {ℓ} (A : Type ℓ) : Type ℓ where
  pub queue : BoundedQueue A
  pub accepted : List A
  pub taken : List A

module _ {ℓ} {A : Type ℓ} where
  abbrev log_push : History A → A → BoundedQueue A × VoidResult → History A
  log_push h a (q, ok _) = record h { queue = q; accepted = h.accepted ++ a ∷ [] }
  log_push h a (q, err _) = record h { queue = q }

  abbrev log_pop : History A → BoundedQueue A × Option A → History A
  log_pop h (q, none) = record h { queue = q }
  log_pop h (q, some a) = record h { queue = q; taken = h.taken ++ a ∷ [] }

  unfoldable pub step : History A → QueueCall A → History A
  step h (pushes a) = log_push h a (try_push h.queue a)
  step h pops = log_pop h (pop h.queue)

  unfoldable pub run : History A → List (QueueCall A) → History A
  run h [] = h
  run h (c ∷ cs) = run (step h c) cs

  -- What was accepted is what was taken, followed by what is queued.
  abbrev pub IsFifo : History A → Type ℓ
  IsFifo h = h.accepted ≡ h.taken ++ h.queue.items

  pop-IsFifo :
      (h : History A) (xs : List A)
      → h.queue.items ≡ xs
      → IsFifo h
      → IsFifo (log_pop h (pop h.queue))
  unfolding pop
  pop-IsFifo h [] e f = ground arith
  pop-IsFifo h (a ∷ rest) e f = ground (arith, append_assoc h.taken (a ∷ []) rest)

  step-IsFifo : (h : History A) (c : QueueCall A) → IsFifo h → IsFifo (step h c)
  unfolding step try_push
  step-IsFifo h (pushes a) f = ground (arith, append_assoc h.taken h.queue.items (a ∷ []))
  step-IsFifo h pops f = pop-IsFifo h h.queue.items refl f

  -- From any queue and any calls, the accepted values are the taken values followed by the queued
  -- ones: none is lost, made up, repeated or overtaken.
  pub run-IsFifo : (h : History A) (cs : List (QueueCall A)) → IsFifo h → IsFifo (run h cs)
  unfolding run
  run-IsFifo h [] f = f
  run-IsFifo h (c ∷ cs) f = run-IsFifo (step h c) cs (step-IsFifo h c f)

  step-IsBounded :
      (h : History A) (c : QueueCall A) → IsBounded h.queue → IsBounded (step h c).queue
  unfolding step
  step-IsBounded h (pushes a) v = ground (arith, try_push-IsBounded h.queue a v)
  step-IsBounded h pops v = ground (arith, pop-IsBounded h.queue v)

  run-IsBounded :
      (h : History A) (cs : List (QueueCall A)) → IsBounded h.queue → IsBounded (run h cs).queue
  unfolding run
  run-IsBounded h [] v = v
  run-IsBounded h (c ∷ cs) v = run-IsBounded (step h c) cs (step-IsBounded h c v)

  -- After any calls on a new queue: it holds no more than its capacity, and the pressure that it
  -- reports is at most its capacity, or 1 where the capacity is 0.
  pub run-new-IsBounded :
      (capacity : ℕ) (cs : List (QueueCall A))
      → IsBounded (run (record { queue = new capacity; accepted = []; taken = [] }) cs).queue
  unfolding new
  run-new-IsBounded capacity cs =
      run-IsBounded _ cs (record { within = omega arith; pressure = omega arith })
