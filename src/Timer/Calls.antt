-- ===== src/Timer/Calls.antt =====
-- What the callers of a heap do: adding and cancelling timers.
use vio.Prelude.{
  ℕ, ◌<◌, ◌≡◌, refl, ◌∙◌, ap, sym, Bool, true, false, not, ◌&&◌, ◌||◌, Option, none, some, arith,
  ◌==◌, if_rule, if◌then◌else◌, Option-cases, inl, inr, inc, size_max,
}
use vio.Prelude.Int.{ℤ}
use vio.Timer.{TimerHeap, TimerHandle, put_last, add, valid, cancel_at, cancel}
use vio.Timer.Index.{IsIndexed, deadline_at, deadline_of, Kept}
use vio.Timer.Order.{IsHeap}
use vio.Timer.Up.{UpReady, sift_up_restores}
use vio.Timer.Erase.{IsTimers, erase_at-Removes}

-- The identifiers in use were given out before the next one.
abbrev pub IsFresh : TimerHeap → Type 0
IsFresh t = (id : ℕ) (d : ℤ) → deadline_of t id ≡ some d → id < t.next_id

-- A heap in order, whose index is right, and whose next identifier is not in use.
pub record IsSound (t : TimerHeap) : Type 0 where
  pub timers : IsTimers t
  pub fresh : IsFresh t

module _ (t : TimerHeap) (deadline : ℤ) (v : IsSound t) where
  held_fresh : (i : ℕ) → i < t.size → (t.entries i).id < t.next_id
  held_fresh i h =
      v.fresh (t.entries i).id (t.entries i).deadline
        (ap (deadline_at t) (v.timers.indexed.held i h))

  put_last-UpReady : UpReady (put_last t deadline) t.size
  unfolding put_last
  put_last-UpReady = record {
    inside = ground arith;
    edges = λ c p q r. ground (arith, v.timers.heap c);
    bridged = λ c p q r s. ground arith;
  }

  put_last-IsIndexed : IsIndexed (put_last t deadline)
  unfolding put_last
  put_last-IsIndexed = record {
    held = λ i p. ground (arith, v.timers.indexed.held i, held_fresh i);
    found = λ id i e. ground (arith, v.timers.indexed.found id i, held_fresh i);
  }

  put_last-timers :
      (j : ℕ)
      → deadline_of (put_last t deadline) j
        ≡ (if t.next_id == j then some deadline else deadline_of t j)
  unfolding put_last
  put_last-timers j = elim (Option-cases (t.indices j)) [
    | inl e ↦ ground arith
    | inr (i, e) ↦ ground (arith, v.timers.indexed.found j i, held_fresh i)
  ]

  add_restores : IsHeap (add t deadline).0 × Kept (put_last t deadline) (add t deadline).0
  unfolding add
  add_restores = sift_up_restores (put_last t deadline) t.size put_last-UpReady put_last-IsIndexed

  pub add-timers :
      (j : ℕ)
      → deadline_of (add t deadline).0 j
        ≡ (if t.next_id == j then some deadline else deadline_of t j)
  add-timers j = add_restores.1.1.timers j ∙ put_last-timers j

  pub add-next : (add t deadline).0.next_id ≡ inc t.next_id
  unfolding put_last
  add-next = add_restores.1.1.next

  pub add-owner : (add t deadline).0.owner_id ≡ t.owner_id
  unfolding put_last
  add-owner = add_restores.1.1.owner

  pub add-IsSound : t.next_id < size_max → IsSound (add t deadline).0
  add-IsSound small = record {
    timers = record { heap = add_restores.0; indexed = add_restores.1.0 };
    fresh = λ id d e. ground (arith, add-timers id, add-next, v.fresh id d);
  }

abbrev pub is_live : Option ℤ → Bool
is_live none = false
is_live (some d) = true

-- Whether a handle is of a timer of the heap.
abbrev pub refers_to : TimerHeap → TimerHandle → Bool
refers_to t h = valid h && h.owner_id == t.owner_id && is_live (deadline_of t h.id)

-- What cancelling does: the timer to which the handle refers goes, and no other.
pub record IsCancelled (t : TimerHeap) (h : TimerHandle) (result : TimerHeap × Bool) : Type 0 where
  pub answer : result.1 ≡ refers_to t h
  pub timers :
      (j : ℕ)
      → deadline_of result.0 j ≡ (if refers_to t h && h.id == j then none else deadline_of t j)
  pub sound : IsSound result.0
  pub owner : result.0.owner_id ≡ t.owner_id
  pub next : result.0.next_id ≡ t.next_id

not-IsCancelled :
    (t : TimerHeap) (h : TimerHandle)
    → IsSound t
    → refers_to t h ≡ false
    → IsCancelled t h (t, false)
not-IsCancelled t h v e = record {
  answer = sym e;
  timers = λ j. ground arith;
  sound = v;
  owner = refl;
  next = refl;
}

cancel_at-IsCancelled :
    (t : TimerHeap) (h : TimerHandle) (o : Option ℕ)
    → IsSound t
    → t.indices h.id ≡ o
    → (not (valid h) || not (h.owner_id == t.owner_id)) ≡ false
    → IsCancelled t h (cancel_at t o)
cancel_at-IsCancelled t h none v e own = not-IsCancelled t h v (ground arith)
cancel_at-IsCancelled t h (some i) v e own =
    let (inside, same) = v.timers.indexed.found h.id i e in
    let (w, r) = erase_at-Removes t i v.timers inside in
    record {
      answer = ground arith;
      timers = λ j. ground (arith, r.timers j);
      sound = record {
        timers = w;
        fresh = λ id d p. ground (arith, r.timers id, r.next, v.fresh id d);
      };
      owner = r.owner;
      next = r.next;
    }

pub cancel-IsCancelled :
    (t : TimerHeap) (h : TimerHandle) → IsSound t → IsCancelled t h (cancel t h)
unfolding cancel
cancel-IsCancelled t h v =
    if_rule (IsCancelled t h) (not (valid h) || not (h.owner_id == t.owner_id))
      (λ foreign. not-IsCancelled t h v (ground arith))
      (λ own. cancel_at-IsCancelled t h (t.indices h.id) v refl own)
