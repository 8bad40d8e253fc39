-- ===== src/BoundedQueue.antt =====
-- include/voris/io/detail/bounded_queue.hpp. Every method holds the queue's mutex throughout, so
-- that a method is one step on the record.
pub mod Invariant
pub mod Fifo
mod Tests
use vio.Prelude.{
  ℕ, zero, suc, ◌+◌, Bool, true, false, ◌||◌, Option, none, some, List, [], ◌∷◌, ◌++◌, length, leb,
  ltb, ◌==◌, if◌then◌else◌, is_empty,
}
use vio.Error.{Result, VoidResult, ok, err, make_error, resource_exhausted}

pub record BoundedQueue {ℓ} (A : Type ℓ) : Type ℓ where
  pub capacity : ℕ
  pub items : List A
  pub capacity_waiters : ℕ

module _ {ℓ} {A : Type ℓ} where
  unfoldable pub new : ℕ → BoundedQueue A
  new capacity = record { capacity = capacity; items = []; capacity_waiters = 0 }

  abbrev pub size : BoundedQueue A → ℕ
  size q = length q.items

  abbrev pub empty : BoundedQueue A → Bool
  empty q = is_empty q.items

  abbrev pub full : BoundedQueue A → Bool
  full q = leb q.capacity (size q)

  -- The increment is guarded by the limit, so it does not wrap.
  record_full_pressure_locked : BoundedQueue A → BoundedQueue A
  record_full_pressure_locked q =
      let pressure_limit = if q.capacity == 0 then 1 else q.capacity in
      if ltb q.capacity_waiters pressure_limit
      then record q { capacity_waiters = suc q.capacity_waiters }
      else q

  unfoldable pub try_push : BoundedQueue A → A → BoundedQueue A × VoidResult
  unfolding record_full_pressure_locked
  try_push q value =
      if q.capacity == 0 || leb q.capacity (size q)
      then (
        record_full_pressure_locked q,
        err (make_error resource_exhausted "bounded queue is full"),
      )
      else (record q { items = q.items ++ value ∷ []; capacity_waiters = 0 }, ok tt)

  take_front : BoundedQueue A → List A → BoundedQueue A × Option A
  take_front q [] = (q, none)
  take_front q (value ∷ rest) = (record q { items = rest; capacity_waiters = 0 }, some value)

  unfoldable pub pop : BoundedQueue A → BoundedQueue A × Option A
  unfolding take_front
  pop q = take_front q q.items
