-- ===== src/BoundedQueue/Invariant.antt =====
-- The bounds of the bounded queue.
use vio.Prelude.{◌≤◌, [], ◌∷◌, length, length-append, max, arith}
use vio.BoundedQueue.{BoundedQueue, try_push, pop}

pub record IsBounded {ℓ} {A : Type ℓ} (q : BoundedQueue A) : Type 0 where
  pub within : length q.items ≤ q.capacity
  pub pressure : q.capacity_waiters ≤ max 1 q.capacity

module _ {ℓ} {A : Type ℓ} where
  pub try_push-IsBounded : (q : BoundedQueue A) (a : A) → IsBounded q → IsBounded (try_push q a).0
  unfolding try_push
  try_push-IsBounded q a v = ground (arith, length-append q.items (a ∷ []))

  pub pop-IsBounded : (q : BoundedQueue A) → IsBounded q → IsBounded (pop q).0
  unfolding pop
  pop-IsBounded q v = ground arith
