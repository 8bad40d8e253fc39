-- ===== src/ComputeExecutor.antt =====
-- include/voris/io/compute_executor.hpp. Each method holds the mutex of the state throughout, so that
-- it is one atomic step. A reservation refers to a state; states are told apart by a number, and `id`
-- is the executor's.
pub mod Capacity
pub mod Drain
mod Tests
use vio.Prelude.{
  ℕ, zero, suc, ◌+◌, ◌-◌, Bool, true, false, not, ◌&&◌, ◌||◌, Option, none, some, List, [], ◌∷◌,
  ◌++◌, length, inc, dec, leb, ltb, ◌==◌, if◌then◌else◌,
}
use vio.Error.{VoidResult, ok, err, make_error, closed, resource_exhausted, invalid_state}

-- `queue` holds the continuations by number.
pub record Executor : Type 0 where
  pub id : ℕ
  pub capacity : ℕ
  pub queue : List ℕ
  pub capacity_waiters : ℕ
  pub reserved_slots : ℕ
  pub shutting_down : Bool

-- `state` is what the pointer leads to.
pub record CapacityReservation : Type 0 where
  pub state : Option ℕ
  pub active : Bool

abbrev pub new : ℕ → ℕ → Executor
new id queue_limit = record {
  id = id;
  capacity = queue_limit;
  queue = [];
  capacity_waiters = 0;
  reserved_slots = 0;
  shutting_down = false;
}

abbrev pub empty_reservation : CapacityReservation
empty_reservation = record { state = none; active = false }

abbrev pub points_to : Option ℕ → ℕ → Bool
points_to none id = false
points_to (some i) id = i == id

abbrev pub owns : CapacityReservation → ℕ → Bool
owns r id = r.active && points_to r.state id

unfoldable pub has_capacity_locked : Executor → Bool
has_capacity_locked e =
    if e.capacity == 0 || leb e.capacity (length e.queue)
    then false
    else ltb e.reserved_slots (e.capacity - length e.queue)

unfoldable pub record_capacity_waiter_locked : Executor → Executor
record_capacity_waiter_locked e =
    let waiter_limit = if e.capacity == 0 then 1 else e.capacity in
    if ltb e.capacity_waiters waiter_limit
    then record e { capacity_waiters = inc e.capacity_waiters }
    else e

unfoldable pub submit : Executor → ℕ → Executor × VoidResult
submit e work =
    if e.shutting_down
    then (e, err (make_error closed "compute executor is shutting down"))
    else if not (has_capacity_locked e)
    then (
      record_capacity_waiter_locked e,
      err (make_error resource_exhausted "compute executor queue is full"),
    )
    else (record e { queue = e.queue ++ work ∷ []; capacity_waiters = 0 }, ok tt)

-- The error leaves the caller with no reservation.
unfoldable pub try_reserve_capacity : Executor → Executor × CapacityReservation × VoidResult
try_reserve_capacity e =
    if e.shutting_down
    then (e, empty_reservation, err (make_error closed "compute executor is shutting down"))
    else if not (has_capacity_locked e)
    then (
      record_capacity_waiter_locked e,
      empty_reservation,
      err (make_error resource_exhausted "compute executor capacity is unavailable"),
    )
    else (
      record e { reserved_slots = inc e.reserved_slots; capacity_waiters = 0 },
      record { state = some e.id; active = true },
      ok tt,
    )

-- `release`, also the destructor, of a reservation: of this executor, or of no or another one.
unfoldable pub release : Executor → CapacityReservation → Executor × CapacityReservation
release e r =
    if not (owns r e.id)
    then (e, empty_reservation)
    else if not e.shutting_down && not (e.reserved_slots == 0)
    then (
      record e { reserved_slots = dec e.reserved_slots; capacity_waiters = 0 },
      empty_reservation,
    )
    else (e, empty_reservation)

-- The reservation is a parameter by value: what is left of it is released on return, after the mutex
-- is.
unfoldable pub submit_reserved : Executor → CapacityReservation → ℕ → Executor × VoidResult
submit_reserved e r work =
    if e.shutting_down
    then (
      (release e (if owns r e.id then empty_reservation else r)).0,
      err (make_error closed "compute executor is shutting down"),
    )
    else if not (owns r e.id) || e.reserved_slots == 0 || leb e.capacity (length e.queue)
    then (
      (release e r).0,
      err (make_error invalid_state "invalid compute executor capacity reservation"),
    )
    else (
      record e {
        reserved_slots = dec e.reserved_slots;
        queue = e.queue ++ work ∷ [];
        capacity_waiters = 0;
      },
      ok tt,
    )

-- One round of `run_until_idle` up to where the mutex is released: the continuation to run.
abbrev pub take_front : Executor → List ℕ → Executor × Option ℕ
take_front e [] = (e, none)
take_front e (work ∷ queue) = (record e { queue = queue; capacity_waiters = 0 }, some work)

abbrev pub take : Executor → Executor × Option ℕ
take e = take_front e e.queue

-- `run_until_idle`: what a continuation does to the executor and to the rest of the program, when it
-- runs, is the parameter `runs`. The fuel bounds the rounds. The result has whether the loop ended and
-- how many continuations ran.
module _ {S : Type 0} (runs : Executor × S → ℕ → Executor × S) where
  unfoldable pub run_until_idle : ℕ → Executor × S → (Executor × S) × Bool × ℕ
  run_until_idle zero (e, s) = ((e, s), false, 0)
  run_until_idle (suc fuel) (e, s) =
      let (e', work) = take e in
      elim work [
        | none ↦ ((e', s), true, 0)
        | some w ↦
            let (after, done, ran) = run_until_idle fuel (runs (e', s) w) in (after, done, inc ran)
      ]

unfoldable pub request_shutdown : Executor → Executor
request_shutdown e = record e { shutting_down = true; capacity_waiters = 0; reserved_slots = 0 }

unfoldable pub shutdown : Executor → Executor
unfolding request_shutdown
shutdown e = request_shutdown e
