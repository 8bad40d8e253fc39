-- ===== src/ComputeExecutor/Tests.antt =====
-- An executor for two continuations, of which one slot is reserved.
use vio.Prelude.{
  ◌≡◌, ℕ, ◌+◌, ◌<◌, ap, ◌++◌, refl, true, false, some, none, List, [], ◌∷◌, length, length-append,
  arith,
}
use vio.Error.{ok}
use vio.ComputeExecutor.{
  Executor, CapacityReservation, submit, try_reserve_capacity, has_capacity_locked,
  record_capacity_waiter_locked, release, submit_reserved, run_until_idle,
}
use vio.ComputeExecutor.Drain.{RunsAll, taken_off, run_until_idle_drains}
use vio.ComputeExecutor.Capacity.{
  ExecutorCall, reserves, releases, takes, shuts_down, submits, submits_reserved, IsBacked, step,
  run, start, reservation, run-start-IsBacked, reservation_honoured,
}

-- A reservation of the executor 0, one of another executor, and an empty one.
abbrev own : CapacityReservation
own = record { state = some 0; active = true }

abbrev foreign : CapacityReservation
foreign = record { state = some 1; active = true }

abbrev empty : CapacityReservation
empty = record { state = none; active = false }

abbrev calls : List ExecutorCall
calls =
    reserves
    ∷ releases foreign
    ∷ submits 5
    ∷ submits 6
    ∷ submits_reserved empty 8
    ∷ releases empty
    ∷ []

abbrev used : Executor
used = (run (start 0 2) calls).executor

abbrev more_calls : List ExecutorCall
more_calls =
    submits_reserved own 7 ∷ takes ∷ reserves ∷ releases own ∷ releases own ∷ shuts_down ∷ []

run-start-IsBacked_example : IsBacked (run (start 0 2) (calls ++ more_calls))
run-start-IsBacked_example = run-start-IsBacked 0 2 (calls ++ more_calls) (omega arith)

reservation_honoured_example :
    ((submit_reserved used (reservation used) 7).1 ≡ ok tt)
    × ((submit_reserved used (reservation used) 7).0.queue ≡ used.queue ++ 7 ∷ [])
unfolding run step submit release submit_reserved try_reserve_capacity has_capacity_locked
    record_capacity_waiter_locked
reservation_honoured_example = reservation_honoured 0 2 calls 7 (omega arith) refl refl

refused : used.queue ≡ 5 ∷ []
unfolding run step submit release submit_reserved try_reserve_capacity has_capacity_locked
    record_capacity_waiter_locked
refused = refl

-- A continuation notes its number; one that comes first in a log that is still short submits another.
abbrev follow_up : List ℕ → List ℕ
follow_up [] = 9 ∷ []
follow_up (n ∷ log) = []

abbrev notes : Executor × List ℕ → ℕ → Executor × List ℕ
notes (e, log) work = (record e { queue = e.queue ++ follow_up log }, work ∷ log)

abbrev rank : Executor × List ℕ → ℕ
rank (e, log) = length e.queue + length (follow_up log)

notes_less :
    (e : Executor) (log : List ℕ) (work : ℕ) (queue : List ℕ)
    → e.queue ≡ work ∷ queue
    → rank (notes (taken_off e queue, log) work) < rank (e, log)
notes_less e [] work queue h = omega (arith, ap length h, length-append queue (9 ∷ []))
notes_less e (n ∷ log) work queue h = omega (arith, ap length h, length-append queue [])

run_until_idle_drains_example :
    (later : List ℕ) × ((run_until_idle notes 3 (used, [])).1 ≡ true)
    × RunsAll notes (used, []) (used.queue ++ later) (run_until_idle notes 3 (used, [])).0
    × ((run_until_idle notes 3 (used, [])).2 ≡ length (used.queue ++ later))
unfolding run step submit release submit_reserved try_reserve_capacity has_capacity_locked
    record_capacity_waiter_locked
run_until_idle_drains_example =
    run_until_idle_drains notes (λ x work. follow_up x.1) rank (λ e log work. refl) notes_less 3
      used [] (omega arith) (omega arith)

ran_twice : (run_until_idle notes 3 (used, [])).0.1 ≡ 9 ∷ 5 ∷ []
unfolding run step submit release submit_reserved try_reserve_capacity has_capacity_locked
    record_capacity_waiter_locked run_until_idle
ran_twice = refl
