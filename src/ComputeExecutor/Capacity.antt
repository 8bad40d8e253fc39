-- ===== src/ComputeExecutor/Capacity.antt =====
-- Slots that were reserved are there when they are used.
use vio.Prelude.{
  ℕ, suc, ◌+◌, ◌-◌, ◌≤◌, ◌≡◌, refl, Bool, true, false, ◌&&◌, none, some, List, [], ◌∷◌, ◌++◌,
  length, length-append, size_max, max, ◌==◌, if◌then◌else◌, arith,
}
use vio.Error.{ok}
use vio.ComputeExecutor.{
  Executor, CapacityReservation, new, has_capacity_locked, record_capacity_waiter_locked, submit,
  try_reserve_capacity, release, submit_reserved, take_front, take, request_shutdown,
}

pub data ExecutorCall : Type 0 where
  reserves takes shuts_down : ExecutorCall
  releases : CapacityReservation → ExecutorCall
  submits : ℕ → ExecutorCall
  submits_reserved : CapacityReservation → ℕ → ExecutorCall

-- An executor with the number of its reservations that are active.
pub record Session : Type 0 where
  pub executor : Executor
  pub held : ℕ

-- An active reservation of the executor.
abbrev pub reservation : Executor → CapacityReservation
reservation e = record { state = some e.id; active = true }

-- Whether a reservation stands for a slot of the executor: others are empty, used up or released, or
-- of another executor.
abbrev pub counts : CapacityReservation → Executor → Bool
counts r e = elim r.state [ none ↦ false | some id ↦ id == e.id && r.active ]

-- A session after a reservation was given back.
abbrev pub gave_back : Session → CapacityReservation → Executor → Session
gave_back s r e = record { executor = e; held = if counts r s.executor then s.held - 1 else s.held }

-- Any reservation may be released or used, but for one that stands for a slot where there is none.
unfoldable pub step : Session → ExecutorCall → Session
step s reserves =
    let (e, r, result) = try_reserve_capacity s.executor in
    record { executor = e; held = if counts r s.executor then suc s.held else s.held }
step s (releases r) =
    if counts r s.executor && s.held == 0 then s else gave_back s r (release s.executor r).0
step s takes = record s { executor = (take s.executor).0 }
step s shuts_down = record s { executor = request_shutdown s.executor }
step s (submits work) = record s { executor = (submit s.executor work).0 }
step s (submits_reserved r work) =
    if counts r s.executor && s.held == 0
    then s
    else gave_back s r (submit_reserved s.executor r work).0

unfoldable pub run : Session → List ExecutorCall → Session
run s [] = s
run s (c ∷ cs) = run (step s c) cs

pub record IsBacked (s : Session) : Type 0 where
  pub small : s.executor.capacity ≤ size_max
  pub fits : length s.executor.queue + s.executor.reserved_slots ≤ s.executor.capacity
  pub backed : s.executor.reserved_slots ≡ (if s.executor.shutting_down then 0 else s.held)
  pub pressure : s.executor.capacity_waiters ≤ max 1 s.executor.capacity

take_front-IsBacked :
    (s : Session) (queue : List ℕ)
    → length queue + s.executor.reserved_slots ≤ s.executor.capacity
    → IsBacked s
    → IsBacked (record s { executor = (take_front s.executor queue).0 })
take_front-IsBacked s [] h v = v
take_front-IsBacked s (work ∷ queue) h v = ground (arith, v.small, v.backed)

step-IsBacked : (s : Session) (c : ExecutorCall) → IsBacked s → IsBacked (step s c)
unfolding step
step-IsBacked s reserves v =
    unfold try_reserve_capacity has_capacity_locked record_capacity_waiter_locked in ground arith
step-IsBacked s (releases r) v = unfold release in ground arith
step-IsBacked s takes v = take_front-IsBacked s s.executor.queue v.fits v
step-IsBacked s shuts_down v = unfold request_shutdown in ground arith
step-IsBacked s (submits work) v =
    unfold submit has_capacity_locked record_capacity_waiter_locked in
    ground (arith, length-append s.executor.queue (work ∷ []))
step-IsBacked s (submits_reserved r work) v =
    unfold submit_reserved release in ground (arith, length-append s.executor.queue (work ∷ []))

run-IsBacked : (s : Session) (cs : List ExecutorCall) → IsBacked s → IsBacked (run s cs)
unfolding run
run-IsBacked s [] v = v
run-IsBacked s (c ∷ cs) v = run-IsBacked (step s c) cs (step-IsBacked s c v)

abbrev pub start : ℕ → ℕ → Session
start id queue_limit = record { executor = new id queue_limit; held = 0 }

-- A new executor, whose capacity a counter holds, after any calls: the queue and the reserved slots
-- together stay within the capacity; the reserved slots are as many as the active reservations of this
-- executor until a shutdown, and none after it, whatever reservations are released or come with work; and the recorded pressure stays within the capacity, or within one.
pub run-start-IsBacked :
    (id queue_limit : ℕ) (cs : List ExecutorCall)
    → queue_limit ≤ size_max
    → IsBacked (run (start id queue_limit) cs)
run-start-IsBacked id queue_limit cs h =
    run-IsBacked (start id queue_limit) cs
      (record { small = h; fits = omega arith; backed = refl; pressure = omega arith })

honours :
    (s : Session) (work : ℕ)
    → IsBacked s
    → (s.held == 0) ≡ false
    → s.executor.shutting_down ≡ false
    → let (after, result) = submit_reserved s.executor (reservation s.executor) work in
      (result ≡ ok tt) × (after.queue ≡ s.executor.queue ++ work ∷ [])
unfolding submit_reserved
honours s work v h e = ground (arith, v.backed, v.fits)

-- After any calls on a new executor, with any reservations, whose capacity a counter holds: as long as
-- it is not shutting down and a slot is reserved, work that comes with an active reservation of this
-- executor is accepted and queued last.
pub reservation_honoured :
    (id queue_limit : ℕ) (cs : List ExecutorCall) (work : ℕ)
    → queue_limit ≤ size_max
    → ((run (start id queue_limit) cs).held == 0) ≡ false
    → (run (start id queue_limit) cs).executor.shutting_down ≡ false
    → let e = (run (start id queue_limit) cs).executor in
      let (after, result) = submit_reserved e (reservation e) work in
      (result ≡ ok tt) × (after.queue ≡ e.queue ++ work ∷ [])
reservation_honoured id queue_limit cs work h held live =
    honours (run (start id queue_limit) cs) work (run-start-IsBacked id queue_limit cs h) held live
