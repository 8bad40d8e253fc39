-- ===== src/Cancellation/Once.antt =====
-- Callbacks run at most once, with the first reason, and never after they were unregistered.
use vio.Prelude.{
  ℕ, ◌+◌, ◌≤◌, ◌<◌, ◌≡◌, refl, ◌∙◌, Bool, true, false, none, some, List, [], ◌∷◌, ◌++◌, count,
  count-append, count-erase, min, ltb, ◌==◌, if◌then◌else◌, arith,
}
use vio.Cancellation.{
  CancellationState, CancellationReason, Registration, Invocation, new, unregister, late_call,
  register_callback, select, calls_of, request_cancellation,
}

-- What the holders of a source, its tokens and registrations may call. A registration that was
-- moved or emptied holds no slot.
pub data CancellationCall : Type 0 where
  registers : Bool → CancellationCall
  unregisters : Registration → CancellationCall
  requests : CancellationReason → CancellationCall

-- The shared state, and what has been called so far.
pub record Session : Type 0 where
  pub state : CancellationState
  pub invoked : List Invocation

abbrev pub start : Session
start = record { state = new; invoked = [] }

unfoldable pub step : Session → CancellationCall → Session
step s (registers callback) =
    let (state, r, calls) = register_callback s.state callback in
    record { state = state; invoked = s.invoked ++ calls }
step s (unregisters r) = record s { state = (unregister s.state r).0 }
step s (requests r) =
    let (state, won, calls) = request_cancellation s.state r in
    record { state = state; invoked = s.invoked ++ calls }

unfoldable pub run : Session → List CancellationCall → Session
run s [] = s
run s (c ∷ cs) = run (step s c) cs

-- How often a slot was called.
abbrev pub calls : ℕ → List Invocation → ℕ
calls slot [] = 0
calls slot (c ∷ cs) = (if c.slot == slot then 1 else 0) + calls slot cs

calls-append :
    (slot : ℕ) (xs ys : List Invocation) → calls slot (xs ++ ys) ≡ calls slot xs + calls slot ys
calls-append slot [] ys = omega arith
calls-append slot (x ∷ xs) ys = omega (arith, calls-append slot xs ys)

calls-calls_of :
    (slot : ℕ) (r : CancellationReason) (slots : List ℕ)
    → calls slot (calls_of r slots) ≡ count slot slots
unfolding calls_of
calls-calls_of slot r [] = refl
calls-calls_of slot r (x ∷ slots) = ground (arith, calls-calls_of slot r slots)

-- What a selection does to one slot: it is taken if it was registered and listed, and then once.
select-once :
    (slot : ℕ) (registered : ℕ → Bool) (slots : List ℕ)
    → let (registered', taken) = select registered slots in
      (count slot taken ≡ (if registered slot then min 1 (count slot slots) else 0))
      × (registered' slot ≡ (if count slot slots == 0 then registered slot else false))
unfolding select
select-once slot registered [] = (ground arith, ground arith)
select-once slot registered (x ∷ slots) =
    let ih = select-once slot (λ j. if x == j then false else registered j) slots in
    (ground (arith, ih), ground (arith, ih))

-- Of one slot. Registered: in the list once, and not called. Otherwise: not in the list, and called
-- at most once. Not yet allocated: none of these. After a request the list is empty.
pub record IsOnce (slot : ℕ) (s : Session) : Type 0 where
  pub listed : count slot s.state.callbacks ≡ (if s.state.registered slot then 1 else 0)
  pub once :
      calls slot s.invoked + (if s.state.registered slot then 1 else 0)
      ≤ (if ltb slot s.state.next_slot then 1 else 0)
  pub decided : s.state.requested ≡ true → s.state.registered slot ≡ false

register-IsOnce :
    (slot : ℕ) (s : Session) (b : Bool) → IsOnce slot s → IsOnce slot (step s (registers b))
unfolding step register_callback
register-IsOnce slot s b v = ground (
  arith,
  count-append slot s.state.callbacks (s.state.next_slot ∷ []),
  calls-append slot s.invoked [],
  calls-append slot s.invoked (late_call s.state.next_slot s.state.reason),
)

unregister-IsOnce :
    (slot : ℕ) (s : Session) (r : Registration)
    → IsOnce slot s
    → IsOnce slot (step s (unregisters r))
unfolding step unregister
unregister-IsOnce slot s none v = v
unregister-IsOnce slot s (some i) v = ground (arith, count-erase slot i s.state.callbacks)

request-IsOnce :
    (slot : ℕ) (s : Session) (r : CancellationReason)
    → IsOnce slot s
    → IsOnce slot (step s (requests r))
unfolding step request_cancellation
request-IsOnce slot s r v =
    let taken = (select s.state.registered s.state.callbacks).1 in
    ground (
      arith,
      calls-append slot s.invoked [],
      calls-append slot s.invoked (calls_of r taken),
      calls-calls_of slot r taken,
      select-once slot s.state.registered s.state.callbacks,
    )

step-IsOnce :
    (slot : ℕ) (s : Session) (c : CancellationCall) → IsOnce slot s → IsOnce slot (step s c)
step-IsOnce slot s (registers b) v = register-IsOnce slot s b v
step-IsOnce slot s (unregisters r) v = unregister-IsOnce slot s r v
step-IsOnce slot s (requests r) v = request-IsOnce slot s r v

run-IsOnce :
    (slot : ℕ) (s : Session) (cs : List CancellationCall) → IsOnce slot s → IsOnce slot (run s cs)
unfolding run
run-IsOnce slot s [] v = v
run-IsOnce slot s (c ∷ cs) v = run-IsOnce slot (step s c) cs (step-IsOnce slot s c v)

start-IsOnce : (slot : ℕ) → IsOnce slot start
unfolding new
start-IsOnce slot = ground arith

-- Whatever is registered, unregistered and requested on a new source, in any order, no callback is
-- called more than once, and one that is still registered has not been called.
pub called_at_most_once :
    (slot : ℕ) (cs : List CancellationCall)
    → let s = run start cs in calls slot s.invoked + (if s.state.registered slot then 1 else 0) ≤ 1
called_at_most_once slot cs =
    let v : IsOnce slot (run start cs) = run-IsOnce slot start cs (start-IsOnce slot) in
    ground (arith, v)

-- A slot that is out of use: allocated, and not registered.
abbrev IsRetired : ℕ → Session → Type 0
IsRetired slot s = (slot < s.state.next_slot) × (s.state.registered slot ≡ false)

step-IsRetired :
    (slot : ℕ) (s : Session) (c : CancellationCall)
    → IsOnce slot s
    → IsRetired slot s
    → IsRetired slot (step s c) × (calls slot (step s c).invoked ≡ calls slot s.invoked)
step-IsRetired slot s (registers b) v h =
    unfold step register_callback in
    ground (
      arith,
      calls-append slot s.invoked [],
      calls-append slot s.invoked (late_call s.state.next_slot s.state.reason),
    )
step-IsRetired slot s (unregisters none) v h = unfold step unregister in ground arith
step-IsRetired slot s (unregisters (some i)) v h = unfold step unregister in ground arith
step-IsRetired slot s (requests r) v h =
    let taken = (select s.state.registered s.state.callbacks).1 in
    unfold step request_cancellation in
    ground (
      arith,
      calls-append slot s.invoked [],
      calls-append slot s.invoked (calls_of r taken),
      calls-calls_of slot r taken,
      select-once slot s.state.registered s.state.callbacks,
    )

run-IsRetired :
    (slot : ℕ) (s : Session) (cs : List CancellationCall)
    → IsOnce slot s
    → IsRetired slot s
    → calls slot (run s cs).invoked ≡ calls slot s.invoked
unfolding run
run-IsRetired slot s [] v h = refl
run-IsRetired slot s (c ∷ cs) v h =
    let (h', e) = step-IsRetired slot s c v h in
    run-IsRetired slot (step s c) cs (step-IsOnce slot s c v) h' ∙ e

unregister_retires :
    (slot : ℕ) (s : Session)
    → IsOnce slot s
    → s.state.registered slot ≡ true
    → IsRetired slot (step s (unregisters (some slot)))
      × (calls slot (step s (unregisters (some slot))).invoked ≡ 0)
unfolding step unregister
unregister_retires slot s v r = ((ground (arith, v), ground arith), ground (arith, v))

-- A callback that is unregistered while it is registered is never called: not before, and not by any
-- later calls.
pub unregistered_never_called :
    (slot : ℕ) (before after : List CancellationCall)
    → (run start before).state.registered slot ≡ true
    → calls slot (run (step (run start before) (unregisters (some slot))) after).invoked ≡ 0
unregistered_never_called slot before after r =
    let s = run start before in
    let v : IsOnce slot s = run-IsOnce slot start before (start-IsOnce slot) in
    let (h, e) = unregister_retires slot s v r in
    run-IsRetired slot _ after (step-IsOnce slot s (unregisters (some slot)) v) h ∙ e
