-- ===== src/Cancellation.antt =====
-- include/voris/io/cancellation.hpp and src/cancellation.cpp. A source, its tokens and registrations
-- share one state, which every method reads or changes under the state's mutex; so a method is one
-- step. What a method calls after it has released the mutex is in its result, in order.
pub mod Once
pub mod FirstReason
mod Tests
use vio.Prelude.{
  ℕ, suc, Bool, true, false, not, Option, none, some, List, [], ◌∷◌, ◌++◌, erase, ◌==◌,
  if◌then◌else◌,
}

pub data CancellationReason : Type 0 where
  manual deadline scope_shutdown runtime_shutdown backend_abort : CancellationReason

-- A callback slot is the number of its allocation; the user's callback goes by that number too.
-- `registered` is the flag of each slot.
pub record CancellationState : Type 0 where
  pub requested : Bool
  pub reason : Option CancellationReason
  pub callbacks : List ℕ
  pub registered : ℕ → Bool
  pub next_slot : ℕ

-- `none` is a registration that holds no slot.
abbrev pub Registration : Type 0
Registration = Option ℕ

abbrev pub set_registered : CancellationState → ℕ → Bool → CancellationState
set_registered s slot b = record s { registered = λ j. if slot == j then b else s.registered j }

unfoldable pub new : CancellationState
new = record {
  requested = false;
  reason = none;
  callbacks = [];
  registered = λ _. false;
  next_slot = 0;
}

unregister_slot : CancellationState → Registration → CancellationState
unregister_slot s none = s
unregister_slot s (some slot) =
    if not (s.registered slot)
    then s
    else record (set_registered s slot false) { callbacks = erase slot s.callbacks }

-- The registration itself is emptied.
unfoldable pub unregister : CancellationState → Registration → CancellationState × Registration
unfolding unregister_slot
unregister s r = (unregister_slot s r, none)

unfoldable pub active : CancellationState → Registration → Bool
active s none = false
active s (some slot) = s.registered slot

-- A token may hold no state.
abbrev pub Token : Type 0
Token = Option CancellationState

unfoldable pub can_be_cancelled : Token → Bool
can_be_cancelled none = false
can_be_cancelled (some s) = true

unfoldable pub cancellation_requested : Token → Bool
cancellation_requested none = false
cancellation_requested (some s) = s.requested

unfoldable pub reason : Token → Option CancellationReason
reason none = none
reason (some s) = s.reason

-- What is called, and with which reason.
pub record Invocation : Type 0 where
  pub slot : ℕ
  pub given : CancellationReason

abbrev pub late_call : ℕ → Option CancellationReason → List Invocation
late_call slot none = []
late_call slot (some r) = record { slot = slot; given = r } ∷ []

register_slot : CancellationState → CancellationState × Registration × List Invocation
register_slot s =
    let slot = s.next_slot in
    let s' = record (set_registered s slot (not s.requested)) { next_slot = suc slot } in
    if not s.requested
    then (record s' { callbacks = s.callbacks ++ slot ∷ [] }, some slot, [])
    else (s', none, late_call slot s.reason)

-- `callback` is whether the callback is not empty.
unfoldable pub register_callback :
    CancellationState → Bool → CancellationState × Registration × List Invocation
unfolding register_slot
register_callback s callback = if not callback then (s, none, []) else register_slot s

-- A token without a state registers nothing.
unfoldable pub register_on_token : Token → Bool → Token × Registration × List Invocation
register_on_token none callback = (none, none, [])
register_on_token (some s) callback =
    let (s', r, calls) = register_callback s callback in (some s', r, calls)

-- The loop of `request_cancellation` over the callbacks: those still registered are taken.
unfoldable pub select : (ℕ → Bool) → List ℕ → (ℕ → Bool) × List ℕ
select registered [] = (registered, [])
select registered (slot ∷ slots) =
    let here = registered slot in
    let (registered', taken) = select (λ j. if slot == j then false else registered j) slots in
    (registered', if here then slot ∷ taken else taken)

unfoldable pub calls_of : CancellationReason → List ℕ → List Invocation
calls_of r [] = []
calls_of r (slot ∷ slots) = record { slot = slot; given = r } ∷ calls_of r slots

unfoldable pub request_cancellation :
    CancellationState → CancellationReason → CancellationState × Bool × List Invocation
request_cancellation s r =
    let (registered, taken) = select s.registered s.callbacks in
    if s.requested then (s, false, []) else (
      record s { requested = true; reason = some r; callbacks = []; registered = registered },
      true,
      calls_of r taken,
    )
