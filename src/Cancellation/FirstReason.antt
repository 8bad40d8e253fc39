-- ===== src/Cancellation/FirstReason.antt =====
-- The first request wins, and its reason is the one that every callback gets.
use vio.Prelude.{◌≡◌, Bool, true, false, ◌||◌, some, List, [], ◌∷◌}
use vio.Cancellation.{CancellationReason, Invocation}
use vio.Cancellation.Once.{Session, CancellationCall, requests}

-- Every call has been made with the reason `r`.
abbrev pub AllGiven : CancellationReason → List Invocation → Type 0
AllGiven r [] = Unit
AllGiven r (c ∷ cs) = (c.given ≡ r) × AllGiven r cs

-- The first request has been made, with the reason `r`.
record IsWon (r : CancellationReason) (s : Session) : Type 0 where
  requested : s.state.requested ≡ true
  reason : s.state.reason ≡ some r
  given : AllGiven r s.invoked

-- No request has been made.
record IsOpen (s : Session) : Type 0 where
  requested : s.state.requested ≡ false
  invoked : s.invoked ≡ []

abbrev is_request : CancellationCall → Bool
is_request (requests r) = true
is_request _ = false

-- Whether a request is among the calls.
abbrev pub has_request : List CancellationCall → Bool
has_request [] = false
has_request (c ∷ cs) = is_request c || has_request cs
