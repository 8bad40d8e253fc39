-- ===== src/WhenAny.antt =====
-- include/voris/io/when_any.hpp: the state that the children of `when_any` and its parent share. Each
-- method holds the mutex for what it does to the state, so that it is one step; the request that
-- cancels the losers follows the step of the winner. Results are of one type, with the index that tells
-- the alternatives of the variant apart, and a coroutine and a scheduler are numbers.
pub mod Winner
mod Tests
use Prim.Native.String.{String}
use vio.Prelude.{ℕ, suc, Bool, true, false, not, ◌&&◌, ◌||◌, Option, none, some, if◌then◌else◌}
use vio.Error.{Result, err, make_error, invalid_state}

-- `cancellations` counts the requests to `losers_source_`.
pub record WhenAnyState (A : Type 0) : Type 0 where
  pub winner : Option (Result A)
  pub winner_index : ℕ
  pub parent : Option ℕ
  pub parent_scheduler : Option ℕ
  pub detached : Bool
  pub cancellations : ℕ

abbrev pub is_some {ℓ} : {B : Type ℓ} → Option B → Bool
is_some none = false
is_some (some b) = true

module _ {A : Type 0} where
  abbrev pub new : WhenAnyState A
  new = record {
    winner = none;
    winner_index = 0;
    parent = none;
    parent_scheduler = none;
    detached = false;
    cancellations = 0;
  }

  -- The scheduler that is given the parent's resumption, if there is one.
  unfoldable pub publish : WhenAnyState A → ℕ → Result A → WhenAnyState A × Option ℕ
  publish s index result = if is_some s.winner then (s, none) else (
    record s { winner = some result; winner_index = index; cancellations = suc s.cancellations },
    if not s.detached && is_some s.parent then s.parent_scheduler else none,
  )

  abbrev pub has_winner : WhenAnyState A → Bool
  has_winner s = is_some s.winner

  unfoldable pub install_parent : WhenAnyState A → ℕ → ℕ → WhenAnyState A × Bool
  install_parent s continuation scheduler =
      if s.detached || is_some s.winner
      then (s, false)
      else (record s { parent = some continuation; parent_scheduler = some scheduler }, true)

  unfoldable pub publish_invalid : WhenAnyState A → String → WhenAnyState A
  publish_invalid s diagnostic = if is_some s.winner then s else record s {
    winner = some (err (make_error invalid_state diagnostic));
    winner_index = 0;
    cancellations = suc s.cancellations;
  }

  unfoldable pub detach_parent : WhenAnyState A → WhenAnyState A
  detach_parent s = record s { detached = true; parent = none; parent_scheduler = none }

  unfoldable pub take_winner : WhenAnyState A → ℕ × Result A
  take_winner s = elim s.winner [
    | none ↦ (0, err (make_error invalid_state "when_any resumed without a winner"))
    | some r ↦ (s.winner_index, r)
  ]

  -- The parent, which is claimed once.
  unfoldable pub claim_parent : WhenAnyState A → WhenAnyState A × Option ℕ
  claim_parent s =
      if s.detached || not (is_some s.parent) || not (is_some s.parent_scheduler)
      then (s, none)
      else (record s { parent = none; parent_scheduler = none }, s.parent)

  -- `await_suspend` of the awaiter, with the current scheduler, if there is one.
  unfoldable pub await_suspend : WhenAnyState A → ℕ → Option ℕ → WhenAnyState A × Bool
  await_suspend s continuation none =
      (publish_invalid s "when_any await without a current scheduler", false)
  await_suspend s continuation (some scheduler) = install_parent s continuation scheduler
