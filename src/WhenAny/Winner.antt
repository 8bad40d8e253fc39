-- ===== src/WhenAny/Winner.antt =====
-- The children publish, the parent waits, and resumptions run, in any order.
use vio.Prelude.{
  ℕ, suc, ◌-◌, ◌≤◌, ◌≡◌, ◌⊎◌, inl, inr, refl, Bool, true, false, not, ◌&&◌, ◌||◌, Option, none,
  some, List, [], ◌∷◌, ◌==◌, if◌then◌else◌, arith,
}
use vio.Error.{Result, err, make_error, invalid_state}
use vio.WhenAny.{
  WhenAnyState, is_some, new, publish, has_winner, install_parent, publish_invalid, detach_parent,
  take_winner, claim_parent, await_suspend,
}

-- `awaits` has the parent, the current scheduler, and whether `await_ready` is asked at that time or was
-- asked before there was a winner.
pub data WhenAnyEvent (A : Type 0) : Type 0 where
  publishes : ℕ → Result A → WhenAnyEvent A
  awaits : ℕ → Option ℕ → Bool → WhenAnyEvent A
  resumes abandons : WhenAnyEvent A

-- A state with the first result that was published or made up, whether the parent has awaited, whether
-- it is suspended or its awaiter is gone, the resumptions that are scheduled, how often the parent was
-- resumed, and what it took.
pub record Session (A : Type 0) : Type 0 where
  pub state : WhenAnyState A
  pub first : Option (ℕ × Result A)
  pub taken : Bool
  pub suspended : Bool
  pub gone : Bool
  pub pending : ℕ
  pub resumptions : ℕ
  pub received : Option (ℕ × Result A)

module _ {A : Type 0} where
  abbrev pub start : Session A
  start = record {
    state = new;
    first = none;
    taken = false;
    suspended = false;
    gone = false;
    pending = 0;
    resumptions = 0;
    received = none;
  }

  abbrev pub or_first : Option (ℕ × Result A) → ℕ × Result A → Option (ℕ × Result A)
  or_first none result = some result
  or_first (some r) result = some r

  -- The parent goes on with the winner, and its awaiter goes.
  abbrev pub goes_on : Session A → WhenAnyState A → Session A
  goes_on s t = record s {
    state = detach_parent t;
    taken = true;
    gone = true;
    received = some (take_winner t);
  }

  abbrev pub resumed : Session A → WhenAnyState A × Option ℕ → Session A
  resumed s (t, none) = record s { state = t; pending = s.pending - 1 }
  resumed s (t, some parent) = record (goes_on s t) {
    pending = s.pending - 1;
    resumptions = suc s.resumptions;
  }

  unfoldable pub step : Session A → WhenAnyEvent A → Session A
  step s (publishes index result) =
      let (t, scheduler) = publish s.state index result in
      record s {
        state = t;
        first = or_first s.first (index, result);
        pending = if is_some scheduler then suc s.pending else s.pending;
      }
  step s (awaits continuation none late) =
      let invalid = err (make_error invalid_state "when_any await without a current scheduler") in
      if s.taken || s.gone
      then s
      else if late && has_winner s.state
      then goes_on s s.state
      else record (goes_on s (await_suspend s.state continuation none).0) {
        first = or_first s.first (0, invalid);
      }
  step s (awaits continuation (some scheduler) late) =
      let (t, suspends) = await_suspend s.state continuation (some scheduler) in
      if s.taken || s.gone
      then s
      else if late && has_winner s.state
      then goes_on s s.state
      else if suspends
      then record s { state = t; taken = true; suspended = true }
      else goes_on s t
  step s resumes = if s.pending == 0 then s else resumed s (claim_parent s.state)
  step s abandons =
      if s.gone then s else record s { state = detach_parent s.state; taken = true; gone = true }

  unfoldable pub run : Session A → List (WhenAnyEvent A) → Session A
  run s [] = s
  run s (c ∷ cs) = run (step s c) cs

  -- The parent is suspended although there is a winner, and nothing is scheduled.
  abbrev pub is_lost : Session A → Bool
  is_lost s = not s.gone && s.suspended && has_winner s.state && s.pending == 0

  abbrev pub winner_of : WhenAnyState A → Option (ℕ × Result A)
  winner_of s = elim s.winner [ none ↦ none | some r ↦ some (s.winner_index, r) ]

  pub record IsDecided (s : Session A) : Type 0 where
    pub parent : is_some s.state.parent ≡ (not s.gone && s.suspended)
    pub scheduler : is_some s.state.parent_scheduler ≡ is_some s.state.parent
    pub detached : s.state.detached ≡ s.gone
    pub unused : (s.taken ≡ true) ⊎ (s.suspended ≡ false)
    pub winner : winner_of s.state ≡ s.first
    pub scheduled : (s.pending ≡ 0) ⊎ (has_winner s.state ≡ true)
    pub woken : is_lost s ≡ false
    pub cancelled : s.state.cancellations ≡ (if has_winner s.state then 1 else 0)
    pub once : s.resumptions ≤ (if s.gone then 1 else 0)
    pub got :
        (s.received ≡ none)
        ⊎ ((s.received ≡ s.first) × (has_winner s.state ≡ true) × (s.gone ≡ true))

  step-IsDecided : (s : Session A) (c : WhenAnyEvent A) → IsDecided s → IsDecided (step s c)
  unfolding step publish await_suspend publish_invalid install_parent detach_parent take_winner
      claim_parent
  step-IsDecided s (publishes index result) v = record {
    parent = ground (arith, v.parent);
    scheduler = ground (arith, v.scheduler);
    detached = ground (arith, v.detached);
    unused = ground (arith, v.unused);
    winner = ground (arith, v.winner);
    scheduled = ground (arith, v.scheduled);
    woken = ground (arith, v.woken, v.parent, v.scheduler, v.detached);
    cancelled = ground (arith, v.cancelled);
    once = ground (arith, v.once);
    got = ground (arith, v.got, v.winner);
  }
  step-IsDecided s (awaits continuation none late) v = record {
    parent = ground (arith, v.parent);
    scheduler = ground (arith, v.scheduler);
    detached = ground (arith, v.detached);
    unused = ground (arith, v.unused);
    winner = ground (arith, v.winner);
    scheduled = ground (arith, v.scheduled);
    woken = ground (arith, v.woken);
    cancelled = ground (arith, v.cancelled);
    once = ground (arith, v.once);
    got = ground (arith, v.got, v.winner);
  }
  step-IsDecided s (awaits continuation (some scheduler) late) v = record {
    parent = ground (arith, v.parent, v.unused, v.detached);
    scheduler = ground (arith, v.scheduler);
    detached = ground (arith, v.detached);
    unused = ground (arith, v.unused);
    winner = ground (arith, v.winner);
    scheduled = ground (arith, v.scheduled);
    woken = ground (arith, v.woken);
    cancelled = ground (arith, v.cancelled);
    once = ground (arith, v.once);
    got = ground (arith, v.got, v.winner, v.detached);
  }
  step-IsDecided s resumes v = record {
    parent = ground (arith, v.parent, v.scheduler);
    scheduler = ground (arith, v.scheduler);
    detached = ground (arith, v.detached);
    unused = ground (arith, v.unused);
    winner = ground (arith, v.winner);
    scheduled = ground (arith, v.scheduled);
    woken = ground (arith, v.woken, v.parent, v.scheduler, v.detached);
    cancelled = ground (arith, v.cancelled);
    once = ground (arith, v.once, v.parent);
    got = ground (arith, v.got, v.winner, v.scheduled);
  }
  step-IsDecided s abandons v = record {
    parent = ground (arith, v.parent);
    scheduler = ground (arith, v.scheduler);
    detached = ground (arith, v.detached);
    unused = ground (arith, v.unused);
    winner = ground (arith, v.winner);
    scheduled = ground (arith, v.scheduled);
    woken = ground (arith, v.woken);
    cancelled = ground (arith, v.cancelled);
    once = ground (arith, v.once);
    got = ground (arith, v.got);
  }

  run-IsDecided : (cs : List (WhenAnyEvent A)) (s : Session A) → IsDecided s → IsDecided (run s cs)
  unfolding run
  run-IsDecided [] s v = v
  run-IsDecided (c ∷ cs) s v = run-IsDecided cs (step s c) (step-IsDecided s c v)

  start-IsDecided : IsDecided (start)
  start-IsDecided = record {
    parent = refl;
    scheduler = refl;
    detached = refl;
    unused = inr refl;
    winner = refl;
    scheduled = inl refl;
    woken = refl;
    cancelled = refl;
    once = omega arith;
    got = inl refl;
  }

  -- After what the children, the parent and its scheduler do, in any order: the winner is the first
  -- result, the losers are asked to stop once if there is a winner and else not at all, the parent is
  -- resumed once at most, it received nothing or the first result, and it never stays suspended, unless
  -- its awaiter is gone, with a winner and no resumption scheduled.
  pub first_result_wins :
      (events : List (WhenAnyEvent A))
      → let s = run start events in
        (winner_of s.state ≡ s.first)
        × (s.state.cancellations ≡ (if has_winner s.state then 1 else 0))
        × (s.resumptions ≤ 1)
        × ((s.received ≡ none) ⊎ (s.received ≡ s.first))
        × (is_lost s ≡ false)
  first_result_wins events =
      let v = run-IsDecided events start start-IsDecided in
      (
        v.winner,
        v.cancelled,
        ground (arith, v.once),
        elim v.got [ inl nothing ↦ inl nothing | inr (same, _, _) ↦ inr same ],
        v.woken,
      )
