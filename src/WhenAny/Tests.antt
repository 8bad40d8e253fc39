-- ===== src/WhenAny/Tests.antt =====
-- Two children, of which the second one wins.
use vio.Prelude.{ℕ, ◌≡◌, ◌≤◌, ◌⊎◌, refl, false, true, none, some, List, [], ◌∷◌, if◌then◌else◌}
use vio.Error.{ok}
use vio.WhenAny.{
  publish, has_winner, install_parent, detach_parent, take_winner, claim_parent, await_suspend,
}
use vio.WhenAny.Winner.{
  WhenAnyEvent, publishes, awaits, resumes, abandons, start, winner_of, is_lost, step, run,
  first_result_wins,
}

abbrev events : List (WhenAnyEvent ℕ)
events =
    awaits 4 (some 9) true ∷ publishes 1 (ok 20) ∷ publishes 0 (ok 10) ∷ resumes ∷ abandons ∷ []

received : (run start events).received ≡ some (1, ok 20)
unfolding run step publish install_parent detach_parent take_winner claim_parent await_suspend
received = refl

first_result_wins_example :
    let s = run start events in
    (winner_of s.state ≡ s.first)
    × (s.state.cancellations ≡ (if has_winner s.state then 1 else 0))
    × (s.resumptions ≤ 1)
    × ((s.received ≡ none) ⊎ (s.received ≡ s.first))
    × (is_lost s ≡ false)
first_result_wins_example = first_result_wins events
