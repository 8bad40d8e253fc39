-- ===== src/Channel/Tests.antt =====
-- A channel of two places, and a rendezvous with two waiting receivers.
use vio.Prelude.{ℕ, ◌≡◌, refl, none, List, [], ◌∷◌, ◌+◌, length, arith}
use vio.Error.{ok, err, make_error, closed}
use vio.Channel.{Channel, new, send, send_impl, receive_impl, close}
use vio.Channel.Conserved.{
  ChannelCall, sends, receives, closes, start, step, run, IsConserved, run-start-IsConserved,
  send_overwrites_rendezvous,
}
use vio.Channel.Closing.{receive_times, values_then_closed, close_drains}

abbrev traffic : List (ChannelCall ℕ)
traffic =
    receives none
    ∷ sends 1 none
    ∷ sends 2 none
    ∷ sends 3 none
    ∷ receives none
    ∷ closes
    ∷ sends 4 none
    ∷ receives none
    ∷ []

traffic_received : (run (start 2) traffic).received ≡ 1 ∷ 2 ∷ []
unfolding run step new send_impl receive_impl close
traffic_received = refl

run-start-IsConserved_example : IsConserved (run (start 2) traffic)
run-start-IsConserved_example = run-start-IsConserved 2 traffic (λ e. omega arith)

-- Two receives on a new rendezvous channel find nothing, and wait.
abbrev awaited : Channel ℕ
awaited = (run (start 0) (receives none ∷ receives none ∷ [])).channel

send_overwrites_rendezvous_example :
    let c₁ = (send awaited 1).0 in
    let c₂ = (send c₁ 2).0 in
    ((send awaited 1).1 ≡ ok tt)
    × ((send c₁ 2).1 ≡ ok tt)
    × ((receive_impl c₂ none).1 ≡ ok 2)
    × ((receive_impl c₂ none).0.rendezvous_value ≡ none)
    × ((receive_impl c₂ none).0.buffer ≡ awaited.buffer)
unfolding run step new receive_impl
send_overwrites_rendezvous_example = send_overwrites_rendezvous awaited 1 2 refl refl (omega arith)

abbrev holding : Channel ℕ
holding = (run (start 2) (sends 1 none ∷ sends 2 none ∷ [])).channel

close_drains_example :
    (send_impl (close holding) 9 none ≡ (close holding, err (make_error closed "")))
    × ((receive_times (length holding.buffer + 2) (close holding) none).1
        ≡ values_then_closed holding.buffer 2)
unfolding run step new send_impl
close_drains_example = close_drains holding none 9 2 refl
