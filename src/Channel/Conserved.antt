-- ===== src/Channel/Conserved.antt =====
-- What goes through a channel.
use mathlib.Core.List.{append_assoc}
use vio.Prelude.{
  ℕ, ◌≡◌, ◌≢◌, ◌≤◌, refl, false, Option, none, List, [], ◌∷◌, ◌++◌, length, length-append, arith,
}
use vio.Error.{VioError, Result, VoidResult, ok, err}
use vio.Channel.{Channel, new, send_impl, receive_impl, send, close}

-- Every overload of `send` and `receive` is one of these, with the value of its wait guard.
pub data ChannelCall (A : Type 0) : Type 0 where
  sends : A → Option VioError → ChannelCall A
  receives : Option VioError → ChannelCall A
  closes : ChannelCall A

-- A channel, with what its senders were told was sent and what its receivers got, oldest first.
pub record History (A : Type 0) : Type 0 where
  pub channel : Channel A
  pub sent : List A
  pub received : List A

module _ {A : Type 0} where
  abbrev log_send : History A → A → Channel A × VoidResult → History A
  log_send h a (c, ok _) = record h { channel = c; sent = h.sent ++ a ∷ [] }
  log_send h a (c, err _) = record h { channel = c }

  abbrev log_receive : History A → Channel A × Result A → History A
  log_receive h (c, ok a) = record h { channel = c; received = h.received ++ a ∷ [] }
  log_receive h (c, err _) = record h { channel = c }

  unfoldable pub step : History A → ChannelCall A → History A
  step h (sends a guard) = log_send h a (send_impl h.channel a guard)
  step h (receives guard) = log_receive h (receive_impl h.channel guard)
  step h closes = record h { channel = close h.channel }

  unfoldable pub run : History A → List (ChannelCall A) → History A
  run h [] = h
  run h (c ∷ cs) = run (step h c) cs

  -- A buffered channel keeps no rendezvous value and holds no more than its capacity; what was sent
  -- is what was received, followed by the buffer.
  pub record IsConserved (h : History A) : Type 0 where
    pub buffered : h.channel.capacity ≢ 0
    pub no_rendezvous : h.channel.rendezvous_value ≡ none
    pub within : length h.channel.buffer ≤ h.channel.capacity
    pub in_order : h.sent ≡ h.received ++ h.channel.buffer

  send-IsConserved :
      (h : History A) (a : A) (guard : Option VioError)
      → IsConserved h
      → IsConserved (step h (sends a guard))
  unfolding step send_impl
  send-IsConserved h a guard v = ground (
    arith,
    append_assoc h.received h.channel.buffer (a ∷ []),
    length-append h.channel.buffer (a ∷ []),
  )

  receive-IsConserved :
      (h : History A) (guard : Option VioError) (xs : List A)
      → h.channel.buffer ≡ xs
      → IsConserved h
      → IsConserved (step h (receives guard))
  unfolding step receive_impl
  receive-IsConserved h guard [] e v = ground arith
  receive-IsConserved h guard (x ∷ xs) e v = ground (arith, append_assoc h.received (x ∷ []) xs)

  step-IsConserved : (h : History A) (c : ChannelCall A) → IsConserved h → IsConserved (step h c)
  step-IsConserved h (sends a guard) v = send-IsConserved h a guard v
  step-IsConserved h (receives guard) v = receive-IsConserved h guard h.channel.buffer refl v
  step-IsConserved h closes v = unfold step close in ground arith

  run-IsConserved :
      (h : History A) (cs : List (ChannelCall A)) → IsConserved h → IsConserved (run h cs)
  unfolding run
  run-IsConserved h [] v = v
  run-IsConserved h (c ∷ cs) v = run-IsConserved (step h c) cs (step-IsConserved h c v)

  abbrev pub start : ℕ → History A
  start capacity = record { channel = new capacity; sent = []; received = [] }

  -- A new channel of a capacity other than 0, after any sends, receives and closings with any wait
  -- guards: it holds at most its capacity, and what was sent is what was received followed by what
  -- it holds, so that no value is lost, doubled or overtaken.
  pub run-start-IsConserved :
      (capacity : ℕ) (cs : List (ChannelCall A))
      → capacity ≢ 0
      → IsConserved (run (start capacity) cs)
  unfolding new
  run-start-IsConserved capacity cs n =
      run-IsConserved (start capacity) cs
        (record { buffered = n; no_rendezvous = refl; within = omega arith; in_order = refl })

  -- At capacity 0 a value can be lost. While two receivers wait and a value is handed over, one more
  -- send succeeds and takes the value's place: the next receiver gets the second value, and no
  -- rendezvous value is left after it.
  pub send_overwrites_rendezvous :
      (c : Channel A) (a b : A)
      → c.closed_now ≡ false
      → c.capacity ≡ 0
      → 2 ≤ c.waiting_receivers
      → let c₁ = (send c a).0 in
        let c₂ = (send c₁ b).0 in
        ((send c a).1 ≡ ok tt)
        × ((send c₁ b).1 ≡ ok tt)
        × ((receive_impl c₂ none).1 ≡ ok b)
        × ((receive_impl c₂ none).0.rendezvous_value ≡ none)
        × ((receive_impl c₂ none).0.buffer ≡ c.buffer)
  unfolding send send_impl receive_impl
  send_overwrites_rendezvous c a b o z w =
      (ground arith, ground arith, ground arith, ground arith, ground arith)
