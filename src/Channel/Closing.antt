-- ===== src/Channel/Closing.antt =====
-- A closed channel hands out what it holds, and then says that it is closed.
use vio.Prelude.{ℕ, zero, suc, ◌+◌, ◌≡◌, refl, true, Option, none, List, [], ◌∷◌, length, arith}
use vio.Error.{VioError, Result, ok, err, make_error, closed}
use vio.Channel.{Channel, send_impl, receive_impl, close}

module _ {A : Type 0} where
  -- So many receives, with their results, first to last.
  pub receive_times : ℕ → Channel A → Option VioError → Channel A × List (Result A)
  receive_times zero c guard = (c, [])
  receive_times (suc n) c guard =
      let (c', result) = receive_impl c guard in
      let (c'', results) = receive_times n c' guard in (c'', result ∷ results)

  -- The values of a list, each as a success, and then so many refusals as closed.
  abbrev pub values_then_closed : List A → ℕ → List (Result A)
  values_then_closed [] zero = []
  values_then_closed [] (suc k) = err (make_error closed "") ∷ values_then_closed [] k
  values_then_closed (x ∷ xs) k = ok x ∷ values_then_closed xs k

  drain_closed :
      (n : ℕ) (c : Channel A) (guard : Option VioError) (xs : List A) (k : ℕ)
      → n ≡ length xs + k
      → c.closed_now ≡ true
      → c.rendezvous_value ≡ none
      → c.buffer ≡ xs
      → (receive_times n c guard).1 ≡ values_then_closed xs k
  unfolding receive_times receive_impl
  drain_closed zero c guard [] zero l h r e = refl
  drain_closed zero c guard [] (suc k) l h r e = absurd (omega arith)
  drain_closed zero c guard (x ∷ xs) k l h r e = absurd (omega arith)
  drain_closed (suc n) c guard [] zero l h r e = absurd (omega arith)
  drain_closed (suc n) c guard [] (suc k) l h r e =
      ground (arith, drain_closed n c guard [] k (omega arith) h r e)
  drain_closed (suc n) c guard (x ∷ xs) k l h r e =
      ground (arith, drain_closed n (receive_impl c guard).0 guard xs k)

  -- Closing a buffered channel: from then on every send is refused as closed and changes nothing,
  -- and receives give the values that it held, in order, and after these only the closed error,
  -- whatever the wait guard says.
  pub close_drains :
      (c : Channel A) (guard : Option VioError) (a : A) (k : ℕ)
      → c.rendezvous_value ≡ none
      → (send_impl (close c) a guard ≡ (close c, err (make_error closed "")))
        × ((receive_times (length c.buffer + k) (close c) guard).1 ≡ values_then_closed c.buffer k)
  unfolding send_impl close
  close_drains c guard a k r =
      (refl, drain_closed (length c.buffer + k) (close c) guard c.buffer k refl refl r refl)
