-- ===== src/Channel.antt =====
-- include/voris/io/channel.hpp: a bounded channel, and at capacity 0 a rendezvous. A channel belongs
-- to one thread. A wait guard has no effects, so that it is passed as the value that it returns.
pub mod Conserved
pub mod Closing
mod Tests
use vio.Prelude.{
  ℕ, suc, inc, ◌-◌, Bool, true, false, not, Option, none, some, List, [], ◌∷◌, ◌++◌, length, leb,
  ◌==◌, if◌then◌else◌,
}
use vio.Prelude.Int.{ℤ}
use vio.Error.{
  VioError, Result, VoidResult, ok, err, make_error, closed, cancelled, resource_exhausted,
}
use vio.Cancellation.{Token, cancellation_requested}
use vio.Deadline.{Deadline, expired, cancellation_error}

pub record Channel (A : Type 0) : Type 0 where
  pub capacity : ℕ
  pub buffer : List A
  pub rendezvous_value : Option A
  pub waiting_senders : ℕ
  pub waiting_receivers : ℕ
  pub closed_now : Bool

pub cancellation_wait_error : Token → Option VioError
cancellation_wait_error token =
    if not (cancellation_requested token)
    then none
    else some (make_error cancelled "channel waiter cancelled")

pub deadline_wait_error : Deadline → ℤ → Option VioError
deadline_wait_error limit now = if not (expired limit now) then none else some cancellation_error

module _ {A : Type 0} where
  unfoldable pub new : ℕ → Channel A
  new capacity = record {
    capacity = capacity;
    buffer = [];
    rendezvous_value = none;
    waiting_senders = 0;
    waiting_receivers = 0;
    closed_now = false;
  }

  -- A send that cannot proceed: the guard's error, or one more waiting sender.
  wait_to_send : Channel A → Option VioError → VioError → Channel A × VoidResult
  wait_to_send c (some wait_error) full = (c, err wait_error)
  wait_to_send c none full = (record c { waiting_senders = inc c.waiting_senders }, err full)

  unfoldable pub send_impl : Channel A → A → Option VioError → Channel A × VoidResult
  unfolding wait_to_send
  send_impl c value before_wait =
      if c.closed_now
      then (c, err (make_error closed ""))
      else if c.capacity == 0
      then (if c.waiting_receivers == 0
          then wait_to_send c before_wait
              (make_error resource_exhausted "rendezvous receiver is not ready")
          else (
            record c { waiting_receivers = c.waiting_receivers - 1; rendezvous_value = some value },
            ok tt,
          ))
      else if leb c.capacity (length c.buffer)
      then wait_to_send c before_wait (make_error resource_exhausted "channel is full")
      else (record c { buffer = c.buffer ++ value ∷ [] }, ok tt)

  -- The cases of `receive_impl`, by the rendezvous value and the buffer.
  receive_from : Channel A → Option VioError → Option A → List A → Channel A × Result A
  receive_from c before_wait (some value) buffer = (record c { rendezvous_value = none }, ok value)
  receive_from c before_wait none (value ∷ rest) = (
    record c {
      buffer = rest;
      waiting_senders = if c.waiting_senders == 0 then c.waiting_senders else c.waiting_senders - 1;
    },
    ok value,
  )
  receive_from c before_wait none [] =
      if c.closed_now then (c, err (make_error closed "")) else elim before_wait [
        | some wait_error ↦ (c, err wait_error)
        | none ↦ (
          record c { waiting_receivers = inc c.waiting_receivers },
          err (make_error resource_exhausted "channel is empty"),
        )
      ]

  unfoldable pub receive_impl : Channel A → Option VioError → Channel A × Result A
  unfolding receive_from
  receive_impl c before_wait = receive_from c before_wait c.rendezvous_value c.buffer

  unfoldable pub close : Channel A → Channel A
  close c = record c { closed_now = true }

  -- The overloads of `send`.
  unfoldable pub send : Channel A → A → Channel A × VoidResult
  send c value = send_impl c value none

  unfoldable pub send_cancellable : Channel A → A → Token → Channel A × VoidResult
  send_cancellable c value token = send_impl c value (cancellation_wait_error token)

  unfoldable pub send_until : Channel A → A → Deadline → ℤ → Channel A × VoidResult
  send_until c value limit now = send_impl c value (deadline_wait_error limit now)

  -- The overloads of `receive`.
  unfoldable pub receive : Channel A → Channel A × Result A
  receive c = receive_impl c none

  unfoldable pub receive_cancellable : Channel A → Token → Channel A × Result A
  receive_cancellable c token = receive_impl c (cancellation_wait_error token)

  unfoldable pub receive_until : Channel A → Deadline → ℤ → Channel A × Result A
  receive_until c limit now = receive_impl c (deadline_wait_error limit now)
