-- ===== src/Deadline.antt =====
-- include/voris/io/deadline.hpp and src/deadline.cpp. A time point is its count of nanoseconds, to
-- which `normalize` has converted it. The count is a `std::int64_t`: where a difference of two of them
-- does not fit, the program's subtraction is undefined behaviour, and the model's result says so.
pub mod Expiry
mod Tests
use vio.Prelude.{Bool, true, false, not, Option, none, some, List, [], if◌then◌else◌}
use vio.Prelude.Int.{ℤ, pos, ◌-ℤ◌, leb_ℤ, ltb_ℤ}
use vio.Error.{VioError, make_error, deadline_exceeded}
use vio.Cancellation.{CancellationState, CancellationReason, Invocation, request_cancellation}

pub record Deadline : Type 0 where
  pub time : Option ℤ

abbrev pub no_deadline : Deadline
no_deadline = record { time = none }

unfoldable pub expired : Deadline → ℤ → Bool
expired d now = elim d.time [ none ↦ false | some limit ↦ leb_ℤ limit now ]

-- The largest count of nanoseconds.
abbrev pub duration_max : ℤ
duration_max = pos 9223372036854775807

-- `undefined` is the overflow of the subtraction.
pub data Remaining : Type 0 where
  unlimited undefined : Remaining
  time_left : ℤ → Remaining

-- The minuend is the larger one, so that only the largest count can be exceeded.
unfoldable pub remaining : Deadline → ℤ → Remaining
remaining d now = elim d.time [
  | none ↦ unlimited
  | some limit ↦
      if leb_ℤ limit now
      then time_left (pos 0)
      else if ltb_ℤ duration_max (limit -ℤ now)
      then undefined
      else time_left (limit -ℤ now)
]

pub cancellation_error : VioError
cancellation_error = make_error deadline_exceeded "deadline exceeded"

abbrev pub cancellation_reason : CancellationReason
cancellation_reason = CancellationReason.deadline

-- The source's state, whether this call requested cancellation, and the callbacks that it calls.
unfoldable pub request_cancellation_if_expired :
    CancellationState → Deadline → ℤ → CancellationState × Bool × List Invocation
request_cancellation_if_expired source limit now =
    if not (expired limit now)
    then (source, false, [])
    else request_cancellation source cancellation_reason
