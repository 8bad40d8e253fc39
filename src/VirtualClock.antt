-- ===== src/VirtualClock.antt =====
-- include/voris/io/virtual_clock.hpp. The source counts nanoseconds in a `std::int64_t`; the sum of
-- `advance_by` is taken to stay within it, as a sum that does not is undefined behaviour.
pub mod Monotonic
use vio.Prelude.{Bool, if◌then◌else◌}
use vio.Prelude.Int.{ℤ, pos, ◌+ℤ◌, ltb_ℤ}
use vio.Error.{Result, ok, err, make_error, invalid_state}

pub record VirtualClock : Type 0 where
  pub current : ℤ

abbrev pub now : VirtualClock → ℤ
now c = c.current

unfoldable pub advance_to : VirtualClock → ℤ → VirtualClock × Result ℤ
advance_to c target =
    if ltb_ℤ target c.current
    then (c, err (make_error invalid_state "virtual clock cannot move backwards"))
    else (record c { current = target }, ok target)

unfoldable pub advance_by : VirtualClock → ℤ → VirtualClock × Result ℤ
advance_by c delta =
    if ltb_ℤ delta (pos 0)
    then (c, err (make_error invalid_state "virtual clock cannot move backwards"))
    else advance_to c (c.current +ℤ delta)

-- `sleep_until` and `sleep_for` of src/timer.cpp advance the clock at once, and drop the result.
unfoldable pub sleep_until : VirtualClock → ℤ → VirtualClock
sleep_until c deadline = if ltb_ℤ c.current deadline then (advance_to c deadline).0 else c

unfoldable pub sleep_for : VirtualClock → ℤ → VirtualClock
sleep_for c duration = if ltb_ℤ duration (pos 0) then c else (advance_by c duration).0
