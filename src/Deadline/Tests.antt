-- ===== src/Deadline/Tests.antt =====
-- A deadline at 10 ns.
use vio.Prelude.{◌≡◌, ◌↔◌, ◌⊎◌, refl, true, false, some, arith}
use vio.Prelude.Int.{ℤ, pos, negsuc, ◌+ℤ◌, ◌-ℤ◌, ◌≤ℤ◌, ◌<ℤ◌}
use vio.Deadline.{Deadline, duration_max, undefined, time_left, expired, remaining}
use vio.Deadline.Expiry.{remaining_expires}

abbrev at_ten : Deadline
at_ten = record { time = some (pos 10) }

remaining_expires_example :
    ((remaining at_ten (pos 3) ≡ undefined) × (duration_max <ℤ pos 10 -ℤ pos 3) × (pos 3 <ℤ pos 0))
    ⊎ ((left : ℤ) × (remaining at_ten (pos 3) ≡ time_left left)
        × (pos 0 ≤ℤ left)
        × (left ≤ℤ duration_max)
        × ((left ≡ pos 0) ↔ (expired at_ten (pos 3) ≡ true))
        × (expired at_ten (pos 3 +ℤ left) ≡ true)
        × ((wait : ℤ) → pos 0 ≤ℤ wait → wait <ℤ left → expired at_ten (pos 3 +ℤ wait) ≡ false))
remaining_expires_example = remaining_expires at_ten (pos 3) (pos 10) refl (omega arith)

seven_left : remaining at_ten (pos 3) ≡ time_left (pos 7)
unfolding remaining ◌-ℤ◌
seven_left = refl

-- The largest deadline, as seen before time 0.
overflows : remaining (record { time = some duration_max }) (negsuc 0) ≡ undefined
unfolding remaining ◌-ℤ◌
overflows = refl
