-- ===== src/Deadline/Expiry.antt =====
-- Deadlines, the time that is left, and the cancellation that they ask for.
use vio.Prelude.{◌≡◌, ◌↔◌, ◌⊎◌, inl, inr, Bool-cases, refl, [], true, false, some, arith}
use vio.Prelude.Int.{ℤ, pos, ◌+ℤ◌, ◌-ℤ◌, ◌≤ℤ◌, ◌<ℤ◌, leb_ℤ, ltb_ℤ}
use vio.Cancellation.{CancellationState, request_cancellation}
use vio.Deadline.{
  Deadline, duration_max, undefined, time_left, expired, remaining, request_cancellation_if_expired,
  cancellation_reason,
}

-- What is left of a deadline whose limit is a count of nanoseconds, at any time: the subtraction
-- overflows only when the time is negative and the limit is more than the largest count away from it;
-- otherwise what is left is a count from zero to the largest one; it is zero exactly once the deadline has expired; and waiting
-- for as long as is left expires it, while waiting for less does not.
pub remaining_expires :
    (d : Deadline) (now limit : ℤ)
    → d.time ≡ some limit
    → limit ≤ℤ duration_max
    → ((remaining d now ≡ undefined) × (duration_max <ℤ limit -ℤ now) × (now <ℤ pos 0))
      ⊎ ((left : ℤ) × (remaining d now ≡ time_left left)
          × (pos 0 ≤ℤ left)
          × (left ≤ℤ duration_max)
          × ((left ≡ pos 0) ↔ (expired d now ≡ true))
          × (expired d (now +ℤ left) ≡ true)
          × ((wait : ℤ) → pos 0 ≤ℤ wait → wait <ℤ left → expired d (now +ℤ wait) ≡ false))
unfolding remaining expired ◌-ℤ◌ ◌+ℤ◌
remaining_expires d now limit e fits = elim (Bool-cases (leb_ℤ limit now)) [
  | inl past ↦ inr (
    pos 0,
    ground arith,
    ground arith,
    ground arith,
    (λ z. ground arith, λ z. refl),
    ground arith,
    λ wait p q. ground arith,
  )
  | inr ahead ↦ elim (Bool-cases (ltb_ℤ duration_max (limit -ℤ now))) [
    | inl far ↦ inl (ground arith, ground arith, ground arith)
    | inr near ↦ inr (
      limit -ℤ now,
      ground arith,
      ground arith,
      ground arith,
      (λ z. ground arith, λ z. ground arith),
      ground arith,
      λ wait p q. ground arith,
    )
  ]
]

-- Cancellation is requested exactly for an expired deadline on a source that nobody has cancelled;
-- then the reason is the deadline, and otherwise the source stays as it was and nothing is called.
pub request_cancellation_if_expired-cases :
    (s : CancellationState) (d : Deadline) (now : ℤ)
    → let (s', won, calls) = request_cancellation_if_expired s d now in
      ((won ≡ true)
        × (expired d now ≡ true)
        × (s.requested ≡ false)
        × (s'.requested ≡ true)
        × (s'.reason ≡ some cancellation_reason))
      ⊎ ((won ≡ false) × ((expired d now ≡ false) ⊎ (s.requested ≡ true)) × (s' ≡ s) × (calls ≡ []))
unfolding request_cancellation_if_expired request_cancellation
request_cancellation_if_expired-cases s d now =
    elim (Bool-cases (request_cancellation_if_expired s d now).1) [
      | inl e ↦ inl (e, ground arith, ground arith, ground arith, ground arith)
      | inr e ↦ inr (e, ground arith, ground arith, ground arith)
    ]
