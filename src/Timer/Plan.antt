-- ===== src/Timer/Plan.antt =====
-- What the plan of the ready batches finds among the entries.
use vio.Prelude.{
  ℕ, zero, suc, ◌<◌, ◌≡◌, refl, true, false, ◌&&◌, Option, none, some, arith, ◌==◌, if◌then◌else◌,
  Bool-cases, inl, inr, if_rule,
}
use vio.Prelude.Int.{ℤ, eq_ℤ, ltb_ℤ, leb_ℤ, ◌≤ℤ◌, ◌<ℤ◌}
use vio.Timer.{TimerHeap}
use vio.Timer.Pop.{batch_size, is_earlier, next_ready}

pub eq_of_eq_ℤ : (a b : ℤ) → eq_ℤ a b ≡ true → a ≡ b
eq_of_eq_ℤ a b h = ground arith

-- A deadline that an entry has makes a batch that is not empty.
pub batch_size_pos :
    (t : TimerHeap) (d : ℤ) (n i : ℕ) → i < n → (t.entries i).deadline ≡ d → 0 < batch_size t d n
unfolding batch_size
batch_size_pos t d zero i h e = elim h [ ]
batch_size_pos t d (suc n) i h e = elim (Bool-cases (i == n)) [
  | inl last ↦ ground arith
  | inr before ↦ ground (arith, batch_size_pos t d n i)
]

-- Among the first `n` entries, the least deadline after `d` that is no later than `now`.
abbrev pub IsNext : TimerHeap → ℤ → ℤ → ℕ → Option ℤ → Type 0
IsNext t d now n none =
    (i : ℕ) → i < n → (ltb_ℤ d (t.entries i).deadline && leb_ℤ (t.entries i).deadline now) ≡ false
IsNext t d now n (some e) =
    ((i : ℕ) × (i < n) × ((t.entries i).deadline ≡ e))
    × (d <ℤ e)
    × (e ≤ℤ now)
    × ((i : ℕ) → i < n → (ltb_ℤ d (t.entries i).deadline && ltb_ℤ (t.entries i).deadline e) ≡ false)

IsNext-step :
    (t : TimerHeap) (d now : ℤ) (n : ℕ) (before : Option ℤ)
    → IsNext t d now n before
    → let f = (t.entries n).deadline in
      IsNext t d now
        (suc n)
        (if ltb_ℤ d f && leb_ℤ f now && is_earlier f before then some f else before)
IsNext-step t d now n none v =
    if_rule (IsNext t d now (suc n))
      (ltb_ℤ d (t.entries n).deadline && leb_ℤ (t.entries n).deadline now && true)
      (λ here. (
        (n, omega arith, refl),
        ground arith,
        ground arith,
        λ i h. elim (Bool-cases (i == n)) [
          | inl last ↦ ground arith
          | inr early ↦ ground (arith, v i)
        ],
      ))
      (λ none_. λ i h. elim (Bool-cases (i == n)) [
        | inl last ↦ ground arith
        | inr early ↦ ground (arith, v i)
      ])
IsNext-step t d now n (some e) ((k, p, q), after, due, least) =
    if_rule (IsNext t d now (suc n))
      (ltb_ℤ d (t.entries n).deadline
        && leb_ℤ (t.entries n).deadline now
        && ltb_ℤ (t.entries n).deadline e)
      (λ here. (
        (n, omega arith, refl),
        ground arith,
        ground arith,
        λ i h. elim (Bool-cases (i == n)) [
          | inl last ↦ ground arith
          | inr early ↦ ground (arith, least i)
        ],
      ))
      (λ none_. (
        (k, omega arith, q),
        after,
        due,
        λ i h. elim (Bool-cases (i == n)) [
          | inl last ↦ ground arith
          | inr early ↦ ground (arith, least i)
        ],
      ))

pub next_ready-IsNext :
    (t : TimerHeap) (d now : ℤ) (n : ℕ) → IsNext t d now n (next_ready t d now n)
unfolding next_ready
next_ready-IsNext t d now zero = λ i h. elim h [ ]
next_ready-IsNext t d now (suc n) =
    IsNext-step t d now n (next_ready t d now n) (next_ready-IsNext t d now n)
