-- ===== src/Timer/Index.antt =====
-- The index of each timer leads to its entry, through every exchange of entries.
use vio.Prelude.{ℕ, ◌<◌, ◌≡◌, refl, ◌∙◌, Option, none, some, arith, Option-cases, inl, inr}
use vio.Prelude.Int.{ℤ}
use vio.Timer.{TimerHeap, swap_entries}

pub record IsIndexed (t : TimerHeap) : Type 0 where
  pub held : (i : ℕ) → i < t.size → t.indices (t.entries i).id ≡ some i
  pub found : (id i : ℕ) → t.indices id ≡ some i → (i < t.size) × ((t.entries i).id ≡ id)

-- The timers that a heap stands for: the deadline of each identifier.
abbrev pub deadline_at : TimerHeap → Option ℕ → Option ℤ
deadline_at t none = none
deadline_at t (some i) = some (t.entries i).deadline

abbrev pub deadline_of : TimerHeap → ℕ → Option ℤ
deadline_of t id = deadline_at t (t.indices id)

-- Heaps of the same timers, with all else equal.
pub record SameTimers (t u : TimerHeap) : Type 0 where
  pub size : u.size ≡ t.size
  pub owner : u.owner_id ≡ t.owner_id
  pub next : u.next_id ≡ t.next_id
  pub timers : (id : ℕ) → deadline_of u id ≡ deadline_of t id

module _ (t : TimerHeap) (v : IsIndexed t) where
  module _ (lhs rhs : ℕ) (hl : lhs < t.size) (hr : rhs < t.size) where
    pub swap_entries-IsIndexed : IsIndexed (swap_entries t lhs rhs)
    unfolding swap_entries
    swap_entries-IsIndexed = record {
      held = λ i h. ground (arith, v.held i, v.held lhs, v.held rhs);
      found = λ id i e.
          ground (arith, v.found id i, v.held lhs, v.held rhs, v.found id lhs, v.found id rhs);
    }

    pub swap_entries-SameTimers : SameTimers t (swap_entries t lhs rhs)
    unfolding swap_entries
    swap_entries-SameTimers = record {
      size = ground arith;
      owner = ground arith;
      next = ground arith;
      timers = λ id. elim (Option-cases (t.indices id)) [
        | inl e ↦ ground (arith, v.held lhs, v.held rhs)
        | inr (i, e) ↦ ground (arith, v.found id i, v.held lhs, v.held rhs, v.held i)
      ];
    }

pub SameTimers-refl : (t : TimerHeap) → SameTimers t t
SameTimers-refl t = record { size = refl; owner = refl; next = refl; timers = λ id. refl }

pub SameTimers-trans : (t u w : TimerHeap) → SameTimers t u → SameTimers u w → SameTimers t w
SameTimers-trans t u w a b = record {
  size = b.size ∙ a.size;
  owner = b.owner ∙ a.owner;
  next = b.next ∙ a.next;
  timers = λ id. b.timers id ∙ a.timers id;
}

-- Sifting keeps the index right and the timers as they are.
abbrev pub Kept : TimerHeap → TimerHeap → Type 0
Kept t u = IsIndexed u × SameTimers t u

pub swap_entries-Kept :
    (t : TimerHeap) (lhs rhs : ℕ)
    → IsIndexed t
    → lhs < t.size
    → rhs < t.size
    → Kept t (swap_entries t lhs rhs)
swap_entries-Kept t lhs rhs v hl hr =
    (swap_entries-IsIndexed t v lhs rhs hl hr, swap_entries-SameTimers t v lhs rhs hl hr)

pub Kept-trans : (t u w : TimerHeap) → Kept t u → Kept u w → Kept t w
Kept-trans t u w a b = (b.0, SameTimers-trans t u w a.1 b.1)
