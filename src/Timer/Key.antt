-- ===== src/Timer/Key.antt =====
-- The heap's order of entries, and the order in which timers are handed out.
use vio.Prelude.{ℕ, ◌≤◌, ◌≡◌, ◌⊎◌, inl, inr, true, false, arith}
use vio.Prelude.Int.{ℤ, pos, negsuc, ◌≤ℤ◌, ◌<ℤ◌}
use vio.Timer.{Entry, entry_less}

-- `a` need not come after `b` in the heap.
abbrev pub LeEntry : Entry → Entry → Type 0
LeEntry a b = entry_less b a ≡ false

pub LeEntry-trans : (a b c : Entry) → LeEntry a b → LeEntry b c → LeEntry a c
unfolding entry_less
LeEntry-trans a b c p q = ground arith

pub LeEntry-of_less : (a b : Entry) → entry_less a b ≡ true → LeEntry a b
unfolding entry_less
LeEntry-of_less a b p = ground arith

pub LeEntry-refl : (a : Entry) → LeEntry a a
unfolding entry_less
LeEntry-refl a = ground arith

pub LeEntry-deadline : (a b : Entry) → LeEntry a b → a.deadline ≤ℤ b.deadline
unfolding entry_less
LeEntry-deadline a b p = ground arith

-- The timer `id`, due at `d`, goes before the timer `j`, due at `e`: the earlier deadline first, and of
-- one deadline the smaller identifier.
abbrev pub GoesFirst : ℤ → ℕ → ℤ → ℕ → Type 0
GoesFirst d id e j = (d <ℤ e) ⊎ ((d ≡ e) × (id ≤ j))

pub GoesFirst-deadline : (d : ℤ) (id : ℕ) (e : ℤ) (j : ℕ) → GoesFirst d id e j → d ≤ℤ e
GoesFirst-deadline d id e j (inl p) = omega arith
GoesFirst-deadline d id e j (inr (p, q)) = ground arith

-- The heap's order is the specified one.
pub LeEntry-GoesFirst :
    (d : ℤ) (id : ℕ) (e : ℤ) (j : ℕ)
    → LeEntry (record { deadline = d; id = id }) (record { deadline = e; id = j })
    → GoesFirst d id e j
unfolding entry_less
LeEntry-GoesFirst (pos d) id (pos e) j p = ground arith
LeEntry-GoesFirst (pos d) id (negsuc e) j p = ground arith
LeEntry-GoesFirst (negsuc d) id (pos e) j p = ground arith
LeEntry-GoesFirst (negsuc d) id (negsuc e) j p = ground arith
