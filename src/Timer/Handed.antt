-- ===== src/Timer/Handed.antt =====
-- What handing out timers means: repeated removal of the least timer. What it costs: a unit for each
-- deadline.
use vio.Prelude.{
  ℕ, suc, ◌<◌, ◌≡◌, refl, ◌∙◌, ap, sym, Bool, false, Option, none, some, List, [], ◌∷◌, ◌++◌,
  length, arith, ◌==◌, if◌then◌else◌,
}
use vio.Prelude.Int.{ℤ, eq_ℤ, ◌≤ℤ◌}
use vio.Timer.{TimerHandle}
use vio.Timer.Key.{GoesFirst}

-- Timers as a function from identifiers to deadlines.
abbrev pub Timers : Type 0
Timers = ℕ → Option ℤ

abbrev pub without : Timers → ℕ → Timers
without m id j = if id == j then none else m j

-- The timer `id` is due at `d`, and no timer comes before it.
pub record IsLeast (m : Timers) (id : ℕ) (d : ℤ) : Type 0 where
  pub there : m id ≡ some d
  pub least : (j : ℕ) (e : ℤ) → m j ≡ some e → GoesFirst d id e j

-- The handles are handed out one after the other, each of the least timer that is left, which is due at
-- `now`; `n` is what is left in the end.
abbrev pub HandsOut : ℕ → ℤ → Timers → List TimerHandle → Timers → Type 0
HandsOut owner now m [] n = (j : ℕ) → n j ≡ m j
HandsOut owner now m (h ∷ hs) n =
    (d : ℤ) × IsLeast m h.id d
    × (d ≤ℤ now)
    × (h.owner_id ≡ owner)
    × HandsOut owner now (without m h.id) hs n

pub HandsOut-cong :
    (owner : ℕ) (now : ℤ) (m m' : Timers) (hs : List TimerHandle) (n : Timers)
    → ((j : ℕ) → m' j ≡ m j)
    → HandsOut owner now m hs n
    → HandsOut owner now m' hs n
HandsOut-cong owner now m m' [] n e r = λ j. r j ∙ sym (e j)
HandsOut-cong owner now m m' (h ∷ hs) n e (d, l, due, o, r) = (
  d,
  record { there = e h.id ∙ l.there; least = λ j f p. l.least j f (sym (e j) ∙ p) },
  due,
  o,
  HandsOut-cong owner now (without m h.id) (without m' h.id) hs n
      (λ j. ap (λ x. if h.id == j then none else x) (e j)) r,
)

pub HandsOut-append :
    (owner : ℕ) (now : ℤ) (m n o : Timers) (hs ks : List TimerHandle)
    → HandsOut owner now m hs n
    → HandsOut owner now n ks o
    → HandsOut owner now m (hs ++ ks) o
HandsOut-append owner now m n o [] ks r s = HandsOut-cong owner now n m ks o (λ j. sym (r j)) s
HandsOut-append owner now m n o (h ∷ hs) ks (d, l, due, own, r) s =
    (d, l, due, own, HandsOut-append owner now (without m h.id) n o hs ks r s)

abbrev pub same_deadline : Option ℤ → Option ℤ → Bool
same_deadline none e = false
same_deadline (some d) none = false
same_deadline (some d) (some e) = eq_ℤ d e

-- How often the deadline changes in the course of the handles, when the one before them was for `last`.
abbrev pub distinct : Timers → Option ℤ → List TimerHandle → ℕ
distinct m last [] = 0
distinct m last (h ∷ hs) =
    let rest = distinct (without m h.id) (m h.id) hs in
    if same_deadline (m h.id) last then rest else suc rest

pub distinct-cong :
    (m m' : Timers) (last : Option ℤ) (hs : List TimerHandle)
    → ((j : ℕ) → m' j ≡ m j)
    → distinct m' last hs ≡ distinct m last hs
distinct-cong m m' last [] e = refl
distinct-cong m m' last (h ∷ hs) e = ground (
  arith,
  e h.id,
  distinct-cong (without m h.id) (without m' h.id) (m h.id) hs
      (λ j. ap (λ x. if h.id == j then none else x) (e j)),
)

-- The first of the handles, if there is one, is of a timer that is due at `d`.
abbrev pub StartsAt : ℤ → Timers → List TimerHandle → Type 0
StartsAt d m [] = d ≡ d
StartsAt d m (h ∷ hs) = m h.id ≡ some d

-- A deadline that begins costs a unit.
pub distinct-starts :
    (d : ℤ) (m : Timers) (last : Option ℤ) (hs ks : List TimerHandle)
    → StartsAt d m hs
    → 0 < length hs
    → same_deadline (some d) last ≡ false
    → distinct m last (hs ++ ks) ≡ suc (distinct m (some d) (hs ++ ks))
distinct-starts d m last [] ks start some_ new = absurd (omega arith)
distinct-starts d m last (h ∷ hs) ks start some_ new = ground (arith, start)
