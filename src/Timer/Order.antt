-- ===== src/Timer/Order.antt =====
-- The heap order.
use vio.Prelude.{ℕ, zero, suc, ◌<◌, ◌≡◌, arith}
use vio.Timer.{TimerHeap, parent}
use vio.Timer.Key.{LeEntry, LeEntry-trans, LeEntry-refl}

-- The entry at `c` comes no earlier than its parent.
abbrev pub InOrder : TimerHeap → ℕ → Type 0
InOrder t c = LeEntry (t.entries (parent c)) (t.entries c)

abbrev pub IsHeap : TimerHeap → Type 0
IsHeap t = (c : ℕ) → 0 < c → c < t.size → InOrder t c

-- The entries below `i` come no earlier than the one above it.
abbrev pub IsBridged : TimerHeap → ℕ → Type 0
IsBridged t i =
    (c : ℕ)
    → 0 < c
    → c < t.size
    → parent c ≡ i
    → 0 < i
    → LeEntry (t.entries (parent i)) (t.entries c)

root_least_below :
    (k : ℕ) (t : TimerHeap) (i : ℕ)
    → IsHeap t
    → i < k
    → i < t.size
    → LeEntry (t.entries 0) (t.entries i)
root_least_below zero t i h f p = elim f [ ]
root_least_below (suc k) t zero h f p = LeEntry-refl (t.entries 0)
root_least_below (suc k) t (suc i) h f p =
    LeEntry-trans (t.entries 0) (t.entries (parent (suc i))) (t.entries (suc i))
      (root_least_below k t (parent (suc i)) h (omega arith) (omega arith))
      (h (suc i) (omega arith) p)

-- No entry of a heap comes before the first one.
pub root_least :
    (t : TimerHeap) (i : ℕ) → IsHeap t → i < t.size → LeEntry (t.entries 0) (t.entries i)
root_least t i h p = root_least_below (suc i) t i h (omega arith) p
