-- ===== src/Timer/Down.antt =====
-- Sifting down.
use vio.Prelude.{
  ℕ, zero, suc, ◌+◌, ◌*◌, ◌≤◌, ◌<◌, ◌≡◌, true, false, not, ◌||◌, arith, ◌==◌, leb, if_rule,
  Bool-cases, inl, inr,
}
use vio.Timer.{
  TimerHeap, entry_less, parent, swap_entries, smallest_child, sift_down_loop, sift_down,
}
use vio.Timer.Key.{LeEntry, LeEntry-trans, LeEntry-of_less, LeEntry-refl}
use vio.Timer.Index.{IsIndexed, Kept, Kept-trans, SameTimers-refl, swap_entries-Kept}
use vio.Timer.Order.{IsHeap, IsBridged, InOrder}

-- Only the edges below `i` may be out of order.
pub record DownReady (t : TimerHeap) (i : ℕ) : Type 0 where
  pub edges : (c : ℕ) → 0 < c → c < t.size → (parent c == i) ≡ false → InOrder t c
  pub bridged : IsBridged t i

-- `m` is a child of `i`, and no other child comes before it.
record IsSmallest (t : TimerHeap) (i m : ℕ) : Type 0 where
  inside : m < t.size
  positive : 0 < m
  child : parent m ≡ i
  least : (c : ℕ) → 0 < c → c < t.size → parent c ≡ i → LeEntry (t.entries m) (t.entries c)

smallest_child-IsSmallest :
    (t : TimerHeap) (i : ℕ) → i * 2 + 1 < t.size → IsSmallest t i (smallest_child t i)
unfolding smallest_child
smallest_child-IsSmallest t i h = record {
  inside = ground arith;
  positive = ground arith;
  child = ground arith;
  least = λ c p q r. ground (
    arith,
    LeEntry-refl (t.entries (i * 2 + 1)),
    LeEntry-refl (t.entries (i * 2 + 1 + 1)),
    LeEntry-of_less (t.entries (i * 2 + 1 + 1)) (t.entries (i * 2 + 1)),
  );
}

swap_entries-DownReady :
    (t : TimerHeap) (i m : ℕ)
    → DownReady t i
    → IsSmallest t i m
    → entry_less (t.entries m) (t.entries i) ≡ true
    → DownReady (swap_entries t i m) m
unfolding swap_entries
swap_entries-DownReady t i m v s less = record {
  edges = λ c p q r. ground (
    arith,
    v.edges c,
    v.bridged m,
    s.inside,
    s.positive,
    s.child,
    s.least c,
    LeEntry-of_less (t.entries m) (t.entries i) less,
  );
  bridged = λ c p q r u. ground (arith, v.edges c, s.inside, s.positive, s.child);
}

settled_order :
    (t : TimerHeap) (i : ℕ)
    → DownReady t i
    → (leb t.size (i * 2 + 1) || not (entry_less (t.entries (smallest_child t i)) (t.entries i)))
      ≡ true
    → IsHeap t
settled_order t i v settled c p q = elim (Bool-cases (leb t.size (i * 2 + 1))) [
  | inl leaf ↦ ground (arith, v.edges c)
  | inr inner ↦
      let s = smallest_child-IsSmallest t i (ground arith) in
      ground (
        arith,
        v.edges c,
        s.least c,
        LeEntry-trans (t.entries i) (t.entries (smallest_child t i)) (t.entries c),
      )
]

sift_down_loop_restores :
    (fuel : ℕ) (t : TimerHeap) (i : ℕ)
    → t.size ≤ fuel + i
    → DownReady t i
    → IsIndexed t
    → IsHeap (sift_down_loop fuel t i) × Kept t (sift_down_loop fuel t i)
unfolding sift_down_loop
sift_down_loop_restores zero t i f v w =
    (λ c p q. v.edges c p q (ground arith), (w, SameTimers-refl t))
sift_down_loop_restores (suc fuel) t i f v w =
    let m = smallest_child t i in
    if_rule (λ u. IsHeap u × Kept t u)
      (leb t.size (i * 2 + 1) || not (entry_less (t.entries m) (t.entries i)))
      (λ settled. (settled_order t i v settled, (w, SameTimers-refl t)))
      (λ sinks.
        let s = smallest_child-IsSmallest t i (ground arith) in
        let kept = swap_entries-Kept t i m w (ground (arith, s.inside, s.child)) s.inside in
        let below =
          sift_down_loop_restores fuel (swap_entries t i m) m
            (ground (arith, s.child, s.positive, kept.1.size))
            (swap_entries-DownReady t i m v s (ground arith)) kept.0 in
        (below.0, Kept-trans t (swap_entries t i m) _ kept below.1))

-- `sift_down` makes a heap of a tree in which one entry may be too high, and keeps the timers.
pub sift_down_restores :
    (t : TimerHeap) (i : ℕ)
    → DownReady t i
    → IsIndexed t
    → IsHeap (sift_down t i) × Kept t (sift_down t i)
unfolding sift_down
sift_down_restores t i v w = sift_down_loop_restores t.size t i (omega arith) v w
