-- ===== src/Timer/Up.antt =====
-- Sifting up.
use vio.Prelude.{ℕ, zero, suc, ◌≤◌, ◌<◌, ◌≡◌, true, false, not, ◌||◌, arith, ◌==◌, if_rule}
use vio.Timer.{TimerHeap, entry_less, parent, swap_entries, sift_up_loop, sift_up}
use vio.Timer.Key.{LeEntry-trans, LeEntry-of_less}
use vio.Timer.Index.{IsIndexed, Kept, Kept-trans, SameTimers-refl, swap_entries-Kept}
use vio.Timer.Order.{IsHeap, IsBridged, InOrder}

-- Only the edge above `i` may be out of order.
pub record UpReady (t : TimerHeap) (i : ℕ) : Type 0 where
  pub inside : i < t.size
  pub edges : (c : ℕ) → 0 < c → c < t.size → (c == i) ≡ false → InOrder t c
  pub bridged : IsBridged t i

swap_entries-UpReady :
    (t : TimerHeap) (i : ℕ)
    → UpReady t i
    → 0 < i
    → entry_less (t.entries i) (t.entries (parent i)) ≡ true
    → UpReady (swap_entries t i (parent i)) (parent i)
unfolding swap_entries
swap_entries-UpReady t i v pos less = record {
  inside = ground (arith, v.inside);
  edges = λ c p q r. ground (
    arith,
    v.inside,
    v.edges c,
    v.edges (parent c),
    v.edges (parent i),
    v.bridged c,
    LeEntry-of_less (t.entries i) (t.entries (parent i)) less,
    LeEntry-trans (t.entries i) (t.entries (parent i)) (t.entries c),
  );
  bridged = λ c p q r s. ground (
    arith,
    v.inside,
    v.edges c,
    v.edges (parent i),
    v.bridged c,
    LeEntry-trans (t.entries (parent (parent i))) (t.entries (parent i)) (t.entries c),
  );
}

sift_up_loop_restores :
    (fuel : ℕ) (t : TimerHeap) (i : ℕ)
    → i ≤ fuel
    → UpReady t i
    → IsIndexed t
    → IsHeap (sift_up_loop fuel t i) × Kept t (sift_up_loop fuel t i)
unfolding sift_up_loop
sift_up_loop_restores zero t i f v w =
    (λ c p q. v.edges c p q (ground arith), (w, SameTimers-refl t))
sift_up_loop_restores (suc fuel) t i f v w =
    if_rule (λ u. IsHeap u × Kept t u)
      (i == 0 || not (entry_less (t.entries i) (t.entries (parent i))))
      (λ settled. (λ c p q. ground (arith, v.edges c), (w, SameTimers-refl t)))
      (λ rises.
        let kept = swap_entries-Kept t i (parent i) w v.inside (ground (arith, v.inside)) in
        let above =
          sift_up_loop_restores fuel (swap_entries t i (parent i)) (parent i) (ground arith)
            (swap_entries-UpReady t i v (ground arith) (ground arith)) kept.0 in
        (above.0, Kept-trans t (swap_entries t i (parent i)) _ kept above.1))

-- `sift_up` makes a heap of a tree in which one entry may be too low, and keeps the timers.
pub sift_up_restores :
    (t : TimerHeap) (i : ℕ)
    → UpReady t i
    → IsIndexed t
    → IsHeap (sift_up t i) × Kept t (sift_up t i)
unfolding sift_up
sift_up_restores t i v w = sift_up_loop_restores i t i (omega arith) v w
