-- ===== src/Timer/Erase.antt =====
-- Taking an entry out of the heap.
use vio.Prelude.{
  ℕ, suc, ◌-◌, ◌<◌, ◌≡◌, ◌∙◌, ap, false, ◌&&◌, none, arith, ◌==◌, leb, ltb, if◌then◌else◌, if_rule,
  Option-cases, inl, inr,
}
use vio.Timer.{TimerHeap, entry_less, parent, swap_entries, repair_at, take_out, erase_at}
use vio.Timer.Key.{LeEntry-trans, LeEntry-of_less}
use vio.Timer.Index.{IsIndexed, deadline_of, SameTimers-refl, Kept}
use vio.Timer.Order.{IsHeap, IsBridged, InOrder}
use vio.Timer.Up.{sift_up_restores}
use vio.Timer.Down.{sift_down_restores}

-- A heap in order whose index is right.
pub record IsTimers (t : TimerHeap) : Type 0 where
  pub heap : IsHeap t
  pub indexed : IsIndexed t

-- `u` has the timers of `t` but the one with the identifier `id`.
pub record Removes (id : ℕ) (t u : TimerHeap) : Type 0 where
  pub size : suc u.size ≡ t.size
  pub owner : u.owner_id ≡ t.owner_id
  pub next : u.next_id ≡ t.next_id
  pub timers : (j : ℕ) → deadline_of u j ≡ (if id == j then none else deadline_of t j)

-- A heap with any entry in the place `i` can be repaired there.
record Repairable (t : TimerHeap) (i : ℕ) : Type 0 where
  edges : (c : ℕ) → 0 < c → c < t.size → (c == i) ≡ false → (parent c == i) ≡ false → InOrder t c
  bridged : IsBridged t i

repair_at_restores :
    (t : TimerHeap) (i : ℕ)
    → Repairable t i
    → IsIndexed t
    → IsHeap (repair_at t i) × Kept t (repair_at t i)
unfolding repair_at
repair_at_restores t i v w =
    if_rule (λ u. IsHeap u × Kept t u) (leb t.size i)
      (λ past. (λ c p q. ground (arith, v.edges c), (w, SameTimers-refl t)))
      (λ inside.
        if_rule (λ u. IsHeap u × Kept t u)
          (ltb 0 i && entry_less (t.entries i) (t.entries (parent i)))
          (λ rises.
            sift_up_restores t i
              (record {
                inside = ground arith;
                edges = λ c p q r. ground (
                  arith,
                  v.edges c,
                  v.bridged c,
                  LeEntry-of_less (t.entries i) (t.entries (parent i)),
                  LeEntry-trans (t.entries i) (t.entries (parent i)) (t.entries c),
                );
                bridged = v.bridged;
              })
              w)
          (λ sinks.
            sift_down_restores t i
              (record { edges = λ c p q r. ground (arith, v.edges c); bridged = v.bridged }) w))

module _ (t : TimerHeap) (i : ℕ) (v : IsTimers t) (h : i < t.size) where
  take_out-Repairable : Repairable (take_out t i) i
  unfolding take_out swap_entries
  take_out-Repairable = record {
    edges = λ c p q r s. ground (arith, v.heap c);
    bridged = λ c p q r s. ground (
      arith,
      v.heap c,
      v.heap i,
      LeEntry-trans (t.entries (parent i)) (t.entries i) (t.entries c),
    );
  }

  take_out-IsIndexed : IsIndexed (take_out t i)
  unfolding take_out swap_entries
  take_out-IsIndexed = record {
    held = λ j p. ground (arith, v.indexed.held j, v.indexed.held i, v.indexed.held (t.size - 1));
    found = λ id j e. ground (
      arith,
      v.indexed.found id j,
      v.indexed.held j,
      v.indexed.held i,
      v.indexed.held (t.size - 1),
    );
  }

  take_out-Removes : Removes (t.entries i).id t (take_out t i)
  unfolding take_out swap_entries
  take_out-Removes = record {
    size = ground arith;
    owner = ground arith;
    next = ground arith;
    timers = λ j. elim (Option-cases (t.indices j)) [
      | inl e ↦ ground (arith, v.indexed.held i, v.indexed.held (t.size - 1))
      | inr (k, e) ↦ ground (
        arith,
        v.indexed.found j k,
        v.indexed.held k,
        v.indexed.held i,
        v.indexed.held (t.size - 1),
      )
    ];
  }

  -- Taking an entry out removes its timer and no other, and leaves a heap whose index is right.
  pub erase_at-Removes : IsTimers (erase_at t i) × Removes (t.entries i).id t (erase_at t i)
  unfolding erase_at
  erase_at-Removes =
      let taken = take_out-Removes in
      let repaired = repair_at_restores (take_out t i) i take_out-Repairable take_out-IsIndexed in
      (
        record { heap = repaired.0; indexed = repaired.1.0 },
        record {
          size = ap suc repaired.1.1.size ∙ taken.size;
          owner = repaired.1.1.owner ∙ taken.owner;
          next = repaired.1.1.next ∙ taken.next;
          timers = λ j. repaired.1.1.timers j ∙ taken.timers j;
        },
      )
