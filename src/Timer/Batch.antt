-- ===== src/Timer/Batch.antt =====
-- Handing out the timers of one deadline, with what is true of the batch.
use vio.Prelude.{
  ℕ, zero, suc, ◌+◌, ◌≤◌, ◌<◌, ◌≡◌, refl, ◌∙◌, ap, sym, subst, true, false, not, ◌||◌, Option, none,
  some, List, [], ◌∷◌, ◌++◌, length, arith, ◌==◌, ==_iff, if◌then◌else◌, if_rule, Option-cases,
  Bool-cases, inl, inr,
}
use vio.Prelude.Int.{ℤ, eq_ℤ, ◌≤ℤ◌}
use vio.Timer.{TimerHeap, TimerHandle, entry_less, erase_at}
use vio.Timer.Pop.{batch_loop, pop_deadline_batch}
use vio.Timer.Key.{LeEntry, GoesFirst-deadline, LeEntry-GoesFirst}
use vio.Timer.Handed.{without, IsLeast, HandsOut, HandsOut-cong, StartsAt, distinct, distinct-cong}
use vio.Timer.Index.{deadline_at, deadline_of}
use vio.Timer.Order.{root_least}
use vio.Timer.Erase.{IsTimers, Removes, erase_at-Removes}
use vio.Timer.Plan.{eq_of_eq_ℤ}

module _ (t : TimerHeap) (v : IsTimers t) (h : 0 < t.size) where
  front_there : deadline_of t (t.entries 0).id ≡ some (t.entries 0).deadline
  front_there = ap (deadline_at t) (v.indexed.held 0 h)

  front_least :
      (j : ℕ) (e : ℤ)
      → deadline_of t j ≡ some e
      → LeEntry (t.entries 0) (record { deadline = e; id = j })
  front_least j e p = elim (Option-cases (t.indices j)) [
    | inl none_ ↦ ground (arith)
    | inr (i, q) ↦ unfold entry_less in ground (arith, v.indexed.found j i, root_least t i v.heap)
  ]

  -- The first entry is of the least timer.
  pub front-IsLeast : IsLeast (deadline_of t) (t.entries 0).id (t.entries 0).deadline
  front-IsLeast = record {
    there = front_there;
    least =
        λ j e p. LeEntry-GoesFirst (t.entries 0).deadline (t.entries 0).id e j (front_least j e p);
  }

abbrev pub keep_others : ℤ → Option ℤ → Option ℤ
keep_others d none = none
keep_others d (some e) = if eq_ℤ e d then none else some e

-- What handing out the batch of the deadline `d` does.
pub record IsBatch (now d : ℤ) (t : TimerHeap) (result : TimerHeap × List TimerHandle)
    : Type 0 where
  pub timers : IsTimers result.0
  pub owner : result.0.owner_id ≡ t.owner_id
  pub next : result.0.next_id ≡ t.next_id
  pub order : HandsOut t.owner_id now (deadline_of t) result.1 (deadline_of result.0)
  pub starts : StartsAt d (deadline_of t) result.1
  pub once :
      (ks : List TimerHandle)
      → distinct (deadline_of t) (some d) (result.1 ++ ks)
        ≡ distinct (deadline_of result.0) (some d) ks
  pub count : result.0.size + length result.1 ≡ t.size
  pub left : (j : ℕ) → deadline_of result.0 j ≡ keep_others d (deadline_of t j)

-- No timer is due before `d`.
abbrev pub NoneBefore : ℤ → TimerHeap → Type 0
NoneBefore d t = (j : ℕ) (e : ℤ) → deadline_of t j ≡ some e → d ≤ℤ e

pub live_size : (t : TimerHeap) (j : ℕ) (e : ℤ) → IsTimers t → deadline_of t j ≡ some e → 0 < t.size
live_size t j e v p = elim (Option-cases (t.indices j)) [
  | inl none_ ↦ ground arith
  | inr (i, q) ↦ ground (arith, v.indexed.found j i)
]

others_later :
    (d : ℤ) (t : TimerHeap) (j : ℕ) (e : ℤ)
    → IsTimers t
    → NoneBefore d t
    → (t.size == 0 || not (eq_ℤ (t.entries 0).deadline d)) ≡ true
    → deadline_of t j ≡ some e
    → eq_ℤ e d ≡ false
others_later d t j e v early stops p =
    let h = live_size t j e v p in
    ground (
      arith,
      early (t.entries 0).id (t.entries 0).deadline (front-IsLeast t v h).there,
      GoesFirst-deadline (t.entries 0).deadline (t.entries 0).id e j
          ((front-IsLeast t v h).least j e p),
    )

IsBatch-stops :
    (now d : ℤ) (t : TimerHeap)
    → IsTimers t
    → NoneBefore d t
    → (t.size == 0 || not (eq_ℤ (t.entries 0).deadline d)) ≡ true
    → IsBatch now d t (t, [])
IsBatch-stops now d t v early stops = record {
  timers = v;
  owner = refl;
  next = refl;
  order = λ j. refl;
  starts = refl;
  once = λ ks. refl;
  count = omega arith;
  left = λ j. elim (Option-cases (deadline_of t j)) [
    | inl p ↦ rw p
    | inr (e, p) ↦ ground (arith, others_later d t j e v early stops p)
  ];
}

front_not_kept :
    (d : ℤ) (t : TimerHeap) (j : ℕ)
    → IsTimers t
    → 0 < t.size
    → eq_ℤ (t.entries 0).deadline d ≡ true
    → keep_others d (if (t.entries 0).id == j then none else deadline_of t j)
      ≡ keep_others d (deadline_of t j)
front_not_kept d t j v h same = elim (Bool-cases ((t.entries 0).id == j)) [
  | inl e ↦ ground (arith, front_there t v h, ap (deadline_of t) ((==_iff (t.entries 0).id j).0 e))
  | inr e ↦ ground arith
]

IsBatch-goes :
    (now d : ℤ) (t u : TimerHeap) (result : TimerHeap × List TimerHandle)
    → IsTimers t
    → 0 < t.size
    → eq_ℤ (t.entries 0).deadline d ≡ true
    → d ≤ℤ now
    → Removes (t.entries 0).id t u
    → IsBatch now d u result
    → IsBatch now d t (result.0, record { owner_id = t.owner_id; id = (t.entries 0).id } ∷ result.1)
IsBatch-goes now d t u result v h same due r b =
    let at_d = eq_of_eq_ℤ (t.entries 0).deadline d same in
    record {
      timers = b.timers;
      owner = b.owner ∙ r.owner;
      next = b.next ∙ r.next;
      order = (
        (t.entries 0).deadline,
        front-IsLeast t v h,
        ground arith,
        refl,
        subst
            (λ o.
              HandsOut o now (without (deadline_of t) (t.entries 0).id) result.1
                (deadline_of result.0))
            r.owner
            (HandsOut-cong u.owner_id now (deadline_of u) (without (deadline_of t) (t.entries 0).id)
              result.1 (deadline_of result.0) (λ j. sym (r.timers j)) b.order),
      );
      starts = front_there t v h ∙ ap some at_d;
      once = λ ks. ground (
        arith,
        front_there t v h,
        at_d,
        b.once ks,
        distinct-cong (deadline_of u) (without (deadline_of t) (t.entries 0).id) (some d)
            (result.1 ++ ks) (λ j. sym (r.timers j)),
      );
      count = omega (arith, b.count, r.size);
      left = λ j. b.left j ∙ ap (keep_others d) (r.timers j) ∙ front_not_kept d t j v h same;
    }

batch_loop-IsBatch :
    (fuel : ℕ) (now d : ℤ) (t : TimerHeap)
    → t.size ≤ fuel
    → IsTimers t
    → NoneBefore d t
    → d ≤ℤ now
    → IsBatch now d t (batch_loop fuel t d)
unfolding batch_loop
batch_loop-IsBatch zero now d t f v early due = IsBatch-stops now d t v early (ground arith)
batch_loop-IsBatch (suc fuel) now d t f v early due =
    if_rule (IsBatch now d t) (t.size == 0 || not (eq_ℤ (t.entries 0).deadline d))
      (IsBatch-stops now d t v early)
      (λ goes.
        let h : 0 < t.size = ground arith in
        let (w, r) = erase_at-Removes t 0 v h in
        IsBatch-goes now d t (erase_at t 0) (batch_loop fuel (erase_at t 0) d) v h (ground arith)
          due r
          (batch_loop-IsBatch fuel now d (erase_at t 0) (omega (arith, r.size)) w
            (λ j e p. early j e (ground (arith, r.timers j))) due))

-- Handing out the batch of a deadline before which no timer is due takes out that deadline's timers.
pub pop_deadline_batch-IsBatch :
    (now d : ℤ) (t : TimerHeap)
    → IsTimers t
    → NoneBefore d t
    → d ≤ℤ now
    → IsBatch now d t (pop_deadline_batch t d)
unfolding pop_deadline_batch
pop_deadline_batch-IsBatch now d t v early due =
    batch_loop-IsBatch t.size now d t (omega arith) v early due
