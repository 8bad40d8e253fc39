-- ===== src/Timer/Reached.antt =====
-- How far the plan of the ready batches has been carried out.
use vio.Prelude.{
  ℕ, suc, false, ◌∙◌, ◌++◌, length, ◌+◌, ◌≤◌, ◌<◌, ◌≡◌, ◌⊎◌, ap, subst⁻¹, Option, none, some, List,
  [], ◌∷◌, arith, if◌then◌else◌, Option-cases, inl, inr,
}
use vio.Prelude.Int.{ℤ, ◌≤ℤ◌, ◌<ℤ◌, ltb_ℤ}
use vio.Timer.{TimerHeap, TimerHandle}
use vio.Timer.Pop.{pop_deadline_batch}
use vio.Timer.Key.{GoesFirst-deadline}
use vio.Timer.Index.{deadline_at, deadline_of}
use vio.Timer.Erase.{IsTimers}
use vio.Timer.Handed.{HandsOut, distinct, distinct-starts, same_deadline}
use vio.Timer.Batch.{front-IsLeast, IsBatch, NoneBefore, live_size, pop_deadline_batch-IsBatch}
use vio.Timer.Plan.{eq_of_eq_ℤ, IsNext}

-- No timer is due at `now`.
abbrev pub NoneReady : ℤ → TimerHeap → Type 0
NoneReady now t = (j : ℕ) (e : ℤ) → deadline_of t j ≡ some e → now <ℤ e

-- No timer is due at the deadline `last`.
abbrev pub NoneAt : Option ℤ → TimerHeap → Type 0
NoneAt last t = (j : ℕ) (e : ℤ) → deadline_of t j ≡ some e → same_deadline (some e) last ≡ false

-- What handing out `units` batches of at most `limit` does.
pub record IsPopped (now : ℤ) (limit units : ℕ) (t : TimerHeap)
    (result : TimerHeap × List TimerHandle) : Type 0 where
  pub timers : IsTimers result.0
  pub owner : result.0.owner_id ≡ t.owner_id
  pub next : result.0.next_id ≡ t.next_id
  pub order : HandsOut t.owner_id now (deadline_of t) result.1 (deadline_of result.0)
  pub paid : (last : Option ℤ) → NoneAt last t → distinct (deadline_of t) last result.1 ≡ units
  pub within : units ≤ limit
  pub ended : NoneReady now result.0 ⊎ ((units ≡ limit) × (result.0.size + limit ≤ t.size))

abbrev pub from : ℤ → Option ℤ → Option ℤ
from d none = none
from d (some e) = if ltb_ℤ e d then none else some e

-- The heap `t` has the timers of the planned heap that are due at `d` or later, and one is due at `d`.
pub record IsReached (d : ℤ) (planned t : TimerHeap) : Type 0 where
  pub timers : IsTimers t
  pub rest : (j : ℕ) → deadline_of t j ≡ from d (deadline_of planned j)
  pub some_due : (i : ℕ) × (i < planned.size) × ((planned.entries i).deadline ≡ d)

module _ (planned t : TimerHeap) (d : ℤ) (w : IsTimers planned) (r : IsReached d planned t) where
  due_there : (id : ℕ) × (deadline_of t id ≡ some d)
  due_there =
      let (i, p, q) = r.some_due in
      (
        (planned.entries i).id,
        ground
            (arith, r.rest (planned.entries i).id, ap (deadline_at planned) (w.indexed.held i p)),
      )

  reached_size : 0 < t.size
  reached_size = live_size t due_there.0 d r.timers due_there.1

  -- The first entry of such a heap is due at `d`.
  front_due : (t.entries 0).deadline ≡ d
  front_due =
      let least = front-IsLeast t r.timers reached_size in
      eq_of_eq_ℤ (t.entries 0).deadline d (
        ground (
          arith,
          GoesFirst-deadline (t.entries 0).deadline (t.entries 0).id d due_there.0
              (least.least due_there.0 d due_there.1),
          least.there,
          r.rest (t.entries 0).id,
          Option-cases (deadline_of planned (t.entries 0).id),
        ))

  reached-NoneBefore : NoneBefore d t
  reached-NoneBefore j e p = elim (Option-cases (deadline_of planned j)) [
    | inl q ↦ ground (arith, r.rest j)
    | inr (f, q) ↦ ground (arith, r.rest j)
  ]

  -- One batch more.
  pub reached-IsBatch :
      (now : ℤ) → d ≤ℤ now → IsBatch now d t (pop_deadline_batch t (t.entries 0).deadline)
  reached-IsBatch now due =
      subst⁻¹ (λ e. IsBatch now d t (pop_deadline_batch t e)) front_due
        (pop_deadline_batch-IsBatch now d t r.timers reached-NoneBefore due)

  pub batch_shrinks :
      (now : ℤ) (result : TimerHeap × List TimerHandle)
      → IsBatch now d t result
      → suc result.0.size ≤ t.size
  batch_shrinks now (u, []) b = ground (arith, b.order due_there.0, b.left due_there.0, due_there.1)
  batch_shrinks now (u, h ∷ hs) b = omega (arith, b.count)

  batch_some :
      (now : ℤ) (result : TimerHeap × List TimerHandle)
      → IsBatch now d t result
      → 0 < length result.1
  batch_some now result b = omega (arith, b.count, batch_shrinks now result b)

  -- A batch costs a unit, whatever comes after it.
  pub batch_paid :
      (now : ℤ) (result : TimerHeap × List TimerHandle) (last : Option ℤ) (ks : List TimerHandle)
      → IsBatch now d t result
      → NoneAt last t
      → distinct (deadline_of t) last (result.1 ++ ks)
        ≡ suc (distinct (deadline_of result.0) (some d) ks)
  batch_paid now result last ks b new =
      distinct-starts d (deadline_of t) last result.1 ks b.starts (batch_some now result b)
        (new due_there.0 d due_there.1)
      ∙ ap suc (b.once ks)

  -- After a batch, no timer of its deadline is left.
  pub batch-NoneAt :
      (now : ℤ) (result : TimerHeap × List TimerHandle)
      → IsBatch now d t result
      → NoneAt (some d) result.0
  batch-NoneAt now result b j e p = elim (Option-cases (deadline_of t j)) [
    | inl q ↦ ground (arith, b.left j)
    | inr (f, q) ↦ ground (arith, b.left j)
  ]

  -- The heap after a batch, when the planned heap has no later deadline that is due.
  pub last-NoneReady :
      (now : ℤ) (result : TimerHeap × List TimerHandle)
      → IsBatch now d t result
      → IsNext planned d now planned.size none
      → NoneReady now result.0
  last-NoneReady now result b last j e p = elim (Option-cases (planned.indices j)) [
    | inl q ↦ ground (arith, b.left j, r.rest j)
    | inr (i, q) ↦ ground (arith, b.left j, r.rest j, w.indexed.found j i, last i)
  ]

  -- The heap after a batch, when the next deadline that is due is `e`.
  pub next-IsReached :
      (now e : ℤ) (result : TimerHeap × List TimerHandle)
      → IsBatch now d t result
      → IsNext planned d now planned.size (some e)
      → IsReached e planned result.0
  next-IsReached now e result b (there, after, due, least) = record {
    timers = b.timers;
    rest = λ j. elim (Option-cases (planned.indices j)) [
      | inl q ↦ ground (arith, b.left j, r.rest j)
      | inr (i, q) ↦ ground (arith, b.left j, r.rest j, w.indexed.found j i, least i)
    ];
    some_due = there;
  }
