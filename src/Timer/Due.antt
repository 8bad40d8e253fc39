-- ===== src/Timer/Due.antt =====
-- What a heap of timers promises to its callers. Its timers are a function from identifiers to
-- deadlines, and handing out is repeated removal of the least timer.
use vio.Prelude.{
  ℕ, refl, ◌+◌, ◌≤◌, ◌<◌, ◌≡◌, ◌⊎◌, subst, subst⁻¹, ◌&&◌, none, some, List, length, size_max, arith,
  ◌==◌, if◌then◌else◌, inl, inr, Option-cases,
}
use vio.Prelude.Int.{ℤ}
use vio.LoopBudget.{LoopBudgetSlice, remaining_timers}
use vio.Timer.{TimerHeap, TimerHandle, new, add, cancel}
use vio.Timer.Pop.{pop_ready, pop_ready_for_budget, plan_ready_batches, pop_batches}
use vio.Timer.Index.{deadline_of}
use vio.Timer.Handed.{HandsOut, distinct}
use vio.Timer.Reached.{NoneReady, IsPopped}
use vio.Timer.Ready.{planned-IsPopped, pop_ready_lem}
use vio.Timer.Paid.{after_timers, paid_batches}
use vio.Timer.Calls.{IsSound, add-timers, refers_to, cancel-IsCancelled}
use vio.Timer.Run.{TimerCall, run, run-new-IsSound}

-- After any calls on a new heap, fewer than the counter's largest value: `pop_ready` hands out timers that
-- are due, each the least by deadline and then by identifier of those left, under the heap's owner
-- number; the timers handed out are gone, and none that is due is left.
pub pop_ready_in_order :
    (owner : ℕ) (cs : List TimerCall) (now : ℤ)
    → length cs < size_max
    → let t = run (new owner) cs in
      HandsOut owner now (deadline_of t) (pop_ready t now).1 (deadline_of (pop_ready t now).0)
      × NoneReady now (pop_ready t now).0
pop_ready_in_order owner cs now small =
    let s = run-new-IsSound owner cs small in
    let p = pop_ready_lem now (run (new owner) cs) s.0.timers in
    (
      subst
          (λ o.
            HandsOut o now (deadline_of (run (new owner) cs)) (pop_ready (run (new owner) cs) now).1
              (deadline_of (pop_ready (run (new owner) cs) now).0))
          s.1 p.3,
      p.4,
    )

not_in_use : (t : TimerHeap) → IsSound t → deadline_of t t.next_id ≡ none
not_in_use t v = elim (Option-cases (deadline_of t t.next_id)) [
  | inl e ↦ e
  | inr (d, e) ↦ absurd (omega (arith, v.fresh t.next_id d e))
]

-- After any calls on a new heap, fewer than the counter's largest value: a new timer has an identifier that
-- no timer has, and the deadline given, and the others stay; a cancellation answers whether the handle
-- is of the heap's owner and of a timer that is there, and takes out that timer and no other.
pub add_and_cancel :
    (owner : ℕ) (cs : List TimerCall) (deadline : ℤ) (h : TimerHandle)
    → length cs < size_max
    → let t = run (new owner) cs in
      let (u, added) = add t deadline in
      let (w, done) = cancel t h in
      (deadline_of t added.id ≡ none)
      × ((j : ℕ) → deadline_of u j ≡ (if added.id == j then some deadline else deadline_of t j))
      × (done ≡ refers_to t h)
      × ((j : ℕ) → deadline_of w j ≡ (if done && h.id == j then none else deadline_of t j))
unfolding add
add_and_cancel owner cs deadline h small =
    let t = run (new owner) cs in
    let s = run-new-IsSound owner cs small in
    let c = cancel-IsCancelled t h s.0 in
    (
      not_in_use t s.0,
      add-timers t deadline s.0,
      c.answer,
      λ j. ground (arith, c.timers j, c.answer),
    )

-- What handing out within a budget does to the heap `t`, whose owner number is `owner`.
abbrev pub PopsWithin :
    ℕ → ℤ → TimerHeap → LoopBudgetSlice → TimerHeap × List TimerHandle × LoopBudgetSlice → Type 0
PopsWithin owner now t slice (u, handles, paid) =
    HandsOut owner now (deadline_of t) handles (deadline_of u)
    × (paid.consumed_timers ≡ slice.consumed_timers + distinct (deadline_of t) none handles)
    × (paid.consumed_timers ≤ slice.consumed_timers + remaining_timers slice)
    × (NoneReady now u ⊎ (remaining_timers paid ≡ 0))

popped-PopsWithin :
    (owner : ℕ) (now : ℤ) (t : TimerHeap) (slice : LoopBudgetSlice) (units : ℕ)
    → t.owner_id ≡ owner
    → IsPopped now (remaining_timers slice) units t (pop_batches units t)
    → PopsWithin owner now t slice
        ((pop_batches units t).0, (pop_batches units t).1, after_timers slice units)
unfolding remaining_timers
popped-PopsWithin owner now t slice units own p = (
  subst
      (λ o.
        HandsOut o now (deadline_of t) (pop_batches units t).1
          (deadline_of (pop_batches units t).0))
      own p.order,
  omega (arith, p.paid none (λ j e _. refl)),
  omega (arith, p.within),
  elim p.ended [ inl done ↦ inl done | inr (all, _) ↦ inr (ground arith) ],
)

-- After any calls on a new heap, fewer than the counter's largest value: `pop_ready` with a budget
-- hands out due timers, each the least of those left; it pays one unit for each deadline among them,
-- and no more than the units left; and where due timers are left, all units are used up.
pub pop_ready_within_budget :
    (owner : ℕ) (cs : List TimerCall) (now : ℤ) (slice : LoopBudgetSlice)
    → length cs < size_max
    → let t = run (new owner) cs in PopsWithin owner now t slice (pop_ready_for_budget t now slice)
pop_ready_within_budget owner cs now slice small =
    let t = run (new owner) cs in
    let s = run-new-IsSound owner cs small in
    let units = (plan_ready_batches t now (remaining_timers slice)).batch_count in
    subst⁻¹ (PopsWithin owner now t slice) (paid_batches now t slice s.0.timers) (
      popped-PopsWithin owner now t slice units s.1
        (planned-IsPopped (remaining_timers slice) now t s.0.timers))
