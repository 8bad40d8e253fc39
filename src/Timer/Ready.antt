-- ===== src/Timer/Ready.antt =====
-- Handing out all the timers that are due.
use vio.Prelude.{
  ℕ, ap, zero, suc, ◌≤◌, ◌<◌, ◌≡◌, refl, ◌∙◌, subst, true, ◌||◌, Option, none, some, List, [], ◌++◌,
  arith, ◌==◌, if_rule, Option-cases, Bool-cases, inl, inr,
}
use vio.Prelude.Int.{ℤ, ◌≤ℤ◌, ltb_ℤ}
use vio.Timer.{TimerHeap, TimerHandle}
use vio.Timer.Pop.{
  ReadyBatchPlan, pop_deadline_batch, batch_size, next_ready, plan_from, plan_loop,
  plan_ready_batches, pop_batches, pop_ready,
}
use vio.Timer.Key.{GoesFirst-deadline}
use vio.Timer.Index.{deadline_of}
use vio.Timer.Erase.{IsTimers}
use vio.Timer.Handed.{HandsOut, HandsOut-append, distinct}
use vio.Timer.Batch.{front-IsLeast, live_size}
use vio.Timer.Plan.{batch_size_pos, IsNext, next_ready-IsNext}
use vio.Timer.Reached.{
  NoneReady, NoneAt, IsPopped, IsReached, batch_paid, batch-NoneAt, reached-IsBatch, batch_shrinks,
  last-NoneReady, next-IsReached,
}

-- One batch, and then the rest of the plan.
planned_next :
    (now d : ℤ) (limit units : ℕ) (t : TimerHeap) (first last : TimerHeap × List TimerHandle)
    → suc first.0.size ≤ t.size
    → IsTimers last.0
    → first.0.owner_id ≡ t.owner_id
    → first.0.next_id ≡ t.next_id
    → HandsOut t.owner_id now (deadline_of t) first.1 (deadline_of first.0)
    → ((before : Option ℤ)
        → NoneAt before t
        → distinct (deadline_of t) before (first.1 ++ last.1)
          ≡ suc (distinct (deadline_of first.0) (some d) last.1))
    → NoneAt (some d) first.0
    → IsPopped now limit units first.0 last
    → IsPopped now (suc limit) (suc units) t (last.0, first.1 ++ last.1)
planned_next now d limit units t first last shrinks v o n out cost none_at p = record {
  timers = v;
  owner = p.owner ∙ o;
  next = p.next ∙ n;
  order =
      HandsOut-append t.owner_id now (deadline_of t) (deadline_of first.0) (deadline_of last.0)
        first.1 last.1 out
        (subst (λ x. HandsOut x now (deadline_of first.0) last.1 (deadline_of last.0)) o p.order);
  paid = λ before new. cost before new ∙ ap suc (p.paid (some d) none_at);
  within = omega (arith, p.within);
  ended = elim p.ended [ inl done ↦ inl done | inr (all, small) ↦ inr (omega arith, omega arith) ];
}

-- A planned batch, with the rest of the plan from the deadline `next` on.
planned_batch :
    (left : ℕ) (now d : ℤ) (planned t : TimerHeap) (next : Option ℤ)
    → IsTimers planned
    → IsReached d planned t
    → d ≤ℤ now
    → IsNext planned d now planned.size next
    → ((e : ℤ) (u : TimerHeap)
        → IsReached e planned u
        → e ≤ℤ now
        → let units = (plan_loop left planned now e).batch_count in
          IsPopped now left units u (pop_batches units u))
    → let units = (plan_from (plan_loop left planned now) next).batch_count in
      IsPopped now (suc left) (suc units) t (pop_batches (suc units) t)
unfolding pop_batches
planned_batch left now d planned t none w r due found rest =
    let b = reached-IsBatch planned t d w r now due in
    let first = pop_deadline_batch t (t.entries 0).deadline in
    record {
      timers = b.timers;
      owner = b.owner;
      next = b.next;
      order =
          HandsOut-append t.owner_id now (deadline_of t) (deadline_of first.0) (deadline_of first.0)
            first.1 [] b.order (λ j. refl);
      paid = λ before new. batch_paid planned t d w r now first before [] b new;
      within = omega arith;
      ended = inl (last-NoneReady planned t d w r now first b found);
    }
planned_batch left now d planned t (some e) w r due found rest =
    let b = reached-IsBatch planned t d w r now due in
    let first = pop_deadline_batch t (t.entries 0).deadline in
    let units = (plan_loop left planned now e).batch_count in
    let p = rest e first.0 (next-IsReached planned t d w r now e first b found) found.2 in
    let last = pop_batches units first.0 in
    planned_next now d left units t first last (batch_shrinks planned t d w r now first b) p.timers
      b.owner b.next b.order
      (λ before new. batch_paid planned t d w r now first before last.1 b new)
      (batch-NoneAt planned t d w r now first b) p

pop_batches-IsPopped :
    (left : ℕ) (now d : ℤ) (planned t : TimerHeap)
    → IsTimers planned
    → IsReached d planned t
    → d ≤ℤ now
    → let units = (plan_loop left planned now d).batch_count in
      IsPopped now left units t (pop_batches units t)
unfolding plan_loop
pop_batches-IsPopped zero now d planned t w r due =
    unfold pop_batches in
    record {
      timers = r.timers;
      owner = refl;
      next = refl;
      order = λ j. refl;
      paid = λ before new. refl;
      within = omega arith;
      ended = inr (refl, omega arith);
    }
pop_batches-IsPopped (suc left) now d planned t w r due =
    let (i, p, q) = r.some_due in
    if_rule
      (λ (plan : ReadyBatchPlan).
        IsPopped now (suc left) plan.batch_count t (pop_batches plan.batch_count t))
      (batch_size planned d planned.size == 0)
      (λ empty. absurd (ground (arith, batch_size_pos planned d planned.size i p q)))
      (λ some_.
        planned_batch left now d planned t (next_ready planned d now planned.size) w r due
          (next_ready-IsNext planned d now planned.size)
          (λ e u r' due'. pop_batches-IsPopped left now e planned u w r' due'))

-- With nothing to do, the plan is empty.
nothing_planned :
    (max_batches : ℕ) (now : ℤ) (t : TimerHeap)
    → IsTimers t
    → (max_batches == 0 || t.size == 0 || ltb_ℤ now (t.entries 0).deadline) ≡ true
    → IsPopped now max_batches 0 t (pop_batches 0 t)
unfolding pop_batches
nothing_planned max_batches now t v nothing = record {
  timers = v;
  owner = refl;
  next = refl;
  order = λ j. refl;
  paid = λ before new. refl;
  within = omega arith;
  ended = elim (Bool-cases (max_batches == 0)) [
    | inl none_ ↦ inr (ground arith, ground arith)
    | inr some_ ↦ inl (λ j e p.
        let h = live_size t j e v p in
        ground (
          arith,
          GoesFirst-deadline (t.entries 0).deadline (t.entries 0).id e j
              ((front-IsLeast t v h).least j e p),
        ))
  ];
}

front-IsReached : (t : TimerHeap) → IsTimers t → 0 < t.size → IsReached (t.entries 0).deadline t t
front-IsReached t v h = record {
  timers = v;
  rest = λ j. elim (Option-cases (deadline_of t j)) [
    | inl q ↦ rw q
    | inr (e, q) ↦ ground (
      arith,
      GoesFirst-deadline (t.entries 0).deadline (t.entries 0).id e j
          ((front-IsLeast t v h).least j e q),
    )
  ];
  some_due = (0, h, refl);
}

-- What the plan of any number of batches does to a heap.
pub planned-IsPopped :
    (max_batches : ℕ) (now : ℤ) (t : TimerHeap)
    → IsTimers t
    → let units = (plan_ready_batches t now max_batches).batch_count in
      IsPopped now max_batches units t (pop_batches units t)
unfolding plan_ready_batches
planned-IsPopped max_batches now t v =
    if_rule
      (λ (plan : ReadyBatchPlan).
        IsPopped now max_batches plan.batch_count t (pop_batches plan.batch_count t))
      (max_batches == 0 || t.size == 0 || ltb_ℤ now (t.entries 0).deadline)
      (nothing_planned max_batches now t v)
      (λ some_.
        pop_batches-IsPopped max_batches now (t.entries 0).deadline t t v
          (front-IsReached t v (ground arith)) (ground arith))

-- What `pop_ready` does to a heap of timers: nothing that is due is left.
pub pop_ready_lem :
    (now : ℤ) (t : TimerHeap)
    → IsTimers t
    → let (u, handles) = pop_ready t now in
      IsTimers u
      × (u.owner_id ≡ t.owner_id)
      × (u.next_id ≡ t.next_id)
      × HandsOut t.owner_id now (deadline_of t) handles (deadline_of u)
      × NoneReady now u
unfolding pop_ready
pop_ready_lem now t v =
    let p = planned-IsPopped t.size now t v in
    (
      p.timers,
      p.owner,
      p.next,
      p.order,
      λ j e q. elim p.ended [
        | inl done ↦ done j e q
        | inr (all, small) ↦ ground (arith, live_size (pop_ready t now).0 j e p.timers q)
      ],
    )
