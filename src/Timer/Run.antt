-- ===== src/Timer/Run.antt =====
-- Heaps that any calls lead to, and what they hand out.
use vio.Prelude.{
  ℕ, suc, ◌+◌, ◌≤◌, ◌<◌, ◌≡◌, refl, ◌∙◌, ap, sym, subst, some, List, [], ◌∷◌, length, size_max,
  arith,
}
use vio.Prelude.Int.{ℤ}
use vio.LoopBudget.{LoopBudgetSlice, remaining_timers}
use vio.Timer.{TimerHeap, TimerHandle, new, add, cancel}
use vio.Timer.Pop.{pop_ready, pop_ready_for_budget, plan_ready_batches, pop_batches}
use vio.Timer.Index.{deadline_of}
use vio.Timer.Handed.{Timers, without, HandsOut}
use vio.Timer.Reached.{IsPopped}
use vio.Timer.Ready.{planned-IsPopped}
use vio.Timer.Paid.{paid_batches}
use vio.Timer.Calls.{IsSound, add-owner, add-next, add-IsSound, cancel-IsCancelled}

pub data TimerCall : Type 0 where
  adds pops : ℤ → TimerCall
  cancels : TimerHandle → TimerCall
  pops_for_budget : ℤ → LoopBudgetSlice → TimerCall

unfoldable pub step : TimerHeap → TimerCall → TimerHeap
step t (adds deadline) = (add t deadline).0
step t (pops now) = (pop_ready t now).0
step t (cancels handle) = (cancel t handle).0
step t (pops_for_budget now slice) = (pop_ready_for_budget t now slice).0

unfoldable pub run : TimerHeap → List TimerCall → TimerHeap
run t [] = t
run t (c ∷ cs) = run (step t c) cs

-- What is left was there before.
HandsOut-left :
    (owner : ℕ) (now : ℤ) (m n : Timers) (hs : List TimerHandle) (j : ℕ) (d : ℤ)
    → HandsOut owner now m hs n
    → n j ≡ some d
    → m j ≡ some d
HandsOut-left owner now m n [] j d r p = sym (r j) ∙ p
HandsOut-left owner now m n (h ∷ hs) j d (e, l, due, own, r) p =
    ground (arith, HandsOut-left owner now (without m h.id) n hs j d r p)

-- Handing out timers keeps a heap sound.
popped-IsSound :
    (now : ℤ) (limit units : ℕ) (t : TimerHeap) (result : TimerHeap × List TimerHandle)
    → IsSound t
    → IsPopped now limit units t result
    → IsSound result.0
popped-IsSound now limit units t result v p = record {
  timers = p.timers;
  fresh = λ id d e. ground (
    arith,
    p.next,
    v.fresh id d (
        HandsOut-left t.owner_id now (deadline_of t) (deadline_of result.0) result.1 id d p.order
          e),
  );
}

-- After a step: a sound heap of the same owner, whose next identifier is at most one further.
record IsStepped (t u : TimerHeap) : Type 0 where
  sound : IsSound u
  owner : u.owner_id ≡ t.owner_id
  next : u.next_id ≤ suc t.next_id

step-IsStepped :
    (t : TimerHeap) (c : TimerCall) → IsSound t → t.next_id < size_max → IsStepped t (step t c)
unfolding step
step-IsStepped t (adds deadline) v small = record {
  sound = add-IsSound t deadline v small;
  owner = add-owner t deadline v;
  next = ground (arith, add-next t deadline v);
}
step-IsStepped t (cancels handle) v small =
    let c = cancel-IsCancelled t handle v in
    record { sound = c.sound; owner = c.owner; next = omega (arith, c.next) }
step-IsStepped t (pops now) v small =
    unfold pop_ready in
    let p = planned-IsPopped t.size now t v.timers in
    record {
      sound =
          popped-IsSound now t.size (plan_ready_batches t now t.size).batch_count t
            (pop_ready t now) v p;
      owner = p.owner;
      next = omega (arith, p.next);
    }
step-IsStepped t (pops_for_budget now slice) v small =
    let limit = remaining_timers slice in
    let units = (plan_ready_batches t now limit).batch_count in
    let p = planned-IsPopped limit now t v.timers in
    subst (IsStepped t) (ap (λ r. r.0) (sym (paid_batches now t slice v.timers))) (record {
      sound = popped-IsSound now limit units t (pop_batches units t) v p;
      owner = p.owner;
      next = omega (arith, p.next);
    })

run-IsSound :
    (cs : List TimerCall) (t : TimerHeap)
    → IsSound t
    → t.next_id + length cs ≤ size_max
    → IsSound (run t cs)
      × ((run t cs).owner_id ≡ t.owner_id)
      × ((run t cs).next_id ≤ t.next_id + length cs)
unfolding run
run-IsSound [] t v small = (v, refl, omega arith)
run-IsSound (c ∷ cs) t v small =
    let s = step-IsStepped t c v (omega arith) in
    let r = run-IsSound cs (step t c) s.sound (omega (arith, s.next)) in
    (r.0, r.1 ∙ s.owner, omega (arith, r.2, s.next))

pub new-IsSound : (owner : ℕ) → IsSound (new owner)
new-IsSound owner = record {
  timers = record {
    heap = λ c p q. elim q [ ];
    indexed = record { held = λ i h. elim h [ ]; found = λ id i e. ground arith };
  };
  fresh = λ id d e. ground arith;
}

pub run-new-IsSound :
    (owner : ℕ) (cs : List TimerCall)
    → length cs < size_max
    → IsSound (run (new owner) cs)
      × ((run (new owner) cs).owner_id ≡ owner)
      × ((run (new owner) cs).next_id ≤ 1 + length cs)
run-new-IsSound owner cs small = run-IsSound cs (new owner) (new-IsSound owner) (omega arith)
