-- ===== src/Task/Resumed.antt =====
-- The coroutine that awaits a task is resumed once, with what the task returned.
use vio.Prelude.{
  ℕ, ◌≤◌, ◌≡◌, ◌⊎◌, inl, inr, refl, Bool, true, false, not, ◌&&◌, ◌||◌, Option, none, some, List,
  [], ◌∷◌, ◌==◌, if◌then◌else◌, arith, if_rule, Bool-cases, subst⁻¹,
}
use vio.Task.{
  has_value, detach, Promise, has_result, set_invalid_state, install_continuation, take_result,
  final_suspend, await_suspend, await_resume, resume_task_continuation,
}
use vio.Task.Awaited.{
  TaskEvent, returns, throws, finishes, resumes, abandons, awaits, Session, is_running, is_finished,
  start, goes_on, awaited, resumed, step, run,
}

abbrev pub has_some {ℓ} : {A : Type ℓ} → Option A → Bool
has_some none = false
has_some (some a) = true

module _ {A : Type 0} where
  -- The awaiting coroutine is suspended on a task that has finished, and nothing is scheduled.
  abbrev pub is_lost : Session A → Bool
  is_lost s = not s.gone && has_value s.suspended && is_finished s.phase && s.pending == 0

  pub record IsAwaited (s : Session A) : Type 0 where
    pub continuation : s.promise.state.continuation ≡ (if s.gone then none else s.suspended)
    pub scheduler : has_value s.promise.state.scheduler ≡ has_value s.promise.state.continuation
    pub completed : (s.gone ≡ true) ⊎ (s.promise.state.completed ≡ is_finished s.phase)
    pub attached : (s.gone ≡ true) ⊎ (s.promise.state.detached ≡ false)
    pub unused : (s.taken ≡ true) ⊎ ((s.promise.state.consumed ≡ false) × (s.suspended ≡ none))
    pub result : (s.gone ≡ true) ⊎ (s.promise.result ≡ s.outcome)
    pub returned : has_some s.outcome ≡ not (is_running s.phase)
    pub scheduled : (s.pending ≡ 0) ⊎ (is_finished s.phase ≡ true)
    pub woken : is_lost s ≡ false
    pub once : s.resumptions ≤ (if s.gone then 1 else 0)
    pub got : (s.resumptions ≡ 0) ⊎ (s.received ≡ s.outcome)

  goes_on-IsAwaited :
      (s : Session A) (p : Promise A)
      → IsAwaited s
      → (s.taken || s.gone) ≡ false
      → IsAwaited (goes_on s p)
  unfolding await_resume
  goes_on-IsAwaited s p v free = record {
    continuation = refl;
    scheduler = refl;
    completed = inl refl;
    attached = inl refl;
    unused = inl refl;
    result = inl refl;
    returned = v.returned;
    scheduled = v.scheduled;
    woken = refl;
    once = ground (arith, v.once);
    got = ground (arith, v.once);
  }

  waiting-IsAwaited :
      (s : Session A) (next scheduler : ℕ)
      → IsAwaited s
      → (s.taken || s.gone) ≡ false
      → has_result s.promise ≡ false
      → IsAwaited (awaited s next (install_continuation s.promise next scheduler))
  unfolding install_continuation
  waiting-IsAwaited s next scheduler v free waits = record {
    continuation = ground (arith, v.unused, v.attached);
    scheduler = ground (arith, v.unused, v.attached);
    completed = ground (arith, v.unused, v.attached, v.completed);
    attached = ground (arith, v.unused, v.attached);
    unused = ground (arith, v.unused, v.attached);
    result = ground (arith, v.unused, v.attached, v.result);
    returned = ground (arith, v.unused, v.attached, v.returned);
    scheduled = ground (arith, v.unused, v.attached, v.scheduled);
    woken = ground (arith, v.unused, v.attached, v.completed);
    once = ground (arith, v.unused, v.attached, v.once);
    got = ground (arith, v.unused, v.attached, v.got);
  }

  -- A task that completed since `await_ready` was asked.
  awaited_completed :
      (s : Session A) (next scheduler : ℕ)
      → s.promise.state.consumed ≡ false
      → has_result s.promise ≡ true
      → awaited s next (install_continuation s.promise next scheduler)
        ≡ goes_on s (record s.promise { state = record s.promise.state { consumed = true } })
  unfolding install_continuation
  awaited_completed s next scheduler unused done = ground (arith, unused, done)

  installed-IsAwaited :
      (s : Session A) (next scheduler : ℕ)
      → IsAwaited s
      → (s.taken || s.gone) ≡ false
      → IsAwaited (awaited s next (install_continuation s.promise next scheduler))
  installed-IsAwaited s next scheduler v free = elim (Bool-cases (has_result s.promise)) [
    | inr waits ↦ waiting-IsAwaited s next scheduler v free waits
    | inl done ↦
        subst⁻¹ IsAwaited (awaited_completed s next scheduler (ground (arith, v.unused)) done) (
          goes_on-IsAwaited s
            (record s.promise { state = record s.promise.state { consumed = true } }) v free)
  ]

  resumed-IsAwaited :
      (s : Session A)
      → IsAwaited s
      → (s.pending == 0) ≡ false
      → IsAwaited (resumed s (resume_task_continuation s.promise))
  unfolding resume_task_continuation await_resume take_result
  resumed-IsAwaited s v some_ = record {
    continuation = ground (arith, v.continuation, v.scheduler, v.attached);
    scheduler = ground (arith, v.continuation, v.scheduler, v.attached);
    completed = ground (arith, v.completed);
    attached = ground (arith, v.attached);
    unused = ground (arith, v.unused);
    result = ground (arith, v.result);
    returned = ground (arith, v.returned);
    scheduled = ground (arith, v.scheduled);
    woken = ground (arith, v.continuation, v.scheduler, v.attached);
    once = ground (arith, v.once, v.continuation);
    got =
        ground
          (arith, v.got, v.once, v.continuation, v.scheduled, v.returned, v.result, v.completed);
  }

  step-IsAwaited : (s : Session A) (c : TaskEvent A) → IsAwaited s → IsAwaited (step s c)
  unfolding step
  step-IsAwaited s (returns r) v = record {
    continuation = ground (arith, v.continuation);
    scheduler = ground (arith, v.scheduler);
    completed = ground (arith, v.completed);
    attached = ground (arith, v.attached);
    unused = ground (arith, v.unused);
    result = ground (arith, v.result);
    returned = ground (arith, v.returned);
    scheduled = ground (arith, v.scheduled);
    woken = ground (arith, v.woken);
    once = ground (arith, v.once);
    got = ground (arith, v.got, v.once);
  }
  step-IsAwaited s throws v = record {
    continuation = ground (arith, v.continuation);
    scheduler = ground (arith, v.scheduler);
    completed = ground (arith, v.completed);
    attached = ground (arith, v.attached);
    unused = ground (arith, v.unused);
    result = ground (arith, v.result);
    returned = ground (arith, v.returned);
    scheduled = ground (arith, v.scheduled);
    woken = ground (arith, v.woken);
    once = ground (arith, v.once);
    got = ground (arith, v.got, v.once);
  }
  step-IsAwaited s finishes v =
      unfold final_suspend in
      record {
        continuation = ground (arith, v.continuation);
        scheduler = ground (arith, v.scheduler);
        completed = ground (arith, v.completed);
        attached = ground (arith, v.attached);
        unused = ground (arith, v.unused);
        result = ground (arith, v.result);
        returned = ground (arith, v.returned);
        scheduled = ground (arith, v.scheduled);
        woken = ground (arith, v.woken, v.continuation, v.scheduler, v.attached);
        once = ground (arith, v.once);
        got = ground (arith, v.got);
      }
  step-IsAwaited s (awaits next none late) v =
      if_rule IsAwaited (s.taken || s.gone) (λ no_. v)
        (λ free.
          if_rule IsAwaited (late && has_result s.promise)
            (λ done. goes_on-IsAwaited s s.promise v free)
            (λ waits.
              unfold await_suspend in
              goes_on-IsAwaited s (set_invalid_state s.promise "await without a current scheduler")
                v free))
  step-IsAwaited s (awaits next (some scheduler) late) v =
      if_rule IsAwaited (s.taken || s.gone) (λ no_. v)
        (λ free.
          if_rule IsAwaited (late && has_result s.promise)
            (λ done. goes_on-IsAwaited s s.promise v free)
            (λ waits. unfold await_suspend in installed-IsAwaited s next scheduler v free))
  step-IsAwaited s resumes v =
      if_rule IsAwaited (s.pending == 0) (λ none_. v) (λ some_. resumed-IsAwaited s v some_)
  step-IsAwaited s abandons v =
      unfold detach in
      record {
        continuation = ground (arith, v.continuation);
        scheduler = ground (arith, v.scheduler);
        completed = ground (arith, v.completed);
        attached = ground (arith, v.attached);
        unused = ground (arith, v.unused);
        result = ground (arith, v.result);
        returned = ground (arith, v.returned);
        scheduled = ground (arith, v.scheduled);
        woken = ground (arith, v.woken);
        once = ground (arith, v.once);
        got = ground (arith, v.got);
      }

  run-IsAwaited : (cs : List (TaskEvent A)) (s : Session A) → IsAwaited s → IsAwaited (run s cs)
  unfolding run
  run-IsAwaited [] s v = v
  run-IsAwaited (c ∷ cs) s v = run-IsAwaited cs (step s c) (step-IsAwaited s c v)

  start-IsAwaited : (scheduler : ℕ) → IsAwaited (start {A = A} scheduler)
  start-IsAwaited scheduler = record {
    continuation = refl;
    scheduler = refl;
    completed = inr refl;
    attached = inr refl;
    unused = inr (refl, refl);
    result = inr refl;
    returned = refl;
    scheduled = inl refl;
    woken = refl;
    once = omega arith;
    got = inl refl;
  }

  -- A task that was started on a scheduler, and what its body, its awaiter and its scheduler do, in any
  -- order: the awaiting coroutine is resumed once at most; when it was resumed, it received what the
  -- body returned or threw; and it never stays suspended, unless it was destroyed, on a task that has
  -- finished, with no resumption scheduled.
  pub resumed_with_outcome :
      (scheduler : ℕ) (events : List (TaskEvent A))
      → let s = run (start scheduler) events in
        (s.resumptions ≤ 1) × ((s.resumptions ≡ 0) ⊎ (s.received ≡ s.outcome)) × (is_lost s ≡ false)
  resumed_with_outcome scheduler events =
      let v = run-IsAwaited events (start scheduler) (start-IsAwaited scheduler) in
      (ground (arith, v.once), v.got, v.woken)
