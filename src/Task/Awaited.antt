-- ===== src/Task/Awaited.antt =====
-- A task and the coroutine that awaits it, on threads of their own.
use vio.Prelude.{
  ℕ, suc, ◌-◌, Bool, true, false, not, ◌||◌, ◌&&◌, Option, none, some, List, [], ◌∷◌, ◌==◌,
  if◌then◌else◌,
}
use vio.Error.{Result, err, make_error, invalid_state}
use vio.Task.{
  has_value, detach, Promise, new_promise, has_result, return_value, unhandled_exception,
  final_suspend, await_suspend, await_resume, resume_task_continuation,
}

-- Where the body of the task is.
pub data Phase : Type 0 where
  runs returned finished : Phase

-- `awaits` has the coroutine, the current scheduler, and whether `await_ready` is asked at that time or
-- was asked before the task had completed.
pub data TaskEvent (A : Type 0) : Type 0 where
  returns : Result A → TaskEvent A
  throws finishes resumes abandons : TaskEvent A
  awaits : ℕ → Option ℕ → Bool → TaskEvent A

-- A task that was started, with the coroutine that was suspended on it, what the task returned, how
-- many resumptions are scheduled, and what the awaiting coroutine received and how often it was
-- resumed. A task that is `gone` was destroyed by its awaiter.
pub record Session (A : Type 0) : Type 0 where
  pub promise : Promise A
  pub phase : Phase
  pub taken : Bool
  pub gone : Bool
  pub suspended : Option ℕ
  pub outcome : Option (Result A)
  pub pending : ℕ
  pub resumptions : ℕ
  pub received : Option (Result A)

abbrev pub is_running : Phase → Bool
is_running runs = true
is_running returned = false
is_running finished = false

abbrev pub is_returned : Phase → Bool
is_returned runs = false
is_returned returned = true
is_returned finished = false

abbrev pub is_finished : Phase → Bool
is_finished runs = false
is_finished returned = false
is_finished finished = true

module _ {A : Type 0} where
  abbrev pub start : ℕ → Session A
  start scheduler = record {
    promise = new_promise (some scheduler);
    phase = runs;
    taken = false;
    gone = false;
    suspended = none;
    outcome = none;
    pending = 0;
    resumptions = 0;
    received = none;
  }

  -- The awaiting coroutine goes on at once.
  abbrev pub goes_on : Session A → Promise A → Session A
  goes_on s p = record s {
    promise = (await_resume p).0;
    taken = true;
    gone = true;
    received = some (await_resume p).1;
  }

  abbrev pub awaited : Session A → ℕ → Promise A × Bool → Session A
  awaited s next (p, suspends) =
      if suspends
      then record s { promise = p; taken = true; suspended = some next }
      else goes_on s p

  -- The coroutine that a resumption claims takes the result.
  abbrev pub resumed : Session A → Promise A × Option ℕ → Session A
  resumed s (p, none) = record s { promise = p; pending = s.pending - 1 }
  resumed s (p, some next) = record s {
    promise = (await_resume p).0;
    gone = true;
    pending = s.pending - 1;
    resumptions = suc s.resumptions;
    received = some (await_resume p).1;
  }

  -- A task is awaited once, since awaiting moves it; its body returns once and then finishes.
  unfoldable pub step : Session A → TaskEvent A → Session A
  step s (returns r) =
      if not (is_running s.phase) || s.gone
      then s
      else record s { promise = return_value s.promise r; phase = returned; outcome = some r }
  step s throws = if not (is_running s.phase) || s.gone then s else record s {
    promise = unhandled_exception s.promise;
    phase = returned;
    outcome = some (err (make_error invalid_state "unhandled coroutine exception"));
  }
  step s finishes =
      let (p, scheduler) = final_suspend s.promise in
      if not (is_returned s.phase) || s.gone then s else record s {
        promise = p;
        phase = finished;
        pending = if has_value scheduler then suc s.pending else s.pending;
      }
  step s (awaits next scheduler late) =
      if s.taken || s.gone
      then s
      else if late && has_result s.promise
      then goes_on s s.promise
      else awaited s next (await_suspend s.promise next scheduler)
  step s resumes = if s.pending == 0 then s else resumed s (resume_task_continuation s.promise)
  step s abandons = if s.gone then s else record s {
    promise = record s.promise { state = detach s.promise.state };
    taken = true;
    gone = true;
  }

  unfoldable pub run : Session A → List (TaskEvent A) → Session A
  run s [] = s
  run s (c ∷ cs) = run (step s c) cs
