-- ===== src/Task.antt =====
-- include/voris/io/task.hpp: what a task and the coroutine that awaits it share. Each method of
-- `task_continuation_state` holds its mutex throughout, so that it is one step. A coroutine and a
-- scheduler are numbers, and the body of a coroutine is what calls these methods.
pub mod Awaited
pub mod Resumed
mod Tests
use Prim.Native.String.{String}
use vio.Prelude.{ℕ, Bool, true, false, not, ◌||◌, Option, none, some, if◌then◌else◌}
use vio.Error.{Result, ok, err, make_error, invalid_state}

pub data InstallResult : Type 0 where
  suspend ready already_consumed : InstallResult

pub record ContinuationState : Type 0 where
  pub continuation : Option ℕ
  pub scheduler : Option ℕ
  pub completed : Bool
  pub detached : Bool
  pub consumed : Bool

abbrev pub new_state : ContinuationState
new_state = record {
  continuation = none;
  scheduler = none;
  completed = false;
  detached = false;
  consumed = false;
}

abbrev pub has_value : Option ℕ → Bool
has_value none = false
has_value (some n) = true

unfoldable pub detach : ContinuationState → ContinuationState
detach s = record s { continuation = none; scheduler = none; detached = true }

abbrev pub is_completed : ContinuationState → Bool
is_completed s = s.completed

unfoldable pub install : ContinuationState → ℕ → ℕ → ContinuationState × InstallResult
install s next next_scheduler =
    if s.consumed
    then (s, already_consumed)
    else if s.completed || s.detached
    then (record s { consumed = true }, ready)
    else (
      record s { consumed = true; continuation = some next; scheduler = some next_scheduler },
      suspend,
    )

-- The scheduler on which the continuation is to be resumed.
unfoldable pub publish_completed : ContinuationState → ContinuationState × Option ℕ
publish_completed s =
    if s.detached || not (has_value s.continuation) || not (has_value s.scheduler)
    then (record s { completed = true }, none)
    else (record s { completed = true }, s.scheduler)

-- The continuation, which is claimed once.
unfoldable pub claim : ContinuationState → ContinuationState × Option ℕ
claim s =
    if s.detached || not (has_value s.continuation) || not (has_value s.scheduler)
    then (s, none)
    else (record s { continuation = none; scheduler = none }, s.continuation)

unfoldable pub mark_completed : ContinuationState → ContinuationState
mark_completed s = record s { completed = true }

-- The promise of a task with results in `A`.
pub record Promise (A : Type 0) : Type 0 where
  pub creation_scheduler : Option ℕ
  pub state : ContinuationState
  pub result : Option (Result A)

module _ {A : Type 0} where
  abbrev pub new_promise : Option ℕ → Promise A
  new_promise current_scheduler = record {
    creation_scheduler = current_scheduler;
    state = new_state;
    result = none;
  }

  abbrev pub has_result : Promise A → Bool
  has_result p = is_completed p.state

  unfoldable pub set_invalid_state : Promise A → String → Promise A
  unfolding mark_completed
  set_invalid_state p diagnostic = elim p.result [
    | none ↦ record p {
      result = some (err (make_error invalid_state diagnostic));
      state = mark_completed p.state;
    }
    | some r ↦ p
  ]

  -- `initial_suspend`: whether the body starts at once.
  abbrev pub initial_await_ready : Promise A → Bool
  initial_await_ready p = has_value p.creation_scheduler

  abbrev pub initial_await_suspend : Promise A → Promise A
  initial_await_suspend p = set_invalid_state p "task created without a current scheduler"

  abbrev pub return_value : Promise A → Result A → Promise A
  return_value p value = record p { result = some value }

  abbrev pub unhandled_exception : Promise A → Promise A
  unhandled_exception p = record p {
    result = some (err (make_error invalid_state "unhandled coroutine exception"));
  }

  -- Whether the awaiting coroutine stays suspended.
  unfoldable pub install_continuation : Promise A → ℕ → ℕ → Promise A × Bool
  unfolding install
  install_continuation p next scheduler =
      let (s, installed) = install p.state next scheduler in
      elim installed [
        | suspend ↦ (record p { state = s }, true)
        | ready ↦ (record p { state = s }, false)
        | already_consumed ↦
            (set_invalid_state (record p { state = s }) "task awaited more than once", false)
      ]

  unfoldable pub take_result : Promise A → Result A
  take_result p =
      let missing : Result A = err (make_error invalid_state "task has not completed") in
      elim p.result [ none ↦ missing | some r ↦ if has_result p then r else missing ]

  -- `final_suspend`: the scheduler that is given the resumption.
  unfoldable pub final_suspend : Promise A → Promise A × Option ℕ
  unfolding publish_completed
  final_suspend p =
      let (s, scheduler) = publish_completed p.state in (record p { state = s }, scheduler)

  -- `await_suspend` of the awaiter, with the current scheduler, if there is one.
  unfoldable pub await_suspend : Promise A → ℕ → Option ℕ → Promise A × Bool
  await_suspend p continuation none =
      (set_invalid_state p "await without a current scheduler", false)
  await_suspend p continuation (some scheduler) = install_continuation p continuation scheduler

  -- `await_resume` of the awaiter, which detaches it.
  unfoldable pub await_resume : Promise A → Promise A × Result A
  unfolding detach
  await_resume p = (record p { state = detach p.state }, take_result p)

  -- A scheduled resumption runs: the coroutine that it resumes.
  unfoldable pub resume_task_continuation : Promise A → Promise A × Option ℕ
  unfolding claim
  resume_task_continuation p = let (s, claimed) = claim p.state in (record p { state = s }, claimed)
