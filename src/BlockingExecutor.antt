-- ===== src/BlockingExecutor.antt =====
-- src/blocking_executor.cpp. Each part of a method or of a worker's loop that holds a mutex is one
-- atomic step; the threads' steps may come in any order. A failure to start a thread is not modelled.
pub mod Workers
pub mod Joined
mod Tests
use vio.Prelude.{
  ℕ, zero, suc, max, Bool, true, false, not, ◌&&◌, ◌||◌, List, [], ◌∷◌, ◌++◌, length, leb, is_empty,
  ◌==◌, if◌then◌else◌,
}
use vio.Error.{VoidResult, ok, err, make_error, closed, resource_exhausted}

-- Where a worker is in its loop: at `cv.wait`, with work that it runs, or returned.
pub data Phase : Type 0 where
  waiting exited : Phase
  running : ℕ → Phase

-- `queue` holds the continuations by number.
pub record State : Type 0 where
  pub queue_limit : ℕ
  pub queue : List ℕ
  pub shutting_down : Bool
  pub workers : List Phase
  pub join_started : Bool
  pub join_complete : Bool

-- A worker that there is not has returned.
abbrev pub worker : List Phase → ℕ → Phase
worker [] i = exited
worker (p ∷ ps) zero = p
worker (p ∷ ps) (suc i) = worker ps i

abbrev pub set_worker : List Phase → ℕ → Phase → List Phase
set_worker [] i q = []
set_worker (p ∷ ps) zero q = q ∷ ps
set_worker (p ∷ ps) (suc i) q = p ∷ set_worker ps i q

abbrev pub started : ℕ → List Phase
started zero = []
started (suc n) = waiting ∷ started n

-- The constructor, which starts one worker at least.
abbrev pub new : ℕ → ℕ → State
new worker_count queue_limit = record {
  queue_limit = queue_limit;
  queue = [];
  shutting_down = false;
  workers = started (max worker_count 1);
  join_started = false;
  join_complete = false;
}

unfoldable pub submit : State → ℕ → State × VoidResult
submit s work =
    if s.shutting_down
    then (s, err (make_error closed "blocking executor is shutting down"))
    else if s.queue_limit == 0 || leb s.queue_limit (length s.queue)
    then (s, err (make_error resource_exhausted "blocking executor queue is full"))
    else (record s { queue = s.queue ++ work ∷ [] }, ok tt)

-- A worker at `cv.wait` with the mutex: it waits on, it returns, or it takes the oldest work.
abbrev pub take_front : State → ℕ → List ℕ → State
take_front s i [] =
    if s.shutting_down then record s { workers = set_worker s.workers i exited } else s
take_front s i (work ∷ queue) = record s {
  queue = queue;
  workers = set_worker s.workers i (running work);
}

abbrev pub wake_at : State → ℕ → Phase → State
wake_at s i waiting = take_front s i s.queue
wake_at s i exited = s
wake_at s i (running _) = s

abbrev pub wake : State → ℕ → State
wake s i = wake_at s i (worker s.workers i)

-- A worker's work ends, by an exception or not, and the worker goes round its loop.
abbrev pub finish_at : State → ℕ → Phase → State
finish_at s i waiting = s
finish_at s i exited = s
finish_at s i (running _) = record s { workers = set_worker s.workers i waiting }

abbrev pub finish : State → ℕ → State
finish s i = finish_at s i (worker s.workers i)

unfoldable pub request_shutdown : State → State
request_shutdown s = record s { shutting_down = true }

-- What a caller of `join_workers` does next.
pub data Joining : Type 0 where
  returns waits joins : Joining

-- The start of `join_workers`, by a thread that is a worker of the executor or not.
unfoldable pub begin_join : State → Bool → State × Joining
begin_join s called_from_worker =
    if called_from_worker
    then (s, returns)
    else if s.join_complete
    then (s, returns)
    else if s.join_started
    then (s, waits)
    else (record s { join_started = true }, joins)

abbrev pub is_exited : Phase → Bool
is_exited exited = true
is_exited waiting = false
is_exited (running _) = false

abbrev pub all_exited : List Phase → Bool
all_exited [] = true
all_exited (p ∷ ps) = is_exited p && all_exited ps

-- The end of `join_workers`, by the caller that joins: each thread's `join` returns once the thread
-- has.
unfoldable pub end_join : State → State
end_join s = if s.join_started && all_exited s.workers then record s { join_complete = true } else s
