-- ===== src/Semaphore.antt =====
-- include/voris/io/async_semaphore.hpp. A semaphore and its operations belong to one thread; each
-- method is one step on the semaphore and the store of its waiters. A semaphore that was destroyed is
-- one that is not alive: its weak references lead nowhere.
pub mod Release
pub mod Waiting
mod Tests
use vio.Prelude.{
  ℕ, zero, suc, ◌+◌, ◌-◌, Bool, true, false, not, ◌&&◌, ◌||◌, Option, none, some, List, [], ◌∷◌,
  ◌++◌, length, erase_first, size_max, leb, ltb, ◌==◌, if◌then◌else◌,
}
use vio.Error.{VoidResult, ok, err, make_error, invalid_state, resource_exhausted}
use vio.Waiter.{
  Waiter, Store, put, fresh_waiter, has_result, complete, can_resume, prepared, schedule_waiter,
  observed,
}

pub record Semaphore : Type 0 where
  pub permits : ℕ
  pub max_waiters : ℕ
  pub waiters : List ℕ
  pub alive : Bool

pub record World : Type 0 where
  pub semaphore : Semaphore
  pub store : Store

abbrev pub default_max_waiters : ℕ → ℕ
default_max_waiters initial_permits = if initial_permits == 0 then 1 else initial_permits

abbrev pub new : ℕ → ℕ → Semaphore
new permits max_waiters = record {
  permits = permits;
  max_waiters = max_waiters;
  waiters = [];
  alive = true;
}

abbrev pub with_permits : World → ℕ → World
with_permits w n = record w { semaphore = record w.semaphore { permits = n } }

abbrev pub with_waiter : World → ℕ → Waiter → World
with_waiter w i v = record w { store = put w.store i v }

unfoldable pub try_acquire : World → World × VoidResult
try_acquire w =
    let s = w.semaphore in
    if not s.alive
    then (w, err (make_error invalid_state "semaphore is not alive"))
    else if s.permits == 0
    then (w, err (make_error resource_exhausted "no semaphore permits available"))
    else (with_permits w (s.permits - 1), ok tt)

-- `acquire` makes an operation with a waiter of its own.
unfoldable pub acquire : World → ℕ → World
acquire w i = with_waiter w i (record fresh_waiter { owner = w.semaphore.alive })

-- A completion that ends the waiter's link to its owner.
abbrev finish : World → ℕ → VoidResult → World
finish w i r = with_waiter w i (record (complete (w.store.waiter i) r) { owner = false })

-- The new world, and whether the waiter need not wait.
unfoldable pub try_complete_immediate : World → ℕ → World × Bool
try_complete_immediate w i =
    let s = w.semaphore in
    let v = w.store.waiter i in
    if not v.held || v.detached || has_result v
    then (w, true)
    else if not (v.owner && s.alive)
    then (finish w i (err (make_error invalid_state "semaphore acquire owner is not alive")), true)
    else if not (s.permits == 0)
    then (finish (with_permits w (s.permits - 1)) i (ok tt), true)
    else if leb s.max_waiters (length s.waiters)
    then (finish w i (err (make_error resource_exhausted "semaphore wait queue is full")), true)
    else (w, false)

enqueue : World → ℕ → ℕ → World
enqueue w i scheduler =
    let v = w.store.waiter i in
    record (with_waiter w i
      (record v { continuation = true; scheduler = some scheduler; enqueued = true })) {
        semaphore = record w.semaphore { waiters = w.semaphore.waiters ++ i ∷ [] };
      }

-- The test that follows in the source, of an owner that is not alive, cannot hold here: nothing
-- comes between it and `try_complete_immediate`, which made it.
unfoldable pub enqueue_waiter : World → ℕ → ℕ → World × Bool
unfolding enqueue
enqueue_waiter w i scheduler =
    let (w', done) = try_complete_immediate w i in
    if done then (w', false) else (enqueue w' i scheduler, true)

abbrev pub await_ready : World → ℕ → World × Bool
await_ready = try_complete_immediate

-- The current scheduler is an argument. The answer is whether the coroutine stays suspended.
unfoldable pub await_suspend : World → ℕ → Option ℕ → World × Bool
await_suspend w i none =
    if (w.store.waiter i).held
    then (
      finish w i (err (make_error invalid_state "semaphore acquire without a current scheduler")),
      false,
    )
    else (w, false)
await_suspend w i (some scheduler) = enqueue_waiter w i scheduler

unfoldable pub await_resume : World → ℕ → World × VoidResult
await_resume w i =
    let v = w.store.waiter i in
    if not v.held
    then (w, err (make_error invalid_state "empty semaphore acquire operation"))
    else (
      with_waiter w i (record v {
        held = false;
        observing = true;
        continuation = false;
        scheduler = none;
        owner = false;
        reserved = false;
      }),
      observed v (err (make_error invalid_state "semaphore acquire resumed without completion")),
    )

-- What `detach` does to the waiter in each case.
abbrev pub detached : Waiter → Waiter
detached v = record v {
  held = false;
  detached = true;
  continuation = false;
  scheduler = none;
  owner = false;
}

add_permits_saturating : ℕ → ℕ → ℕ
add_permits_saturating permits n = if ltb (size_max - permits) n then size_max else permits + n

module _ (accepts : ℕ → Bool) where
  -- A permit goes to the waiter `i`, which can resume.
  abbrev pub grant : Store → ℕ → Store
  grant s i =
      schedule_waiter accepts
        (put s i (record (complete (prepared (s.waiter i)) (ok tt)) { reserved = true })) i

  -- The loop of `release_to_state` over the queue: the permits left, the queue left and the store.
  unfoldable pub release_loop : List ℕ → ℕ → Store → ℕ × List ℕ × Store
  release_loop [] remaining s = (remaining, [], s)
  release_loop (i ∷ queue) zero s = (zero, i ∷ queue, s)
  release_loop (i ∷ queue) (suc remaining) s =
      let granted = release_loop queue remaining (grant s i) in
      let skipped = release_loop queue (suc remaining) (put s i (prepared (s.waiter i))) in
      if can_resume (s.waiter i) then granted else skipped

  -- `release` and `release_to_state`.
  unfoldable pub release : World → ℕ → World
  unfolding add_permits_saturating
  release w n =
      let s = w.semaphore in
      let (remaining, queue, store) = release_loop s.waiters n w.store in
      if not s.alive || n == 0 then w else record {
        semaphore = record s {
          permits = add_permits_saturating s.permits remaining;
          waiters = queue;
        };
        store = store;
      }

  -- The destructor of an operation: `detach` and `detach_waiter`.
  unfoldable pub detach : World → ℕ → World
  detach w i =
      let s = w.semaphore in
      let v = w.store.waiter i in
      let gone = detached v in
      if not v.held || v.observing
      then w
      else if not (v.owner && s.alive)
      then with_waiter w i gone
      else if v.enqueued
      then record (with_waiter w i (record gone { enqueued = false })) {
        semaphore = record s { waiters = erase_first i s.waiters };
      }
      else if v.reserved
      then release (with_waiter w i (record gone { reserved = false })) 1
      else with_waiter w i gone

  -- One round of the loop of `close_state`: a waiter that can resume does so with an error.
  abbrev pub close_one : Store → ℕ → Store
  close_one s i =
      let v = prepared (s.waiter i) in
      let failed =
        record (complete v
          (err (make_error invalid_state "semaphore destroyed with pending acquire"))) {
            owner = false;
          } in
      if can_resume (s.waiter i) then schedule_waiter accepts (put s i failed) i else put s i v

  unfoldable pub close_loop : List ℕ → Store → Store
  close_loop [] s = s
  close_loop (i ∷ queue) s = close_loop queue (close_one s i)

  -- The destructor of a semaphore.
  unfoldable pub close : World → World
  close w = record {
    semaphore = record w.semaphore { alive = false; waiters = [] };
    store = close_loop w.semaphore.waiters w.store;
  }

-- A scheduled resumption runs: whether it resumes the coroutine.
unfoldable pub resume_waiter : World → ℕ → World × Bool
resume_waiter w i =
    let v = w.store.waiter i in
    if v.detached || v.observing || not v.continuation
    then (w, false)
    else (with_waiter w i (record v { continuation = false; scheduler = none }), true)
