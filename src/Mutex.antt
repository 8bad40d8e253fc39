-- ===== src/Mutex.antt =====
-- include/voris/io/async_mutex.hpp. A mutex and its operations belong to one thread; each method is
-- one step on the mutex and the store of its waiters. A mutex that was destroyed is one that is not
-- alive: its weak references lead nowhere.
pub mod Exclusion
pub mod Transfer
pub mod Holders
pub mod Handoff
mod Tests
use vio.Prelude.{
  ℕ, zero, suc, Bool, true, false, not, ◌&&◌, ◌||◌, Option, none, some, List, [], ◌∷◌, ◌++◌, length,
  erase_first, leb, ◌==◌, if◌then◌else◌,
}
use vio.Error.{
  VoidResult, ok, err, make_error, invalid_state, operation_in_progress, resource_exhausted,
}
use vio.Waiter.{
  Waiter, Store, put, fresh_waiter, has_result, complete, can_resume, prepared, schedule_waiter,
  observed,
}

-- `handoff` is the waiter to which the weak reference leads.
pub record Mutex : Type 0 where
  pub locked : Bool
  pub max_waiters : ℕ
  pub waiters : List ℕ
  pub handoff : Option ℕ
  pub alive : Bool

pub record World : Type 0 where
  pub mutex : Mutex
  pub store : Store

abbrev pub default_max_waiters : ℕ
default_max_waiters = 1

abbrev pub new : ℕ → Mutex
new max_waiters = record {
  locked = false;
  max_waiters = max_waiters;
  waiters = [];
  handoff = none;
  alive = true;
}

abbrev pub with_locked : World → Bool → World
with_locked w b = record w { mutex = record w.mutex { locked = b } }

abbrev pub with_waiter : World → ℕ → Waiter → World
with_waiter w i v = record w { store = put w.store i v }

unfoldable pub try_lock : World → World × VoidResult
try_lock w =
    let m = w.mutex in
    if not m.alive
    then (w, err (make_error invalid_state "mutex is not alive"))
    else if m.locked
    then (w, err (make_error operation_in_progress "mutex is already locked"))
    else (with_locked w true, ok tt)

-- `lock` makes an operation with a waiter of its own.
unfoldable pub lock : World → ℕ → World
lock w i = with_waiter w i (record fresh_waiter { owner = w.mutex.alive })

-- A completion that ends the waiter's link to its owner.
abbrev pub finish : World → ℕ → VoidResult → World
finish w i r = with_waiter w i (record (complete (w.store.waiter i) r) { owner = false })

-- The new world, and whether the waiter need not wait.
unfoldable pub try_complete_immediate : World → ℕ → World × Bool
try_complete_immediate w i =
    let m = w.mutex in
    let v = w.store.waiter i in
    if not v.held || v.detached || has_result v
    then (w, true)
    else if not (v.owner && m.alive)
    then (finish w i (err (make_error invalid_state "mutex lock owner is not alive")), true)
    else if not m.locked
    then (finish (with_locked w true) i (ok tt), true)
    else if leb m.max_waiters (length m.waiters)
    then (finish w i (err (make_error resource_exhausted "mutex wait queue is full")), true)
    else (w, false)

enqueue : World → ℕ → ℕ → World
enqueue w i scheduler =
    let v = w.store.waiter i in
    record (with_waiter w i
      (record v { continuation = true; scheduler = some scheduler; enqueued = true })) {
        mutex = record w.mutex { waiters = w.mutex.waiters ++ i ∷ [] };
      }

-- The test that follows in the source, of an owner that is not alive, cannot hold here: nothing
-- comes between it and `try_complete_immediate`, which made it.
unfoldable pub enqueue_waiter : World → ℕ → ℕ → World × Bool
unfolding enqueue
enqueue_waiter w i scheduler =
    let (w', done) = try_complete_immediate w i in
    if done then (w', false) else (enqueue w' i scheduler, true)

-- The current scheduler is an argument. The answer is whether the coroutine stays suspended.
unfoldable pub await_suspend : World → ℕ → Option ℕ → World × Bool
await_suspend w i none =
    if (w.store.waiter i).held
    then (
      finish w i (err (make_error invalid_state "mutex lock without a current scheduler")),
      false,
    )
    else (w, false)
await_suspend w i (some scheduler) = enqueue_waiter w i scheduler

abbrev pub is_handoff : Option ℕ → ℕ → Bool
is_handoff none i = false
is_handoff (some j) i = j == i

abbrev pub clear_handoff : Mutex → ℕ → Mutex
clear_handoff m i = if is_handoff m.handoff i then record m { handoff = none } else m

unfoldable pub await_resume : World → ℕ → World × VoidResult
await_resume w i =
    let v = w.store.waiter i in
    if not v.held then (w, err (make_error invalid_state "empty mutex lock operation")) else (
      record {
        mutex =
            if v.reserved && (v.owner && w.mutex.alive) then clear_handoff w.mutex i else w.mutex;
        store = put w.store i (record v {
          held = false;
          observing = true;
          continuation = false;
          scheduler = none;
          owner = false;
          reserved = false;
        });
      },
      observed v (err (make_error invalid_state "mutex lock resumed without completion")),
    )

-- What `detach` does to the waiter in each case.
abbrev pub detached : Waiter → Waiter
detached v = record v {
  held = false;
  detached = true;
  continuation = false;
  scheduler = none;
  owner = false;
}

module _ (accepts : ℕ → Bool) where
  -- The lock is reserved for the waiter `i`, which can resume, and which is scheduled.
  abbrev pub hand_over : World → List ℕ → ℕ → World
  hand_over w queue i = record {
    mutex = record w.mutex { locked = true; waiters = queue; handoff = some i };
    store =
        schedule_waiter accepts
          (put w.store i (record (prepared (w.store.waiter i)) { reserved = true })) i;
  }

  -- The loop of `transfer_or_unlock` over the queue.
  unfoldable pub transfer_loop : List ℕ → World → World
  transfer_loop [] w = record w {
    mutex = record w.mutex { locked = false; waiters = []; handoff = none };
  }
  transfer_loop (i ∷ queue) w =
      let skipped = transfer_loop queue (with_waiter w i (prepared (w.store.waiter i))) in
      if can_resume (w.store.waiter i) then hand_over w queue i else skipped

  unfoldable pub transfer_or_unlock : World → World
  transfer_or_unlock w = if not w.mutex.alive then w else transfer_loop w.mutex.waiters w

  unfoldable pub unlock : World → World
  unlock w = if not w.mutex.alive || not w.mutex.locked then w else transfer_or_unlock w

  -- The destructor of an operation: `detach` and `detach_waiter`.
  unfoldable pub detach : World → ℕ → World
  detach w i =
      let m = w.mutex in
      let v = w.store.waiter i in
      if not v.held || v.observing
      then w
      else if not (v.owner && m.alive)
      then with_waiter w i (detached v)
      else if v.enqueued
      then record (with_waiter w i (record (detached v) { enqueued = false })) {
        mutex = record m { waiters = erase_first i m.waiters };
      }
      else if v.reserved
      then transfer_or_unlock (record (with_waiter w i (record (detached v) { reserved = false })) {
        mutex = clear_handoff m i;
      })
      else with_waiter w i (detached v)

  -- The waiter to which the lock was handed over, when its mutex is destroyed before it resumes.
  close_handoff : Store → Option ℕ → Store
  close_handoff s none = s
  close_handoff s (some i) =
      let v = s.waiter i in
      let failed =
        complete (record v { reserved = false; owner = false })
          (err (make_error invalid_state "mutex destroyed with pending lock")) in
      if v.reserved && not v.detached && not v.observing && not (has_result v)
      then put s i failed
      else s

  -- One round of the loop of `close_state`: a waiter that can resume does so with an error.
  abbrev pub close_one : Store → ℕ → Store
  close_one s i =
      let v = prepared (s.waiter i) in
      let failed =
        record (complete v (err (make_error invalid_state "mutex destroyed with pending lock"))) {
          owner = false;
        } in
      if can_resume (s.waiter i) then schedule_waiter accepts (put s i failed) i else put s i v

  unfoldable pub close_loop : List ℕ → Store → Store
  close_loop [] s = s
  close_loop (i ∷ queue) s = close_loop queue (close_one s i)

  -- The destructor of a mutex.
  unfoldable pub close : World → World
  unfolding close_handoff
  close w = record {
    mutex = record w.mutex { alive = false; waiters = []; handoff = none };
    store = close_loop w.mutex.waiters (close_handoff w.store w.mutex.handoff);
  }

-- `complete_reserved_waiter`, where a scheduled resumption runs.
abbrev pub complete_reserved : World → Waiter → Waiter
complete_reserved w v =
    if not v.reserved || has_result v
    then v
    else if not (v.owner && w.mutex.alive)
    then complete (record v { reserved = false; owner = false })
        (err (make_error invalid_state "mutex lock owner is not alive"))
    else complete v (ok tt)

-- A scheduled resumption runs: whether it resumes the coroutine.
unfoldable pub resume_waiter : World → ℕ → World × Bool
resume_waiter w i =
    let v = w.store.waiter i in
    if v.detached || v.observing || not v.continuation then (w, false) else (
      with_waiter w i (record (complete_reserved w v) { continuation = false; scheduler = none }),
      true,
    )
