-- ===== src/Waiter.antt =====
-- The waiters of async_mutex.hpp and async_semaphore.hpp, which declare the same record and the same
-- helpers (include/voris/io). A waiter is shared by the operation that made it, by the queue and by a
-- scheduled resumption, so that it lives in a store under a number.
use vio.Prelude.{
  ℕ, Bool, true, false, not, ◌||◌, Option, none, some, List, [], ◌∷◌, ◌++◌, ◌==◌, if◌then◌else◌,
}
use vio.Error.{VoidResult}

-- `owner` is whether the weak reference to the owner was not reset, `continuation` whether there is
-- one, `result` what `has_result` and `result` hold, and `reserved` is `lock_reserved` or
-- `permit_reserved`. `held` is whether the operation still refers to the waiter.
pub record Waiter : Type 0 where
  pub held : Bool
  pub owner : Bool
  pub continuation : Bool
  pub scheduler : Option ℕ
  pub result : Option VoidResult
  pub enqueued : Bool
  pub detached : Bool
  pub observing : Bool
  pub reserved : Bool

-- All waiters, the resumptions that schedulers were given, oldest first, and whether one was refused,
-- which terminates the program.
pub record Store : Type 0 where
  pub waiter : ℕ → Waiter
  pub ready : List ℕ
  pub terminated : Bool

abbrev pub put : Store → ℕ → Waiter → Store
put s i w = record s { waiter = λ j. if i == j then w else s.waiter j }

-- The waiter of a new operation.
abbrev pub fresh_waiter : Waiter
fresh_waiter = record {
  held = true;
  owner = true;
  continuation = false;
  scheduler = none;
  result = none;
  enqueued = false;
  detached = false;
  observing = false;
  reserved = false;
}

abbrev pub has_result : Waiter → Bool
has_result w = elim w.result [ none ↦ false | some r ↦ true ]

-- `complete`: only the first completion counts.
abbrev pub complete : Waiter → VoidResult → Waiter
complete w value = elim w.result [ none ↦ record w { result = some value } | some r ↦ w ]

abbrev pub has_scheduler : Waiter → Bool
has_scheduler w = elim w.scheduler [ none ↦ false | some s ↦ true ]

-- Whether `prepare_waiter_for_resume` says that the waiter can be resumed.
abbrev pub can_resume : Waiter → Bool
can_resume w = not (w.detached || not w.continuation || not (has_scheduler w))

-- The waiter as `prepare_waiter_for_resume` leaves it.
abbrev pub prepared : Waiter → Waiter
prepared w =
    if can_resume w
    then record w { enqueued = false }
    else record w { enqueued = false; owner = false }

abbrev pub scheduler_accepts : (ℕ → Bool) → Option ℕ → Bool
scheduler_accepts accepts none = false
scheduler_accepts accepts (some s) = accepts s

-- `schedule_waiter`: a resumption goes to the waiter's scheduler. Which schedulers accept one is not
-- the waiter's to decide: it is the parameter `accepts`.
abbrev pub schedule_waiter : (ℕ → Bool) → Store → ℕ → Store
schedule_waiter accepts s i =
    if scheduler_accepts accepts (s.waiter i).scheduler
    then record s { ready = s.ready ++ i ∷ [] }
    else record s { terminated = true }

-- What `await_resume` answers with.
abbrev pub observed : Waiter → VoidResult → VoidResult
observed w missing = elim w.result [ none ↦ missing | some r ↦ r ]
