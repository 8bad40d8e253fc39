-- ===== src/Wakeup.antt =====
-- include/voris/io/backend_wakeup.hpp: a counter of wake-ups, on which threads wait. Every method holds
-- the mutex, except while it waits: a wait is a step before it and a step after it.
use vio.Prelude.{ℕ, suc, ◌-◌, Bool, true, false, ◌==◌, if◌then◌else◌, inc}

-- `waiters` is at most the number of threads, so that its increment does not wrap.
pub record BackendWakeup : Type 0 where
  pub pending : ℕ
  pub waiters : ℕ

abbrev pub new : BackendWakeup
new = record { pending = 0; waiters = 0 }

abbrev pub wake : BackendWakeup → BackendWakeup
wake w = record w { pending = inc w.pending }

unfoldable pub try_consume : BackendWakeup → BackendWakeup × Bool
try_consume w = if w.pending == 0 then (w, false) else (record w { pending = w.pending - 1 }, true)

abbrev pub consume_all : BackendWakeup → BackendWakeup × ℕ
consume_all w = (record w { pending = 0 }, w.pending)

abbrev pub consume : BackendWakeup → BackendWakeup
consume w = (try_consume w).0

-- `wait` up to the point where it sleeps: whether it went on at once.
unfoldable pub begin_wait : BackendWakeup → BackendWakeup × Bool
begin_wait w =
    if w.pending == 0
    then (record w { waiters = suc w.waiters }, false)
    else (record w { pending = w.pending - 1 }, true)

-- What a sleeping thread does when it looks at the counter: whether it went on.
unfoldable pub end_wait : BackendWakeup → BackendWakeup × Bool
end_wait w =
    if w.pending == 0
    then (w, false)
    else (record { waiters = w.waiters - 1; pending = w.pending - 1 }, true)

-- What a thread in `wait_for` does when its time is up.
unfoldable pub give_up_wait : BackendWakeup → BackendWakeup × Bool
give_up_wait w =
    if w.pending == 0 then (record w { waiters = w.waiters - 1 }, false) else end_wait w

abbrev pub pending_count : BackendWakeup → ℕ
pending_count w = w.pending
