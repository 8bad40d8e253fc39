-- ===== src/BlockingExecutor/Joined.antt =====
-- Work that was accepted has run by the time that a shutdown has joined the workers.
use vio.Prelude.{
  ℕ, ◌+◌, ◌≤◌, ◌≡◌, ◌⊎◌, inl, refl, ap, max, Bool, true, false, List, [], ◌∷◌, ◌++◌, length, count,
  count-append, if◌then◌else◌, arith,
}
use vio.Error.{has_value}
use vio.BlockingExecutor.{
  State, Phase, waiting, running, exited, worker, new, submit, take_front, wake_at, wake, finish_at,
  finish, request_shutdown, begin_join, all_exited, end_join,
}
use vio.BlockingExecutor.Workers.{
  ended, busy, any_exited, busy-set_worker, any_exited-set_worker, length-set_worker,
  busy-all_exited, any_exited-all_exited, all_exited-set_worker, length-started, busy-started,
  any_exited-started,
}

-- One step of some thread.
pub data Event : Type 0 where
  submits wakes finishes : ℕ → Event
  begins_join : Bool → Event
  shuts_down ends_join : Event

-- An executor with the work that it accepted and the work that has ended.
pub record Session : Type 0 where
  pub state : State
  pub accepted : List ℕ
  pub finished : List ℕ

unfoldable pub step : Session → Event → Session
step s (submits work) =
    let (e, result) = submit s.state work in
    record s {
      state = e;
      accepted = if has_value result then s.accepted ++ work ∷ [] else s.accepted;
    }
step s (wakes i) = record s { state = wake s.state i }
step s (finishes i) = record s {
  state = finish s.state i;
  finished = s.finished ++ ended (worker s.state.workers i);
}
step s (begins_join called_from_worker) = record s {
  state = (begin_join s.state called_from_worker).0;
}
step s shuts_down = record s { state = request_shutdown s.state }
step s ends_join = record s { state = end_join s.state }

unfoldable pub run : Session → List Event → Session
run s [] = s
run s (c ∷ cs) = run (step s c) cs

-- Every piece of accepted work is in the queue, with a worker, or ended, each time that it was
-- accepted. Workers return only once nothing is left and nothing more can come.
pub record IsAccounted (s : Session) : Type 0 where
  pub manned : 1 ≤ length s.state.workers
  pub counted :
      (work : ℕ)
      → count work s.finished + busy work s.state.workers + count work s.state.queue
        ≡ count work s.accepted
  pub idle :
      (any_exited s.state.workers ≡ false)
      ⊎ ((s.state.shutting_down ≡ true) × (length s.state.queue ≡ 0))
  pub joined : (s.state.join_complete ≡ false) ⊎ (all_exited s.state.workers ≡ true)

take_front-IsAccounted :
    (s : Session) (i : ℕ) (queue : List ℕ)
    → s.state.queue ≡ queue
    → worker s.state.workers i ≡ waiting
    → IsAccounted s
    → IsAccounted (record s { state = take_front s.state i queue })
take_front-IsAccounted s i [] e h v = record {
  manned = ground (arith, v.manned, length-set_worker s.state.workers i exited);
  counted = λ work.
      ground (arith, v.counted work, busy-set_worker work s.state.workers i exited waiting h refl);
  idle = ground (arith, v.idle, ap length e);
  joined = ground (arith, v.joined, all_exited-set_worker s.state.workers i exited waiting h refl);
}
take_front-IsAccounted s i (w ∷ queue) e h v = record {
  manned = ground (arith, v.manned, length-set_worker s.state.workers i (running w));
  counted = λ work. ground (
    arith,
    v.counted work,
    ap (count work) e,
    busy-set_worker work s.state.workers i (running w) waiting h refl,
  );
  idle =
      ground (arith, v.idle, ap length e, any_exited-set_worker s.state.workers i (running w) refl);
  joined = ground (arith, v.joined, all_exited-set_worker s.state.workers i exited waiting h refl);
}

wake_at-IsAccounted :
    (s : Session) (i : ℕ) (p : Phase)
    → worker s.state.workers i ≡ p
    → IsAccounted s
    → IsAccounted (record s { state = wake_at s.state i p })
wake_at-IsAccounted s i waiting h v = take_front-IsAccounted s i s.state.queue refl h v
wake_at-IsAccounted s i exited h v = v
wake_at-IsAccounted s i (running w) h v = v

-- A worker at work says that not all have returned.
finish_at-IsAccounted :
    (s : Session) (i : ℕ) (p : Phase)
    → worker s.state.workers i ≡ p
    → IsAccounted s
    → IsAccounted (record s { state = finish_at s.state i p; finished = s.finished ++ ended p })
finish_at-IsAccounted s i waiting h v = record {
  manned = v.manned;
  counted = λ work. ground (arith, v.counted work, count-append work s.finished []);
  idle = v.idle;
  joined = v.joined;
}
finish_at-IsAccounted s i exited h v = record {
  manned = v.manned;
  counted = λ work. ground (arith, v.counted work, count-append work s.finished []);
  idle = v.idle;
  joined = v.joined;
}
finish_at-IsAccounted s i (running w) h v = record {
  manned = ground (arith, v.manned, length-set_worker s.state.workers i waiting);
  counted = λ work. ground (
    arith,
    v.counted work,
    count-append work s.finished (w ∷ []),
    busy-set_worker work s.state.workers i waiting (running w) h refl,
  );
  idle = ground (arith, v.idle, any_exited-set_worker s.state.workers i waiting refl);
  joined =
      ground (arith, v.joined, all_exited-set_worker s.state.workers i waiting (running w) h refl);
}

submit-IsAccounted : (s : Session) (work : ℕ) → IsAccounted s → IsAccounted (step s (submits work))
unfolding step submit
submit-IsAccounted s work v = record {
  manned = ground (arith, v.manned);
  counted = λ n. ground (
    arith,
    v.counted n,
    count-append n s.state.queue (work ∷ []),
    count-append n s.accepted (work ∷ []),
  );
  idle = ground (arith, v.idle);
  joined = ground (arith, v.joined);
}

step-IsAccounted : (s : Session) (c : Event) → IsAccounted s → IsAccounted (step s c)
unfolding step
step-IsAccounted s (submits work) v = submit-IsAccounted s work v
step-IsAccounted s (wakes i) v = wake_at-IsAccounted s i (worker s.state.workers i) refl v
step-IsAccounted s (finishes i) v = finish_at-IsAccounted s i (worker s.state.workers i) refl v
step-IsAccounted s (begins_join called_from_worker) v =
    unfold begin_join in
    record {
      manned = ground (arith, v.manned);
      counted = λ n. ground (arith, v.counted n);
      idle = ground (arith, v.idle);
      joined = ground (arith, v.joined);
    }
step-IsAccounted s shuts_down v =
    unfold request_shutdown in
    record {
      manned = v.manned;
      counted = v.counted;
      idle = ground (arith, v.idle);
      joined = v.joined;
    }
step-IsAccounted s ends_join v =
    unfold end_join in
    record {
      manned = ground (arith, v.manned);
      counted = λ n. ground (arith, v.counted n);
      idle = ground (arith, v.idle);
      joined = ground (arith, v.joined);
    }

run-IsAccounted : (s : Session) (cs : List Event) → IsAccounted s → IsAccounted (run s cs)
unfolding run
run-IsAccounted s [] v = v
run-IsAccounted s (c ∷ cs) v = run-IsAccounted (step s c) cs (step-IsAccounted s c v)

abbrev pub start : ℕ → ℕ → Session
start worker_count queue_limit = record {
  state = new worker_count queue_limit;
  accepted = [];
  finished = [];
}

start-IsAccounted : (worker_count queue_limit : ℕ) → IsAccounted (start worker_count queue_limit)
start-IsAccounted worker_count queue_limit = record {
  manned = ground (arith, length-started (max worker_count 1));
  counted = λ work. ground (arith, busy-started work (max worker_count 1));
  idle = inl (any_exited-started (max worker_count 1));
  joined = inl refl;
}

empty_lem : (s : Session) → IsAccounted s → s.state.join_complete ≡ true → s.state.queue ≡ []
empty_lem s v j = ground (arith, v.joined, v.idle, v.manned, any_exited-all_exited s.state.workers)

joined_lem :
    (s : Session)
    → IsAccounted s
    → s.state.join_complete ≡ true
    → (s.state.queue ≡ []) × ((work : ℕ) → count work s.finished ≡ count work s.accepted)
joined_lem s v j = (
  empty_lem s v j,
  λ work. ground (
    arith,
    v.joined,
    v.counted work,
    ap (count work) (empty_lem s v j),
    busy-all_exited work s.state.workers,
  ),
)

-- After any steps of the callers and the workers, in any order: once a caller has joined the workers,
-- the queue is empty, and each piece of work has ended as often as it was accepted.
pub joined_all_finished :
    (worker_count queue_limit : ℕ) (events : List Event)
    → (run (start worker_count queue_limit) events).state.join_complete ≡ true
    → ((run (start worker_count queue_limit) events).state.queue ≡ [])
      × ((work : ℕ)
          → count work (run (start worker_count queue_limit) events).finished
            ≡ count work (run (start worker_count queue_limit) events).accepted)
joined_all_finished worker_count queue_limit events =
    joined_lem (run (start worker_count queue_limit) events) (
      run-IsAccounted (start worker_count queue_limit) events
        (start-IsAccounted worker_count queue_limit))
