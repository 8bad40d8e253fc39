-- ===== src/Uring/Once.antt =====
-- Every operation that the io_uring backend accepts completes at most once, and is nowhere lost.
use vio.Prelude.{
  ℕ, ◌+◌, ◌≤◌, ◌≡◌, refl, true, false, not, ◌&&◌, List, [], ◌∷◌, ◌++◌, ◌==◌, count, count-append,
  contains, contains-count, length, leb, arith, if_rule,
}
use vio.Error.{Result, VoidResult, ok, err}
use vio.Cancellation.{CancellationReason}
use vio.Backend.Operation.{Operation, HandleToken, Completion, is_valid_operation_shape}
use vio.Backend.Virtual
use vio.Backend.Virtual.{drain_loop}
use vio.Backend.ExactlyOnce.{among, among-append, completed, completed-append, drain_loop-counts}
use vio.Uring.{Capabilities, Options, normalize_options, supports_operation}
use vio.Uring.Backend.{Provider, UringBackend, new}
use vio.Uring.Observe.{KernelView}
use vio.Readiness.{SysResult}
use vio.Uring.Resources
use vio.Uring.Registered.{
  register_buffers-Steady, register_files-Steady, unregister_buffers-Steady,
  unregister_files-Steady,
}
use vio.Uring.Calls
use vio.Uring.Held.{in_kernel}
use vio.Uring.Steady.{held, IsQuiet, Steady}
use vio.Uring.Methods.{register-Steady, wake-Steady, cancel-Steady, poll-Steady}
use vio.Uring.Closing.{close-Steady, shutdown-Steady}

pub data UringCall : Type 0 where
  registers : ℕ → UringCall
  submits : Operation → UringCall
  cancels : ℕ → CancellationReason → UringCall
  closes : HandleToken → UringCall
  polls : KernelView → UringCall
  drains : ℕ → UringCall
  registers_buffers : List ℕ → SysResult → UringCall
  registers_files : List HandleToken → SysResult → UringCall
  unregisters_buffers unregisters_files wakes shuts_down : UringCall

-- A backend with the identifiers that it accepted and the completions that it handed out.
pub record Session : Type 0 where
  pub backend : UringBackend
  pub accepted : List ℕ
  pub delivered : List Completion

abbrev pub start : Capabilities → Options → Session
start capabilities options = record {
  backend = new capabilities options;
  accepted = [];
  delivered = [];
}

abbrev log_submit : Session → ℕ → UringBackend × VoidResult → Session
log_submit s id (b, ok _) = record s { backend = b; accepted = s.accepted ++ id ∷ [] }
log_submit s id (b, err _) = record s { backend = b }

abbrev log_drain : Session → UringBackend × Result (List Completion) → Session
log_drain s (b, ok out) = record s { backend = b; delivered = s.delivered ++ out }
log_drain s (b, err _) = record s { backend = b }

-- Of one identifier: it is active while it is queued, in the kernel's hands or completed and not yet
-- drained, and then once; and each acceptance is one of these or was delivered.
pub record IsOnce (id : ℕ) (s : Session) : Type 0 where
  pub tracked : count id s.backend.active_operation_ids ≡ held id s.backend
  pub single : count id s.backend.active_operation_ids ≤ 1
  pub conserved : count id s.accepted ≡ completed id s.delivered + held id s.backend
  pub quiet : IsQuiet s.backend

Steady-IsOnce :
    (id : ℕ) (s : Session) (b : UringBackend)
    → Steady id s.backend b
    → IsOnce id s
    → IsOnce id (record s { backend = b })
Steady-IsOnce id s b w v = record {
  tracked = omega (arith, v.tracked, w.same, w.active);
  single = omega (arith, v.single, w.active);
  conserved = omega (arith, v.conserved, w.same);
  quiet = w.quiet;
}

-- A submission that is queued.
queued-IsOnce :
    (id : ℕ) (s : Session) (op : Operation)
    → contains op.id s.backend.active_operation_ids ≡ false
    → IsOnce id s
    → IsOnce id (record s {
      backend = record s.backend {
        active_operation_ids = op.id ∷ s.backend.active_operation_ids;
        submission_queue = s.backend.submission_queue ++ op ∷ [];
      };
      accepted = s.accepted ++ op.id ∷ [];
    })
queued-IsOnce id s op fresh v = record {
  tracked = ground (arith, v.tracked, among-append id s.backend.submission_queue (op ∷ []));
  single = ground (arith, v.single, contains-count op.id s.backend.active_operation_ids fresh);
  conserved = ground (
    arith,
    v.conserved,
    among-append id s.backend.submission_queue (op ∷ []),
    count-append id s.accepted (op.id ∷ []),
  );
  quiet = record {
    mode = v.quiet.mode;
    pending = v.quiet.pending;
    completions = v.quiet.completions;
  };
}

enqueue-IsOnce :
    (id : ℕ) (s : Session) (op : Operation) (checked : VoidResult)
    → IsOnce id s
    → IsOnce id (log_submit s op.id (Calls.enqueue_checked s.backend op checked))
enqueue-IsOnce id s op (err e) v = v
enqueue-IsOnce id s op (ok _) v =
    let P = λ (r : UringBackend × VoidResult). IsOnce id (log_submit s op.id r) in
    if_rule P (contains op.id s.backend.active_operation_ids) (λ _. v)
      (λ fresh.
        if_rule P
          (leb s.backend.options.submission_queue_capacity (length s.backend.submission_queue))
          (λ _. v) (λ _. queued-IsOnce id s op fresh v))

submit-IsOnce :
    (id : ℕ) (s : Session) (op : Operation)
    → IsOnce id s
    → IsOnce id (log_submit s op.id (Calls.submit s.backend op))
unfolding Calls.submit
submit-IsOnce id s op v =
    let P = λ (r : UringBackend × VoidResult). IsOnce id (log_submit s op.id r) in
    if_rule P s.backend.closed (λ _. v)
      (λ _.
        if_rule P (not s.backend.capabilities.available) (λ _. v)
          (λ _.
            if_rule P (not (is_valid_operation_shape op)) (λ _. v)
              (λ _.
                if_rule P (not (supports_operation s.backend.capabilities op)) (λ _. v)
                  (λ _.
                    if_rule P (op.id == 0) (λ _. v)
                      (λ _.
                        if_rule P (not (Virtual.is_current_handle s.backend.fallback op.handle))
                          (λ _. v)
                          (λ _. enqueue-IsOnce id s op (Calls.kernel_checks s.backend op) v))))))

drained-IsOnce :
    (id room : ℕ) (s : Session)
    → IsOnce id s
    → let (out, rest, active) =
        drain_loop room s.backend.completion_queue s.backend.active_operation_ids in
      IsOnce id (record s {
        backend = record s.backend { completion_queue = rest; active_operation_ids = active };
        delivered = s.delivered ++ out;
      })
drained-IsOnce id room s v =
    let b = s.backend in
    let (out, rest, active) = drain_loop room b.completion_queue b.active_operation_ids in
    let waiting = among id b.submission_queue + in_kernel id b.kernel_operations in
    let counted =
      drain_loop-counts id waiting room b.completion_queue b.active_operation_ids
        (omega (arith, v.tracked)) v.single in
    record {
      tracked = omega (arith, counted.0);
      single = omega (arith, counted, v.tracked, v.single);
      conserved = omega (arith, counted.1, v.conserved, completed-append id s.delivered out);
      quiet = record {
        mode = v.quiet.mode;
        pending = v.quiet.pending;
        completions = v.quiet.completions;
      };
    }

drain-IsOnce :
    (id room : ℕ) (s : Session)
    → IsOnce id s
    → IsOnce id (log_drain s (Calls.drain_completions s.backend room))
unfolding Calls.drain_completions
drain-IsOnce id room s v =
    let P = λ (r : UringBackend × Result (List Completion)). IsOnce id (log_drain s r) in
    if_rule P (room == 0) (λ _. v)
      (λ _.
        if_rule P (not s.backend.closed && not s.backend.capabilities.available) (λ _. v)
          (λ _. drained-IsOnce id room s v))

module _ (p : Provider) where
  unfoldable pub step : Session → UringCall → Session
  step s (registers native_handle) = record s {
    backend = (Calls.register_handle s.backend native_handle).0;
  }
  step s (submits op) = log_submit s op.id (Calls.submit s.backend op)
  step s (cancels id reason) = record s { backend = (Calls.cancel p s.backend id reason).0 }
  step s (closes token) = record s { backend = (Calls.close_handle p s.backend token).0 }
  step s (polls view) = record s { backend = (Calls.poll p s.backend view).0 }
  step s (drains room) = log_drain s (Calls.drain_completions s.backend room)
  step s (registers_buffers sizes answer) = record s {
    backend = (Resources.register_buffers p s.backend sizes answer).0;
  }
  step s (registers_files files answer) = record s {
    backend = (Resources.register_files p s.backend files answer).0;
  }
  step s unregisters_buffers = record s { backend = (Resources.unregister_buffers p s.backend).0 }
  step s unregisters_files = record s { backend = (Resources.unregister_files p s.backend).0 }
  step s wakes = record s { backend = (Calls.wake s.backend).0 }
  step s shuts_down = record s { backend = (Calls.shutdown p s.backend).0 }

  unfoldable pub run : Session → List UringCall → Session
  run s [] = s
  run s (c ∷ cs) = run (step s c) cs

  step-IsOnce : (id : ℕ) (s : Session) (c : UringCall) → IsOnce id s → IsOnce id (step s c)
  unfolding step
  step-IsOnce id s (registers h) v =
      Steady-IsOnce id s (Calls.register_handle s.backend h).0
        (register-Steady id s.backend h v.quiet) v
  step-IsOnce id s (submits op) v = submit-IsOnce id s op v
  step-IsOnce id s (cancels x reason) v =
      Steady-IsOnce id s (Calls.cancel p s.backend x reason).0
        (cancel-Steady id p s.backend x reason v.quiet) v
  step-IsOnce id s (closes token) v =
      Steady-IsOnce id s (Calls.close_handle p s.backend token).0
        (close-Steady id p s.backend token v.quiet) v
  step-IsOnce id s (polls view) v =
      Steady-IsOnce id s (Calls.poll p s.backend view).0
        (poll-Steady id p s.backend view (omega (arith, v.tracked, v.single)) v.quiet) v
  step-IsOnce id s (drains room) v = drain-IsOnce id room s v
  step-IsOnce id s (registers_buffers sizes answer) v =
      Steady-IsOnce id s (Resources.register_buffers p s.backend sizes answer).0
        (register_buffers-Steady id p s.backend sizes answer v.quiet) v
  step-IsOnce id s (registers_files files answer) v =
      Steady-IsOnce id s (Resources.register_files p s.backend files answer).0
        (register_files-Steady id p s.backend files answer v.quiet) v
  step-IsOnce id s unregisters_buffers v =
      Steady-IsOnce id s (Resources.unregister_buffers p s.backend).0
        (unregister_buffers-Steady id p s.backend v.quiet) v
  step-IsOnce id s unregisters_files v =
      Steady-IsOnce id s (Resources.unregister_files p s.backend).0
        (unregister_files-Steady id p s.backend v.quiet) v
  step-IsOnce id s wakes v =
      Steady-IsOnce id s (Calls.wake s.backend).0 (wake-Steady id s.backend v.quiet) v
  step-IsOnce id s shuts_down v =
      Steady-IsOnce id s (Calls.shutdown p s.backend).0 (shutdown-Steady id p s.backend v.quiet) v

  run-IsOnce : (id : ℕ) (s : Session) (cs : List UringCall) → IsOnce id s → IsOnce id (run s cs)
  unfolding run
  run-IsOnce id s [] v = v
  run-IsOnce id s (c ∷ cs) v = run-IsOnce id (step s c) cs (step-IsOnce id s c v)

  -- With the path through the kernel switched on, after any calls on a new backend, whatever the kernel
  -- answers, of every identifier: its acceptances are as many as its delivered completions, those still
  -- queued, its queued submissions and its operations in the kernel's hands together; it stands in these
  -- three places once at most, and there exactly as often as it is active.
  pub accepted_held_or_delivered :
      (id : ℕ) (capabilities : Capabilities) (options : Options) (cs : List UringCall)
      → options.enable_kernel_submission ≡ true
      → let s = run (start capabilities options) cs in
        (count id s.accepted ≡ completed id s.delivered + held id s.backend)
        × (count id s.backend.active_operation_ids ≡ held id s.backend)
        × (held id s.backend ≤ 1)
  unfolding new normalize_options Virtual.new
  accepted_held_or_delivered id capabilities options cs mode =
      let v = run-IsOnce id (start capabilities options) cs (record {
        tracked = refl;
        single = omega arith;
        conserved = refl;
        quiet = record { mode = mode; pending = refl; completions = refl };
      }) in
      (v.conserved, v.tracked, omega (arith, v.tracked, v.single))
