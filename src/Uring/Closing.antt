-- ===== src/Uring/Closing.antt =====
-- Closing a handle and shutting down keep each identifier, and complete what is queued.
use vio.Prelude.{
  ℕ, zero, suc, ◌+◌, ◌≡◌, refl, Bool, true, not, List, [], ◌∷◌, length, arith, if_rule, is_empty,
}
use vio.Error.{VoidResult, ok, err}
use vio.Backend.Operation.{Operation, HandleToken, Completion, same_token}
use vio.Backend.Virtual
use vio.Backend.Virtual.{VirtualBackend}
use vio.Backend.ExactlyOnce.{among, completed, completed-append, close_all-counts}
use vio.Uring.{closed_completion}
use vio.Uring.Backend.{Provider, UringBackend}
use vio.Uring.Submit.{request_kernel_cancellations_for}
use vio.Uring.Observe.{drain_fallback_completions, drain_fallback_loop}
use vio.Uring.Resources
use vio.Uring.Calls
use vio.Uring.Calls.{sweep_queue}
use vio.Uring.Kept.{cancellations-Moves}
use vio.Uring.Registered.{release-Steady, release_files_for-Steady}
use vio.Uring.Steady.{IsQuiet, Steady, Steady-refl, Steady-trans, Moves-Steady}

sweep_queue-counts :
    (id : ℕ) (token : HandleToken) (result : VoidResult) (ops : List Operation)
    → among id (sweep_queue token result ops).0 + completed id (sweep_queue token result ops).1
      ≡ among id ops
unfolding sweep_queue
sweep_queue-counts id token result [] = refl
sweep_queue-counts id token result (op ∷ ops) =
    ground (arith, sweep_queue-counts id token result ops)

swept-Steady :
    (id : ℕ) (b : UringBackend) (token : HandleToken) (result : VoidResult)
    → IsQuiet b
    → Steady id b (Calls.complete_queued_submissions_for b token result)
swept-Steady id b token result q = record {
  same = ground (
    arith,
    sweep_queue-counts id token result b.submission_queue,
    completed-append id b.completion_queue (sweep_queue token result b.submission_queue).1,
  );
  active = refl;
  quiet = record { mode = q.mode; pending = q.pending; completions = q.completions };
}

sweep_nothing :
    (test : Operation → Bool) (result : VoidResult) (ops : List Operation)
    → ops ≡ []
    → ((Virtual.sweep test result ops).0 ≡ []) × ((Virtual.sweep test result ops).1 ≡ [])
unfolding Virtual.sweep
sweep_nothing test result [] e = (refl, refl)
sweep_nothing test result (op ∷ ops) e = absurd (ground arith)

close_handle-idle :
    (f : VirtualBackend) (token : HandleToken)
    → f.pending ≡ []
    → f.completions ≡ []
    → ((Virtual.close_handle f token).0.pending ≡ [])
      × ((Virtual.close_handle f token).0.completions ≡ [])
unfolding Virtual.close_handle
close_handle-idle f token pending completions =
    let swept =
      sweep_nothing (λ op. same_token op.handle token) Virtual.closed_completion f.pending
        pending in
    (ground (arith, swept), ground (arith, swept))

-- The virtual backend has nothing to complete.
close_fallback-Steady :
    (id : ℕ) (token : HandleToken) (b : UringBackend) (r : UringBackend × VoidResult)
    → Steady id b r.0
    → Steady id b (Calls.close_fallback token r).0
close_fallback-Steady id token b (c, err e) v = v
close_fallback-Steady id token b (c, ok _) v = record {
  same = v.same;
  active = v.active;
  quiet = record {
    mode = v.quiet.mode;
    pending = (close_handle-idle c.fallback token v.quiet.pending v.quiet.completions).0;
    completions = (close_handle-idle c.fallback token v.quiet.pending v.quiet.completions).1;
  };
}

complete_cancelled-Steady :
    (id : ℕ) (token : HandleToken) (b : UringBackend) (r : UringBackend × VoidResult)
    → Steady id b r.0
    → Steady id b (Calls.complete_cancelled token r).0
complete_cancelled-Steady id token b (c, err e) v = v
complete_cancelled-Steady id token b (c, ok _) v =
    Steady-trans id b c _ v (swept-Steady id c token closed_completion v.quiet)

shutdown-idle :
    (f : VirtualBackend)
    → f.pending ≡ []
    → f.completions ≡ []
    → ((Virtual.shutdown f).0.pending ≡ []) × ((Virtual.shutdown f).0.completions ≡ [])
unfolding Virtual.shutdown Virtual.close_all
shutdown-idle f pending completions =
    (ground (arith, pending), ground (arith, pending, completions))

drain_loop_nothing :
    (room : ℕ) (cs : List Completion) (active : List ℕ)
    → cs ≡ []
    → ((Virtual.drain_loop room cs active).0 ≡ []) × ((Virtual.drain_loop room cs active).1 ≡ [])
unfolding Virtual.drain_loop
drain_loop_nothing zero cs active e = (refl, e)
drain_loop_nothing (suc room) [] active e = (refl, refl)
drain_loop_nothing (suc room) (c ∷ cs) active e = absurd (ground arith)

drain_fallback-Steady :
    (id fuel : ℕ) (b : UringBackend) → IsQuiet b → Steady id b (drain_fallback_loop fuel b)
unfolding drain_fallback_loop Virtual.drain_completions
drain_fallback-Steady id zero b q = Steady-refl id b q
drain_fallback-Steady id (suc fuel) b q =
    let nothing =
      drain_loop_nothing 32 b.fallback.completions b.fallback.active_operation_ids q.completions in
    if_rule (λ (c : UringBackend). Steady id b c)
      (is_empty (Virtual.drain_loop 32 b.fallback.completions b.fallback.active_operation_ids).0)
      (λ _. record {
        same = refl;
        active = refl;
        quiet = record { mode = q.mode; pending = q.pending; completions = nothing.1 };
      })
      (λ some_left. absurd (ground (arith, nothing, some_left)))

close_queued-Steady : (id : ℕ) (b : UringBackend) → IsQuiet b → Steady id b (Calls.close_queued b)
close_queued-Steady id b q = record {
  same = ground (
    arith,
    close_all-counts id b.submission_queue,
    completed-append id b.completion_queue (Virtual.close_all b.submission_queue),
  );
  active = refl;
  quiet = record { mode = q.mode; pending = q.pending; completions = q.completions };
}

-- A shutdown from where the kernel's operations are asked to stop.
stopped-Steady :
    (id : ℕ) (b : UringBackend)
    → IsQuiet b
    → Steady id b (
        Calls.close_queued (
          drain_fallback_completions
            (record b { closed = true; fallback = (Virtual.shutdown b.fallback).0 })))
stopped-Steady id b q =
    let idle = shutdown-idle b.fallback q.pending q.completions in
    let closed = record b { closed = true; fallback = (Virtual.shutdown b.fallback).0 } in
    let v : Steady id b closed = record {
      same = refl;
      active = refl;
      quiet = record { mode = q.mode; pending = idle.0; completions = idle.1 };
    } in
    let w = drain_fallback-Steady id (suc (length closed.fallback.completions)) closed v.quiet in
    Steady-trans id b closed _ v (
      Steady-trans id closed (drain_fallback_completions closed) _ w
        (close_queued-Steady id (drain_fallback_completions closed) w.quiet))

module _ (id : ℕ) (p : Provider) where
  close_released-Steady :
      (token : HandleToken) (b : UringBackend) (r : UringBackend × VoidResult)
      → Steady id b r.0
      → Steady id b (Calls.close_released p token r).0
  close_released-Steady token b (c, err e) v = v
  close_released-Steady token b (c, ok _) v =
      let asked = request_kernel_cancellations_for p c token in
      let w : Steady id c asked.0 =
        Moves-Steady id c asked.0 v.quiet (cancellations-Moves id p c token) in
      Steady-trans id b c _ v (
        if_rule (λ (r : UringBackend × VoidResult). Steady id c (Calls.close_fallback token r).0)
          c.options.enable_kernel_submission
          (λ _.
            close_fallback-Steady id token c (Calls.complete_cancelled token asked)
              (complete_cancelled-Steady id token c asked w))
          (λ off. absurd (ground (arith, v.quiet.mode, off))))

  pub close-Steady :
      (b : UringBackend) (token : HandleToken)
      → IsQuiet b
      → Steady id b (Calls.close_handle p b token).0
  unfolding Calls.close_handle
  close-Steady b token q =
      let P = λ (r : UringBackend × VoidResult). Steady id b r.0 in
      if_rule P b.closed (λ _. Steady-refl id b q)
        (λ _.
          if_rule P (not b.capabilities.available) (λ _. Steady-refl id b q)
            (λ _.
              if_rule P (not (Virtual.is_current_handle b.fallback token)) (λ _. Steady-refl id b q)
                (λ _.
                  close_released-Steady token b (Resources.release_registered_files_for p b token)
                    (release_files_for-Steady id p b token q))))

  stop_cancelled-Steady :
      (b : UringBackend) (r : UringBackend × VoidResult)
      → Steady id b r.0
      → Steady id b (Calls.stop_cancelled p r).0
  stop_cancelled-Steady b (c, err e) v = v
  stop_cancelled-Steady b (c, ok _) v = Steady-trans id b c _ v (stopped-Steady id c v.quiet)

  stop_released-Steady :
      (b : UringBackend) (r : UringBackend × VoidResult)
      → Steady id b r.0
      → Steady id b (Calls.stop_released p r).0
  stop_released-Steady b (c, err e) v = v
  stop_released-Steady b (c, ok _) v =
      let asked = request_kernel_cancellations_for p c Calls.no_token in
      Steady-trans id b c _ v (
        if_rule (λ (r : UringBackend × VoidResult). Steady id c (Calls.stop_cancelled p r).0)
          c.options.enable_kernel_submission
          (λ _.
            stop_cancelled-Steady c asked
              (Moves-Steady id c asked.0 v.quiet (cancellations-Moves id p c Calls.no_token)))
          (λ off. absurd (ground (arith, v.quiet.mode, off))))

  pub shutdown-Steady : (b : UringBackend) → IsQuiet b → Steady id b (Calls.shutdown p b).0
  unfolding Calls.shutdown
  shutdown-Steady b q =
      if_rule (λ (r : UringBackend × VoidResult). Steady id b r.0) b.closed
        (λ _. Steady-refl id b q)
        (λ _.
          stop_released-Steady b (Resources.release_registered_resources p b)
            (release-Steady id p b q))
