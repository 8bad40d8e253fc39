-- ===== src/Uring/Methods.antt =====
-- The methods of the io_uring backend, but for submissions and drains, leave each identifier where it is
-- or move it, and lose none.
use vio.Prelude.{
  ℕ, ◌+◌, ◌≤◌, ◌≡◌, refl, true, not, ◌&&◌, ◌||◌, Option, none, some, List, [], ◌∷◌, ◌==◌,
  if◌then◌else◌, arith, if_rule,
}
use vio.Error.{Result, VoidResult, ok, err}
use vio.Cancellation.{CancellationReason}
use vio.Backend.Operation.{Operation, HandleToken, completion}
use vio.Backend.Virtual
use vio.Backend.Virtual.{VirtualBackend}
use vio.Backend.ExactlyOnce.{among, completed-append}
use vio.Uring.{cancelled_completion}
use vio.Uring.Backend.{
  Provider, UringBackend, KernelOperation, find_operation, update_operation, with_operations,
  push_completion,
}
use vio.Uring.Submit.{flush_submission_batch}
use vio.Uring.Observe.{KernelView, observe_completion_batch}
use vio.Uring.Calls
use vio.Uring.Calls.{is_queued, erase_queued, sweep_queue}
use vio.Uring.Held.{Moves, Moves-trans, updated-Moves, request-Moves}
use vio.Uring.Kept.{observed-Moves}
use vio.Uring.Steady.{
  held, IsQuiet, Steady, Steady-refl, Steady-trans, Moves-Steady, flush_loop-Steady,
}

-- A change of the virtual backend that gives it no operation.
fallback-Steady :
    (id : ℕ) (b : UringBackend) (f : VirtualBackend)
    → IsQuiet b
    → f.pending ≡ []
    → f.completions ≡ []
    → Steady id b (record b { fallback = f })
fallback-Steady id b f q pending completions = record {
  same = refl;
  active = refl;
  quiet = record { mode = q.mode; pending = pending; completions = completions };
}

pub register-Steady :
    (id : ℕ) (b : UringBackend) (native_handle : ℕ)
    → IsQuiet b
    → Steady id b (Calls.register_handle b native_handle).0
unfolding Calls.register_handle Virtual.register_handle
register-Steady id b native_handle q =
    let P = λ (r : UringBackend × Result HandleToken). Steady id b r.0 in
    let f = (Virtual.register_handle b.fallback native_handle).0 in
    if_rule P b.closed (λ _. Steady-refl id b q)
      (λ _.
        if_rule P (not b.capabilities.available) (λ _. Steady-refl id b q)
          (λ _.
            fallback-Steady id b f q (ground (arith, q.pending)) (ground (arith, q.completions))))

pub wake-Steady : (id : ℕ) (b : UringBackend) → IsQuiet b → Steady id b (Calls.wake b).0
unfolding Calls.wake Virtual.wake
wake-Steady id b q =
    let P = λ (r : UringBackend × VoidResult). Steady id b r.0 in
    let f = (Virtual.wake b.fallback).0 in
    if_rule P b.closed (λ _. Steady-refl id b q)
      (λ _.
        if_rule P (not b.capabilities.available) (λ _. Steady-refl id b q)
          (λ _.
            fallback-Steady id b f q (ground (arith, q.pending)) (ground (arith, q.completions))))

erase_queued-among :
    (id x : ℕ) (ops : List Operation)
    → is_queued x ops ≡ true
    → (if x == id then 1 else 0) + among id (erase_queued x ops) ≡ among id ops
unfolding is_queued erase_queued
erase_queued-among id x [] h = absurd (ground arith)
erase_queued-among id x (op ∷ ops) h = ground (arith, erase_queued-among id x ops)

queued_cancelled-Steady :
    (id x : ℕ) (b : UringBackend) (result : VoidResult)
    → is_queued x b.submission_queue ≡ true
    → IsQuiet b
    → Steady id b (
        push_completion
          (record b { submission_queue = erase_queued x b.submission_queue })
          (completion x result))
queued_cancelled-Steady id x b result queued q = record {
  same = ground (
    arith,
    erase_queued-among id x b.submission_queue queued,
    completed-append id b.completion_queue (completion x result ∷ []),
  );
  active = refl;
  quiet = record { mode = q.mode; pending = q.pending; completions = q.completions };
}

fallback_cancel-Steady :
    (id x : ℕ) (b : UringBackend)
    → IsQuiet b
    → Steady id b (Calls.with_fallback b (Virtual.cancel b.fallback x)).0
unfolding Virtual.cancel
fallback_cancel-Steady id x b q =
    fallback-Steady id b (Virtual.cancel b.fallback x).0 q (ground (arith, q.pending))
      (ground (arith, q.completions))

module _ (id : ℕ) (p : Provider) where
  cancel_found-Steady :
      (b : UringBackend) (x : ℕ) (reason : CancellationReason) (o : Option KernelOperation)
      → IsQuiet b
      → Steady id b (Calls.cancel_found p b x reason o).0
  cancel_found-Steady b x reason none q = fallback_cancel-Steady id x b q
  cancel_found-Steady b x reason (some k) q =
      let asked =
        with_operations b
          (update_operation x (Calls.ask_cancellation reason) b.kernel_operations) in
      let v = updated-Moves id x b (Calls.ask_cancellation reason) in
      Moves-Steady id b _ q (
        if_rule (λ (r : UringBackend × VoidResult). Moves id b r.0)
          (k.cancel_request_submitted || k.cancel_sqe_in_flight) (λ _. v)
          (λ _. Moves-trans id b asked _ v (request-Moves id p asked x)))

  pub cancel-Steady :
      (b : UringBackend) (x : ℕ) (reason : CancellationReason)
      → IsQuiet b
      → Steady id b (Calls.cancel p b x reason).0
  unfolding Calls.cancel
  cancel-Steady b x reason q =
      let P = λ (r : UringBackend × VoidResult). Steady id b r.0 in
      if_rule P b.closed (λ _. Steady-refl id b q)
        (λ _.
          if_rule P (not b.capabilities.available) (λ _. Steady-refl id b q)
            (λ _.
              if_rule P (not b.capabilities.supports_cancel) (λ _. Steady-refl id b q)
                (λ _.
                  if_rule P (is_queued x b.submission_queue)
                    (λ queued.
                      queued_cancelled-Steady id x b (cancelled_completion reason) queued q)
                    (λ _.
                      if_rule P b.options.enable_kernel_submission
                        (λ _.
                          cancel_found-Steady b x reason (find_operation x b.kernel_operations) q)
                        (λ _. fallback_cancel-Steady id x b q)))))

  observe-Steady :
      (b : UringBackend) (view : KernelView)
      → IsQuiet b
      → Steady id b (observe_completion_batch p b view).0
  observe-Steady b view q =
      if_rule (λ (r : UringBackend × Result ℕ). Steady id b r.0) b.options.enable_kernel_submission
        (λ _. Moves-Steady id b _ q (observed-Moves id p b view))
        (λ off. absurd (ground (arith, q.mode, off)))

  -- The result does not bear on the backend.
  poll_observed-Steady :
      (before b : UringBackend) (r : UringBackend × Result ℕ)
      → Steady id b r.0
      → Steady id b (Calls.poll_observed before r).0
  poll_observed-Steady before b (c, err e) v = v
  poll_observed-Steady before b (c, ok n) v = v

  poll_flushed-Steady :
      (before b : UringBackend) (view : KernelView) (r : UringBackend × VoidResult)
      → Steady id b r.0
      → Steady id b (Calls.poll_flushed p before view r).0
  poll_flushed-Steady before b view (c, err e) v = v
  poll_flushed-Steady before b view (c, ok _) v =
      poll_observed-Steady before b (observe_completion_batch p c view)
        (Steady-trans id b c _ v (observe-Steady c view v.quiet))

  pub poll-Steady :
      (b : UringBackend) (view : KernelView)
      → held id b ≤ 1
      → IsQuiet b
      → Steady id b (Calls.poll p b view).0
  unfolding Calls.poll
  poll-Steady b view single q =
      let P = λ (r : UringBackend × Result ℕ). Steady id b r.0 in
      if_rule P b.closed
        (λ _.
          if_rule P (b.options.enable_kernel_submission && Calls.has_inflight_kernel_work b)
            (λ _. observe-Steady b view q) (λ _. Steady-refl id b q))
        (λ _.
          if_rule P (not b.capabilities.available) (λ _. Steady-refl id b q)
            (λ _. poll_flushed-Steady b b view (flush_submission_batch p b) (
              flush_loop-Steady id p b.options.submit_batch_limit b.submission_queue b
                (refl, single, q))))
