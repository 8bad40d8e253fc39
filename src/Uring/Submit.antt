-- ===== src/Uring/Submit.antt =====
-- How queued submissions reach the kernel or the virtual backend, and how cancel requests do.
use vio.Prelude.{
  ℕ, zero, suc, ◌+◌, Bool, true, false, not, ◌||◌, ◌&&◌, Option, none, some, List, [], ◌∷◌, ◌++◌,
  length, erase, ◌==◌, if◌then◌else◌,
}
use vio.Error.{VioError, Result, VoidResult, ok, err, make_error, unsupported}
use vio.Backend.Operation.{Operation, HandleToken, same_token}
use vio.Backend.Virtual
use vio.Uring.{
  native_handle_as_fd, encode_operation_user_data, validate_kernel_operation, cancel_retry_required,
}
use vio.Uring.Backend.{
  UringBackend, Provider, appended, KernelOperation, pending_operation, find_operation,
  emplace_operation, progress_kernel_submissions, ensure_ring, reserve_sqe,
  request_kernel_cancellation_for,
}

abbrev pub cancellation_required_error : VioError
cancellation_required_error =
    make_error unsupported
      "io_uring kernel operations require async cancel for close/shutdown liveness"

-- What the two encodings answer that `submit_to_kernel` asks for.
abbrev pub encodable : Operation → VoidResult
encodable op = elim (native_handle_as_fd op.handle.native_handle) [
  | err e ↦ err e
  | ok _ ↦ elim (encode_operation_user_data op.id) [ err e ↦ err e | ok _ ↦ ok tt ]
]

-- Whether a token selects an operation: the token of generation 0 selects all.
abbrev pub selects : HandleToken → Operation → Bool
selects token op = token.generation == 0 || same_token op.handle token

-- The first loop of `request_kernel_cancellations_for`: the selected operations are to be closed.
unfoldable pub mark_closing : HandleToken → List KernelOperation → List KernelOperation
mark_closing token [] = []
mark_closing token (k ∷ ks) =
    (if selects token k.operation then record k { close_requested = true } else k)
    ∷ mark_closing token ks

abbrev pub is_uncancelled : KernelOperation → Bool
is_uncancelled k = not k.cancel_request_submitted && not k.cancel_sqe_in_flight

unfoldable pub to_cancel : HandleToken → List KernelOperation → List ℕ
to_cancel token [] = []
to_cancel token (k ∷ ks) =
    let ids = to_cancel token ks in
    if selects token k.operation && is_uncancelled k then k.operation.id ∷ ids else ids

abbrev pub needs_retry : KernelOperation → Bool
needs_retry k =
    let requested = elim k.cancellation as (λ _. Bool) [ none ↦ false | some _ ↦ true ] in
    cancel_retry_required requested k.close_requested k.cancel_request_submitted
      k.cancel_sqe_in_flight

unfoldable pub to_retry : List KernelOperation → List ℕ
to_retry [] = []
to_retry (k ∷ ks) = let ids = to_retry ks in if needs_retry k then k.operation.id ∷ ids else ids

-- What follows a submission; `next` is the rest of the loop.
abbrev pub flush_next :
    (UringBackend → UringBackend × VoidResult)
    → List Operation
    → UringBackend × VoidResult
    → UringBackend × VoidResult
flush_next next queue (b, err e) = (b, err e)
flush_next next queue (b, ok _) = next (record b { submission_queue = queue })

module _ (p : Provider) where
  abbrev pub publish_operation : UringBackend → ℕ → Operation → UringBackend
  publish_operation b pending op = progress_kernel_submissions p (record b {
    kernel_ring = some (suc pending);
    kernel_operations = emplace_operation op b.kernel_operations;
    pending_kernel_submissions = b.pending_kernel_submissions ++ pending_operation op.id ∷ [];
  })

  abbrev pub submit_reserved : ℕ → Operation → UringBackend × VoidResult → UringBackend × VoidResult
  submit_reserved pending op (b, err e) = (b, err e)
  submit_reserved pending op (b, ok _) = (publish_operation b pending op, ok tt)

  abbrev pub submit_in_ring :
      Operation → VoidResult → UringBackend × Result ℕ → UringBackend × VoidResult
  submit_in_ring op encoded (b, err e) = (b, err e)
  submit_in_ring op (err e) (b, ok pending) = (b, err e)
  submit_in_ring op (ok _) (b, ok pending) = submit_reserved pending op (reserve_sqe p b)

  abbrev pub submit_valid : UringBackend → Operation → VoidResult → UringBackend × VoidResult
  submit_valid b op (err e) = (b, err e)
  submit_valid b op (ok _) = submit_in_ring op (encodable op) (ensure_ring p b b.kernel_ring)

  abbrev pub submit_to_kernel : UringBackend → Operation → UringBackend × VoidResult
  submit_to_kernel b op = submit_valid b op (validate_kernel_operation op)

  abbrev pub after_fallback :
      UringBackend → Operation → Virtual.VirtualBackend × VoidResult → UringBackend × VoidResult
  after_fallback b op (f, ok _) = (record b { fallback = f }, ok tt)
  after_fallback b op (f, err e) =
      (record b { fallback = f; active_operation_ids = erase op.id b.active_operation_ids }, err e)

  abbrev pub submit_to_fallback : UringBackend → Operation → UringBackend × VoidResult
  submit_to_fallback b op = after_fallback b op (Virtual.submit b.fallback op)

  abbrev pub submit_front : UringBackend → Operation → UringBackend × VoidResult
  submit_front b op =
      if b.options.enable_kernel_submission then submit_to_kernel b op else submit_to_fallback b op

  -- The loop of `flush_submission_batch`, over the rounds left. No submission changes the queue.
  unfoldable pub flush_loop : ℕ → List Operation → UringBackend → UringBackend × VoidResult
  flush_loop zero queue b = (b, ok tt)
  flush_loop (suc count) [] b = (b, ok tt)
  flush_loop (suc count) (op ∷ queue) b =
      flush_next (λ c. flush_loop count queue c) queue (submit_front b op)

  abbrev pub flush_submission_batch : UringBackend → UringBackend × VoidResult
  flush_submission_batch b = flush_loop b.options.submit_batch_limit b.submission_queue b

  abbrev pub cancel_found : UringBackend → ℕ → Option KernelOperation → UringBackend
  cancel_found b id none = b
  cancel_found b id (some k) =
      if is_uncancelled k then (request_kernel_cancellation_for p b id).0 else b

  -- Its second loop.
  unfoldable pub cancel_each : List ℕ → UringBackend → UringBackend
  cancel_each [] b = b
  cancel_each (id ∷ ids) b =
      cancel_each ids (cancel_found b id (find_operation id b.kernel_operations))

  unfoldable pub request_kernel_cancellations_for :
      UringBackend → HandleToken → UringBackend × VoidResult
  request_kernel_cancellations_for b token =
      if length b.kernel_operations == 0
      then (b, ok tt)
      else if not b.capabilities.supports_cancel
      then (b, err cancellation_required_error)
      else (
        cancel_each (to_cancel token b.kernel_operations)
            (record b { kernel_operations = mark_closing token b.kernel_operations }),
        ok tt,
      )

  -- The last number is how many completions became visible by the progress after the request.
  abbrev pub retried : UringBackend × VoidResult → UringBackend × ℕ
  retried (b, err e) = (b, 0)
  retried (b, ok _) =
      let progressed = progress_kernel_submissions p b in (progressed, appended b progressed)

  abbrev pub retry_found : UringBackend → ℕ → Option KernelOperation → UringBackend × ℕ
  retry_found b id none = (b, 0)
  retry_found b id (some k) =
      if needs_retry k then retried (request_kernel_cancellation_for p b id) else (b, 0)

  unfoldable pub retry_each : List ℕ → UringBackend → ℕ → UringBackend × ℕ
  retry_each [] b visible = (b, visible)
  retry_each (id ∷ ids) b visible =
      let (tried, more) = retry_found b id (find_operation id b.kernel_operations) in
      retry_each ids tried (visible + more)

  abbrev pub retry_missing_kernel_cancellations : UringBackend → UringBackend × ℕ
  retry_missing_kernel_cancellations b = retry_each (to_retry b.kernel_operations) b 0
