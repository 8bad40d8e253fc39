-- ===== src/Uring/Calls.antt =====
-- The methods of the io_uring backend.
use vio.Prelude.{
  ℕ, Bool, true, false, not, ◌||◌, ◌&&◌, Option, none, some, List, [], ◌∷◌, ◌++◌, length, contains,
  leb, ◌==◌, if◌then◌else◌, is_empty,
}
use vio.Error.{
  VioError, Result, VoidResult, ok, err, make_error, closed, invalid_state, unsupported,
  resource_exhausted,
}
use vio.Cancellation.{CancellationReason}
use vio.Backend.Operation.{
  Operation, HandleToken, Completion, completion, same_token, is_valid_operation_shape,
}
use vio.Backend.Virtual
use vio.Backend.Virtual.{VirtualBackend, drain_loop}
use vio.Uring.{
  supports_operation, unavailable_error, invalid_state_error, closed_completion,
  cancelled_completion, encode_operation_user_data, validate_kernel_operation,
}
use vio.Uring.Backend.{
  UringBackend, Provider, appended, KernelOperation, find_operation, update_operation,
  push_completion, request_kernel_cancellation_for,
}
use vio.Uring.Submit.{
  cancellation_required_error, submit_to_fallback, flush_submission_batch, selects,
  request_kernel_cancellations_for,
}
use vio.Uring.Resources.{release_registered_resources, release_registered_files_for}
use vio.Uring.Observe.{KernelView, observe_completion_batch, drain_fallback_completions}

abbrev pub closed_error : VioError
closed_error = make_error closed ""

abbrev pub not_current : VoidResult
not_current = err (invalid_state_error "backend handle token is not current")

abbrev pub with_fallback {ℓ} : {A : Type ℓ} → UringBackend → VirtualBackend × A → UringBackend × A
with_fallback b (f, result) = (record b { fallback = f }, result)

unfoldable pub register_handle : UringBackend → ℕ → UringBackend × Result HandleToken
register_handle b native_handle =
    if b.closed
    then (b, err closed_error)
    else if not b.capabilities.available
    then (b, err unavailable_error)
    else with_fallback b (Virtual.register_handle b.fallback native_handle)

-- The checks of `submit` that only the path through the kernel has.
abbrev pub kernel_checks : UringBackend → Operation → VoidResult
kernel_checks b op =
    if not b.options.enable_kernel_submission
    then ok tt
    else if not b.capabilities.supports_cancel
    then err cancellation_required_error
    else elim (encode_operation_user_data op.id) [
      | err e ↦ err e
      | ok _ ↦ validate_kernel_operation op
    ]

abbrev pub enqueue_checked : UringBackend → Operation → VoidResult → UringBackend × VoidResult
enqueue_checked b op (err e) = (b, err e)
enqueue_checked b op (ok _) =
    if contains op.id b.active_operation_ids
    then (b, err (invalid_state_error "operation id is already active"))
    else if leb b.options.submission_queue_capacity (length b.submission_queue)
    then (b, err (make_error resource_exhausted "io_uring submission queue is full"))
    else (
      record b {
        active_operation_ids = op.id ∷ b.active_operation_ids;
        submission_queue = b.submission_queue ++ op ∷ [];
      },
      ok tt,
    )

unfoldable pub submit : UringBackend → Operation → UringBackend × VoidResult
submit b op =
    if b.closed
    then (b, err closed_error)
    else if not b.capabilities.available
    then (b, err unavailable_error)
    else if not (is_valid_operation_shape op)
    then (b, err (invalid_state_error "io_uring submit received an invalid operation target"))
    else if not (supports_operation b.capabilities op)
    then (b, err (make_error unsupported "io_uring operation opcode is unavailable"))
    else if op.id == 0
    then (b, err (invalid_state_error "operation id must be non-zero"))
    else if not (Virtual.is_current_handle b.fallback op.handle)
    then (b, err (invalid_state_error "operation handle token is not current"))
    else enqueue_checked b op (kernel_checks b op)

unfoldable pub is_queued : ℕ → List Operation → Bool
is_queued id [] = false
is_queued id (op ∷ ops) = op.id == id || is_queued id ops

-- The first queued operation of an identifier goes.
unfoldable pub erase_queued : ℕ → List Operation → List Operation
erase_queued id [] = []
erase_queued id (op ∷ ops) = if op.id == id then ops else op ∷ erase_queued id ops

abbrev pub ask_cancellation : CancellationReason → KernelOperation → KernelOperation
ask_cancellation reason k = record k {
  cancellation = elim k.cancellation [ none ↦ some reason | some given ↦ some given ];
}

-- The queued submissions of a token complete; the others stay.
unfoldable pub sweep_queue :
    HandleToken → VoidResult → List Operation → List Operation × List Completion
sweep_queue token result [] = ([], [])
sweep_queue token result (op ∷ ops) =
    let (kept, done) = sweep_queue token result ops in
    if selects token op then (kept, completion op.id result ∷ done) else (op ∷ kept, done)

abbrev pub complete_queued_submissions_for : UringBackend → HandleToken → VoidResult → UringBackend
complete_queued_submissions_for b token result =
    let (kept, done) = sweep_queue token result b.submission_queue in
    record b { submission_queue = kept; completion_queue = b.completion_queue ++ done }

unfoldable pub drain_completions : UringBackend → ℕ → UringBackend × Result (List Completion)
drain_completions b room =
    let (out, rest, active) = drain_loop room b.completion_queue b.active_operation_ids in
    if room == 0
    then (b, err (make_error invalid_state "completion drain output must not be empty"))
    else if not b.closed && not b.capabilities.available
    then (b, err unavailable_error)
    else (record b { completion_queue = rest; active_operation_ids = active }, ok out)

unfoldable pub wake : UringBackend → UringBackend × VoidResult
wake b =
    if b.closed
    then (b, err closed_error)
    else if not b.capabilities.available
    then (b, err unavailable_error)
    else with_fallback b (Virtual.wake b.fallback)

abbrev pub no_token : HandleToken
no_token = record { native_handle = 0; generation = 0 }

-- The queued submissions complete as closed, oldest first.
abbrev pub close_queued : UringBackend → UringBackend
close_queued b = record b {
  submission_queue = [];
  completion_queue = b.completion_queue ++ Virtual.close_all b.submission_queue;
}

-- What a poll returns: how many completions it made drainable.
abbrev pub poll_observed : UringBackend → UringBackend × Result ℕ → UringBackend × Result ℕ
poll_observed before (b, err e) = (b, err e)
poll_observed before (b, ok _) = (b, ok (appended before b))

abbrev pub has_inflight_kernel_work : UringBackend → Bool
has_inflight_kernel_work b =
    not (is_empty b.kernel_operations) || not (is_empty b.kernel_cancel_operation_ids)

abbrev pub close_fallback : HandleToken → UringBackend × VoidResult → UringBackend × VoidResult
close_fallback token (b, err e) = (b, err e)
close_fallback token (b, ok _) = with_fallback b (Virtual.close_handle b.fallback token)

abbrev pub complete_cancelled : HandleToken → UringBackend × VoidResult → UringBackend × VoidResult
complete_cancelled token (b, err e) = (b, err e)
complete_cancelled token (b, ok _) =
    (complete_queued_submissions_for b token closed_completion, ok tt)

module _ (p : Provider) where
  -- `cancel` of an operation that the kernel has, or else of none that is queued.
  abbrev pub cancel_found :
      UringBackend → ℕ → CancellationReason → Option KernelOperation → UringBackend × VoidResult
  cancel_found b id reason none = with_fallback b (Virtual.cancel b.fallback id)
  cancel_found b id reason (some k) =
      let asked = record b {
        kernel_operations = update_operation id (ask_cancellation reason) b.kernel_operations;
      } in
      if k.cancel_request_submitted || k.cancel_sqe_in_flight
      then (asked, ok tt)
      else ((request_kernel_cancellation_for p asked id).0, ok tt)

  unfoldable pub cancel : UringBackend → ℕ → CancellationReason → UringBackend × VoidResult
  cancel b id reason =
      if b.closed
      then (b, err closed_error)
      else if not b.capabilities.available
      then (b, err unavailable_error)
      else if not b.capabilities.supports_cancel
      then (b, err (make_error unsupported "io_uring cancellation is unavailable"))
      else if is_queued id b.submission_queue
      then (
        push_completion (record b { submission_queue = erase_queued id b.submission_queue })
            (completion id (cancelled_completion reason)),
        ok tt,
      )
      else if b.options.enable_kernel_submission
      then cancel_found b id reason (find_operation id b.kernel_operations)
      else with_fallback b (Virtual.cancel b.fallback id)

  -- The loop of `flush_queued_submissions_for`, over the queue with what it has passed.
  unfoldable pub flush_queued_loop :
      HandleToken → List Operation → List Operation → UringBackend → UringBackend × VoidResult
  flush_queued_loop token passed [] b = (record b { submission_queue = passed }, ok tt)
  flush_queued_loop token passed (op ∷ ops) b =
      let (submitted, result) = submit_to_fallback p b op in
      let skipped = flush_queued_loop token (passed ++ op ∷ []) ops b in
      if same_token op.handle token
      then elim result [
        | err e ↦ (record submitted { submission_queue = passed ++ ops }, err e)
        | ok _ ↦ flush_queued_loop token passed ops submitted
      ]
      else skipped

  abbrev pub close_released : HandleToken → UringBackend × VoidResult → UringBackend × VoidResult
  close_released token (b, err e) = (b, err e)
  close_released token (b, ok _) = close_fallback token (
      if b.options.enable_kernel_submission
      then complete_cancelled token (request_kernel_cancellations_for p b token)
      else flush_queued_loop token [] b.submission_queue b)

  unfoldable pub close_handle : UringBackend → HandleToken → UringBackend × VoidResult
  close_handle b token =
      if b.closed
      then (b, err closed_error)
      else if not b.capabilities.available
      then (b, err unavailable_error)
      else if not (Virtual.is_current_handle b.fallback token)
      then (b, not_current)
      else close_released token (release_registered_files_for p b token)

  abbrev pub poll_flushed :
      UringBackend → KernelView → UringBackend × VoidResult → UringBackend × Result ℕ
  poll_flushed before view (b, err e) = (b, err e)
  poll_flushed before view (b, ok _) = poll_observed before (observe_completion_batch p b view)

  unfoldable pub poll : UringBackend → KernelView → UringBackend × Result ℕ
  poll b view =
      if b.closed
      then (if b.options.enable_kernel_submission && has_inflight_kernel_work b
          then observe_completion_batch p b view
          else (b, err closed_error))
      else if not b.capabilities.available
      then (b, err unavailable_error)
      else poll_flushed b view (flush_submission_batch p b)

  abbrev pub stop_cancelled : UringBackend × VoidResult → UringBackend × VoidResult
  stop_cancelled (b, err e) = (b, err e)
  stop_cancelled (b, ok _) = (
    close_queued (
        drain_fallback_completions
          (record b { closed = true; fallback = (Virtual.shutdown b.fallback).0 })),
    ok tt,
  )

  abbrev pub stop_released : UringBackend × VoidResult → UringBackend × VoidResult
  stop_released (b, err e) = (b, err e)
  stop_released (b, ok _) = stop_cancelled (
      if b.options.enable_kernel_submission
      then request_kernel_cancellations_for p b no_token
      else (b, ok tt))

  unfoldable pub shutdown : UringBackend → UringBackend × VoidResult
  shutdown b = if b.closed then (b, ok tt) else stop_released (release_registered_resources p b)
