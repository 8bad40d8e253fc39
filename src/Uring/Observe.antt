-- ===== src/Uring/Observe.antt =====
-- How completions reach the backend's queue: from the kernel's, and from the virtual backend.
use vio.Prelude.{
  ℕ, zero, suc, ◌+◌, Bool, true, false, Option, none, some, List, [], ◌∷◌, ◌++◌, erase, first,
  length, ltb, ◌==◌, if◌then◌else◌, is_empty,
}
use vio.Prelude.Int.{ℤ, pos, pos_part, neg_part, ltb_ℤ, eq_ℤ}
use vio.Error.{Result, VoidResult, ok, err}
use vio.Cancellation.{CancellationReason}
use vio.Backend.Operation
use vio.Backend.Operation.{OperationKind, Completion, completion}
use vio.Backend.Virtual
use vio.Readiness.{provider_failure}
use vio.Uring.{
  ResultClass, kernel_result, cancelled_class, closed_class, completion_result_for,
  closed_completion, cancelled_completion, decode_kernel_user_data, invalid_state_error,
}
use vio.Uring.Backend.{
  UringBackend, Provider, appended, KernelOperation, find_operation, update_operation,
  erase_operation, with_operations, push_completion, progress_kernel_submissions,
}
use vio.Uring.Submit.{retry_missing_kernel_cancellations}

-- An entry of the completion queue, with what `fcntl` answers where it is asked for another descriptor.
pub record Cqe : Type 0 where
  pub user_data : ℕ
  pub res : ℤ
  pub duplicate : Result ℕ

abbrev accepted_completion : ℕ → Cqe → Completion
accepted_completion id cqe =
    if eq_ℤ cqe.res (pos 0)
    then elim cqe.duplicate [
      | err e ↦ completion id (err e)
      | ok fd ↦ record (completion id (ok tt)) { accepted_native_handle = fd }
    ]
    else record (completion id (ok tt)) { accepted_native_handle = pos_part cqe.res }

-- Of a result that is not negative.
abbrev success_completion : ℕ → OperationKind → Cqe → Completion
success_completion id Operation.read cqe = record (completion id (ok tt)) {
  bytes_transferred = pos_part cqe.res;
}
success_completion id Operation.write cqe = record (completion id (ok tt)) {
  bytes_transferred = pos_part cqe.res;
}
success_completion id Operation.accept cqe = accepted_completion id cqe
success_completion id Operation.connect cqe = completion id (ok tt)
success_completion id Operation.fsync cqe = completion id (ok tt)
success_completion id Operation.close cqe =
    completion id (err (invalid_state_error "unexpected non-I/O io_uring completion"))
success_completion id Operation.wake cqe =
    completion id (err (invalid_state_error "unexpected non-I/O io_uring completion"))

abbrev cancelled_result : Option CancellationReason → VoidResult
cancelled_result none = ok tt
cancelled_result (some reason) = cancelled_completion reason

abbrev pub classified_completion : ℕ → KernelOperation → Cqe → ResultClass → Completion
classified_completion id k cqe cancelled_class = completion id (cancelled_result k.cancellation)
classified_completion id k cqe closed_class = completion id closed_completion
classified_completion id k cqe kernel_result =
    if ltb_ℤ cqe.res (pos 0)
    then completion id (err (provider_failure (pos (neg_part cqe.res))))
    else success_completion id k.operation.kind cqe

abbrev is_cancelled : KernelOperation → Bool
is_cancelled k = elim k.cancellation [ none ↦ false | some _ ↦ true ]

unfoldable pub kernel_completion : UringBackend → ℕ → KernelOperation → Cqe → Completion
kernel_completion b id k cqe = classified_completion id k cqe (
    completion_result_for k.operation.target (is_cancelled k) k.close_requested
      (Virtual.is_current_handle b.fallback k.operation.handle) cqe.res)

abbrev pub complete_found : UringBackend → ℕ → Cqe → Option KernelOperation → UringBackend
complete_found b id cqe none = b
complete_found b id cqe (some k) =
    push_completion (with_operations b (erase_operation id b.kernel_operations))
      (record (kernel_completion b id k cqe) { operation_id = id })

abbrev pub cancel_acknowledged : KernelOperation → KernelOperation
cancel_acknowledged k = record k { cancel_sqe_in_flight = false }

abbrev pub observe_cqe : UringBackend → Cqe → UringBackend
observe_cqe b cqe =
    let decoded = decode_kernel_user_data cqe.user_data in
    let id = decoded.operation_id in
    if decoded.is_cancel
    then record b {
      kernel_cancel_operation_ids = erase id b.kernel_cancel_operation_ids;
      kernel_operations = update_operation id cancel_acknowledged b.kernel_operations;
    }
    else complete_found b id cqe (find_operation id b.kernel_operations)

unfoldable pub observe_cqes : List Cqe → UringBackend → UringBackend
observe_cqes [] b = b
observe_cqes (cqe ∷ cqes) b = observe_cqes cqes (observe_cqe b cqe)

-- What the kernel shows to a poll: the answer of `enter_for_cq_events` where the flags ask for that
-- call, and the completion queue's entries.
pub record KernelView : Type 0 where
  pub entered_for_events : Option VoidResult
  pub cqes : List Cqe

abbrev pub visible_cqes : UringBackend → KernelView → List Cqe
visible_cqes b view = first b.options.completion_batch_limit view.cqes

-- From the answer of `enter_for_cq_events` on.
abbrev pub drain_view : KernelView → UringBackend → ℕ → Option VoidResult → UringBackend × Result ℕ
drain_view view b visible (some (err e)) = (b, err e)
drain_view view b visible (some (ok _)) =
    let drained = observe_cqes (visible_cqes b view) b in
    (drained, ok (visible + appended b drained))
drain_view view b visible none =
    let drained = observe_cqes (visible_cqes b view) b in
    (drained, ok (visible + appended b drained))

abbrev pub append_drained :
    UringBackend → Virtual.VirtualBackend × Result (List Completion) → UringBackend × Result ℕ
append_drained b (f, err e) = (record b { fallback = f }, err e)
append_drained b (f, ok out) =
    (record b { fallback = f; completion_queue = b.completion_queue ++ out }, ok (length out))

abbrev pub observe_fallback : UringBackend → UringBackend × Result ℕ
observe_fallback b =
    let available = length b.fallback.completions in
    let limit = b.options.completion_batch_limit in
    let count = if ltb available limit then available else limit in
    if count == 0 then (b, ok 0) else append_drained b (Virtual.drain_completions b.fallback count)

module _ (p : Provider) where
  abbrev pub drain_retried :
      UringBackend → KernelView → UringBackend → UringBackend × ℕ → UringBackend × Result ℕ
  drain_retried b view progressed (retried, more) =
      drain_view view retried (appended b progressed + more) view.entered_for_events

  abbrev pub observe_in_ring : UringBackend → KernelView → Option ℕ → UringBackend × Result ℕ
  observe_in_ring b view none = (b, ok 0)
  observe_in_ring b view (some pending) =
      let progressed = progress_kernel_submissions p b in
      drain_retried b view progressed (retry_missing_kernel_cancellations p progressed)

  abbrev pub observe_kernel_completions : UringBackend → KernelView → UringBackend × Result ℕ
  observe_kernel_completions b view = observe_in_ring b view b.kernel_ring

  abbrev pub observe_completion_batch : UringBackend → KernelView → UringBackend × Result ℕ
  observe_completion_batch b view =
      if b.options.enable_kernel_submission
      then observe_kernel_completions b view
      else observe_fallback b

-- The loop of `drain_fallback_completions`. Each round but the last takes a completion at least.
unfoldable pub drain_fallback_loop : ℕ → UringBackend → UringBackend
drain_fallback_loop zero b = b
drain_fallback_loop (suc fuel) b =
    let (f, result) = Virtual.drain_completions b.fallback 32 in
    elim result [
      | err e ↦ record b { fallback = f }
      | ok out ↦
          if is_empty out
          then record b { fallback = f }
          else drain_fallback_loop fuel
              (record b { fallback = f; completion_queue = b.completion_queue ++ out })
    ]

abbrev pub drain_fallback_completions : UringBackend → UringBackend
drain_fallback_completions b = drain_fallback_loop (suc (length b.fallback.completions)) b
