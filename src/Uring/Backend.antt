-- ===== src/Uring/Backend.antt =====
-- The state of the io_uring backend, its ring, and what both become when submissions are pushed into
-- the kernel. The answers of the kernel are a parameter: the n-th call of each kind gets the n-th answer.
use vio.Prelude.{
  ℕ, zero, suc, ◌-◌, Bool, true, false, not, ◌||◌, Option, none, some, List, [], ◌∷◌, ◌++◌, erase,
  length, ◌==◌, if◌then◌else◌,
}
use vio.Prelude.Int.{ℤ}
use vio.Error.{
  VioError, Result, VoidResult, ok, err, make_error, backend_failure, resource_exhausted,
}
use vio.Cancellation.{CancellationReason}
use vio.Backend.Operation.{Operation, HandleToken, Completion, completion}
use vio.Backend.Virtual
use vio.Backend.Virtual.{VirtualBackend}
use vio.Readiness.{SysResult, provider_failure}
use vio.Uring.{
  Capabilities, Options, normalize_options, closed_completion, cancelled_completion,
  invalid_state_error, encode_cancel_user_data,
}

-- The answer of `io_uring_enter`, of the last call where it is called again after `EINTR`.
pub data EnterAnswer : Type 0 where
  entered : ℕ → EnterAnswer
  enter_failed : ℤ → EnterAnswer

-- `create` is the error of setting up a ring, if any, and `full` whether the submission ring is full.
pub record Provider : Type 0 where
  pub create : ℕ → Option VioError
  pub full : ℕ → Bool
  pub enter : ℕ → EnterAnswer
  pub unregister : ℕ → SysResult

-- How often each call was made.
pub record CallCounts : Type 0 where
  pub creates : ℕ
  pub reservations : ℕ
  pub enters : ℕ
  pub unregistrations : ℕ

pub data PendingSubmission : Type 0 where
  pending_operation pending_cancel : ℕ → PendingSubmission

pub record KernelOperation : Type 0 where
  pub operation : Operation
  pub cancellation : Option CancellationReason
  pub close_requested : Bool
  pub cancel_request_submitted : Bool
  pub cancel_sqe_in_flight : Bool

-- `kernel_ring` is the ring's `pending_submissions`, where there is a ring. `kernel_operations` is a map
-- by the operations' identifiers, `kernel_cancel_operation_ids` and `active_operation_ids` are sets; a
-- registered buffer is its size.
pub record UringBackend : Type 0 where
  pub capabilities : Capabilities
  pub options : Options
  pub fallback : VirtualBackend
  pub kernel_ring : Option ℕ
  pub calls : CallCounts
  pub submission_queue : List Operation
  pub completion_queue : List Completion
  pub pending_kernel_submissions : List PendingSubmission
  pub kernel_operations : List KernelOperation
  pub kernel_cancel_operation_ids : List ℕ
  pub active_operation_ids : List ℕ
  pub registered_buffers : List ℕ
  pub registered_files : List HandleToken
  pub closed : Bool

unfoldable pub new : Capabilities → Options → UringBackend
new capabilities options = record {
  capabilities = capabilities;
  options = normalize_options options;
  fallback = Virtual.new;
  kernel_ring = none;
  calls = record { creates = 0; reservations = 0; enters = 0; unregistrations = 0 };
  submission_queue = [];
  completion_queue = [];
  pending_kernel_submissions = [];
  kernel_operations = [];
  kernel_cancel_operation_ids = [];
  active_operation_ids = [];
  registered_buffers = [];
  registered_files = [];
  closed = false;
}

-- The map of the kernel's operations.
unfoldable pub find_operation : ℕ → List KernelOperation → Option KernelOperation
find_operation id [] = none
find_operation id (k ∷ ks) = if k.operation.id == id then some k else find_operation id ks

unfoldable pub erase_operation : ℕ → List KernelOperation → List KernelOperation
erase_operation id [] = []
erase_operation id (k ∷ ks) = if k.operation.id == id then ks else k ∷ erase_operation id ks

-- An operation keeps its identifier when it is updated.
unfoldable pub update_operation :
    ℕ → (KernelOperation → KernelOperation) → List KernelOperation → List KernelOperation
update_operation id f [] = []
update_operation id f (k ∷ ks) =
    if k.operation.id == id
    then record (f k) { operation = k.operation } ∷ ks
    else k ∷ update_operation id f ks

abbrev new_operation : Operation → KernelOperation
new_operation op = record {
  operation = op;
  cancellation = none;
  close_requested = false;
  cancel_request_submitted = false;
  cancel_sqe_in_flight = false;
}

-- `emplace`, which leaves what is there.
unfoldable pub emplace_operation : Operation → List KernelOperation → List KernelOperation
emplace_operation op [] = new_operation op ∷ []
emplace_operation op (k ∷ ks) =
    if k.operation.id == op.id then k ∷ ks else k ∷ emplace_operation op ks

abbrev pub with_operations : UringBackend → List KernelOperation → UringBackend
with_operations b ks = record b { kernel_operations = ks }

abbrev pub push_completion : UringBackend → Completion → UringBackend
push_completion b c = record b { completion_queue = b.completion_queue ++ c ∷ [] }

-- How many completions the second backend has more.
abbrev pub appended : UringBackend → UringBackend → ℕ
appended before after = length after.completion_queue - length before.completion_queue

unfoldable pub discard_submitted : ℕ → List PendingSubmission → List PendingSubmission
discard_submitted zero pending = pending
discard_submitted (suc n) [] = []
discard_submitted (suc n) (sub ∷ pending) = discard_submitted n pending

-- What an operation completes with that never reached the kernel.
abbrev unsubmitted_result : UringBackend → KernelOperation → VioError → VoidResult
unsubmitted_result b k error = elim k.cancellation [
  | some reason ↦ cancelled_completion reason
  | none ↦
      if b.closed
        || k.close_requested
        || not (Virtual.is_current_handle b.fallback k.operation.handle)
      then closed_completion
      else err error
]

abbrev pub fail_operation : VioError → UringBackend → ℕ → Option KernelOperation → UringBackend
fail_operation error b id none = b
fail_operation error b id (some k) =
    push_completion (with_operations b (erase_operation id b.kernel_operations))
      (completion id (unsubmitted_result b k error))

abbrev pub forget_cancel : KernelOperation → KernelOperation
forget_cancel k = record k { cancel_request_submitted = false; cancel_sqe_in_flight = false }

abbrev pub fail_submission : VioError → UringBackend → PendingSubmission → UringBackend
fail_submission error b (pending_cancel id) = record b {
  kernel_cancel_operation_ids = erase id b.kernel_cancel_operation_ids;
  kernel_operations = update_operation id forget_cancel b.kernel_operations;
}
fail_submission error b (pending_operation id) =
    fail_operation error b id (find_operation id b.kernel_operations)

unfoldable pub fail_submissions : VioError → UringBackend → List PendingSubmission → UringBackend
fail_submissions error b [] = b
fail_submissions error b (sub ∷ subs) = fail_submissions error (fail_submission error b sub) subs

abbrev pub complete_unsubmitted : UringBackend → VioError → UringBackend
complete_unsubmitted b error =
    fail_submissions error (record b { pending_kernel_submissions = [] })
      b.pending_kernel_submissions

abbrev pub count_enter : UringBackend → UringBackend
count_enter b = record b { calls = record b.calls { enters = suc b.calls.enters } }

-- The pending submissions are dropped, and their operations fail.
abbrev pub submission_failed : UringBackend → VioError → UringBackend
submission_failed b error = complete_unsubmitted (record b { kernel_ring = some 0 }) error

abbrev pub no_progress : VioError
no_progress = make_error backend_failure "io_uring made no submission progress"

-- The kernel took n of the pending submissions.
abbrev pub submitted_some : UringBackend → ℕ → ℕ → UringBackend
submitted_some b pending n = record b {
  kernel_ring = some (pending - n);
  pending_kernel_submissions = discard_submitted n b.pending_kernel_submissions;
}

-- What a round does with the answer; `next` is what follows where n + 1 submissions were taken.
abbrev pub answered : UringBackend → (ℕ → UringBackend) → EnterAnswer → UringBackend
answered b next (enter_failed e) = submission_failed b (provider_failure e)
answered b next (entered zero) = submission_failed b no_progress
answered b next (entered (suc n)) = next n

abbrev pub ring_created : UringBackend → Option VioError → UringBackend × Result ℕ
ring_created b (some e) = (b, err e)
ring_created b none = (record b { kernel_ring = some 0 }, ok 0)

abbrev pub submit_cancel : KernelOperation → KernelOperation
submit_cancel k = record k { cancel_request_submitted = true; cancel_sqe_in_flight = true }

module _ (p : Provider) where
  -- The loop of `progress_kernel_submissions`, with the ring's pending submissions. Each round but the
  -- last takes one away at least, so that as many rounds are enough.
  unfoldable pub progress_loop : ℕ → UringBackend → ℕ → UringBackend
  progress_loop zero b pending = b
  progress_loop (suc fuel) b pending =
      if pending == 0
      then b
      else answered (count_enter b)
          (λ n.
            progress_loop fuel (submitted_some (count_enter b) pending (suc n)) (pending - suc n))
          (p.enter b.calls.enters)

  abbrev pub progress_ring : UringBackend → Option ℕ → UringBackend
  progress_ring b none = b
  progress_ring b (some pending) = progress_loop pending b pending

  -- How many completions it made visible is `appended`.
  abbrev pub progress_kernel_submissions : UringBackend → UringBackend
  progress_kernel_submissions b = progress_ring b b.kernel_ring

  -- The ring, or the error of setting it up.
  abbrev pub ensure_ring : UringBackend → Option ℕ → UringBackend × Result ℕ
  ensure_ring b (some pending) = (b, ok pending)
  ensure_ring b none =
      ring_created (record b { calls = record b.calls { creates = suc b.calls.creates } })
        (p.create b.calls.creates)

  -- `reserve_sqe`: the backend with the call counted, and whether there was room.
  abbrev pub reserve_sqe : UringBackend → UringBackend × VoidResult
  reserve_sqe b = (
    record b { calls = record b.calls { reservations = suc b.calls.reservations } },
    if p.full b.calls.reservations
        then err (make_error resource_exhausted "io_uring submission ring is full")
        else ok tt,
  )

  -- A cancel request goes into the ring.
  abbrev pub publish_cancel : UringBackend → ℕ → ℕ → UringBackend
  publish_cancel b pending id = progress_kernel_submissions (record b {
    kernel_ring = some (suc pending);
    kernel_operations = update_operation id submit_cancel b.kernel_operations;
    kernel_cancel_operation_ids = id ∷ erase id b.kernel_cancel_operation_ids;
    pending_kernel_submissions = b.pending_kernel_submissions ++ pending_cancel id ∷ [];
  })

  abbrev pub cancel_reserved : ℕ → ℕ → UringBackend × VoidResult → UringBackend × VoidResult
  cancel_reserved pending id (b, err e) = (b, err e)
  cancel_reserved pending id (b, ok _) = (publish_cancel b pending id, ok tt)

  abbrev pub cancel_in_ring : UringBackend → ℕ → Option ℕ → UringBackend × VoidResult
  cancel_in_ring b id none =
      (b, err (invalid_state_error "io_uring kernel cancellation requires an active ring"))
  cancel_in_ring b id (some pending) = elim (encode_cancel_user_data id) [
    | err e ↦ (b, err e)
    | ok _ ↦ cancel_reserved pending id (reserve_sqe b)
  ]

  abbrev pub request_kernel_cancellation_for : UringBackend → ℕ → UringBackend × VoidResult
  request_kernel_cancellation_for b id = cancel_in_ring b id b.kernel_ring
