-- ===== src/Backend/Virtual.antt =====
-- `virtual_backend` of src/backend.cpp. Each method is one step on the record.
use vio.Prelude.{
  ℕ, zero, suc, inc, Bool, true, false, not, ◌&&◌, ◌||◌, List, [], ◌∷◌, ◌++◌, length, contains,
  erase, ◌==◌, if◌then◌else◌,
}
use vio.Error.{Result, VoidResult, ok, err, make_error, invalid_state, closed}
use vio.Registry
use vio.Registry.{Registry, NativeHandleToken}
use vio.Backend.Operation.{
  Operation, OperationKind, HandleToken, same_token, Completion, completion,
  is_valid_operation_shape, is_readied,
}

pub record VirtualBackend : Type 0 where
  pub registry : Registry
  pub pending : List Operation
  pub completions : List Completion
  pub active_operation_ids : List ℕ  -- a set: no identifier stands in it twice
  pub registered : ℕ
  pub submitted : ℕ
  pub cancelled : ℕ
  pub wakeups : ℕ
  pub stopped : Bool

unfoldable pub new : VirtualBackend
new = record {
  registry = Registry.empty;
  pending = [];
  completions = [];
  active_operation_ids = [];
  registered = 0;
  submitted = 0;
  cancelled = 0;
  wakeups = 0;
  stopped = false;
}

abbrev to_native_token : HandleToken → NativeHandleToken
to_native_token t = record { id = t.native_handle; generation = t.generation }

abbrev to_backend_token : NativeHandleToken → HandleToken
to_backend_token t = record { native_handle = t.id; generation = t.generation }

pub closed_completion : VoidResult
closed_completion = err (make_error closed "")

unfoldable pub is_current_handle : VirtualBackend → HandleToken → Bool
is_current_handle b token = Registry.is_current b.registry (to_native_token token)

unfoldable pub register_handle : VirtualBackend → ℕ → VirtualBackend × Result HandleToken
register_handle b native_handle =
    let (registry, result) = Registry.register_handle b.registry native_handle in
    if b.stopped then (b, err (make_error closed "")) else elim result [
      | ok token ↦ (
        record b { registry = registry; registered = inc b.registered },
        ok (to_backend_token token),
      )
      | err e ↦ (record b { registry = registry }, err e)
    ]

unfoldable pub submit : VirtualBackend → Operation → VirtualBackend × VoidResult
submit b op =
    if b.stopped
    then (b, err (make_error closed ""))
    else if op.id == 0
    then (b, err (make_error invalid_state "operation id must be non-zero"))
    else if not (is_valid_operation_shape op)
    then (b, err (make_error invalid_state "operation kind and target are incompatible"))
    else if not (is_current_handle b op.handle)
    then (b, err (make_error invalid_state "operation handle token is not current"))
    else if contains op.id b.active_operation_ids
    then (b, err (make_error invalid_state "operation id is already active"))
    else (
      record b {
        active_operation_ids = op.id ∷ b.active_operation_ids;
        pending = b.pending ++ op ∷ [];
        submitted = inc b.submitted;
      },
      ok tt,
    )

is_pending : ℕ → List Operation → Bool
is_pending id [] = false
is_pending id (op ∷ ops) = op.id == id || is_pending id ops

unfoldable pub cancel : VirtualBackend → ℕ → VirtualBackend × VoidResult
unfolding is_pending
cancel b operation_id =
    if b.stopped
    then (b, err (make_error closed ""))
    else if operation_id == 0
    then (b, err (make_error invalid_state "operation id must be non-zero"))
    else if is_pending operation_id b.pending
    then (record b { cancelled = inc b.cancelled }, ok tt)
    else (b, err (make_error invalid_state "operation id is not pending"))

-- One pass over the pending operations: those that stay, and the completions of the others.
unfoldable pub sweep :
    (Operation → Bool) → VoidResult → List Operation → List Operation × List Completion
sweep test result [] = ([], [])
sweep test result (op ∷ ops) =
    let (kept, done) = sweep test result ops in
    if test op then (kept, completion op.id result ∷ done) else (op ∷ kept, done)

complete_where : VirtualBackend → (Operation → Bool) → VoidResult → VirtualBackend
complete_where b test result =
    let (kept, done) = sweep test result b.pending in
    record b { pending = kept; completions = b.completions ++ done }

pub complete_pending : VirtualBackend → HandleToken → VoidResult → VirtualBackend
unfolding complete_where
complete_pending b token = complete_where b (λ op. same_token op.handle token)

pub complete_pending_kind :
    VirtualBackend → HandleToken → OperationKind → VoidResult → VirtualBackend
unfolding complete_where
complete_pending_kind b token kind =
    complete_where b (λ op. same_token op.handle token && is_readied kind op)

unfoldable pub complete_ready :
    VirtualBackend → HandleToken → OperationKind → VirtualBackend × VoidResult
unfolding complete_pending_kind
complete_ready b token kind =
    if not (is_current_handle b token)
    then (b, err (make_error invalid_state "operation handle token is not current"))
    else (complete_pending_kind b token kind (ok tt), ok tt)

unfoldable pub close_handle : VirtualBackend → HandleToken → VirtualBackend × VoidResult
unfolding complete_pending closed_completion
close_handle b token =
    let (registry, result) = Registry.close b.registry (to_native_token token) in
    if b.stopped then (b, err (make_error closed "")) else elim result [
      | ok _ ↦ (complete_pending (record b { registry = registry }) token closed_completion, ok tt)
      | err e ↦ (record b { registry = registry }, err e)
    ]

abbrev pub poll : VirtualBackend → Result ℕ
poll b = ok (length b.completions)

-- The loop of `drain_completions`, over the slots left in `out`: what is written there, in order.
unfoldable pub drain_loop :
    ℕ → List Completion → List ℕ → List Completion × List Completion × List ℕ
drain_loop zero completions active = ([], completions, active)
drain_loop (suc room) [] active = ([], [], active)
drain_loop (suc room) (c ∷ cs) active =
    let (out, rest, active') = drain_loop room cs (erase c.operation_id active) in
    (c ∷ out, rest, active')

unfoldable pub drain_completions : VirtualBackend → ℕ → VirtualBackend × Result (List Completion)
unfolding drain_loop
drain_completions b room =
    let (out, rest, active) = drain_loop room b.completions b.active_operation_ids in
    if room == 0
    then (b, err (make_error invalid_state "completion drain output must not be empty"))
    else (record b { completions = rest; active_operation_ids = active }, ok out)

unfoldable pub wake : VirtualBackend → VirtualBackend × VoidResult
wake b =
    if b.stopped
    then (b, err (make_error closed ""))
    else (record b { wakeups = inc b.wakeups }, ok tt)

-- The loop of `shutdown`: the pending operations complete as closed, oldest first.
unfoldable pub close_all : List Operation → List Completion
unfolding closed_completion
close_all [] = []
close_all (op ∷ ops) = completion op.id closed_completion ∷ close_all ops

unfoldable pub shutdown : VirtualBackend → VirtualBackend × VoidResult
shutdown b = if b.stopped then (b, ok tt) else (
  record b { stopped = true; pending = []; completions = b.completions ++ close_all b.pending },
  ok tt,
)
