-- ===== src/Backend/Tests.antt =====
-- A backend with one socket, on which two operations were submitted.
use vio.Prelude.{ℕ, ◌≡◌, ◌⊎◌, refl, true, false, List, [], ◌∷◌, ◌++◌, count, arith}
use vio.Error.{ok, has_value}
use vio.Registry
use vio.Backend.Operation.{
  Operation, OperationKind, OperationTarget, HandleToken, same_token, is_valid_operation_shape,
  is_socket_operation, is_readied,
}
use vio.Backend.Virtual
use vio.Backend.Virtual.{VirtualBackend, is_current_handle}
use vio.Backend.Session.{
  BackendCall, registers, submits, closes, readies, drains, shuts_down, start, step, run,
}
use vio.Backend.ExactlyOnce.{IsOnce, completed, run-start-IsOnce, shutdown_delivers_all}
use vio.Backend.Handles.{
  IsSubmittable, submit-cases, close_handle-cases, pending_on_current, on_token, filter_out,
}

abbrev token : HandleToken
token = record { native_handle = 5; generation = 1 }

abbrev operation : ℕ → OperationKind → Operation
operation id kind = record {
  id = id;
  kind = kind;
  target = OperationTarget.socket;
  handle = token;
  read_size = 0;
  write_size = 0;
  address_size = 0;
  offset = 0;
}

abbrev two_submitted : List BackendCall
two_submitted =
    registers 5
    ∷ submits (operation 1 OperationKind.read)
    ∷ submits (operation 2 OperationKind.write)
    ∷ submits (operation 2 OperationKind.read)
    ∷ readies token OperationKind.read
    ∷ []

two_submitted_ids : (run start two_submitted).accepted ≡ 1 ∷ 2 ∷ []
unfolding run step Virtual.new Virtual.submit Virtual.register_handle Virtual.is_current_handle
    Virtual.complete_ready Registry.register_handle Registry.is_current Registry.empty
    is_valid_operation_shape is_socket_operation is_readied
two_submitted_ids = refl

run-start-IsOnce_example : IsOnce 2 (run start two_submitted)
run-start-IsOnce_example = run-start-IsOnce 2 two_submitted

abbrev held : VirtualBackend
held = (run start two_submitted).backend

shutdown_delivers_all_example :
    completed 2 (step (step (run start two_submitted) shuts_down) (drains 8)).delivered
    ≡ count 2 (run start two_submitted).accepted
unfolding run step Virtual.new Virtual.submit Virtual.register_handle Virtual.is_current_handle
    Virtual.complete_ready Virtual.shutdown Virtual.sweep Virtual.close_all Registry.register_handle
    Registry.is_current Registry.empty is_valid_operation_shape is_socket_operation is_readied
shutdown_delivers_all_example = shutdown_delivers_all 2 8 two_submitted (omega arith) (omega arith)

submit-cases_example :
    let (b', result) = Virtual.submit held (operation 3 OperationKind.accept) in
    ((result ≡ ok tt)
      × IsSubmittable held (operation 3 OperationKind.accept)
      × (b'.pending ≡ held.pending ++ operation 3 OperationKind.accept ∷ [])
      × (b'.active_operation_ids ≡ 3 ∷ held.active_operation_ids)
      × (b'.completions ≡ held.completions))
    ⊎ ((has_value result ≡ false)
        × (¬ IsSubmittable held (operation 3 OperationKind.accept))
        × (b' ≡ held))
submit-cases_example = submit-cases held (operation 3 OperationKind.accept)

close_handle-cases_example :
    let (b', result) = Virtual.close_handle held token in
    ((result ≡ ok tt)
      × (held.stopped ≡ false)
      × (is_current_handle held token ≡ true)
      × (is_current_handle b' token ≡ false)
      × (b'.pending ≡ filter_out (λ op. same_token op.handle token) held.pending))
    ⊎ ((has_value result ≡ false)
        × ((held.stopped ≡ true) ⊎ (is_current_handle held token ≡ false))
        × (b' ≡ held))
close_handle-cases_example = close_handle-cases held token

abbrev then_closed : List BackendCall
then_closed = two_submitted ++ closes token ∷ []

pending_on_current_example : on_token token (run start then_closed).backend.pending ≡ 0
pending_on_current_example = pending_on_current token then_closed (
    unfold run step Virtual.new Virtual.submit Virtual.register_handle Virtual.is_current_handle
      Virtual.complete_ready Virtual.close_handle Registry.register_handle Registry.is_current
      Registry.close Registry.empty is_valid_operation_shape is_socket_operation is_readied in
    refl)
