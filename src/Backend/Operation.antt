-- ===== src/Backend/Operation.antt =====
-- The operations and completions of include/voris/io/backend.hpp, and the shapes that src/backend.cpp
-- accepts. Of the buffers and the socket address only the sizes are read; the scheduler is carried for
-- the caller.
use vio.Prelude.{ℕ, Bool, true, false, ◌&&◌, ◌||◌, ◌==◌}
use vio.Error.{VoidResult}

pub data OperationKind : Type 0 where
  read write accept connect fsync close wake : OperationKind

pub data OperationTarget : Type 0 where
  socket file : OperationTarget

pub record HandleToken : Type 0 where
  pub native_handle : ℕ
  pub generation : ℕ

abbrev pub same_token : HandleToken → HandleToken → Bool
same_token a b = a.native_handle == b.native_handle && a.generation == b.generation

pub record Operation : Type 0 where
  pub id : ℕ
  pub kind : OperationKind
  pub target : OperationTarget
  pub handle : HandleToken
  pub read_size : ℕ
  pub write_size : ℕ
  pub address_size : ℕ
  pub offset : ℕ

pub record Completion : Type 0 where
  pub operation_id : ℕ
  pub result : VoidResult
  pub bytes_transferred : ℕ
  pub accepted_native_handle : ℕ

abbrev pub completion : ℕ → VoidResult → Completion
completion id result = record {
  operation_id = id;
  result = result;
  bytes_transferred = 0;
  accepted_native_handle = 0;
}

socket_shape : OperationTarget → OperationKind → Bool
socket_shape file kind = false
socket_shape socket read = true
socket_shape socket write = true
socket_shape socket accept = true
socket_shape socket connect = true
socket_shape socket _ = false

unfoldable pub is_socket_operation : Operation → Bool
unfolding socket_shape
is_socket_operation op = socket_shape op.target op.kind

file_shape : OperationTarget → OperationKind → Bool
file_shape socket kind = false
file_shape file read = true
file_shape file write = true
file_shape file fsync = true
file_shape file _ = false

unfoldable pub is_file_operation : Operation → Bool
unfolding file_shape
is_file_operation op = file_shape op.target op.kind

unfoldable pub is_valid_operation_shape : Operation → Bool
is_valid_operation_shape op = is_socket_operation op || is_file_operation op

-- Whether readiness of a kind (`read` or `write`) completes an operation of the second kind.
kind_matches : OperationKind → OperationKind → Bool
kind_matches read read = true
kind_matches read accept = true
kind_matches write write = true
kind_matches write connect = true
kind_matches _ _ = false

unfoldable pub is_readied : OperationKind → Operation → Bool
unfolding kind_matches
is_readied readiness_kind op = is_socket_operation op && kind_matches readiness_kind op.kind
