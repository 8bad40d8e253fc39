-- ===== src/Uring.antt =====
-- src/backends_io_uring_backend.cpp and include/voris/io/backends/io_uring_backend.hpp: the data of the
-- io_uring backend and the functions that keep no state. The kernel for tests is left out.
pub mod Backend
pub mod Submit
pub mod Observe
pub mod Resources
pub mod Calls
pub mod Held
pub mod Kept
pub mod Steady
pub mod Methods
pub mod Registered
pub mod Closing
pub mod Once
pub mod UserData
mod Tests
use Prim.Native.Nat.{bit_and}
use Prim.Native.String.{String}
use vio.Prelude.{
  ℕ, ◌-◌, ◌*◌, ◌+◌, ◌/◌, ◌%◌, Bool, true, false, not, ◌||◌, ◌&&◌, Option, none, some, List,
  contains, ltb, leb, ◌==◌, if◌then◌else◌,
}
use vio.Prelude.Int.{ℤ, negsuc, eq_ℤ}
use vio.Error.{
  VioError, Result, VoidResult, ok, err, make_error, closed, invalid_state, cancelled, unsupported,
}
use vio.Cancellation
use vio.Cancellation.{CancellationReason}
use vio.Backend.Operation
use vio.Backend.Operation.{Operation, OperationKind, OperationTarget, is_valid_operation_shape}
use vio.Readiness.{int_max}

pub record Capabilities : Type 0 where
  pub available : Bool
  pub supports_read : Bool
  pub supports_write : Bool
  pub supports_accept : Bool
  pub supports_connect : Bool
  pub supports_files : Bool
  pub supports_fsync : Bool
  pub supports_cancel : Bool
  pub supports_registered_buffers : Bool
  pub supports_registered_files : Bool

pub record Options : Type 0 where
  pub submission_queue_capacity : ℕ
  pub submit_batch_limit : ℕ
  pub completion_batch_limit : ℕ
  pub enable_kernel_submission : Bool

unfoldable pub normalize_options : Options → Options
normalize_options o = record o {
  submit_batch_limit = if o.submit_batch_limit == 0 then 1 else o.submit_batch_limit;
  completion_batch_limit = if o.completion_batch_limit == 0 then 1 else o.completion_batch_limit;
}

-- From the numbers of the opcodes that the kernel supports.
unfoldable pub capabilities_from_probe_opcodes : List ℕ → Capabilities
capabilities_from_probe_opcodes supported = record {
  available = true;
  supports_read = contains 22 supported;
  supports_write = contains 23 supported;
  supports_accept = contains 13 supported;
  supports_connect = contains 16 supported;
  supports_files = contains 22 supported && contains 23 supported && contains 3 supported;
  supports_fsync = contains 3 supported;
  supports_cancel = contains 14 supported;
  supports_registered_buffers = contains 4 supported && contains 5 supported;
  supports_registered_files = contains 20 supported;
}

kind_supported : Capabilities → OperationKind → Bool
kind_supported c Operation.read = c.supports_read
kind_supported c Operation.write = c.supports_write
kind_supported c Operation.accept = c.supports_accept
kind_supported c Operation.connect = c.supports_connect
kind_supported c Operation.fsync = c.supports_fsync
kind_supported c Operation.close = false
kind_supported c Operation.wake = false

unfoldable pub supports_operation : Capabilities → Operation → Bool
unfolding kind_supported
supports_operation c op = kind_supported c op.kind

unfoldable pub has_default_core_capabilities : Capabilities → Bool
has_default_core_capabilities c =
    c.available && c.supports_read && c.supports_write && c.supports_accept && c.supports_connect
    && c.supports_files && c.supports_fsync && c.supports_cancel

pub record Evidence : Type 0 where
  pub cancellation_races_passed : Bool
  pub differential_tests_passed : Bool
  pub benchmarks_passed : Bool
  pub linux_real_provider_tests_passed : Bool

unfoldable pub default_enable_eligible : Capabilities → Evidence → Bool
default_enable_eligible c e =
    has_default_core_capabilities c
    && e.cancellation_races_passed
    && e.differential_tests_passed
    && e.benchmarks_passed
    && e.linux_real_provider_tests_passed

pub data LinuxBackendChoice : Type 0 where
  epoll io_uring : LinuxBackendChoice

abbrev pub select_default_linux_backend : Capabilities → Evidence → LinuxBackendChoice
select_default_linux_backend c e = if default_enable_eligible c e then io_uring else epoll

abbrev pub unavailable_error : VioError
unavailable_error = make_error unsupported "io_uring is unavailable"

abbrev pub invalid_state_error : String → VioError
invalid_state_error diagnostic = make_error invalid_state diagnostic

-- The reason's name, behind "io_uring operation cancelled: ".
abbrev cancelled_diagnostic : CancellationReason → String
cancelled_diagnostic Cancellation.manual = "io_uring operation cancelled: manual"
cancelled_diagnostic Cancellation.deadline = "io_uring operation cancelled: deadline"
cancelled_diagnostic Cancellation.scope_shutdown = "io_uring operation cancelled: scope_shutdown"
cancelled_diagnostic Cancellation.runtime_shutdown =
    "io_uring operation cancelled: runtime_shutdown"
cancelled_diagnostic Cancellation.backend_abort = "io_uring operation cancelled: backend_abort"

abbrev pub closed_completion : VoidResult
closed_completion = err (make_error closed "")

unfoldable pub cancelled_completion : CancellationReason → VoidResult
cancelled_completion reason = err (make_error cancelled (cancelled_diagnostic reason))

-- `std::numeric_limits<unsigned>::max()`, which is also that of `socklen_t`.
abbrev pub u32_max : ℕ
u32_max = 4294967295

unfoldable pub span_size_as_u32 : ℕ → Result ℕ
span_size_as_u32 size =
    if ltb u32_max size
    then err (invalid_state_error "io_uring buffer size does not fit u32")
    else ok size

unfoldable pub native_handle_as_fd : ℕ → Result ℕ
native_handle_as_fd native_handle =
    if native_handle == 0 || ltb int_max native_handle
    then err (invalid_state_error "io_uring native handle must be a valid file descriptor")
    else ok native_handle

-- The highest of 64 bits: `|` with a smaller number is a sum, `&` a remainder or a comparison.
abbrev pub cancel_user_data_tag : ℕ
cancel_user_data_tag = 9223372036854775808

unfoldable pub encode_operation_user_data : ℕ → Result ℕ
encode_operation_user_data operation_id =
    if leb cancel_user_data_tag operation_id
    then err
        (invalid_state_error "io_uring operation id must fit the kernel user_data operation tag")
    else ok operation_id

unfoldable pub encode_cancel_user_data : ℕ → Result ℕ
encode_cancel_user_data operation_id = elim (encode_operation_user_data operation_id) [
  | err e ↦ err e
  | ok encoded ↦ ok (encoded + cancel_user_data_tag)
]

pub record DecodedUserData : Type 0 where
  pub operation_id : ℕ
  pub is_cancel : Bool

unfoldable pub decode_kernel_user_data : ℕ → DecodedUserData
decode_kernel_user_data user_data = record {
  operation_id = user_data % cancel_user_data_tag;
  is_cancel = leb cancel_user_data_tag user_data;
}

abbrev validate_kind : Operation → OperationKind → VoidResult
validate_kind op Operation.read = elim (span_size_as_u32 op.read_size) [
  | err e ↦ err e
  | ok _ ↦ ok tt
]
validate_kind op Operation.write = elim (span_size_as_u32 op.write_size) [
  | err e ↦ err e
  | ok _ ↦ ok tt
]
validate_kind op Operation.accept = elim op.target [
  | Operation.socket ↦ ok tt
  | Operation.file ↦ err (invalid_state_error "io_uring accept requires a socket target")
]
validate_kind op Operation.connect = elim op.target [
  | Operation.file ↦ err (invalid_state_error "io_uring connect requires a socket target")
  | Operation.socket ↦
      if op.address_size == 0
      then err (invalid_state_error "io_uring connect requires a socket address")
      else if ltb u32_max op.address_size
      then err (invalid_state_error "io_uring connect address does not fit socklen_t")
      else ok tt
]
validate_kind op Operation.fsync = elim op.target [
  | Operation.file ↦ ok tt
  | Operation.socket ↦ err (invalid_state_error "io_uring fsync requires a file target")
]
validate_kind op Operation.close =
    err (invalid_state_error "io_uring kernel submission requires an I/O operation")
validate_kind op Operation.wake =
    err (invalid_state_error "io_uring kernel submission requires an I/O operation")

unfoldable pub validate_kernel_operation : Operation → VoidResult
validate_kernel_operation op = elim (native_handle_as_fd op.handle.native_handle) [
  | err e ↦ err e
  | ok _ ↦
      if not (is_valid_operation_shape op)
      then err
          (invalid_state_error "io_uring kernel submission received an invalid operation target")
      else validate_kind op op.kind
]

unfoldable pub cancel_retry_required : Bool → Bool → Bool → Bool → Bool
cancel_retry_required cancel_requested close_requested cancel_request_submitted cancel_in_flight =
    (cancel_requested || close_requested) && not cancel_request_submitted && not cancel_in_flight

-- `sq_cq_overflow | sq_taskrun` is 6.
unfoldable pub cq_needs_kernel_enter : ℕ → Bool
cq_needs_kernel_enter sq_flags = not (bit_and sq_flags 6 == 0)

pub data ResultClass : Type 0 where
  kernel_result cancelled_class closed_class : ResultClass

-- -125.
abbrev pub minus_ecanceled : ℤ
minus_ecanceled = negsuc 124

unfoldable pub completion_result_for : OperationTarget → Bool → Bool → Bool → ℤ → ResultClass
completion_result_for Operation.file cancel_requested close_requested handle_current res =
    if cancel_requested
    then (if eq_ℤ res minus_ecanceled then cancelled_class else kernel_result)
    else if (close_requested || not handle_current) && eq_ℤ res minus_ecanceled
    then closed_class
    else kernel_result
completion_result_for Operation.socket cancel_requested close_requested handle_current res =
    if cancel_requested
    then (if eq_ℤ res minus_ecanceled then cancelled_class else kernel_result)
    else if close_requested || not handle_current
    then closed_class
    else kernel_result
