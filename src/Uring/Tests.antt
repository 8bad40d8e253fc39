-- ===== src/Uring/Tests.antt =====
-- A read that the kernel completes, and one that is cancelled before it reaches the kernel.
use vio.Prelude.{ℕ, ◌+◌, ◌<◌, ◌≤◌, ◌≡◌, refl, true, false, none, List, [], ◌∷◌, count, size_mod}
use vio.Prelude.Int.{pos}
use vio.Error.{ok}
use vio.Cancellation
use vio.Backend.Operation
use vio.Backend.Operation.{Operation, HandleToken}
use vio.Backend.ExactlyOnce.{completed}
use vio.Readiness.{success}
use vio.Uring.{
  Capabilities, Options, capabilities_from_probe_opcodes, cancel_user_data_tag,
  encode_operation_user_data, encode_cancel_user_data, decode_kernel_user_data,
}
use vio.Uring.Backend.{Provider, entered}
use vio.Uring.Observe.{KernelView}
use vio.Uring.Steady.{held}
use vio.Uring.Once.{
  UringCall, registers, submits, cancels, polls, drains, start, run, accepted_held_or_delivered,
}
use vio.Uring.UserData.{decode-encode}

abbrev provider : Provider
provider = record {
  create = λ n. none;
  full = λ n. false;
  enter = λ n. entered 1;
  unregister = λ n. success;
}

abbrev options : Options
options = record {
  submission_queue_capacity = 8;
  submit_batch_limit = 4;
  completion_batch_limit = 4;
  enable_kernel_submission = true;
}

abbrev capabilities : Capabilities
capabilities = capabilities_from_probe_opcodes (22 ∷ 23 ∷ 3 ∷ 13 ∷ 16 ∷ 14 ∷ [])

abbrev token : HandleToken
token = record { native_handle = 5; generation = 1 }

abbrev read_of : ℕ → Operation
read_of id = record {
  id = id;
  kind = Operation.read;
  target = Operation.socket;
  handle = token;
  read_size = 16;
  write_size = 0;
  address_size = 0;
  offset = 0;
}

abbrev seen : KernelView
seen = record {
  entered_for_events = none;
  cqes = record { user_data = 3; res = pos 10; duplicate = ok 0 } ∷ [];
}

abbrev calls : List UringCall
calls =
    registers 5
    ∷ submits (read_of 3)
    ∷ submits (read_of 4)
    ∷ cancels 4 Cancellation.manual
    ∷ polls seen
    ∷ drains 4
    ∷ []

accepted_held_or_delivered_example :
    let s = run provider (start capabilities options) calls in
    (count 3 s.accepted ≡ completed 3 s.delivered + held 3 s.backend)
    × (count 3 s.backend.active_operation_ids ≡ held 3 s.backend)
    × (held 3 s.backend ≤ 1)
accepted_held_or_delivered_example =
    accepted_held_or_delivered provider 3 capabilities options calls refl

decode-encode_example :
    (decode_kernel_user_data 3 ≡ record { operation_id = 3; is_cancel = false })
    × (encode_cancel_user_data 3 ≡ ok (3 + cancel_user_data_tag))
    × (decode_kernel_user_data (3 + cancel_user_data_tag)
        ≡ record { operation_id = 3; is_cancel = true })
    × (3 + cancel_user_data_tag < size_mod)
unfolding encode_operation_user_data
decode-encode_example = decode-encode 3 3 refl
