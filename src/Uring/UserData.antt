-- ===== src/Uring/UserData.antt =====
-- The numbers that come back from the kernel.
use vio.Prelude.{ℕ, ◌+◌, ◌<◌, ◌≡◌, true, false, arith, size_mod}
use vio.Error.{ok}
use vio.Uring.{
  cancel_user_data_tag, encode_operation_user_data, encode_cancel_user_data,
  decode_kernel_user_data,
}

-- An identifier that can be encoded for an operation can be encoded for its cancel request; each of the
-- two numbers is decoded to the identifier and to what it stands for; and both fit into 64 bits.
pub decode-encode :
    (id user_data : ℕ)
    → encode_operation_user_data id ≡ ok user_data
    → let cancel = user_data + cancel_user_data_tag in
      (decode_kernel_user_data user_data ≡ record { operation_id = id; is_cancel = false })
      × (encode_cancel_user_data id ≡ ok cancel)
      × (decode_kernel_user_data cancel ≡ record { operation_id = id; is_cancel = true })
      × (cancel < size_mod)
unfolding encode_operation_user_data encode_cancel_user_data decode_kernel_user_data
decode-encode id user_data encoded = (ground arith, ground arith, ground arith, ground arith)
