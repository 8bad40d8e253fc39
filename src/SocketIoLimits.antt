-- ===== src/SocketIoLimits.antt =====
-- include/voris/io/detail/socket_io_limits.hpp, and its use in src/socket.cpp: how many bytes and
-- segments one socket call takes.
pub mod Plan
mod Tests
use vio.Prelude.{
  ℕ, suc, ◌+◌, ◌-◌, Bool, true, false, ◌||◌, List, [], ◌∷◌, inc, leb, ltb, ◌==◌, if◌then◌else◌,
}

-- The two values of `max_safe_socket_io_size`, on Linux and elsewhere.
abbrev pub max_safe_socket_io_size : Bool → ℕ
max_safe_socket_io_size linux = if linux then 2147479552 else 9223372036854775807

unfoldable pub cap_socket_io_size : Bool → ℕ → ℕ
cap_socket_io_size linux requested =
    let cap = max_safe_socket_io_size linux in if ltb requested cap then requested else cap

pub record SocketIovecPlan : Type 0 where
  pub iovec_count : ℕ
  pub requested_size : ℕ

abbrev pub empty_plan : SocketIovecPlan
empty_plan = record { iovec_count = 0; requested_size = 0 }

abbrev pub socket_iovec_plan_full : SocketIovecPlan → ℕ → ℕ → Bool
socket_iovec_plan_full plan iovec_limit request_limit =
    leb iovec_limit plan.iovec_count || leb request_limit plan.requested_size

-- The new plan, and how much of the segment it takes.
unfoldable pub append_socket_iovec_segment : SocketIovecPlan → ℕ → ℕ → ℕ → SocketIovecPlan × ℕ
append_socket_iovec_segment plan segment_size iovec_limit request_limit =
    let remaining = request_limit - plan.requested_size in
    let accepted = if ltb segment_size remaining then segment_size else remaining in
    if segment_size == 0 || socket_iovec_plan_full plan iovec_limit request_limit
    then (plan, 0)
    else (
      record {
        iovec_count = inc plan.iovec_count;
        requested_size = plan.requested_size + accepted;
      },
      accepted,
    )

-- One `iovec`: the number of the buffer at whose start it begins, and its length.
pub record Entry : Type 0 where
  pub base : ℕ
  pub len : ℕ

pub record IovecChain : Type 0 where
  pub entries : ℕ → Entry
  pub plan : SocketIovecPlan

-- `chain.entries[index]` gets its base and its length.
abbrev pub set_entry : (ℕ → Entry) → ℕ → Entry → ℕ → Entry
set_entry entries index entry j = if index == j then entry else entries j

abbrev pub empty_chain : IovecChain
empty_chain = record { entries = λ _. record { base = 0; len = 0 }; plan = empty_plan }

-- The loop of `build_iovec_chain` over the sizes of the buffers, from the buffer `base` on. The limits
-- are the platform's: on the number of entries, and `max_safe_socket_io_size`.
module _ (iovec_limit request_limit : ℕ) where
  unfoldable pub build_loop : List ℕ → ℕ → IovecChain → IovecChain
  build_loop [] base chain = chain
  build_loop (size ∷ sizes) base chain =
      let index = chain.plan.iovec_count in
      let (plan, length) = append_socket_iovec_segment chain.plan size iovec_limit request_limit in
      let entries = set_entry chain.entries index (record { base = base; len = length }) in
      let skipped = build_loop sizes (suc base) chain in
      let taken = build_loop sizes (suc base) (record { entries = entries; plan = plan }) in
      if size == 0
      then skipped
      else if socket_iovec_plan_full chain.plan iovec_limit request_limit
      then chain
      else if length == 0
      then record chain { plan = plan }
      else taken

  -- `build_iovec_chain`.
  abbrev pub build_iovec_chain : List ℕ → IovecChain
  build_iovec_chain sizes = build_loop sizes 0 empty_chain
