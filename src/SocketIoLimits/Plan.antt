-- ===== src/SocketIoLimits/Plan.antt =====
-- What a chain of segments asks for.
use vio.Prelude.{
  ℕ, zero, suc, ◌+◌, ◌-◌, ◌≤◌, ◌≡◌, refl, ap, false, not, List, [], ◌∷◌, min, inc, size_max, keep,
  first, ltb, ◌==◌, if◌then◌else◌, Bool-cases, inl, inr, arith,
}
use vio.SocketIoLimits.{
  Entry, IovecChain, empty_chain, socket_iovec_plan_full, append_socket_iovec_segment, set_entry,
  build_loop, build_iovec_chain,
}

abbrev pub sum : List ℕ → ℕ
sum [] = 0
sum (n ∷ ns) = n + sum ns

-- The sizes of the buffers that are not empty.
abbrev pub used : List ℕ → List ℕ
used sizes = keep (λ n. not (n == 0)) sizes

-- The lengths of the first few entries together.
abbrev pub total : ℕ → (ℕ → Entry) → ℕ
total zero entries = 0
total (suc n) entries = total n entries + (entries n).len

total-set_entry :
    (n i : ℕ) (entries : ℕ → Entry) (e : Entry)
    → n ≤ i
    → total n (set_entry entries i e) ≡ total n entries
total-set_entry zero i entries e h = refl
total-set_entry (suc n) i entries e h = ground (arith, total-set_entry n i entries e)

total-set_entry_last :
    (n : ℕ) (entries : ℕ → Entry) (e : Entry)
    → total (suc n) (set_entry entries n e) ≡ total n entries + e.len
total-set_entry_last n entries e = ground (arith, total-set_entry n n entries e)

sum-first_nil : (m : ℕ) → sum (first m []) ≡ 0
sum-first_nil zero = refl
sum-first_nil (suc m) = refl

sum-first_cons :
    (m n : ℕ) (ns : List ℕ)
    → sum (first m (n ∷ ns)) ≡ (if m == 0 then 0 else n + sum (first (m - 1) ns))
sum-first_cons zero n ns = ground arith
sum-first_cons (suc m) n ns = ground arith

module _ (iovec_limit request_limit : ℕ) where
  pub record IsPlanned (chain : IovecChain) : Type 0 where
    pub counted : chain.plan.iovec_count ≤ iovec_limit
    pub sized : chain.plan.requested_size ≤ request_limit
    pub filled : total chain.plan.iovec_count chain.entries ≡ chain.plan.requested_size

  abbrev accepted : IovecChain → ℕ → ℕ
  accepted chain size =
      let remaining = request_limit - chain.plan.requested_size in
      if ltb size remaining then size else remaining

  append-cases :
      (chain : IovecChain) (size : ℕ)
      → (size == 0) ≡ false
      → socket_iovec_plan_full chain.plan iovec_limit request_limit ≡ false
      → append_socket_iovec_segment chain.plan size iovec_limit request_limit ≡ (
        record {
          iovec_count = inc chain.plan.iovec_count;
          requested_size = chain.plan.requested_size + accepted chain size;
        },
        accepted chain size,
      )
  unfolding append_socket_iovec_segment
  append-cases chain size h e = ground arith

  abbrev appended : IovecChain → ℕ → ℕ → IovecChain
  appended chain base size =
      let (plan, length) = append_socket_iovec_segment chain.plan size iovec_limit request_limit in
      record {
        entries =
            set_entry chain.entries chain.plan.iovec_count (record { base = base; len = length });
        plan = plan;
      }

  appended_count :
      (chain : IovecChain) (base size : ℕ)
      → iovec_limit ≤ size_max
      → (size == 0) ≡ false
      → socket_iovec_plan_full chain.plan iovec_limit request_limit ≡ false
      → (appended chain base size).plan.iovec_count ≡ suc chain.plan.iovec_count
  appended_count chain base size small h e = ground (arith, append-cases chain size h e)

  appended_left :
      (chain : IovecChain) (base size : ℕ)
      → iovec_limit ≤ size_max
      → (size == 0) ≡ false
      → socket_iovec_plan_full chain.plan iovec_limit request_limit ≡ false
      → iovec_limit - (appended chain base size).plan.iovec_count
        ≡ iovec_limit - chain.plan.iovec_count - 1
  appended_left chain base size small h e = ground (arith, append-cases chain size h e)

  appended-IsPlanned :
      (chain : IovecChain) (base size : ℕ)
      → iovec_limit ≤ size_max
      → (size == 0) ≡ false
      → socket_iovec_plan_full chain.plan iovec_limit request_limit ≡ false
      → IsPlanned chain
      → IsPlanned (appended chain base size)
        × ((appended chain base size).plan.iovec_count ≡ suc chain.plan.iovec_count)
        × ((appended chain base size).plan.requested_size
            ≡ min request_limit (chain.plan.requested_size + size))
  appended-IsPlanned chain base size small h e v =
      let after = appended chain base size in
      (
        record {
          counted = ground (arith, append-cases chain size h e);
          sized = ground (arith, append-cases chain size h e);
          filled = ground (
            arith,
            v.filled,
            append-cases chain size h e,
            appended_count chain base size small h e,
            ap (λ n. total n after.entries) (appended_count chain base size small h e),
            total-set_entry_last chain.plan.iovec_count chain.entries
                (after.entries chain.plan.iovec_count),
          );
        },
        appended_count chain base size small h e,
        ground (arith, append-cases chain size h e),
      )

  build_loop-IsPlanned :
      (sizes : List ℕ) (base : ℕ) (chain : IovecChain)
      → iovec_limit ≤ size_max
      → IsPlanned chain
      → let after = build_loop iovec_limit request_limit sizes base chain in
        IsPlanned after
        × (after.plan.requested_size
            ≡ min request_limit (
                chain.plan.requested_size
                + sum (first (iovec_limit - chain.plan.iovec_count) (used sizes))))
  unfolding build_loop
  build_loop-IsPlanned [] base chain small v =
      (v, ground (arith, v.sized, sum-first_nil (iovec_limit - chain.plan.iovec_count)))
  build_loop-IsPlanned (zero ∷ sizes) base chain small v =
      build_loop-IsPlanned sizes (suc base) chain small v
  build_loop-IsPlanned (suc n ∷ sizes) base chain small v =
      elim (Bool-cases (socket_iovec_plan_full chain.plan iovec_limit request_limit)) [
        | inl full ↦
            ground
              (arith, v, sum-first_cons (iovec_limit - chain.plan.iovec_count) (suc n) (used sizes))
        | inr e ↦ ground (
          arith,
          append-cases chain (suc n) (ground arith) e,
          appended-IsPlanned chain base (suc n) small (ground arith) e v,
          build_loop-IsPlanned sizes (suc base) (appended chain base (suc n)) small
              (appended-IsPlanned chain base (suc n) small (ground arith) e v).0,
          sum-first_cons (iovec_limit - chain.plan.iovec_count) (suc n) (used sizes),
          ap (λ m. sum (first m (used sizes)))
              (appended_left chain base (suc n) small (ground arith) e),
        )
      ]

empty-IsPlanned : (iovec_limit request_limit : ℕ) → IsPlanned iovec_limit request_limit empty_chain
empty-IsPlanned iovec_limit request_limit = record {
  counted = omega arith;
  sized = omega arith;
  filled = refl;
}

minus_zero : (n : ℕ) → n - 0 ≡ n
minus_zero n = omega arith

-- A chain over any buffers, within an entry limit that a counter holds: it has no more entries than
-- the limit, their lengths add up to the requested size, and that is the size of the first non-empty
-- buffers, as many as the limit, cut off at the request limit.
pub build_iovec_chain_lem :
    (iovec_limit request_limit : ℕ) (sizes : List ℕ)
    → iovec_limit ≤ size_max
    → let chain = build_iovec_chain iovec_limit request_limit sizes in
      (chain.plan.iovec_count ≤ iovec_limit)
      × (total chain.plan.iovec_count chain.entries ≡ chain.plan.requested_size)
      × (chain.plan.requested_size ≡ min request_limit (sum (first iovec_limit (used sizes))))
build_iovec_chain_lem iovec_limit request_limit sizes small =
    let planned =
      build_loop-IsPlanned iovec_limit request_limit sizes 0 empty_chain small
        (empty-IsPlanned iovec_limit request_limit) in
    (
      planned.0.counted,
      planned.0.filled,
      ground (arith, planned.1, ap (λ m. sum (first m (used sizes))) (minus_zero iovec_limit)),
    )
