-- ===== src/SocketIoLimits/Tests.antt =====
-- Four buffers, of which one is empty, within two entries.
use vio.Prelude.{◌≡◌, ◌≤◌, refl, min, [], ◌∷◌, first, arith}
use vio.SocketIoLimits.{build_iovec_chain, build_loop, append_socket_iovec_segment}
use vio.SocketIoLimits.Plan.{sum, used, total, build_iovec_chain_lem}

requested : (build_iovec_chain 2 100 (60 ∷ 0 ∷ 70 ∷ 5 ∷ [])).plan.requested_size ≡ 100
unfolding build_loop append_socket_iovec_segment
requested = refl

build_iovec_chain_lem_example :
    let chain = build_iovec_chain 2 100 (60 ∷ 0 ∷ 70 ∷ 5 ∷ []) in
    (chain.plan.iovec_count ≤ 2)
    × (total chain.plan.iovec_count chain.entries ≡ chain.plan.requested_size)
    × (chain.plan.requested_size ≡ min 100 (sum (first 2 (used (60 ∷ 0 ∷ 70 ∷ 5 ∷ [])))))
build_iovec_chain_lem_example = build_iovec_chain_lem 2 100 (60 ∷ 0 ∷ 70 ∷ 5 ∷ []) (omega arith)
