-- ===== src/Uring/Kept.antt =====
-- What submitting, cancelling and observing do to where an identifier stands.
use vio.Prelude.{
  ℕ, suc, ◌+◌, ◌≡◌, ◌⊎◌, refl, ◌∙◌, false, not, Option, none, some, List, [], ◌∷◌, ◌++◌, ◌==◌,
  if◌then◌else◌, length, arith, if_rule,
}
use vio.Error.{VioError, Result, VoidResult, ok, err}
use vio.Backend.Operation.{Operation, HandleToken}
use vio.Backend.ExactlyOnce.{completed}
use vio.Uring.{decode_kernel_user_data, validate_kernel_operation}
use vio.Uring.Backend.{
  Provider, UringBackend, KernelOperation, pending_operation, find_operation, emplace_operation,
  progress_kernel_submissions, ensure_ring, ring_created, reserve_sqe,
  request_kernel_cancellation_for,
}
use vio.Uring.Submit.{
  publish_operation, submit_reserved, submit_in_ring, submit_valid, submit_to_kernel, encodable,
  mark_closing, to_cancel, is_uncancelled, cancel_found, cancel_each,
  request_kernel_cancellations_for, needs_retry, to_retry, retried, retry_found, retry_each,
  retry_missing_kernel_cancellations,
}
use vio.Uring.Observe.{
  Cqe, KernelView, complete_found, cancel_acknowledged, observe_cqe, observe_cqes, visible_cqes,
  drain_view, observe_in_ring, observe_kernel_completions,
}
use vio.Uring.Held.{
  in_kernel, Moves, Moves-refl, Moves-trans, Alike, Alike-Moves, alike, moved-Moves,
  update-in_kernel, emplace-in_kernel, progress-Moves, request-Moves,
}

mark_closing-in_kernel :
    (id : ℕ) (token : HandleToken) (ks : List KernelOperation)
    → in_kernel id (mark_closing token ks) ≡ in_kernel id ks
unfolding mark_closing
mark_closing-in_kernel id token [] = refl
mark_closing-in_kernel id token (k ∷ ks) = ground (arith, mark_closing-in_kernel id token ks)

-- What a submission does that brings an operation into the kernel's hands, or to the completions.
pub record Takes (id : ℕ) (op : Operation) (b b' : UringBackend) : Type 0 where
  pub gained :
      in_kernel id b'.kernel_operations + completed id b'.completion_queue
      ≡ (if op.id == id then 1 else 0)
        + (in_kernel id b.kernel_operations + completed id b.completion_queue)
  pub active : b'.active_operation_ids ≡ b.active_operation_ids
  pub fallback : b'.fallback ≡ b.fallback
  pub options : b'.options ≡ b.options

-- It takes the operation where it succeeds, and changes nothing of this where it does not.
abbrev pub TakesIfOk : ℕ → Operation → UringBackend → UringBackend × VoidResult → Type 0
TakesIfOk id op b (b', ok _) = Takes id op b b'
TakesIfOk id op b (b', err e) = Moves id b b'

module _ (id : ℕ) (p : Provider) where
  cancel_found-Moves :
      (b : UringBackend) (x : ℕ) (o : Option KernelOperation) → Moves id b (cancel_found p b x o)
  cancel_found-Moves b x none = Moves-refl id b
  cancel_found-Moves b x (some k) =
      if_rule (λ (c : UringBackend). Moves id b c) (is_uncancelled k) (λ _. request-Moves id p b x)
        (λ _. Moves-refl id b)

  cancel_each-Moves : (xs : List ℕ) (b : UringBackend) → Moves id b (cancel_each p xs b)
  unfolding cancel_each
  cancel_each-Moves [] b = Moves-refl id b
  cancel_each-Moves (x ∷ xs) b =
      let b' = cancel_found p b x (find_operation x b.kernel_operations) in
      Moves-trans id b b' _ (cancel_found-Moves b x (find_operation x b.kernel_operations))
        (cancel_each-Moves xs b')

  marked-Moves :
      (b : UringBackend) (token : HandleToken)
      → Moves id b (record b { kernel_operations = mark_closing token b.kernel_operations })
  marked-Moves b token = record {
    kept = ground (arith, mark_closing-in_kernel id token b.kernel_operations);
    queue = refl;
    active = refl;
    fallback = refl;
    options = refl;
  }

  pub cancellations-Moves :
      (b : UringBackend) (token : HandleToken)
      → Moves id b (request_kernel_cancellations_for p b token).0
  unfolding request_kernel_cancellations_for
  cancellations-Moves b token =
      let P = λ (r : UringBackend × VoidResult). Moves id b r.0 in
      let marked = record b { kernel_operations = mark_closing token b.kernel_operations } in
      if_rule P (length b.kernel_operations == 0) (λ _. Moves-refl id b)
        (λ _.
          if_rule P (not b.capabilities.supports_cancel) (λ _. Moves-refl id b)
            (λ _.
              Moves-trans id b marked _ (marked-Moves b token)
                (cancel_each-Moves (to_cancel token b.kernel_operations) marked)))

  retried-Moves :
      (b b' : UringBackend) (r : VoidResult) → Moves id b b' → Moves id b (retried p (b', r)).0
  retried-Moves b b' (err e) v = v
  retried-Moves b b' (ok _) v = Moves-trans id b b' _ v (progress-Moves id p b')

  retry_found-Moves :
      (b : UringBackend) (x : ℕ) (o : Option KernelOperation) → Moves id b (retry_found p b x o).0
  retry_found-Moves b x none = Moves-refl id b
  retry_found-Moves b x (some k) =
      if_rule (λ (r : UringBackend × ℕ). Moves id b r.0) (needs_retry k)
        (λ _.
          retried-Moves b (request_kernel_cancellation_for p b x).0
            (request_kernel_cancellation_for p b x).1 (request-Moves id p b x))
        (λ _. Moves-refl id b)

  retry_each-Moves :
      (xs : List ℕ) (b : UringBackend) (visible : ℕ) → Moves id b (retry_each p xs b visible).0
  unfolding retry_each
  retry_each-Moves [] b visible = Moves-refl id b
  retry_each-Moves (x ∷ xs) b visible =
      let tried = retry_found p b x (find_operation x b.kernel_operations) in
      Moves-trans id b tried.0 _ (retry_found-Moves b x (find_operation x b.kernel_operations))
        (retry_each-Moves xs tried.0 (visible + tried.1))

  complete_found-Moves :
      (b : UringBackend) (x : ℕ) (cqe : Cqe) (o : Option KernelOperation)
      → find_operation x b.kernel_operations ≡ o
      → Moves id b (complete_found b x cqe o)
  complete_found-Moves b x cqe none found = Moves-refl id b
  complete_found-Moves b x cqe (some k) found = moved-Moves id x b k _ found refl

  observe_cqe-Moves : (b : UringBackend) (cqe : Cqe) → Moves id b (observe_cqe b cqe)
  observe_cqe-Moves b cqe =
      let x = (decode_kernel_user_data cqe.user_data).operation_id in
      if_rule (λ (c : UringBackend). Moves id b c) (decode_kernel_user_data cqe.user_data).is_cancel
        (λ _. record {
          kept = ground (arith, update-in_kernel id x cancel_acknowledged b.kernel_operations);
          queue = refl;
          active = refl;
          fallback = refl;
          options = refl;
        })
        (λ _. complete_found-Moves b x cqe (find_operation x b.kernel_operations) refl)

  observe_cqes-Moves : (cqes : List Cqe) (b : UringBackend) → Moves id b (observe_cqes cqes b)
  unfolding observe_cqes
  observe_cqes-Moves [] b = Moves-refl id b
  observe_cqes-Moves (cqe ∷ cqes) b =
      Moves-trans id b (observe_cqe b cqe) _ (observe_cqe-Moves b cqe)
        (observe_cqes-Moves cqes (observe_cqe b cqe))

  drain_view-Moves :
      (view : KernelView) (b : UringBackend) (visible : ℕ) (o : Option VoidResult)
      → Moves id b (drain_view view b visible o).0
  drain_view-Moves view b visible (some (err e)) = Moves-refl id b
  drain_view-Moves view b visible (some (ok _)) = observe_cqes-Moves (visible_cqes b view) b
  drain_view-Moves view b visible none = observe_cqes-Moves (visible_cqes b view) b

  observe_in_ring-Moves :
      (b : UringBackend) (view : KernelView) (ring : Option ℕ)
      → Moves id b (observe_in_ring p b view ring).0
  observe_in_ring-Moves b view none = Moves-refl id b
  observe_in_ring-Moves b view (some pending) =
      let progressed = progress_kernel_submissions p b in
      let tried = retry_missing_kernel_cancellations p progressed in
      Moves-trans id b progressed _ (progress-Moves id p b) (
        Moves-trans id progressed tried.0 _
          (retry_each-Moves (to_retry progressed.kernel_operations) progressed 0)
          (drain_view-Moves view tried.0 _ view.entered_for_events))

  pub observed-Moves :
      (b : UringBackend) (view : KernelView) → Moves id b (observe_kernel_completions p b view).0
  observed-Moves b view = observe_in_ring-Moves b view b.kernel_ring

  -- A submission that has room in the ring.
  publish_operation-Takes :
      (b : UringBackend) (pending : ℕ) (op : Operation)
      → (op.id == id ≡ false) ⊎ (in_kernel id b.kernel_operations ≡ 0)
      → Takes id op b (publish_operation p b pending op)
  publish_operation-Takes b pending op fresh =
      let v = progress-Moves id p (record b {
        kernel_ring = some (suc pending);
        kernel_operations = emplace_operation op b.kernel_operations;
        pending_kernel_submissions = b.pending_kernel_submissions ++ pending_operation op.id ∷ [];
      }) in
      record {
        gained = omega (arith, v.kept, emplace-in_kernel id op b.kernel_operations fresh);
        active = v.active;
        fallback = v.fallback;
        options = v.options;
      }

  submit_reserved-TakesIfOk :
      (b : UringBackend) (pending : ℕ) (op : Operation) (r : VoidResult)
      → (op.id == id ≡ false) ⊎ (in_kernel id b.kernel_operations ≡ 0)
      → TakesIfOk id op b (submit_reserved p pending op ((reserve_sqe p b).0, r))
  submit_reserved-TakesIfOk b pending op (err e) fresh = Alike-Moves id b _ (alike b)
  submit_reserved-TakesIfOk b pending op (ok _) fresh =
      let v = publish_operation-Takes (reserve_sqe p b).0 pending op fresh in
      record { gained = v.gained; active = v.active; fallback = v.fallback; options = v.options }

  TakesIfOk-from :
      (b b' : UringBackend) (op : Operation) (r : UringBackend × VoidResult)
      → Alike b b'
      → TakesIfOk id op b' r
      → TakesIfOk id op b r
  TakesIfOk-from b b' op (c, err e) same v = Moves-trans id b b' c (Alike-Moves id b b' same) v
  TakesIfOk-from b b' op (c, ok _) (ks, cs, qs, active, fallback, options) v = record {
    gained = ground (arith, v.gained, ks, cs);
    active = v.active ∙ active;
    fallback = v.fallback ∙ fallback;
    options = v.options ∙ options;
  }

  submit_in_ring-TakesIfOk :
      (b b' : UringBackend) (op : Operation) (encoded : VoidResult) (ring : Result ℕ)
      → Alike b b'
      → (op.id == id ≡ false) ⊎ (in_kernel id b.kernel_operations ≡ 0)
      → TakesIfOk id op b (submit_in_ring p op encoded (b', ring))
  submit_in_ring-TakesIfOk b b' op encoded (err e) same fresh = Alike-Moves id b b' same
  submit_in_ring-TakesIfOk b b' op (err e) (ok pending) same fresh = Alike-Moves id b b' same
  submit_in_ring-TakesIfOk b b' op (ok _) (ok pending) same fresh =
      TakesIfOk-from b b' op (submit_reserved p pending op (reserve_sqe p b')) same
        (submit_reserved-TakesIfOk b' pending op (reserve_sqe p b').1 (ground (arith, same.0)))

  -- The ring's creation changes only the ring.
  created-Alike :
      (b : UringBackend) (o : Option VioError)
      → Alike b
          (ring_created (record b { calls = record b.calls { creates = suc b.calls.creates } }) o).0
  created-Alike b (some e) = alike b
  created-Alike b none = alike b

  pub ensured-Alike : (b : UringBackend) (ring : Option ℕ) → Alike b (ensure_ring p b ring).0
  ensured-Alike b (some pending) = alike b
  ensured-Alike b none = created-Alike b (p.create b.calls.creates)

  submit_valid-TakesIfOk :
      (b : UringBackend) (op : Operation) (valid : VoidResult)
      → (op.id == id ≡ false) ⊎ (in_kernel id b.kernel_operations ≡ 0)
      → TakesIfOk id op b (submit_valid p b op valid)
  submit_valid-TakesIfOk b op (err e) fresh = Moves-refl id b
  submit_valid-TakesIfOk b op (ok _) fresh =
      let ensured = ensure_ring p b b.kernel_ring in
      submit_in_ring-TakesIfOk b ensured.0 op (encodable op) ensured.1
        (ensured-Alike b b.kernel_ring) fresh

  pub submit_to_kernel-TakesIfOk :
      (b : UringBackend) (op : Operation)
      → (op.id == id ≡ false) ⊎ (in_kernel id b.kernel_operations ≡ 0)
      → TakesIfOk id op b (submit_to_kernel p b op)
  submit_to_kernel-TakesIfOk b op fresh =
      submit_valid-TakesIfOk b op (validate_kernel_operation op) fresh
