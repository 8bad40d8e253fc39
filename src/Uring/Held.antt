-- ===== src/Uring/Held.antt =====
-- Where an identifier stands: among the queued submissions, the kernel's operations and the completions;
-- and what pushing into the kernel does to that.
use vio.Prelude.{
  ℕ, zero, suc, ◌+◌, ◌-◌, ◌≡◌, ◌⊎◌, refl, ◌∙◌, false, Option, none, some, List, [], ◌∷◌, ◌++◌, ◌==◌,
  if◌then◌else◌, arith, if_rule, erase,
}
use vio.Error.{VioError, Result, VoidResult, ok, err}
use vio.Backend.Operation.{Operation, Completion}
use vio.Backend.ExactlyOnce.{completed, completed-append}
use vio.Readiness.{provider_failure}
use vio.Uring.{encode_cancel_user_data}
use vio.Uring.Backend.{
  answered, submitted_some, no_progress, progress_ring, Provider, EnterAnswer, entered,
  enter_failed, UringBackend, KernelOperation, PendingSubmission, pending_operation, pending_cancel,
  find_operation, erase_operation, update_operation, emplace_operation, fail_operation,
  fail_submission, fail_submissions, progress_loop, progress_kernel_submissions, forget_cancel,
  submission_failed, count_enter, publish_cancel, cancel_reserved, cancel_in_ring, reserve_sqe,
  request_kernel_cancellation_for, push_completion, with_operations, submit_cancel,
}

abbrev pub in_kernel : ℕ → List KernelOperation → ℕ
in_kernel id [] = 0
in_kernel id (k ∷ ks) = (if k.operation.id == id then 1 else 0) + in_kernel id ks

erase-in_kernel :
    (id x : ℕ) (k : KernelOperation) (ks : List KernelOperation)
    → find_operation x ks ≡ some k
    → (if x == id then 1 else 0) + in_kernel id (erase_operation x ks) ≡ in_kernel id ks
unfolding find_operation erase_operation
erase-in_kernel id x k [] found = ground arith
erase-in_kernel id x k (y ∷ ks) found = ground (arith, erase-in_kernel id x k ks)

pub update-in_kernel :
    (id x : ℕ) (f : KernelOperation → KernelOperation) (ks : List KernelOperation)
    → in_kernel id (update_operation x f ks) ≡ in_kernel id ks
unfolding update_operation
update-in_kernel id x f [] = refl
update-in_kernel id x f (k ∷ ks) = ground (arith, update-in_kernel id x f ks)

pub emplace-in_kernel :
    (id : ℕ) (op : Operation) (ks : List KernelOperation)
    → (op.id == id ≡ false) ⊎ (in_kernel id ks ≡ 0)
    → in_kernel id (emplace_operation op ks) ≡ (if op.id == id then 1 else 0) + in_kernel id ks
unfolding emplace_operation
emplace-in_kernel id op [] h = refl
emplace-in_kernel id op (k ∷ ks) h = ground (arith, emplace-in_kernel id op ks)

-- What a step does that moves operations of the kernel to the completions, if anything.
pub record Moves (id : ℕ) (b b' : UringBackend) : Type 0 where
  pub kept :
      in_kernel id b'.kernel_operations + completed id b'.completion_queue
      ≡ in_kernel id b.kernel_operations + completed id b.completion_queue
  pub queue : b'.submission_queue ≡ b.submission_queue
  pub active : b'.active_operation_ids ≡ b.active_operation_ids
  pub fallback : b'.fallback ≡ b.fallback
  pub options : b'.options ≡ b.options

pub Moves-refl : (id : ℕ) (b : UringBackend) → Moves id b b
Moves-refl id b = record {
  kept = refl;
  queue = refl;
  active = refl;
  fallback = refl;
  options = refl;
}

pub Moves-trans : (id : ℕ) (a b c : UringBackend) → Moves id a b → Moves id b c → Moves id a c
Moves-trans id a b c v w = record {
  kept = w.kept ∙ v.kept;
  queue = w.queue ∙ v.queue;
  active = w.active ∙ v.active;
  fallback = w.fallback ∙ v.fallback;
  options = w.options ∙ v.options;
}

-- An operation that is found moves to the completions.
pub moved-Moves :
    (id x : ℕ) (b : UringBackend) (k : KernelOperation) (c : Completion)
    → find_operation x b.kernel_operations ≡ some k
    → c.operation_id ≡ x
    → Moves id b (push_completion (with_operations b (erase_operation x b.kernel_operations)) c)
moved-Moves id x b k c found same = record {
  kept = ground (
    arith,
    completed-append id b.completion_queue (c ∷ []),
    erase-in_kernel id x k b.kernel_operations found,
  );
  queue = refl;
  active = refl;
  fallback = refl;
  options = refl;
}

pub updated-Moves :
    (id x : ℕ) (b : UringBackend) (f : KernelOperation → KernelOperation)
    → Moves id b (with_operations b (update_operation x f b.kernel_operations))
updated-Moves id x b f = record {
  kept = ground (arith, update-in_kernel id x f b.kernel_operations);
  queue = refl;
  active = refl;
  fallback = refl;
  options = refl;
}

fail_operation-Moves :
    (id x : ℕ) (error : VioError) (b : UringBackend) (o : Option KernelOperation)
    → find_operation x b.kernel_operations ≡ o
    → Moves id b (fail_operation error b x o)
fail_operation-Moves id x error b none found = Moves-refl id b
fail_operation-Moves id x error b (some k) found = moved-Moves id x b k _ found refl

fail_submission-Moves :
    (id : ℕ) (error : VioError) (b : UringBackend) (sub : PendingSubmission)
    → Moves id b (fail_submission error b sub)
fail_submission-Moves id error b (pending_operation x) =
    fail_operation-Moves id x error b (find_operation x b.kernel_operations) refl
fail_submission-Moves id error b (pending_cancel x) = record {
  kept = ground (arith, update-in_kernel id x forget_cancel b.kernel_operations);
  queue = refl;
  active = refl;
  fallback = refl;
  options = refl;
}

fail_submissions-Moves :
    (id : ℕ) (error : VioError) (b : UringBackend) (subs : List PendingSubmission)
    → Moves id b (fail_submissions error b subs)
unfolding fail_submissions
fail_submissions-Moves id error b [] = Moves-refl id b
fail_submissions-Moves id error b (sub ∷ subs) =
    Moves-trans id b (fail_submission error b sub) _ (fail_submission-Moves id error b sub)
      (fail_submissions-Moves id error (fail_submission error b sub) subs)

-- A change of the ring and of what is pending in it moves nothing.
submission_failed-Moves :
    (id : ℕ) (b : UringBackend) (error : VioError) → Moves id b (submission_failed b error)
submission_failed-Moves id b error =
    let v =
      fail_submissions-Moves id error
        (record b { kernel_ring = some 0; pending_kernel_submissions = [] })
        b.pending_kernel_submissions in
    record {
      kept = v.kept;
      queue = v.queue;
      active = v.active;
      fallback = v.fallback;
      options = v.options;
    }

counted-Moves : (id : ℕ) (b b' : UringBackend) → Moves id (count_enter b) b' → Moves id b b'
counted-Moves id b b' v = record {
  kept = v.kept;
  queue = v.queue;
  active = v.active;
  fallback = v.fallback;
  options = v.options;
}

answered-Moves :
    (id : ℕ) (b : UringBackend) (next : ℕ → UringBackend) (a : EnterAnswer)
    → ((n : ℕ) → Moves id b (next n))
    → Moves id b (answered (count_enter b) next a)
answered-Moves id b next (enter_failed e) h =
    counted-Moves id b _ (submission_failed-Moves id (count_enter b) (provider_failure e))
answered-Moves id b next (entered zero) h =
    counted-Moves id b _ (submission_failed-Moves id (count_enter b) no_progress)
answered-Moves id b next (entered (suc n)) h = h n

-- What changes of a backend is none of what moves.
abbrev pub Alike : UringBackend → UringBackend → Type 0
Alike b b' =
    (b'.kernel_operations ≡ b.kernel_operations)
    × (b'.completion_queue ≡ b.completion_queue)
    × (b'.submission_queue ≡ b.submission_queue)
    × (b'.active_operation_ids ≡ b.active_operation_ids)
    × (b'.fallback ≡ b.fallback)
    × (b'.options ≡ b.options)

pub Alike-Moves : (id : ℕ) (b b' : UringBackend) → Alike b b' → Moves id b b'
Alike-Moves id b b' (ks, cs, qs, active, fallback, options) = record {
  kept = ground (arith, ks, cs);
  queue = qs;
  active = active;
  fallback = fallback;
  options = options;
}

pub alike : (b : UringBackend) → Alike b b
alike b = (refl, refl, refl, refl, refl, refl)

module _ (id : ℕ) (p : Provider) where
  progress_loop-Moves :
      (fuel : ℕ) (b : UringBackend) (pending : ℕ) → Moves id b (progress_loop p fuel b pending)
  unfolding progress_loop
  progress_loop-Moves zero b pending = Moves-refl id b
  progress_loop-Moves (suc fuel) b pending =
      if_rule (λ (c : UringBackend). Moves id b c) (pending == 0) (λ _. Moves-refl id b)
        (λ _. answered-Moves id b _ (p.enter b.calls.enters) (λ n.
          Moves-trans id b (submitted_some (count_enter b) pending (suc n)) _
            (Alike-Moves id b _ (alike b))
            (progress_loop-Moves fuel (submitted_some (count_enter b) pending (suc n))
              (pending - suc n))))

  progress_ring-Moves : (b : UringBackend) (ring : Option ℕ) → Moves id b (progress_ring p b ring)
  progress_ring-Moves b none = Moves-refl id b
  progress_ring-Moves b (some pending) = progress_loop-Moves pending b pending

  pub progress-Moves : (b : UringBackend) → Moves id b (progress_kernel_submissions p b)
  progress-Moves b = progress_ring-Moves b b.kernel_ring

  publish_cancel-Moves :
      (b : UringBackend) (pending x : ℕ) → Moves id b (publish_cancel p b pending x)
  publish_cancel-Moves b pending x =
      Moves-trans id b (with_operations b (update_operation x submit_cancel b.kernel_operations)) _
        (updated-Moves id x b submit_cancel)
        (Moves-trans id _
          (record b {
            kernel_ring = some (suc pending);
            kernel_operations = update_operation x submit_cancel b.kernel_operations;
            kernel_cancel_operation_ids = x ∷ erase x b.kernel_cancel_operation_ids;
            pending_kernel_submissions = b.pending_kernel_submissions ++ pending_cancel x ∷ [];
          })
          _
          (Alike-Moves id _ _
            (alike (with_operations b (update_operation x submit_cancel b.kernel_operations))))
          (progress-Moves _))

  cancel_reserved-Moves :
      (b : UringBackend) (pending x : ℕ) (r : VoidResult)
      → Moves id b (cancel_reserved p pending x ((reserve_sqe p b).0, r)).0
  cancel_reserved-Moves b pending x (err e) = Alike-Moves id b _ (alike b)
  cancel_reserved-Moves b pending x (ok _) =
      Moves-trans id b (reserve_sqe p b).0 _ (Alike-Moves id b _ (alike b))
        (publish_cancel-Moves (reserve_sqe p b).0 pending x)

  cancel_encoded-Moves :
      (b : UringBackend) (pending x : ℕ) (encoded : Result ℕ)
      → Moves id b
          (elim encoded as (λ _. UringBackend × VoidResult) [
            | err e ↦ (b, err e)
            | ok _ ↦ cancel_reserved p pending x (reserve_sqe p b)
          ]).0
  cancel_encoded-Moves b pending x (err e) = Moves-refl id b
  cancel_encoded-Moves b pending x (ok _) = cancel_reserved-Moves b pending x (reserve_sqe p b).1

  cancel_in_ring-Moves :
      (b : UringBackend) (x : ℕ) (ring : Option ℕ) → Moves id b (cancel_in_ring p b x ring).0
  cancel_in_ring-Moves b x none = Moves-refl id b
  cancel_in_ring-Moves b x (some pending) =
      cancel_encoded-Moves b pending x (encode_cancel_user_data x)

  pub request-Moves :
      (b : UringBackend) (x : ℕ) → Moves id b (request_kernel_cancellation_for p b x).0
  request-Moves b x = cancel_in_ring-Moves b x b.kernel_ring
