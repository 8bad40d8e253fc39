-- ===== src/Uring/Steady.antt =====
-- What no method changes but a submission and a drain: how often an identifier stands in the backend.
use vio.Prelude.{
  ℕ, zero, suc, ◌+◌, ◌≤◌, ◌≡◌, ◌⊎◌, inl, inr, refl, ◌∙◌, true, false, List, [], ◌∷◌, ◌==◌, count,
  arith, Bool-cases, if_rule,
}
use vio.Error.{VoidResult, ok, err}
use vio.Backend.Operation.{Operation}
use vio.Backend.ExactlyOnce.{among, completed}
use vio.Uring.Backend.{Provider, UringBackend}
use vio.Uring.Submit.{flush_next, flush_loop, submit_front}
use vio.Uring.Held.{in_kernel, Moves}
use vio.Uring.Kept.{Takes, TakesIfOk, submit_to_kernel-TakesIfOk}

abbrev pub held : ℕ → UringBackend → ℕ
held id b =
    among id b.submission_queue
    + (in_kernel id b.kernel_operations + completed id b.completion_queue)

-- The kernel is used, and the virtual backend has no operation.
pub record IsQuiet (b : UringBackend) : Type 0 where
  pub mode : b.options.enable_kernel_submission ≡ true
  pub pending : b.fallback.pending ≡ []
  pub completions : b.fallback.completions ≡ []

pub record Steady (id : ℕ) (b b' : UringBackend) : Type 0 where
  pub same : held id b' ≡ held id b
  pub active : count id b'.active_operation_ids ≡ count id b.active_operation_ids
  pub quiet : IsQuiet b'

pub Steady-refl : (id : ℕ) (b : UringBackend) → IsQuiet b → Steady id b b
Steady-refl id b q = record { same = refl; active = refl; quiet = q }

pub Steady-trans : (id : ℕ) (a b c : UringBackend) → Steady id a b → Steady id b c → Steady id a c
Steady-trans id a b c v w = record {
  same = w.same ∙ v.same;
  active = w.active ∙ v.active;
  quiet = w.quiet;
}

pub Moves-Steady : (id : ℕ) (b b' : UringBackend) → IsQuiet b → Moves id b b' → Steady id b b'
Moves-Steady id b b' q v = record {
  same = ground (arith, v.kept, v.queue);
  active = ground (arith, v.active);
  quiet = record {
    mode = ground (arith, v.options, q.mode);
    pending = ground (arith, v.fallback, q.pending);
    completions = ground (arith, v.fallback, q.completions);
  };
}

-- A submission of the front, which is then taken from the queue.
Takes-Steady :
    (id : ℕ) (op : Operation) (queue : List Operation) (b b' : UringBackend)
    → b.submission_queue ≡ op ∷ queue
    → IsQuiet b
    → Takes id op b b'
    → Steady id b (record b' { submission_queue = queue })
Takes-Steady id op queue b b' front q v = record {
  same = ground (arith, v.gained, front);
  active = ground (arith, v.active);
  quiet = record {
    mode = ground (arith, v.options, q.mode);
    pending = ground (arith, v.fallback, q.pending);
    completions = ground (arith, v.fallback, q.completions);
  };
}

-- The operation at the front is not in the kernel's hands, where no identifier stands twice.
front-fresh :
    (id : ℕ) (op : Operation) (queue : List Operation) (b : UringBackend)
    → b.submission_queue ≡ op ∷ queue
    → held id b ≤ 1
    → (op.id == id ≡ false) ⊎ (in_kernel id b.kernel_operations ≡ 0)
front-fresh id op queue b front single = elim (Bool-cases (op.id == id)) [
  | inl here ↦ inr (ground (arith, front))
  | inr other ↦ inl other
]

module _ (id : ℕ) (p : Provider) where
  -- What holds of a backend in the loop of `flush_submission_batch`.
  abbrev IsFlushing : List Operation → UringBackend → Type 0
  IsFlushing queue b = (b.submission_queue ≡ queue) × (held id b ≤ 1) × IsQuiet b

  flush_next-Steady :
      (op : Operation) (queue : List Operation) (b : UringBackend)
      (next : UringBackend → UringBackend × VoidResult) (r : UringBackend × VoidResult)
      → IsFlushing (op ∷ queue) b
      → TakesIfOk id op b r
      → ((c : UringBackend) → IsFlushing queue c → Steady id c (next c).0)
      → Steady id b (flush_next next queue r).0
  flush_next-Steady op queue b next (c, err e) (front, single, q) v h = Moves-Steady id b c q v
  flush_next-Steady op queue b next (c, ok _) (front, single, q) v h =
      let taken : Steady id b (record c { submission_queue = queue }) =
        Takes-Steady id op queue b c front q v in
      Steady-trans id b (record c { submission_queue = queue }) _ taken
        (h (record c { submission_queue = queue }) (refl, omega (arith, taken.same), taken.quiet))

  submit_front-TakesIfOk :
      (op : Operation) (queue : List Operation) (b : UringBackend)
      → IsFlushing (op ∷ queue) b
      → TakesIfOk id op b (submit_front p b op)
  submit_front-TakesIfOk op queue b (front, single, q) =
      if_rule (λ (r : UringBackend × VoidResult). TakesIfOk id op b r)
        b.options.enable_kernel_submission
        (λ _. submit_to_kernel-TakesIfOk id p b op (front-fresh id op queue b front single))
        (λ off. absurd (ground (arith, q.mode, off)))

  pub flush_loop-Steady :
      (rounds : ℕ) (queue : List Operation) (b : UringBackend)
      → IsFlushing queue b
      → Steady id b (flush_loop p rounds queue b).0
  unfolding flush_loop
  flush_loop-Steady zero queue b (front, single, q) = Steady-refl id b q
  flush_loop-Steady (suc rounds) [] b (front, single, q) = Steady-refl id b q
  flush_loop-Steady (suc rounds) (op ∷ queue) b f =
      flush_next-Steady op queue b (λ c. flush_loop p rounds queue c) (submit_front p b op) f
        (submit_front-TakesIfOk op queue b f) (λ c g. flush_loop-Steady rounds queue c g)
