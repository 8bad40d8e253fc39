-- ===== src/Uring/Registered.antt =====
-- Registering, unregistering and releasing buffers and files keeps each identifier.
use vio.Prelude.{
  ℕ, ◌≡◌, refl, not, Option, none, some, List, [], length, arith, if_rule, is_empty, ltb, not,
  length, List, [], ◌||◌,
}
use Prim.Native.String.{String}
use vio.Error.{Result, VoidResult, ok, err}
use vio.Backend.Operation.{HandleToken}
use vio.Uring.{u32_max}
use vio.Uring.Backend.{Provider, UringBackend}
use vio.Uring.Resources
use vio.Uring.Steady.{IsQuiet, Steady, Steady-refl, Steady-trans}
use vio.Readiness.{SysResult}
use vio.Uring.Held.{Alike}
use vio.Uring.Kept.{ensured-Alike}
use vio.Uring.Backend.{ensure_ring}

files_released-Steady :
    (id : ℕ) (b : UringBackend) (r : UringBackend × VoidResult)
    → Steady id b r.0
    → Steady id b (Resources.files_released r).0
files_released-Steady id b (c, err e) v = v
files_released-Steady id b (c, ok _) v = record {
  same = v.same;
  active = v.active;
  quiet = record {
    mode = v.quiet.mode;
    pending = v.quiet.pending;
    completions = v.quiet.completions;
  };
}

called-Steady :
    (id : ℕ) (b b' : UringBackend)
    → IsQuiet b
    → b'.kernel_operations ≡ b.kernel_operations
    → b'.completion_queue ≡ b.completion_queue
    → b'.submission_queue ≡ b.submission_queue
    → b'.active_operation_ids ≡ b.active_operation_ids
    → b'.fallback ≡ b.fallback
    → b'.options ≡ b.options
    → Steady id b b'
called-Steady id b b' q ks cs qs active fallback options = record {
  same = ground (arith, ks, cs, qs);
  active = ground (arith, active);
  quiet = record {
    mode = ground (arith, options, q.mode);
    pending = ground (arith, fallback, q.pending);
    completions = ground (arith, fallback, q.completions);
  };
}

set_buffers-Steady :
    (id : ℕ) (b : UringBackend) (sizes : List ℕ) (r : UringBackend × VoidResult)
    → Steady id b r.0
    → Steady id b (Resources.set_buffers sizes r).0
set_buffers-Steady id b sizes (c, err e) v = v
set_buffers-Steady id b sizes (c, ok _) v = record {
  same = v.same;
  active = v.active;
  quiet = record {
    mode = v.quiet.mode;
    pending = v.quiet.pending;
    completions = v.quiet.completions;
  };
}

set_files-Steady :
    (id : ℕ) (b : UringBackend) (files : List HandleToken) (r : UringBackend × VoidResult)
    → Steady id b r.0
    → Steady id b (Resources.set_files files r).0
set_files-Steady id b files (c, err e) v = v
set_files-Steady id b files (c, ok _) v = record {
  same = v.same;
  active = v.active;
  quiet = record {
    mode = v.quiet.mode;
    pending = v.quiet.pending;
    completions = v.quiet.completions;
  };
}

register_in_ring-Steady :
    (id : ℕ) (b b' : UringBackend) (answer : SysResult) (ring : Result ℕ)
    → IsQuiet b
    → Alike b b'
    → Steady id b (Resources.register_in_ring answer (b', ring)).0
register_in_ring-Steady id b b' answer (err e) q (ks, cs, qs, active, fallback, options) =
    called-Steady id b b' q ks cs qs active fallback options
register_in_ring-Steady id b b' answer (ok n) q (ks, cs, qs, active, fallback, options) =
    called-Steady id b b' q ks cs qs active fallback options

module _ (id : ℕ) (p : Provider) where
  unregister_in_ring-Steady :
      (b : UringBackend) (diagnostic : String) (ring : Option ℕ)
      → IsQuiet b
      → Steady id b (Resources.unregister_in_ring p b diagnostic ring).0
  unregister_in_ring-Steady b diagnostic none q = Steady-refl id b q
  unregister_in_ring-Steady b diagnostic (some _) q =
      called-Steady id b _ q refl refl refl refl refl refl

  unregister-Steady :
      (b : UringBackend) (diagnostic : String)
      → IsQuiet b
      → Steady id b (Resources.unregister_with_provider p b diagnostic).0
  unregister-Steady b diagnostic q =
      if_rule (λ (r : UringBackend × VoidResult). Steady id b r.0)
        (not b.options.enable_kernel_submission) (λ _. Steady-refl id b q)
        (λ _. unregister_in_ring-Steady b diagnostic b.kernel_ring q)

  release_files-Steady :
      (b : UringBackend) → IsQuiet b → Steady id b (Resources.release_files p b).0
  release_files-Steady b q =
      if_rule (λ (r : UringBackend × VoidResult). Steady id b r.0) (is_empty b.registered_files)
        (λ _. Steady-refl id b q)
        (λ _.
          files_released-Steady id b
            (Resources.unregister_with_provider p b Resources.files_diagnostic)
            (unregister-Steady b Resources.files_diagnostic q))

  buffers_released-Steady :
      (b : UringBackend) (r : UringBackend × VoidResult)
      → Steady id b r.0
      → Steady id b (Resources.buffers_released p r).0
  buffers_released-Steady b (c, err e) v = v
  buffers_released-Steady b (c, ok _) v =
      let cleared = record c { registered_buffers = [] } in
      let w : Steady id c cleared =
        called-Steady id c cleared v.quiet refl refl refl refl refl refl in
      Steady-trans id b c _ v (Steady-trans id c cleared _ w (release_files-Steady cleared w.quiet))

  pub release-Steady :
      (b : UringBackend) → IsQuiet b → Steady id b (Resources.release_registered_resources p b).0
  release-Steady b q =
      if_rule (λ (r : UringBackend × VoidResult). Steady id b r.0) (is_empty b.registered_buffers)
        (λ _. release_files-Steady b q)
        (λ _.
          buffers_released-Steady b
            (Resources.unregister_with_provider p b Resources.buffers_diagnostic)
            (unregister-Steady b Resources.buffers_diagnostic q))

  pub release_files_for-Steady :
      (b : UringBackend) (token : HandleToken)
      → IsQuiet b
      → Steady id b (Resources.release_registered_files_for p b token).0
  release_files_for-Steady b token q =
      if_rule (λ (r : UringBackend × VoidResult). Steady id b r.0)
        (not (Resources.contains_token token b.registered_files)) (λ _. Steady-refl id b q)
        (λ _.
          files_released-Steady id b
            (Resources.unregister_with_provider p b Resources.files_diagnostic)
            (unregister-Steady b Resources.files_diagnostic q))

  register_with_provider-Steady :
      (b : UringBackend) (answer : SysResult)
      → IsQuiet b
      → Steady id b (Resources.register_with_provider p b answer).0
  register_with_provider-Steady b answer q =
      let ensured = ensure_ring p b b.kernel_ring in
      if_rule (λ (r : UringBackend × VoidResult). Steady id b r.0)
        (not b.options.enable_kernel_submission) (λ _. Steady-refl id b q)
        (λ _.
          register_in_ring-Steady id b ensured.0 answer ensured.1 q
            (ensured-Alike id p b b.kernel_ring))

  pub register_buffers-Steady :
      (b : UringBackend) (sizes : List ℕ) (answer : SysResult)
      → IsQuiet b
      → Steady id b (Resources.register_buffers p b sizes answer).0
  unfolding Resources.register_buffers
  register_buffers-Steady b sizes answer q =
      let P = λ (r : UringBackend × VoidResult). Steady id b r.0 in
      let same = Steady-refl id b q in
      if_rule P b.closed (λ _. same)
        (λ _.
          if_rule P (is_empty sizes) (λ _. same)
            (λ _.
              if_rule P
                (not b.capabilities.available || not b.capabilities.supports_registered_buffers)
                (λ _. same)
                (λ _.
                  if_rule P (not (is_empty b.registered_buffers)) (λ _. same)
                    (λ _.
                      if_rule P (ltb u32_max (length sizes)) (λ _. same)
                        (λ _.
                          if_rule P (Resources.has_empty sizes) (λ _. same)
                            (λ _.
                              set_buffers-Steady id b sizes
                                (Resources.register_with_provider p b answer)
                                (register_with_provider-Steady b answer q)))))))

  register_checked-Steady :
      (b : UringBackend) (files : List HandleToken) (answer : SysResult) (checked : VoidResult)
      → IsQuiet b
      → Steady id b (Resources.register_checked p b files answer checked).0
  register_checked-Steady b files answer (err e) q = Steady-refl id b q
  register_checked-Steady b files answer (ok _) q =
      set_files-Steady id b files (Resources.register_with_provider p b answer)
        (register_with_provider-Steady b answer q)

  pub register_files-Steady :
      (b : UringBackend) (files : List HandleToken) (answer : SysResult)
      → IsQuiet b
      → Steady id b (Resources.register_files p b files answer).0
  unfolding Resources.register_files
  register_files-Steady b files answer q =
      let P = λ (r : UringBackend × VoidResult). Steady id b r.0 in
      let same = Steady-refl id b q in
      if_rule P b.closed (λ _. same)
        (λ _.
          if_rule P (is_empty files) (λ _. same)
            (λ _.
              if_rule P
                (not b.capabilities.available || not b.capabilities.supports_registered_files)
                (λ _. same)
                (λ _.
                  if_rule P (not (is_empty b.registered_files)) (λ _. same)
                    (λ _.
                      if_rule P (ltb u32_max (length files)) (λ _. same)
                        (λ _.
                          register_checked-Steady b files answer (Resources.check_files b [] files)
                            q)))))

  pub unregister_buffers-Steady :
      (b : UringBackend) → IsQuiet b → Steady id b (Resources.unregister_buffers p b).0
  unfolding Resources.unregister_buffers
  unregister_buffers-Steady b q =
      let P = λ (r : UringBackend × VoidResult). Steady id b r.0 in
      if_rule P b.closed (λ _. Steady-refl id b q)
        (λ _.
          if_rule P (is_empty b.registered_buffers) (λ _. Steady-refl id b q)
            (λ _.
              set_buffers-Steady id b []
                (Resources.unregister_with_provider p b Resources.buffers_diagnostic)
                (unregister-Steady b Resources.buffers_diagnostic q)))

  pub unregister_files-Steady :
      (b : UringBackend) → IsQuiet b → Steady id b (Resources.unregister_files p b).0
  unfolding Resources.unregister_files
  unregister_files-Steady b q =
      let P = λ (r : UringBackend × VoidResult). Steady id b r.0 in
      if_rule P b.closed (λ _. Steady-refl id b q)
        (λ _.
          if_rule P (is_empty b.registered_files) (λ _. Steady-refl id b q)
            (λ _.
              set_files-Steady id b []
                (Resources.unregister_with_provider p b Resources.files_diagnostic)
                (unregister-Steady b Resources.files_diagnostic q)))
