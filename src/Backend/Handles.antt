-- ===== src/Backend/Handles.antt =====
-- Which operations a backend takes, and on which handles they stand.
use vio.Prelude.{
  ℕ, ◌+◌, ◌≡◌, ◌≢◌, ◌⊎◌, ◌≤◌, refl, Bool, true, false, ◌&&◌, List, [], ◌∷◌, ◌++◌, if◌then◌else◌,
  contains, Bool-cases, inl, inr, arith,
}
use vio.Error.{VoidResult, ok, err, has_value}
use vio.Registry
use vio.Registry.{Registry, NativeHandleToken}
use vio.Backend.Operation.{
  Operation, OperationKind, HandleToken, same_token, is_valid_operation_shape, is_readied,
}
use vio.Backend.Virtual
use vio.Backend.Virtual.{VirtualBackend, sweep, is_current_handle}
use vio.Backend.Session.{
  Session, BackendCall, registers, submits, cancels, closes, readies, drains, wakes, shuts_down,
  start, step, run, log_submit,
}

-- The conditions under which an operation is taken.
pub record IsSubmittable (b : VirtualBackend) (op : Operation) : Type 0 where
  pub live : b.stopped ≡ false
  pub named : op.id ≢ 0
  pub shaped : is_valid_operation_shape op ≡ true
  pub held : is_current_handle b op.handle ≡ true
  pub fresh : contains op.id b.active_operation_ids ≡ false

-- An operation is taken exactly if the backend is live, its identifier is not 0 and not active, its
-- kind fits its target and its handle is current; then it joins the pending operations as the last
-- one, and its identifier the active ones. Otherwise it is refused, and nothing changes.
pub submit-cases :
    (b : VirtualBackend) (op : Operation)
    → let (b', result) = Virtual.submit b op in
      ((result ≡ ok tt)
        × IsSubmittable b op
        × (b'.pending ≡ b.pending ++ op ∷ [])
        × (b'.active_operation_ids ≡ op.id ∷ b.active_operation_ids)
        × (b'.completions ≡ b.completions))
      ⊎ ((has_value result ≡ false) × (¬ IsSubmittable b op) × (b' ≡ b))
unfolding Virtual.submit
submit-cases b op = elim (Bool-cases (has_value (Virtual.submit b op).1)) [
  | inl e ↦ inl (ground arith, ground arith, ground arith, ground arith, ground arith)
  | inr e ↦ inr (e, λ h. ground arith, ground arith)
]

-- Opening a handle leaves the current tokens current.
register-keeps :
    (b : VirtualBackend) (h : ℕ) (token : HandleToken)
    → is_current_handle b token ≡ true
    → is_current_handle (Virtual.register_handle b h).0 token ≡ true
unfolding Virtual.register_handle is_current_handle Registry.register_handle Registry.is_current
register-keeps b h token c = ground arith

-- Closing a handle leaves the other current tokens current.
close-keeps :
    (b : VirtualBackend) (token other : HandleToken)
    → is_current_handle b other ≡ true
    → same_token other token ≡ false
    → is_current_handle (Virtual.close_handle b token).0 other ≡ true
unfolding Virtual.close_handle is_current_handle Registry.close Registry.is_current
close-keeps b token other c n = ground arith

-- The operations on which a test fails.
pub filter_out : (Operation → Bool) → List Operation → List Operation
filter_out test [] = []
filter_out test (op ∷ ops) = let rest = filter_out test ops in if test op then rest else op ∷ rest

sweep-filter_out :
    (test : Operation → Bool) (r : VoidResult) (ops : List Operation)
    → (sweep test r ops).0 ≡ filter_out test ops
unfolding sweep filter_out
sweep-filter_out test r [] = refl
sweep-filter_out test r (op ∷ ops) = ground (arith, sweep-filter_out test r ops)

-- Closing succeeds exactly on a live backend and a current token; then the token is no longer
-- current, and the operations that were pending on it, and no others, have left. Otherwise it is
-- refused, and nothing changes.
pub close_handle-cases :
    (b : VirtualBackend) (token : HandleToken)
    → let (b', result) = Virtual.close_handle b token in
      ((result ≡ ok tt)
        × (b.stopped ≡ false)
        × (is_current_handle b token ≡ true)
        × (is_current_handle b' token ≡ false)
        × (b'.pending ≡ filter_out (λ op. same_token op.handle token) b.pending))
      ⊎ ((has_value result ≡ false)
          × ((b.stopped ≡ true) ⊎ (is_current_handle b token ≡ false))
          × (b' ≡ b))
unfolding Virtual.close_handle is_current_handle Registry.close Registry.is_current
close_handle-cases b token = elim (Bool-cases (has_value (Virtual.close_handle b token).1)) [
  | inl e ↦ inl (
    ground arith,
    ground arith,
    ground arith,
    ground arith,
    ground (
      arith,
      sweep-filter_out (λ op. same_token op.handle token) Virtual.closed_completion b.pending,
    ),
  )
  | inr e ↦ inr (e, ground arith, ground arith)
]

-- How many operations stand on a token.
abbrev pub on_token : HandleToken → List Operation → ℕ
on_token token [] = 0
on_token token (op ∷ ops) = (if same_token op.handle token then 1 else 0) + on_token token ops

-- Nothing is pending on a token that is not current.
abbrev pub IsHeld : HandleToken → VirtualBackend → Type 0
IsHeld token b = is_current_handle b token ≡ false → on_token token b.pending ≡ 0

on_token-append :
    (token : HandleToken) (xs ys : List Operation)
    → on_token token (xs ++ ys) ≡ on_token token xs + on_token token ys
on_token-append token [] ys = omega arith
on_token-append token (x ∷ xs) ys = omega (arith, on_token-append token xs ys)

sweep-on_token :
    (token : HandleToken) (test : Operation → Bool) (r : VoidResult) (ops : List Operation)
    → on_token token (sweep test r ops).0 ≤ on_token token ops
unfolding sweep
sweep-on_token token test r [] = omega arith
sweep-on_token token test r (op ∷ ops) = ground (arith, sweep-on_token token test r ops)

sweep-on_token_same :
    (token t : HandleToken) (r : VoidResult) (ops : List Operation)
    → same_token token t ≡ true
    → on_token token (sweep (λ op. same_token op.handle t) r ops).0 ≡ 0
unfolding sweep
sweep-on_token_same token t r [] e = omega arith
sweep-on_token_same token t r (op ∷ ops) e = ground (arith, sweep-on_token_same token t r ops)

same_token-current :
    (b : VirtualBackend) (t u : HandleToken)
    → same_token t u ≡ true
    → is_current_handle b t ≡ is_current_handle b u
unfolding is_current_handle Registry.is_current
same_token-current b t u e = ground arith

submit-IsHeld :
    (token : HandleToken) (b : VirtualBackend) (op : Operation)
    → IsHeld token b
    → IsHeld token (Virtual.submit b op).0
unfolding Virtual.submit is_current_handle
submit-IsHeld token b op v c =
    ground
      (arith, v, same_token-current b op.handle token, on_token-append token b.pending (op ∷ []))

close-IsHeld :
    (token t : HandleToken) (b : VirtualBackend)
    → IsHeld token b
    → IsHeld token (Virtual.close_handle b t).0
close-IsHeld token t b v c = elim (Bool-cases (is_current_handle b token)) [
  | inr stale ↦
      unfold Virtual.close_handle in
      ground (
        arith,
        v stale,
        sweep-on_token token (λ op. same_token op.handle t) Virtual.closed_completion b.pending,
      )
  | inl current ↦ elim (Bool-cases (same_token token t)) [
    | inr other ↦ cc (close-keeps b t token current other)
    | inl same ↦
        unfold Virtual.close_handle Registry.close is_current_handle in
        ground (arith, sweep-on_token_same token t Virtual.closed_completion b.pending same)
  ]
]

ready-IsHeld :
    (token t : HandleToken) (kind : OperationKind) (b : VirtualBackend)
    → IsHeld token b
    → IsHeld token (Virtual.complete_ready b t kind).0
unfolding Virtual.complete_ready is_current_handle
ready-IsHeld token t kind b v c = ground (
  arith,
  v,
  sweep-on_token token (λ op. same_token op.handle t && is_readied kind op) (ok tt) b.pending,
)

register-IsHeld :
    (token : HandleToken) (h : ℕ) (b : VirtualBackend)
    → IsHeld token b
    → IsHeld token (Virtual.register_handle b h).0
register-IsHeld token h b v c = elim (Bool-cases (is_current_handle b token)) [
  | inr stale ↦ unfold Virtual.register_handle in ground (arith, v stale)
  | inl current ↦ cc (register-keeps b h token current)
]

log_submit-backend :
    (s : Session) (id : ℕ) (p : VirtualBackend × VoidResult) → (log_submit s id p).backend ≡ p.0
log_submit-backend s id (b, ok _) = refl
log_submit-backend s id (b, err _) = refl

step-IsHeld :
    (token : HandleToken) (s : Session) (c : BackendCall)
    → IsHeld token s.backend
    → IsHeld token (step s c).backend
unfolding step
step-IsHeld token s (registers h) v = register-IsHeld token h s.backend v
step-IsHeld token s (submits op) v =
    rw (log_submit-backend s op.id (Virtual.submit s.backend op))
      (submit-IsHeld token s.backend op v)
step-IsHeld token s (cancels i) v =
    unfold Virtual.cancel is_current_handle in λ c. ground (arith, v)
step-IsHeld token s (closes t) v = close-IsHeld token t s.backend v
step-IsHeld token s (readies t kind) v = ready-IsHeld token t kind s.backend v
step-IsHeld token s (drains room) v =
    unfold Virtual.drain_completions is_current_handle in λ c. ground (arith, v)
step-IsHeld token s wakes v = unfold Virtual.wake is_current_handle in λ c. ground (arith, v)
step-IsHeld token s shuts_down v =
    unfold Virtual.shutdown is_current_handle in λ c. ground (arith, v)

run-IsHeld :
    (token : HandleToken) (s : Session) (cs : List BackendCall)
    → IsHeld token s.backend
    → IsHeld token (run s cs).backend
unfolding run
run-IsHeld token s [] v = v
run-IsHeld token s (c ∷ cs) v = run-IsHeld token (step s c) cs (step-IsHeld token s c v)

-- After any calls on a new backend, no operation is pending on a token that is not current: what is
-- closed or was never opened holds no operation back.
pub pending_on_current :
    (token : HandleToken) (cs : List BackendCall)
    → is_current_handle (run start cs).backend token ≡ false
    → on_token token (run start cs).backend.pending ≡ 0
unfolding Virtual.new
pending_on_current token cs = run-IsHeld token start cs (λ c. refl)
