-- ===== src/Backend/ExactlyOnce.antt =====
-- Every accepted operation completes exactly once.
use vio.Prelude.{
  ℕ, zero, suc, ◌+◌, ◌≤◌, ◌≡◌, ◌⊎◌, refl, Bool, false, ◌&&◌, ◌<◌, List, [], ◌∷◌, ◌++◌, count,
  count-append, contains-count, count-erase, erase, length, ◌==◌, if◌then◌else◌, arith,
}
use vio.Error.{VoidResult, ok}
use vio.Backend.Operation.{
  Operation, OperationKind, HandleToken, Completion, same_token, is_readied,
}
use vio.Backend.Virtual
use vio.Backend.Virtual.{VirtualBackend, sweep, close_all, drain_loop}
use vio.Backend.Session.{
  Session, BackendCall, registers, submits, cancels, closes, readies, drains, wakes, shuts_down,
  start, step, run,
}

-- How often an identifier stands among operations, and among completions.
abbrev pub among : ℕ → List Operation → ℕ
among id [] = 0
among id (op ∷ ops) = (if op.id == id then 1 else 0) + among id ops

abbrev pub completed : ℕ → List Completion → ℕ
completed id [] = 0
completed id (c ∷ cs) = (if c.operation_id == id then 1 else 0) + completed id cs

pub among-append :
    (id : ℕ) (xs ys : List Operation) → among id (xs ++ ys) ≡ among id xs + among id ys
among-append id [] ys = omega arith
among-append id (x ∷ xs) ys = omega (arith, among-append id xs ys)

pub completed-append :
    (id : ℕ) (xs ys : List Completion) → completed id (xs ++ ys) ≡ completed id xs + completed id ys
completed-append id [] ys = omega arith
completed-append id (x ∷ xs) ys = omega (arith, completed-append id xs ys)

-- A sweep moves each operation into one of its two results.
sweep-counts :
    (id : ℕ) (test : Operation → Bool) (r : VoidResult) (ops : List Operation)
    → among id (sweep test r ops).0 + completed id (sweep test r ops).1 ≡ among id ops
unfolding sweep
sweep-counts id test r [] = omega arith
sweep-counts id test r (op ∷ ops) = ground (arith, sweep-counts id test r ops)

pub close_all-counts : (id : ℕ) (ops : List Operation) → completed id (close_all ops) ≡ among id ops
unfolding close_all
close_all-counts id [] = refl
close_all-counts id (op ∷ ops) = omega (arith, close_all-counts id ops)

-- Of one identifier: it is active as long as it is pending or completed and not yet drained, and
-- then once; and each acceptance is one of these or was delivered.
-- A stopped backend has nothing pending.
pub record IsOnce (id : ℕ) (s : Session) : Type 0 where
  pub tracked :
      count id s.backend.active_operation_ids
      ≡ among id s.backend.pending + completed id s.backend.completions
  pub single : count id s.backend.active_operation_ids ≤ 1
  pub conserved :
      count id s.accepted
      ≡ completed id s.delivered + completed id s.backend.completions + among id s.backend.pending
  pub quiet : (s.backend.stopped ≡ false) ⊎ (among id s.backend.pending ≡ 0)

pub drain_loop-counts :
    (id p room : ℕ) (cs : List Completion) (active : List ℕ)
    → let (out, rest, active') = drain_loop room cs active in
      count id active ≡ p + completed id cs
      → count id active ≤ 1
      → (count id active' ≡ p + completed id rest)
        × (completed id out + completed id rest ≡ completed id cs)
unfolding drain_loop
drain_loop-counts id p zero cs active t h = (t, omega arith)
drain_loop-counts id p (suc room) [] active t h = (t, omega arith)
drain_loop-counts id p (suc room) (c ∷ cs) active t h = ground (
  arith,
  count-erase id c.operation_id active,
  drain_loop-counts id p room cs (erase c.operation_id active),
)

submit-IsOnce :
    (id : ℕ) (s : Session) (op : Operation) → IsOnce id s → IsOnce id (step s (submits op))
unfolding step Virtual.submit
submit-IsOnce id s op v = ground (
  arith,
  contains-count op.id s.backend.active_operation_ids,
  among-append id s.backend.pending (op ∷ []),
  count-append id s.accepted (op.id ∷ []),
)

close-IsOnce :
    (id : ℕ) (s : Session) (token : HandleToken) → IsOnce id s → IsOnce id (step s (closes token))
unfolding step Virtual.close_handle
close-IsOnce id s token v = ground (
  arith,
  sweep-counts id (λ op. same_token op.handle token) Virtual.closed_completion s.backend.pending,
  completed-append id s.backend.completions
      (sweep (λ op. same_token op.handle token) Virtual.closed_completion s.backend.pending).1,
)

ready-IsOnce :
    (id : ℕ) (s : Session) (token : HandleToken) (kind : OperationKind)
    → IsOnce id s
    → IsOnce id (step s (readies token kind))
unfolding step Virtual.complete_ready
ready-IsOnce id s token kind v =
    let test = λ (op : Operation). same_token op.handle token && is_readied kind op in
    ground (
      arith,
      sweep-counts id test (ok tt) s.backend.pending,
      completed-append id s.backend.completions (sweep test (ok tt) s.backend.pending).1,
    )

drain-IsOnce : (id : ℕ) (s : Session) (room : ℕ) → IsOnce id s → IsOnce id (step s (drains room))
unfolding step Virtual.drain_completions
drain-IsOnce id s room v = ground (
  arith,
  drain_loop-counts id (among id s.backend.pending) room s.backend.completions
      s.backend.active_operation_ids,
  completed-append id s.delivered
      (drain_loop room s.backend.completions s.backend.active_operation_ids).0,
)

shutdown-IsOnce : (id : ℕ) (s : Session) → IsOnce id s → IsOnce id (step s shuts_down)
unfolding step Virtual.shutdown
shutdown-IsOnce id s v = ground (
  arith,
  close_all-counts id s.backend.pending,
  completed-append id s.backend.completions (close_all s.backend.pending),
)

step-IsOnce : (id : ℕ) (s : Session) (c : BackendCall) → IsOnce id s → IsOnce id (step s c)
unfolding step
step-IsOnce id s (registers h) v = unfold Virtual.register_handle in ground arith
step-IsOnce id s (submits op) v = submit-IsOnce id s op v
step-IsOnce id s (cancels i) v = unfold Virtual.cancel in ground arith
step-IsOnce id s (closes token) v = close-IsOnce id s token v
step-IsOnce id s (readies token kind) v = ready-IsOnce id s token kind v
step-IsOnce id s (drains room) v = drain-IsOnce id s room v
step-IsOnce id s wakes v = unfold Virtual.wake in ground arith
step-IsOnce id s shuts_down v = shutdown-IsOnce id s v

run-IsOnce : (id : ℕ) (s : Session) (cs : List BackendCall) → IsOnce id s → IsOnce id (run s cs)
unfolding run
run-IsOnce id s [] v = v
run-IsOnce id s (c ∷ cs) v = run-IsOnce id (step s c) cs (step-IsOnce id s c v)

-- After any calls on a new backend, of every identifier: it is active exactly while it is pending or
-- completed and not drained, and then once; and its acceptances are as many as its delivered, queued
-- and still pending completions together, so that none is lost or doubled.
pub run-start-IsOnce : (id : ℕ) (cs : List BackendCall) → IsOnce id (run start cs)
unfolding Virtual.new
run-start-IsOnce id cs = run-IsOnce id start cs (ground arith)

drain_loop-all :
    (id room : ℕ) (cs : List Completion) (active : List ℕ)
    → length cs ≤ room
    → completed id (drain_loop room cs active).0 ≡ completed id cs
unfolding drain_loop
drain_loop-all id zero [] active h = refl
drain_loop-all id zero (c ∷ cs) active h = absurd (omega arith)
drain_loop-all id (suc room) [] active h = refl
drain_loop-all id (suc room) (c ∷ cs) active h =
    omega (arith, drain_loop-all id room cs (erase c.operation_id active) (omega arith))

shutdown_empties :
    (id : ℕ) (s : Session) → IsOnce id s → among id (step s shuts_down).backend.pending ≡ 0
unfolding step Virtual.shutdown
shutdown_empties id s v = ground arith

drain_delivers_all :
    (id room : ℕ) (s : Session)
    → length s.backend.completions ≤ room
    → 0 < room
    → completed id (step s (drains room)).delivered
      ≡ completed id s.delivered + completed id s.backend.completions
unfolding step Virtual.drain_completions
drain_delivers_all id room s h p = ground (
  arith,
  drain_loop-all id room s.backend.completions s.backend.active_operation_ids,
  completed-append id s.delivered
      (drain_loop room s.backend.completions s.backend.active_operation_ids).0,
)

-- After any calls on a new backend, a shutdown and a drain with room for all the completions have
-- delivered exactly one completion for each accepted operation.
pub shutdown_delivers_all :
    (id room : ℕ) (cs : List BackendCall)
    → let s = step (run start cs) shuts_down in
      length s.backend.completions ≤ room
      → 0 < room
      → completed id (step s (drains room)).delivered ≡ count id s.accepted
shutdown_delivers_all id room cs h p =
    let s = step (run start cs) shuts_down in
    let v : IsOnce id s = shutdown-IsOnce id (run start cs) (run-start-IsOnce id cs) in
    omega (
      arith,
      v.conserved,
      shutdown_empties id (run start cs) (run-start-IsOnce id cs),
      drain_delivers_all id room s h p,
    )
