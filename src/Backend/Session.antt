-- ===== src/Backend/Session.antt =====
-- A backend through a sequence of calls, with what it accepted and what it handed out.
use vio.Prelude.{ℕ, List, [], ◌∷◌, ◌++◌}
use vio.Error.{Result, VoidResult, ok, err}
use vio.Backend.Operation.{Operation, OperationKind, HandleToken, Completion}
use vio.Backend.Virtual
use vio.Backend.Virtual.{VirtualBackend}

-- `readies` is what a platform backend does when the system reports readiness.
pub data BackendCall : Type 0 where
  registers : ℕ → BackendCall
  submits : Operation → BackendCall
  cancels : ℕ → BackendCall
  closes : HandleToken → BackendCall
  readies : HandleToken → OperationKind → BackendCall
  drains : ℕ → BackendCall
  wakes shuts_down : BackendCall

pub record Session : Type 0 where
  pub backend : VirtualBackend
  pub accepted : List ℕ
  pub delivered : List Completion

abbrev pub start : Session
start = record { backend = Virtual.new; accepted = []; delivered = [] }

abbrev pub log_submit : Session → ℕ → VirtualBackend × VoidResult → Session
log_submit s id (b, ok _) = record s { backend = b; accepted = s.accepted ++ id ∷ [] }
log_submit s id (b, err _) = record s { backend = b }

abbrev log_drain : Session → VirtualBackend × Result (List Completion) → Session
log_drain s (b, ok out) = record s { backend = b; delivered = s.delivered ++ out }
log_drain s (b, err _) = record s { backend = b }

unfoldable pub step : Session → BackendCall → Session
step s (registers h) = record s { backend = (Virtual.register_handle s.backend h).0 }
step s (submits op) = log_submit s op.id (Virtual.submit s.backend op)
step s (cancels id) = record s { backend = (Virtual.cancel s.backend id).0 }
step s (closes token) = record s { backend = (Virtual.close_handle s.backend token).0 }
step s (readies token kind) = record s { backend = (Virtual.complete_ready s.backend token kind).0 }
step s (drains room) = log_drain s (Virtual.drain_completions s.backend room)
step s wakes = record s { backend = (Virtual.wake s.backend).0 }
step s shuts_down = record s { backend = (Virtual.shutdown s.backend).0 }

unfoldable pub run : Session → List BackendCall → Session
run s [] = s
run s (c ∷ cs) = run (step s c) cs
