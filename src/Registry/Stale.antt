-- ===== src/Registry/Stale.antt =====
-- A token that was closed stays stale.
use vio.Prelude.{
  ℕ, suc, ◌+◌, ◌≤◌, ◌<◌, ◌≡◌, false, List, [], ◌∷◌, length, size_mod, arith, ◌⊎◌, inl, inr,
  Bool-cases, inc, ◌==◌, if◌then◌else◌,
}
use vio.Error.{ok, has_value}
use vio.Registry.{NativeHandleToken, Registry, register_handle, close, is_current, generation}

pub data RegistryCall : Type 0 where
  registers : ℕ → RegistryCall
  closes : NativeHandleToken → RegistryCall

pub step : Registry → RegistryCall → Registry
step r (registers h) = (register_handle r h).0
step r (closes token) = (close r token).0

pub run : Registry → List RegistryCall → Registry
run r [] = r
run r (c ∷ cs) = run (step r c) cs

-- The handle's generation has reached the token's, and at that generation the handle is closed.
pub record IsSpent (room : ℕ) (token : NativeHandleToken) (r : Registry) : Type 0 where
  pub reached : token.generation ≤ generation r token.id
  pub apart : is_current r token ≡ false
  pub roomy : generation r token.id + room < size_mod

close-IsSpent :
    (room : ℕ) (r : Registry) (token : NativeHandleToken)
    → (close r token).1 ≡ ok tt
    → token.generation + room < size_mod
    → IsSpent room token (close r token).0
unfolding close generation is_current
close-IsSpent room r token e h = ground arith

step-IsSpent :
    (room : ℕ) (r : Registry) (token : NativeHandleToken) (c : RegistryCall)
    → IsSpent (suc room) token r
    → IsSpent room token (step r c)
unfolding step register_handle close generation is_current
step-IsSpent room r token (registers h) s = ground arith
step-IsSpent room r token (closes t) s = ground arith

run-IsSpent :
    (r : Registry) (token : NativeHandleToken) (cs : List RegistryCall)
    → IsSpent (length cs) token r
    → IsSpent 0 token (run r cs)
unfolding run
run-IsSpent r token [] s = s
run-IsSpent r token (c ∷ cs) s =
    run-IsSpent (step r c) token cs (step-IsSpent (length cs) r token c s)

-- Once a token has been closed, no later calls make it current again, whatever handles they open and
-- close, as long as the generation counter cannot have wrapped: fewer than 2 ^ 64 generations.
pub closed_stays_stale :
    (r : Registry) (token : NativeHandleToken) (cs : List RegistryCall)
    → (close r token).1 ≡ ok tt
    → token.generation + length cs < size_mod
    → is_current (run (close r token).0 cs) token ≡ false
closed_stays_stale r token cs e h =
    (run-IsSpent (close r token).0 token cs (close-IsSpent (length cs) r token e h)).apart

-- Registering a handle that is not 0 and not open makes its next generation the one current token of
-- the handle, which it answers with; the tokens of other handles stay as they were, and a refusal
-- changes no token at all.
pub register_handle-is_current :
    (r : Registry) (h : ℕ) (other : NativeHandleToken)
    → let (r', result) = register_handle r h in
      ((result ≡ ok (record { id = h; generation = inc (generation r h) }))
        × (is_current r' other ≡ (
            if h == other.id
            then inc (generation r h) == other.generation
            else is_current r other)))
      ⊎ ((has_value result ≡ false) × (is_current r' other ≡ is_current r other))
unfolding register_handle is_current generation
register_handle-is_current r h other = elim (Bool-cases (has_value (register_handle r h).1)) [
  | inl e ↦ inl (ground arith, ground arith)
  | inr e ↦ inr (e, ground arith)
]
