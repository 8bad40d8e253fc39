-- ===== src/LoopBudget/Consume.antt =====
-- What a slice grants over many requests.
use vio.Prelude.{ℕ, ◌+◌, ◌≡◌, Bool, true, false, ◌&&◌, List, [], ◌∷◌, if◌then◌else◌, min, arith}
use vio.LoopBudget.{
  LoopBudgetSlice, consume_task, consume_completion, consume_timer, remaining_tasks,
  remaining_completions, remaining_timers,
}

-- What a loop asks a slice for.
pub data Work : Type 0 where
  task completion timer : Work

pub consume_work : LoopBudgetSlice → Work → LoopBudgetSlice × Bool
consume_work s task = consume_task s
consume_work s completion = consume_completion s
consume_work s timer = consume_timer s

pub remaining_work : LoopBudgetSlice → Work → ℕ
remaining_work s task = remaining_tasks s
remaining_work s completion = remaining_completions s
remaining_work s timer = remaining_timers s

same_work : Work → Work → Bool
same_work task task = true
same_work completion completion = true
same_work timer timer = true
same_work _ _ = false

-- How many of the requests of the kind `w` the slice grants.
pub grants : Work → LoopBudgetSlice → List Work → ℕ
unfolding same_work
grants w s [] = 0
grants w s (v ∷ vs) =
    let (s', granted) = consume_work s v in
    (if granted && same_work v w then 1 else 0) + grants w s' vs

-- How many requests of the kind `w` there are.
pub asked : Work → List Work → ℕ
unfolding same_work
asked w [] = 0
asked w (v ∷ vs) = (if same_work v w then 1 else 0) + asked w vs

-- One request takes one unit of its kind, if there is one, and none of another kind.
consume_work_lem :
    (s : LoopBudgetSlice) (v w : Work) (later n : ℕ)
    → n ≡ min later (remaining_work (consume_work s v).0 w)
    → (if (consume_work s v).1 && same_work v w then 1 else 0) + n
      ≡ min ((if same_work v w then 1 else 0) + later) (remaining_work s w)
unfolding consume_work remaining_work same_work consume_task consume_completion consume_timer
    remaining_tasks remaining_completions remaining_timers
consume_work_lem s v w later n e = ground arith

-- Of any requests in any order, a slice grants of each kind as many as were asked, up to what
-- remained of that kind.
pub grants-eq-min :
    (w : Work) (s : LoopBudgetSlice) (vs : List Work)
    → grants w s vs ≡ min (asked w vs) (remaining_work s w)
unfolding grants asked
grants-eq-min w s [] = omega arith
grants-eq-min w s (v ∷ vs) =
    consume_work_lem s v w (asked w vs) _ (grants-eq-min w (consume_work s v).0 vs)
