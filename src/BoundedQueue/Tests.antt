-- ===== src/BoundedQueue/Tests.antt =====
-- A queue of two places, filled, refused and popped.
use vio.Prelude.{ℕ, ◌≡◌, refl, List, [], ◌∷◌}
use vio.BoundedQueue.{new, try_push, pop}
use vio.BoundedQueue.Fifo.{QueueCall, pushes, pops, History, step, run, IsFifo, run-IsFifo}

abbrev fresh : History ℕ
fresh = record { queue = new 2; accepted = []; taken = [] }

abbrev traffic : List (QueueCall ℕ)
traffic = pushes 7 ∷ pushes 8 ∷ pushes 9 ∷ pops ∷ pushes 10 ∷ pops ∷ []

traffic_taken : (run fresh traffic).taken ≡ 7 ∷ 8 ∷ []
unfolding run step new try_push pop
traffic_taken = refl

run-IsFifo_example : IsFifo (run fresh traffic)
unfolding new
run-IsFifo_example = run-IsFifo fresh traffic refl
