-- ===== src/BlockingExecutor/Tests.antt =====
-- Two workers, three pieces of work, of which one is refused, and a shutdown.
use vio.Prelude.{ℕ, ◌≡◌, refl, false, List, [], ◌∷◌, count}
use vio.BlockingExecutor.{submit, request_shutdown, begin_join, end_join}
use vio.BlockingExecutor.Joined.{
  Event, submits, wakes, finishes, begins_join, shuts_down, ends_join, step, run, start,
  joined_all_finished,
}

abbrev events : List Event
events =
    submits 4
    ∷ submits 5
    ∷ wakes 1
    ∷ submits 6
    ∷ shuts_down
    ∷ begins_join false
    ∷ ends_join
    ∷ wakes 0
    ∷ finishes 0
    ∷ wakes 0
    ∷ finishes 0
    ∷ finishes 1
    ∷ wakes 1
    ∷ wakes 0
    ∷ ends_join
    ∷ []

finished_order : (run (start 2 1) events).finished ≡ 6 ∷ 4 ∷ []
unfolding run step submit request_shutdown begin_join end_join
finished_order = refl

joined_all_finished_example :
    ((run (start 2 1) events).state.queue ≡ [])
    × ((work : ℕ)
        → count work (run (start 2 1) events).finished
          ≡ count work (run (start 2 1) events).accepted)
unfolding run step submit request_shutdown begin_join end_join
joined_all_finished_example = joined_all_finished 2 1 events refl
