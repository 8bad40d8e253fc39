-- ===== src/Cancellation/Tests.antt =====
-- Three callbacks, one of them unregistered, and two requests.
use vio.Prelude.{◌+◌, ◌≡◌, ◌≤◌, refl, true, false, some, List, [], ◌∷◌, ◌++◌, if◌then◌else◌}
use vio.Cancellation.{manual, deadline, new, register_callback}
use vio.Cancellation.Once.{
  CancellationCall, registers, unregisters, requests, start, step, run, calls, called_at_most_once,
  unregistered_never_called,
}

abbrev registered : List CancellationCall
registered = registers true ∷ registers true ∷ registers false ∷ registers true ∷ []

abbrev requested : List CancellationCall
requested = requests manual ∷ registers true ∷ requests deadline ∷ []

called_at_most_once_example :
    let s = run start (registered ++ requested) in
    calls 2 s.invoked + (if s.state.registered 2 then 1 else 0) ≤ 1
called_at_most_once_example = called_at_most_once 2 (registered ++ requested)

unregistered_never_called_example :
    calls 1 (run (step (run start registered) (unregisters (some 1))) requested).invoked ≡ 0
unregistered_never_called_example =
    unregistered_never_called 1 registered requested (unfold run step new register_callback in refl)
