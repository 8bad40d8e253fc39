-- ===== src/Registry/Tests.antt =====
-- A handle that is opened, closed and opened again.
use vio.Prelude.{◌≡◌, refl, false, [], ◌∷◌, arith}
use vio.Registry.{NativeHandleToken, Registry, empty, register_handle, close, is_current}
use vio.Registry.Stale.{registers, run, closed_stays_stale}

abbrev opened : Registry
opened = (register_handle empty 5).0

abbrev first : NativeHandleToken
first = record { id = 5; generation = 1 }

closed_stays_stale_example :
    is_current (run (close opened first).0 (registers 5 ∷ registers 6 ∷ [])) first ≡ false
closed_stays_stale_example =
    closed_stays_stale opened first (registers 5 ∷ registers 6 ∷ [])
      (unfold register_handle empty close in refl) (omega arith)
