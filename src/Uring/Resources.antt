-- ===== src/Uring/Resources.antt =====
-- The registered buffers and files of the io_uring backend. What the kernel answers to a registration is
-- an argument.
use Prim.Native.String.{String}
use vio.Prelude.{
  ℕ, suc, Bool, false, not, ◌||◌, Option, none, some, List, [], ◌∷◌, ◌++◌, length, ltb, ◌==◌,
  if◌then◌else◌, is_empty,
}
use vio.Error.{Result, VoidResult, ok, err, make_error, closed, unsupported}
use vio.Backend.Operation.{HandleToken, same_token}
use vio.Backend.Virtual
use vio.Backend.Virtual.{VirtualBackend, drain_loop}
use vio.Readiness.{SysResult, success, failed, provider_failure}
use vio.Uring.{invalid_state_error}
use vio.Uring.Backend.{UringBackend, Provider}
use vio.Uring.Backend.{ensure_ring}
use vio.Uring.{u32_max, native_handle_as_fd}

abbrev pub files_diagnostic : String
files_diagnostic = "io_uring file unregister requires an active ring"

abbrev pub buffers_diagnostic : String
buffers_diagnostic = "io_uring buffer unregister requires an active ring"

unfoldable pub contains_token : HandleToken → List HandleToken → Bool
contains_token token [] = false
contains_token token (t ∷ ts) = same_token t token || contains_token token ts

abbrev pub files_released : UringBackend × VoidResult → UringBackend × VoidResult
files_released (b, err e) = (b, err e)
files_released (b, ok _) = (record b { registered_files = [] }, ok tt)

abbrev pub call_result : SysResult → VoidResult
call_result success = ok tt
call_result (failed e) = err (provider_failure e)

-- The call that registers, from the ring on.
abbrev pub register_in_ring : SysResult → UringBackend × Result ℕ → UringBackend × VoidResult
register_in_ring answer (b, err e) = (b, err e)
register_in_ring answer (b, ok pending) = (b, call_result answer)

-- Some buffer is empty.
unfoldable pub has_empty : List ℕ → Bool
has_empty [] = false
has_empty (size ∷ sizes) = size == 0 || has_empty sizes

-- The loop over the tokens, with those that it has passed.
unfoldable pub check_files : UringBackend → List HandleToken → List HandleToken → VoidResult
check_files b candidates [] = ok tt
check_files b candidates (file ∷ files) =
    let rest = check_files b (candidates ++ file ∷ []) files in
    if not (Virtual.is_current_handle b.fallback file)
    then err (invalid_state_error "io_uring registered file token is not current")
    else elim (native_handle_as_fd file.native_handle) [
      | err e ↦ err e
      | ok _ ↦
          if contains_token file candidates
          then err (invalid_state_error "io_uring registered file tokens must be unique")
          else rest
    ]

abbrev pub set_buffers : List ℕ → UringBackend × VoidResult → UringBackend × VoidResult
set_buffers sizes (b, err e) = (b, err e)
set_buffers sizes (b, ok _) = (record b { registered_buffers = sizes }, ok tt)

abbrev pub set_files : List HandleToken → UringBackend × VoidResult → UringBackend × VoidResult
set_files files (b, err e) = (b, err e)
set_files files (b, ok _) = (record b { registered_files = files }, ok tt)

module _ (p : Provider) where
  -- The call that unregisters, of files or of buffers, with no kernel for tests, and the diagnostic where
  -- there is no ring.
  abbrev pub unregister_in_ring : UringBackend → String → Option ℕ → UringBackend × VoidResult
  unregister_in_ring b diagnostic none = (b, err (invalid_state_error diagnostic))
  unregister_in_ring b diagnostic (some _) = (
    record b { calls = record b.calls { unregistrations = suc b.calls.unregistrations } },
    call_result (p.unregister b.calls.unregistrations),
  )

  abbrev pub unregister_with_provider : UringBackend → String → UringBackend × VoidResult
  unregister_with_provider b diagnostic =
      if not b.options.enable_kernel_submission
      then (b, ok tt)
      else unregister_in_ring b diagnostic b.kernel_ring

  abbrev pub release_files : UringBackend → UringBackend × VoidResult
  release_files b =
      if is_empty b.registered_files
      then (b, ok tt)
      else files_released (unregister_with_provider b files_diagnostic)

  abbrev pub buffers_released : UringBackend × VoidResult → UringBackend × VoidResult
  buffers_released (b, err e) = (b, err e)
  buffers_released (b, ok _) = release_files (record b { registered_buffers = [] })

  abbrev pub release_registered_resources : UringBackend → UringBackend × VoidResult
  release_registered_resources b =
      if is_empty b.registered_buffers
      then release_files b
      else buffers_released (unregister_with_provider b buffers_diagnostic)

  abbrev pub release_registered_files_for : UringBackend → HandleToken → UringBackend × VoidResult
  release_registered_files_for b token =
      if not (contains_token token b.registered_files)
      then (b, ok tt)
      else files_released (unregister_with_provider b files_diagnostic)

  abbrev pub register_with_provider : UringBackend → SysResult → UringBackend × VoidResult
  register_with_provider b answer =
      if not b.options.enable_kernel_submission
      then (b, ok tt)
      else register_in_ring answer (ensure_ring p b b.kernel_ring)

  -- `register_buffers` with the buffers' sizes.
  unfoldable pub register_buffers : UringBackend → List ℕ → SysResult → UringBackend × VoidResult
  register_buffers b sizes answer =
      if b.closed
      then (b, err (make_error closed ""))
      else if is_empty sizes
      then (b, err (invalid_state_error "io_uring registered buffer list must not be empty"))
      else if not b.capabilities.available || not b.capabilities.supports_registered_buffers
      then (b, err (make_error unsupported "registered buffers unavailable"))
      else if not (is_empty b.registered_buffers)
      then (b, err (invalid_state_error "io_uring buffers are already registered"))
      else if ltb u32_max (length sizes)
      then (b, err (invalid_state_error "io_uring registered buffer count does not fit u32"))
      else if has_empty sizes
      then (
        b,
        err (invalid_state_error "io_uring registered buffers must reference non-empty storage"),
      )
      else set_buffers sizes (register_with_provider b answer)

  unfoldable pub unregister_buffers : UringBackend → UringBackend × VoidResult
  unregister_buffers b =
      if b.closed
      then (b, err (make_error closed ""))
      else if is_empty b.registered_buffers
      then (b, err (invalid_state_error "io_uring buffers are not registered"))
      else set_buffers [] (unregister_with_provider b buffers_diagnostic)

  abbrev pub register_checked :
      UringBackend → List HandleToken → SysResult → VoidResult → UringBackend × VoidResult
  register_checked b files answer (err e) = (b, err e)
  register_checked b files answer (ok _) = set_files files (register_with_provider b answer)

  unfoldable pub register_files :
      UringBackend → List HandleToken → SysResult → UringBackend × VoidResult
  register_files b files answer =
      if b.closed
      then (b, err (make_error closed ""))
      else if is_empty files
      then (b, err (invalid_state_error "io_uring registered file list must not be empty"))
      else if not b.capabilities.available || not b.capabilities.supports_registered_files
      then (b, err (make_error unsupported "registered files unavailable"))
      else if not (is_empty b.registered_files)
      then (b, err (invalid_state_error "io_uring files are already registered"))
      else if ltb u32_max (length files)
      then (b, err (invalid_state_error "io_uring registered file count does not fit u32"))
      else register_checked b files answer (check_files b [] files)

  unfoldable pub unregister_files : UringBackend → UringBackend × VoidResult
  unregister_files b =
      if b.closed
      then (b, err (make_error closed ""))
      else if is_empty b.registered_files
      then (b, err (invalid_state_error "io_uring files are not registered"))
      else set_files [] (unregister_with_provider b files_diagnostic)
