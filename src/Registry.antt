-- ===== src/Registry.antt =====
-- include/voris/io/detail/native_handle_registry.hpp and src/native_handle_registry.cpp: which
-- generation of a native handle is open. The map of entries is a function.
pub mod Stale
mod Tests
use vio.Prelude.{
  ℕ, inc, Bool, true, false, not, ◌&&◌, ◌||◌, Option, none, some, ◌==◌, if◌then◌else◌,
}
use vio.Error.{Result, VoidResult, ok, err, make_error, invalid_state}

pub record NativeHandleToken : Type 0 where
  pub id : ℕ
  pub generation : ℕ

pub record Entry : Type 0 where
  pub generation : ℕ
  pub open_now : Bool

pub record Registry : Type 0 where
  pub entries : ℕ → Option Entry

unfoldable pub empty : Registry
empty = record { entries = λ _. none }

-- `entries_[id]` makes an entry of the default value where there is none.
abbrev pub entry_or_new : Option Entry → Entry
entry_or_new none = record { generation = 0; open_now = false }
entry_or_new (some entry) = entry

abbrev pub put : Registry → ℕ → Entry → Registry
put r id entry = record { entries = λ j. if id == j then some entry else r.entries j }

unfoldable pub register_handle : Registry → ℕ → Registry × Result NativeHandleToken
register_handle r native_handle =
    let entry = entry_or_new (r.entries native_handle) in
    if native_handle == 0
    then (r, err (make_error invalid_state "native handle id must be non-zero"))
    else if entry.open_now
    then (
      put r native_handle entry,
      err (make_error invalid_state "native handle is already registered"),
    )
    else (
      put r native_handle (record { generation = inc entry.generation; open_now = true }),
      ok (record { id = native_handle; generation = inc entry.generation }),
    )

close_entry : Registry → NativeHandleToken → Option Entry → Registry × VoidResult
close_entry r token none = (r, err (make_error invalid_state "stale native handle token"))
close_entry r token (some entry) =
    if not (entry.generation == token.generation) || not entry.open_now
    then (r, err (make_error invalid_state "stale native handle token"))
    else (put r token.id (record entry { open_now = false }), ok tt)

unfoldable pub close : Registry → NativeHandleToken → Registry × VoidResult
unfolding close_entry
close r token = close_entry r token (r.entries token.id)

matches_entry : NativeHandleToken → Option Entry → Bool
matches_entry token none = false
matches_entry token (some entry) = entry.open_now && entry.generation == token.generation

unfoldable pub is_current : Registry → NativeHandleToken → Bool
unfolding matches_entry
is_current r token = matches_entry token (r.entries token.id)

unfoldable pub generation : Registry → ℕ → ℕ
generation r native_handle = (entry_or_new (r.entries native_handle)).generation
