-- ===== src/Prelude/Words.antt =====
-- `std::size_t` and `std::uint64_t`: numbers below 2 ^ 64, whose increment wraps.
use Prim.Native.Nat.{ℕ, ◌+◌, ◌%◌}

abbrev pub size_mod : ℕ
size_mod = 18446744073709551616

abbrev pub size_max : ℕ
size_max = 18446744073709551615

-- `++n` and `--n`.
abbrev pub inc : ℕ → ℕ
inc n = (n + 1) % size_mod

abbrev pub dec : ℕ → ℕ
dec n = (n + size_max) % size_mod
