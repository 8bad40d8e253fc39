-- ===== src/Runtime/Affinity.antt =====
-- The processors that the shards of a runtime ask for.
use vio.Prelude.{
  ℕ, zero, suc, length, refl, ap, ◌+◌, ◌≤◌, ◌≡◌, none, some, size_max, ltb, if◌then◌else◌, arith,
}
use vio.Error.{ok}
use vio.Runtime.{
  RuntimeOptions, Runtime, validate, make_shards, create, requested_shard_cpu_affinity,
}

length-make_shards :
    (W : Type 0) (n : ℕ) (o : RuntimeOptions) → length (make_shards {W = W} n o) ≡ n
unfolding make_shards
length-make_shards W zero o = refl
length-make_shards W (suc n) o = ap suc (length-make_shards W n o)

-- A runtime that was created from options with a first processor: each shard asks for the processor
-- that is its index above the first one, which no counter's limit wraps round; an index that no shard
-- has is an exception.
pub requested_affinity_in_range :
    {W : Type 0} (o : RuntimeOptions) (r : Runtime W) (start index : ℕ)
    → create o ≡ ok r
    → o.cpu_affinity_start ≡ some start
    → start ≤ size_max
    → requested_shard_cpu_affinity r index
      ≡ (if ltb index o.shard_count then some (some (start + index)) else none)
unfolding create validate requested_shard_cpu_affinity
requested_affinity_in_range {W} o r start index e a small =
    ground (arith, length-make_shards W o.shard_count o)
