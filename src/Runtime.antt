-- ===== src/Runtime.antt =====
-- include/voris/io/runtime_options.hpp, src/runtime_options.cpp, include/voris/io/runtime.hpp,
-- src/runtime.cpp: the options of a runtime, the shards that it makes, starts and stops, and the
-- processors that they ask for. `W` is what a shard runs.
pub mod Affinity
mod Tests
use vio.Prelude.{
  ℕ, zero, suc, List, [], ◌∷◌, length, ◌+◌, ◌-◌, ◌%◌, Bool, true, false, ◌||◌, Option, none, some,
  size_max, size_mod, leb, ltb, ◌==◌, if◌then◌else◌,
}
use vio.Error.{Result, VoidResult, ok, err, make_error, invalid_state}
use vio.Prelude.Int.{ℤ}
use vio.LoopBudget
use vio.LoopBudget.{LoopBudget}
use vio.Shard
use vio.Shard.{Shard}

pub record RuntimeOptions : Type 0 where
  pub shard_count : ℕ
  pub queue_limit : ℕ
  pub cpu_affinity_start : Option ℕ
  pub scheduler_budget : LoopBudget
  pub long_task_threshold : ℤ

-- Whether the last processor that the shards ask for is past the largest number.
abbrev pub affinity_overflows : RuntimeOptions → Bool
affinity_overflows o = elim o.cpu_affinity_start [
  | none ↦ false
  | some start ↦ ltb (size_max - start) (o.shard_count - 1)
]

unfoldable pub validate : RuntimeOptions → VoidResult
validate o =
    if o.shard_count == 0 || o.queue_limit == 0
    then err (make_error invalid_state "runtime options require non-zero limits")
    else if affinity_overflows o
    then err (make_error invalid_state "runtime CPU affinity request range overflows")
    else elim (LoopBudget.validate o.scheduler_budget) [ ok _ ↦ ok tt | err e ↦ err e ]

pub record Runtime (W : Type 0) : Type 0 where
  pub options : RuntimeOptions
  pub shards : List (Shard W)

module _ {W : Type 0} where
  -- The loop of the constructor.
  unfoldable pub make_shards : ℕ → RuntimeOptions → List (Shard W)
  make_shards zero o = []
  make_shards (suc n) o =
      Shard.new o.queue_limit o.scheduler_budget o.long_task_threshold ∷ make_shards n o

  unfoldable pub create : RuntimeOptions → Result (Runtime W)
  create o = elim (validate o) [
    | ok _ ↦ ok (record { options = o; shards = make_shards o.shard_count o })
    | err e ↦ err e
  ]

  abbrev for_each : (Shard W → Shard W) → List (Shard W) → List (Shard W)
  for_each f [] = []
  for_each f (shard ∷ shards) = f shard ∷ for_each f shards

  abbrev pub start : Runtime W → Runtime W
  start r = record r { shards = for_each (λ shard. (Shard.start shard).0) r.shards }

  abbrev pub request_stop : Runtime W → Runtime W
  request_stop r = record r { shards = for_each Shard.request_stop r.shards }

  abbrev pub join : Runtime W → Runtime W
  join r = record r { shards = for_each Shard.join r.shards }

  abbrev pub shard_count : Runtime W → ℕ
  shard_count r = length r.shards

  -- The outer `none` is the exception of `at`.
  unfoldable pub requested_shard_cpu_affinity : Runtime W → ℕ → Option (Option ℕ)
  requested_shard_cpu_affinity r index =
      if leb (shard_count r) index then none else elim r.options.cpu_affinity_start [
        | none ↦ some none
        | some start ↦ some (some ((start + index) % size_mod))
      ]
