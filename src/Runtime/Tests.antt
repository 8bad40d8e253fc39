-- ===== src/Runtime/Tests.antt =====
-- Four shards from the processor 2 on.
use vio.Prelude.{◌≡◌, refl, ℕ, some, arith}
use vio.Prelude.Int.{pos}
use vio.LoopBudget
use vio.Runtime.{
  RuntimeOptions, Runtime, make_shards, validate, create, requested_shard_cpu_affinity,
}
use vio.Runtime.Affinity.{requested_affinity_in_range}

abbrev options : RuntimeOptions
options = record {
  shard_count = 4;
  queue_limit = 1024;
  cpu_affinity_start = some 2;
  scheduler_budget = record { task_budget = 1; completion_budget = 1; timer_budget = 1 };
  long_task_threshold = pos 9;
}

abbrev four : Runtime ℕ
four = record { options = options; shards = make_shards 4 options }

requested_affinity_in_range_example : requested_shard_cpu_affinity four 3 ≡ some (some 5)
unfolding create validate LoopBudget.validate
requested_affinity_in_range_example =
    requested_affinity_in_range options four 2 3 refl refl (omega arith)
