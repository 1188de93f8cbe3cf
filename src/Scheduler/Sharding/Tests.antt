-- ===== src/Scheduler/Sharding/Tests.antt =====
-- Runs of the sharding manager at concrete inputs.
use mathlib.Core.List.{flat_map}
use smart_scanner.Common.{ℕ, ◌≡◌, refl, arith, range_from, ◌<◌, ◌+◌}
use smart_scanner.Scheduler.Sharding.{
  ShardingManager, get_shard_range, shard_range, get_all_shard_ranges,
}
use smart_scanner.Scheduler.Sharding.Bounds.{shard_range-boundary}
use smart_scanner.Scheduler.Sharding.Partition.{
  InShard, shard_owner, all_shard_blocks, shard_blocks,
}

-- Ten blocks over three shards, and two blocks over three.
abbrev three_shards : ShardingManager
three_shards = record { chain_id = "1"; shard_count = 3; strategy = "block_number" }

shard_range_ten : shard_range 3 0 100 109 ≡ (100, 103)
unfolding shard_range
shard_range_ten = refl

shard_range_short : shard_range 3 2 100 101 ≡ (102, 101)
unfolding shard_range
shard_range_short = refl

shard_range-boundary_example :
    ((shard_range 3 1 100 109).0 ≡ 104) × ((shard_range 3 1 100 109).1 + 1 ≡ 107)
shard_range-boundary_example =
    shard_range-boundary 3 100 109 1 (omega arith) (omega arith) (omega arith)

shard_owner_example : (id : ℕ) × (id < 3) × InShard three_shards 100 109 id 105
shard_owner_example =
    shard_owner three_shards 100 109 (omega arith) (omega arith) (omega arith) 105 (omega arith)
      (omega arith)

in_second : InShard three_shards 100 109 1 105
unfolding get_shard_range shard_range
in_second = omega arith

all_shard_blocks_example :
    flat_map shard_blocks (get_all_shard_ranges three_shards 100 109) ≡ range_from 100 10
all_shard_blocks_example =
    all_shard_blocks three_shards 100 109 (omega arith) (omega arith) (omega arith)
