-- ===== src/Scheduler/Sharding.antt =====
-- internal/scheduler/sharding.go, with `CalculateShard` of pkg/util/util.go.
pub mod Bounds
pub mod Partition
mod Tests
use smart_scanner.Common.{
  ℕ, zero, suc, ◌+◌, ◌-◌, ◌*◌, ◌/◌, ◌%◌, String, Bool, true, false, List, [], ◌∷◌, ltb, leb,
  if◌then◌else◌, add64, sub64, mul64, Outcome, ok, err, str_eq,
}

-- A Go `int`: `negsuc n` is -(n + 1).
pub data ℤ : Type 0 where
  pos : ℕ → ℤ
  negsuc : ℕ → ℤ

pub record ShardingConfig : Type 0 where
  pub enabled : Bool
  pub shard_count : ℤ
  pub strategy : String

-- `shardCount` is positive in every manager that the constructor returns.
pub record ShardingManager : Type 0 where
  pub chain_id : String
  pub shard_count : ℕ
  pub strategy : String

pub data ShardingError : Type 0 where
  not_enabled count_not_positive : ShardingError

new_with_count : String → String → ℤ → Outcome ShardingError ShardingManager
new_with_count chain_id strategy (pos zero) = err count_not_positive
new_with_count chain_id strategy (negsuc n) = err count_not_positive
new_with_count chain_id strategy (pos (suc n)) =
    ok (record { chain_id = chain_id; shard_count = suc n; strategy = strategy })

pub new_sharding_manager : String → ShardingConfig → Outcome ShardingError ShardingManager
unfolding new_with_count
new_sharding_manager chain_id c =
    if c.enabled then new_with_count chain_id c.strategy c.shard_count else err not_enabled

-- `util.CalculateShard`.
pub calculate_shard_of : ℕ → ℕ → ℕ
calculate_shard_of value shard_count = value % shard_count

unfoldable pub calculate_shard : ShardingManager → ℕ → ℕ
unfolding calculate_shard_of
calculate_shard m block_number =
    if str_eq m.strategy "block_number"
    then calculate_shard_of block_number m.shard_count
    else if str_eq m.strategy "address"
    then 0
    else calculate_shard_of block_number m.shard_count

shard_start : (id start per remainder : ℕ) → ℕ
shard_start id start per remainder =
    let base = add64 start (mul64 id per) in
    if ltb id remainder then add64 base id else add64 base remainder

shard_end : (id first per remainder last : ℕ) → ℕ
shard_end id first per remainder last =
    let e = sub64 (add64 first per) 1 in
    let e' = if ltb id remainder then add64 e 1 else e in if ltb last e' then last else e'

-- The first and the last block of shard `id`.
pub shard_range : ℕ → (id start last : ℕ) → ℕ × ℕ
unfolding shard_start shard_end
shard_range count id start last =
    if leb count id
    then (0, 0)
    else (let total = add64 (sub64 last start) 1 in
        let per = total / count in
        let remainder = total % count in
        let first = shard_start id start per remainder in
        (first, shard_end id first per remainder last))

pub get_shard_range : ShardingManager → ℤ → ℕ → ℕ → ℕ × ℕ
get_shard_range m (negsuc n) start last = (0, 0)
get_shard_range m (pos id) start last = shard_range m.shard_count id start last

pub record ShardRange : Type 0 where
  pub shard_id : ℕ
  pub start_block : ℕ
  pub end_block : ℕ

-- The loop over the shards from `id` on, `left` of them to go.
ranges_from : ShardingManager → (id left start last : ℕ) → List ShardRange
unfolding get_shard_range
ranges_from m id zero start last = []
ranges_from m id (suc left) start last =
    let (first, end) = get_shard_range m (pos id) start last in
    record { shard_id = id; start_block = first; end_block = end }
    ∷ ranges_from m (suc id) left start last

pub get_all_shard_ranges : ShardingManager → ℕ → ℕ → List ShardRange
unfolding ranges_from
get_all_shard_ranges m start last = ranges_from m 0 m.shard_count start last
