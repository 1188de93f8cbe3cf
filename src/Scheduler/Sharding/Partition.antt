-- ===== src/Scheduler/Sharding/Partition.antt =====
-- The shards part the block range: each block falls to exactly one shard, and the ranges of
-- `GetAllShardRanges`, one after the other, list every block once.
use native.Mathlib.Nat.{mod-lt, add-zero, add-suc, suc-add, zero-add}
use mathlib.Core.Path.{ap₂}
use mathlib.Core.List.{flat_map}
use smart_scanner.Common.{
  String, ok, ℕ, zero, suc, ◌+◌, ◌-◌, ◌≤◌, ◌<◌, ◌≡◌, ◌∙◌, arith, List, ◌++◌, range_from,
  range_from-append, u64_mod, dec_lt, ap,
}
use smart_scanner.Scheduler.Sharding.{
  ℤ, negsuc, new_with_count, pos, ShardingManager, ShardingConfig, new_sharding_manager,
  calculate_shard, ShardRange, get_shard_range, ranges_from, get_all_shard_ranges,
}
use smart_scanner.Scheduler.Sharding.Bounds.{
  boundary, total_blocks, shard_range-boundary, total_parts,
}

boundary-suc :
    (count start last id : ℕ) → boundary count start last id ≤ boundary count start last (suc id)
boundary-suc count start last id = omega arith

boundary-add :
    (count start last id n : ℕ) → boundary count start last id ≤ boundary count start last (id + n)
boundary-add count start last id zero = rw add-zero (omega arith)
boundary-add count start last id (suc n) =
    rw (add-suc id n)
      (omega (arith, boundary-add count start last id n, boundary-suc count start last (id + n)))

boundary_mono :
    (count start last i j : ℕ) → i ≤ j → boundary count start last i ≤ boundary count start last j
boundary_mono count start last i j h =
    let e : i + (j - i) ≡ j = omega arith in rw e at (boundary-add count start last i (j - i))

boundary-zero : (count start last : ℕ) → boundary count start last 0 ≡ start
boundary-zero count start last = omega arith

boundary-count :
    (count start last : ℕ) → 0 < count → start ≤ last → boundary count start last count ≡ last + 1
boundary-count count start last h filled =
    omega (arith, total_parts count (total_blocks start last) h)

-- Block `b` lies in shard `id`.
abbrev pub InShard : ShardingManager → (start last id b : ℕ) → Type 0
InShard m start last id b =
    ((get_shard_range m (pos id) start last).0 ≤ b)
    × (b ≤ (get_shard_range m (pos id) start last).1)

-- A number between the first and the last of a sequence lies between two neighbours.
between :
    (f : ℕ → ℕ) (n b : ℕ) → f 0 ≤ b → b < f n → (i : ℕ) × (i < n) × (f i ≤ b) × (b < f (suc i))
between f zero b lo hi = absurd (omega arith)
between f (suc n) b lo hi = elim (dec_lt b (f n)) [
  | yes h ↦ let (i, p, q, r) = between f n b lo h in (i, omega arith, q, r)
  | no h ↦ (n, omega arith, omega arith, hi)
]

-- The blocks of one range; an empty range ends just before it starts.
abbrev pub shard_blocks : ShardRange → List ℕ
shard_blocks r = range_from r.start_block (r.end_block + 1 - r.start_block)

module _ (m : ShardingManager) (start last : ℕ) (some_shard : 0 < m.shard_count)
    (filled : start ≤ last) (fits : last + 1 < u64_mod) where
  abbrev bound : ℕ → ℕ
  bound = boundary m.shard_count start last

  InShard-of_bounds :
      (id b : ℕ)
      → id < m.shard_count
      → bound id ≤ b
      → b < bound (suc id)
      → InShard m start last id b
  unfolding get_shard_range
  InShard-of_bounds id b h lo hi =
      omega (arith, shard_range-boundary m.shard_count start last id h filled fits)

  InShard-bounds :
      (id b : ℕ)
      → id < m.shard_count
      → InShard m start last id b
      → (bound id ≤ b) × (b < bound (suc id))
  unfolding get_shard_range
  InShard-bounds id b h s =
      let e = shard_range-boundary m.shard_count start last id h filled fits in
      (omega arith, omega arith)

  -- Every block of the range lies in the range of some shard.
  pub shard_owner :
      (b : ℕ) → start ≤ b → b ≤ last → (id : ℕ) × (id < m.shard_count) × InShard m start last id b
  shard_owner b lo hi =
      let (id, h, p, q) =
        between bound m.shard_count b (rw (boundary-zero m.shard_count start last) lo)
          (rw (boundary-count m.shard_count start last some_shard filled) (omega arith)) in
      (id, h, InShard-of_bounds id b h p q)

  not_before : (i j b : ℕ) → b < bound (suc i) → bound j ≤ b → j ≤ i
  not_before i j b hi lo = elim (dec_lt i j) [
    | yes h ↦ absurd (omega (arith, boundary_mono m.shard_count start last (suc i) j h))
    | no h ↦ omega arith
  ]

  -- No block lies in the ranges of two shards.
  pub shard_unique :
      (i j b : ℕ)
      → i < m.shard_count
      → j < m.shard_count
      → InShard m start last i b
      → InShard m start last j b
      → i ≡ j
  shard_unique i j b hi hj si sj =
      let (ai, bi) = InShard-bounds i b hi si in
      let (aj, bj) = InShard-bounds j b hj sj in
      omega (arith, not_before i j b bi aj, not_before j i b bj ai)

  blocks_from :
      (id left : ℕ)
      → id + left ≡ m.shard_count
      → flat_map shard_blocks (ranges_from m id left start last)
        ≡ range_from (bound id) (bound (id + left) - bound id)
  unfolding ranges_from get_shard_range flat_map
  blocks_from id zero e =
      let none_left : bound (id + zero) - bound id ≡ 0 = omega (arith, add-zero id) in rw none_left
  blocks_from id (suc left) e =
      let (first, end) =
        shard_range-boundary m.shard_count start last id (omega arith) filled fits in
      let here = bound (suc id) - bound id in
      let rest = bound (suc id + left) - bound (suc id) in
      let step = boundary-suc m.shard_count start last id in
      let later = boundary-add m.shard_count start last (suc id) left in
      let split : bound (id + suc left) - bound id ≡ here + rest =
        rw (add-suc id left, ← suc-add id left) (omega (arith, step, later)) in
      let next : bound id + here ≡ bound (suc id) = omega (arith, step) in
      rw (split, range_from-append (bound id) here rest, next, first, end)
        (ap (◌++◌ (range_from (bound id) here)) (blocks_from (suc id) left (omega arith)))

  -- Where there is a shard, and the first block is not above the last one, which is below 2^64 -
  -- 1, the ranges of GetAllShardRanges, one after the other, list the blocks from the first to the
  -- last in order, each once.
  pub all_shard_blocks :
      flat_map shard_blocks (get_all_shard_ranges m start last)
      ≡ range_from start (total_blocks start last)
  unfolding get_all_shard_ranges
  all_shard_blocks =
      let end = boundary-count m.shard_count start last some_shard filled in
      let size : bound (0 + m.shard_count) - bound 0 ≡ total_blocks start last =
        rw (zero-add m.shard_count) (omega (arith, end)) in
      blocks_from 0 m.shard_count (zero-add m.shard_count)
      ∙ ap₂ range_from (boundary-zero m.shard_count start last) size

new_with_count-pos :
    (chain_id strategy : String) (count : ℤ) (m : ShardingManager)
    → new_with_count chain_id strategy count ≡ ok m
    → 0 < m.shard_count
unfolding new_with_count
new_with_count-pos chain_id strategy (pos zero) m e = cc
new_with_count-pos chain_id strategy (pos (suc n)) m e = ground arith
new_with_count-pos chain_id strategy (negsuc n) m e = cc

new_sharding_manager-pos :
    (chain_id : String) (c : ShardingConfig) (m : ShardingManager)
    → new_sharding_manager chain_id c ≡ ok m
    → 0 < m.shard_count
unfolding new_sharding_manager
new_sharding_manager-pos chain_id c m e =
    ground (arith, new_with_count-pos chain_id c.strategy c.shard_count m)

-- Every manager that the constructor returns sends each block to a shard that there is, whatever
-- its strategy; the constructor returns none where sharding is off or the count is not positive.
pub calculate_shard-lt :
    (chain_id : String) (c : ShardingConfig) (m : ShardingManager) (block_number : ℕ)
    → new_sharding_manager chain_id c ≡ ok m
    → calculate_shard m block_number < m.shard_count
unfolding calculate_shard
calculate_shard-lt chain_id c m block_number e =
    let some_shard = new_sharding_manager-pos chain_id c m e in
    ground (arith, mod-lt block_number some_shard)
