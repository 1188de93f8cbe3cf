-- ===== src/Scheduler/Sharding/Bounds.antt =====
-- The exact bounds of a shard, without wrap-around.
use native.Mathlib.Nat.{div-add-mod, mod-lt}
use smart_scanner.Common.{
  add64, sub64, lt→leb_false, ℕ, suc, ◌+◌, ◌-◌, ◌*◌, ◌/◌, ◌%◌, ◌≤◌, ◌<◌, min, ◌≡◌, sym, arith,
  u64_mod,
}
use smart_scanner.Scheduler.Sharding.{shard_start, shard_end, shard_range}

-- The number of blocks from `start` to `last`.
abbrev pub total_blocks : ℕ → ℕ → ℕ
total_blocks start last = last - start + 1

-- The first block of shard `id`: each shard has `total / count` blocks, and the first
-- `total % count` shards have one more.
abbrev pub boundary : (count start last id : ℕ) → ℕ
boundary count start last id =
    start + id * (total_blocks start last / count) + min id (total_blocks start last % count)

pub total_parts :
    (count t : ℕ) → 0 < count → (t ≡ count * (t / count) + t % count) × (t % count < count)
total_parts count t h = (sym (div-add-mod t count), mod-lt t h)

mul_mono : (a b c : ℕ) → a ≤ b → a * c ≤ b * c
mul_mono a b c h = grind arith

module _ (count start per remainder last id : ℕ)
    (parts : last + 1 ≡ start + count * per + remainder) (small : remainder < count)
    (fits : last + 1 < u64_mod) (inside : id < count) (filled : start ≤ last) where
  below : suc id * per ≤ count * per
  below = mul_mono (suc id) count per inside

  shard_start-eq : shard_start id start per remainder ≡ start + id * per + min id remainder
  unfolding shard_start
  shard_start-eq = ground (arith, below)

  shard_end-eq :
      shard_end id (start + id * per + min id remainder) per remainder last + 1
      ≡ start + suc id * per + min (suc id) remainder
  unfolding shard_end
  shard_end-eq = ground (arith, below)

-- What `GetShardRange` computes for a shard that there is.
abbrev first_of_shard : (count start last id : ℕ) → ℕ
first_of_shard count start last id =
    let t = total_blocks start last in shard_start id start (t / count) (t % count)

abbrev last_of_shard : (count start last id first : ℕ) → ℕ
last_of_shard count start last id first =
    let t = total_blocks start last in shard_end id first (t / count) (t % count) last

total_blocks-eq :
    (start last : ℕ)
    → start ≤ last
    → last + 1 < u64_mod
    → add64 (sub64 last start) 1 ≡ total_blocks start last
total_blocks-eq start last filled fits = omega arith

shard_range-inside :
    (count start last id : ℕ)
    → id < count
    → start ≤ last
    → last + 1 < u64_mod
    → let first = first_of_shard count start last id in
      shard_range count id start last ≡ (first, last_of_shard count start last id first)
unfolding shard_range
shard_range-inside count start last id h filled fits =
    rw (total_blocks-eq start last filled fits) (rw (lt→leb_false count id h))

-- Shard `id` begins at its boundary and ends just before the next one. The block numbers stay
-- below 2^64 - 1, so that nothing wraps.
pub shard_range-boundary :
    (count start last id : ℕ)
    → id < count
    → start ≤ last
    → last + 1 < u64_mod
    → ((shard_range count id start last).0 ≡ boundary count start last id)
      × ((shard_range count id start last).1 + 1 ≡ boundary count start last (suc id))
shard_range-boundary count start last id h filled fits =
    let t = total_blocks start last in
    let (parts, small) = total_parts count t (omega arith) in
    let first =
      shard_start-eq count start (t / count) (t % count) last id (omega arith) small fits h
        filled in
    let end =
      shard_end-eq count start (t / count) (t % count) last id (omega arith) small fits h filled in
    rw (shard_range-inside count start last id h filled fits) (first, rw first end)
