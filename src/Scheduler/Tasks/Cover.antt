-- ===== src/Scheduler/Tasks/Cover.antt =====
-- Which blocks the generated tasks cover.
use smart_scanner.Common.{
  All-weaken, length-range_from, lt→ltb, le→ltb_false, range_from-append, le→leb, lt→leb_false, ℕ,
  zero, suc, ◌+◌, ◌-◌, ◌*◌, ◌≤◌, ◌<◌, min, String, ◌≡◌, ◌⊎◌, inl, inr, refl, sym, ap, ◌∙◌, Option,
  some, List, [], ◌∷◌, ◌++◌, arith, ok, if◌then◌else◌, ltb, add64, length, All, range_from, dec_lt,
  dec_le, u64_mod,
}
use native.Mathlib.Nat.{suc-mul}
use smart_scanner.Types.{Watermark, ScanTask}
use smart_scanner.Scheduler.Watermark.{WatermarkManager, get_watermark}
use smart_scanner.Scheduler.Sharding.{ShardingManager}
use smart_scanner.Scheduler.Tasks.{
  ConcurrencyConfig, min_uint64, choose_batch, make_task, tasks_from, generate_tasks,
}

abbrev pub task_blocks : ScanTask → List ℕ
task_blocks t = range_from t.start_block (t.end_block + 1 - t.start_block)

abbrev pub blocks_of : List ScanTask → List ℕ
blocks_of [] = []
blocks_of (t ∷ ts) = task_blocks t ++ blocks_of ts

-- The task has a first block up to its last one, which is at most `last`, and at most `batch` blocks.
abbrev pub Fits : (batch last : ℕ) → ScanTask → Type 0
Fits batch last t =
    (t.start_block ≤ t.end_block) × (t.end_block ≤ last) × (length (task_blocks t) ≤ batch)

pub choose_batch-positive : (batch_size cap len : ℕ) → 0 < choose_batch batch_size cap len
unfolding choose_batch
choose_batch-positive batch_size cap len = ground arith

pub choose_batch-le :
    (batch_size cap len : ℕ) → 0 < batch_size → choose_batch batch_size cap len ≤ batch_size
unfolding choose_batch
choose_batch-le batch_size cap len h = ground arith

pub make_task-end :
    (chain_id : String) (sharding : Option ShardingManager) (batch last block : ℕ)
    → 0 < batch
    → block + batch < u64_mod
    → (make_task chain_id sharding batch last block).end_block ≡ min (block + batch - 1) last
unfolding make_task
make_task-end chain_id sharding batch last block positive small = ground arith

-- A first part of at most `batch` numbers, and the rest.
range_from-split :
    (block batch a b : ℕ)
    → (a ≡ batch) ⊎ (b ≡ 0)
    → range_from block a ++ range_from (block + batch) b ≡ range_from block (a + b)
range_from-split block batch a b (inl e) =
    ap (λ k. range_from block a ++ range_from (block + k) b) (sym e)
    ∙ sym (range_from-append block a b)
range_from-split block batch a b (inr e) =
    ap (λ k. range_from block a ++ range_from (block + batch) k) e
    ∙ sym (range_from-append block a 0)
    ∙ ap (λ k. range_from block (a + k)) (sym e)

min-split : (x batch d : ℕ) → min batch d + min x (d - batch) ≡ min (batch + x) d
min-split x batch d = omega arith

min-zero : (x d : ℕ) → (x ≡ 0) ⊎ (d ≡ 0) → 0 ≡ min x d
min-zero x d h = omega arith

module _ (chain_id : String) (sharding : Option ShardingManager) (batch last : ℕ)
    (positive : 0 < batch) (small : last + batch < u64_mod) where
  task_blocks-make_task :
      (block : ℕ)
      → block ≤ last
      → task_blocks (make_task chain_id sharding batch last block)
        ≡ range_from block (min batch (last + 1 - block))
  unfolding make_task
  task_blocks-make_task block below = ap (range_from block) (ground arith)

  -- The tasks cover the blocks one after the other, as far as the queue has room.
  tasks_from-covers :
      (fuel room block : ℕ)
      → last + 1 - block ≤ fuel
      → blocks_of (tasks_from chain_id sharding batch last fuel room block)
        ≡ range_from block (min (room * batch) (last + 1 - block))
  unfolding tasks_from
  tasks_from-covers zero room block enough =
      ap (range_from block) (min-zero (room * batch) (last + 1 - block) (inr (omega arith)))
  tasks_from-covers (suc fuel) zero block enough =
      ap (range_from block) (min-zero (0 * batch) (last + 1 - block) (inl (omega arith)))
  tasks_from-covers (suc fuel) (suc room) block enough = elim (dec_le block last) [
    | no above ↦
        rw (lt→leb_false block last (omega arith)) (
          ap (range_from block)
            (min-zero (suc room * batch) (last + 1 - block) (inr (omega arith))))
    | yes below ↦
        let next : add64 block batch ≡ block + batch = ground arith in
        let rest = tasks_from chain_id sharding batch last fuel room (add64 block batch) in
        let k = min batch (last + 1 - block) in
        let r = min (room * batch) (last + 1 - (block + batch)) in
        rw (le→leb block last below) (
          ap (λ xs. xs ++ blocks_of rest) (task_blocks-make_task block below)
          ∙ ap (λ ys. range_from block k ++ ys)
              (tasks_from-covers fuel room (add64 block batch) (omega (arith, next))
                ∙ ap (λ n. range_from n (min (room * batch) (last + 1 - n))) next)
          ∙ range_from-split block batch k r (omega arith)
          ∙ ap (range_from block) (omega (arith, suc-mul room batch)))
  ]

  make_task-Fits :
      (block : ℕ) → block ≤ last → Fits batch last (make_task chain_id sharding batch last block)
  unfolding make_task
  make_task-Fits block below =
      let t = make_task chain_id sharding batch last block in
      let end : t.end_block ≡ min (block + batch - 1) last =
        make_task-end chain_id sharding batch last block positive (omega arith) in
      let begins : block ≤ t.end_block = omega (arith, end) in
      let ends : t.end_block ≤ last = omega (arith, end) in
      let few : length (task_blocks t) ≤ batch =
        rw
          (
            task_blocks-make_task block below,
            length-range_from block (min batch (last + 1 - block)),
          )
          (omega arith) in
      (begins, ends, few)

  tasks_from-Fits :
      (fuel room block : ℕ)
      → All (Fits batch last) (tasks_from chain_id sharding batch last fuel room block)
  unfolding tasks_from
  tasks_from-Fits zero room block = tt
  tasks_from-Fits (suc fuel) zero block = tt
  tasks_from-Fits (suc fuel) (suc room) block = elim (dec_le block last) [
    | no above ↦ rw (lt→leb_false block last (omega arith)) tt
    | yes below ↦
        rw (le→leb block last below)
          (make_task-Fits block below, tasks_from-Fits fuel room (add64 block batch))
  ]

module _ (chain_id : String) (sharding : Option ShardingManager) (config : ConcurrencyConfig)
    (positive : 0 < config.batch_size) (m : WatermarkManager) (w : Watermark)
    (initialized : m.watermark ≡ some w) (current finalized : ℕ)
    (low : w.scanned_height + 1 < u64_mod)
    (small : min finalized current + config.batch_size < u64_mod) where
  pub generate_tasks-initialized :
      (cap len room : ℕ)
      → let start = w.scanned_height + 1 in
        let last = min finalized current in
        generate_tasks chain_id sharding config cap len room m (ok current) (ok finalized) ≡ (
          if ltb last start
          then []
          else tasks_from chain_id sharding
              (choose_batch config.batch_size cap len)
              last
              (last + 1 - start)
              room
              start)
  unfolding generate_tasks get_watermark
  generate_tasks-initialized cap len room =
      let next : add64 w.scanned_height 1 ≡ w.scanned_height + 1 = ground arith in
      let least : min_uint64 finalized current ≡ min finalized current = ground arith in
      rw (initialized, least, next) refl

  -- Where a batch has a block at least, and the heights with a batch above them are below 2^64,
  -- the tasks of an initialised scanner list the blocks above the scanned height, each once and in
  -- order, up to the finalized and the current height, or as many of them as fit the room that the
  -- queue has.
  pub generate_tasks-covers :
      (cap len room : ℕ)
      → blocks_of
          (generate_tasks chain_id sharding config cap len room m (ok current) (ok finalized))
        ≡ range_from (w.scanned_height + 1) (
            min
              (room * choose_batch config.batch_size cap len)
              (min finalized current - w.scanned_height))
  generate_tasks-covers cap len room =
      let batch = choose_batch config.batch_size cap len in
      let start = w.scanned_height + 1 in
      let last = min finalized current in
      let chosen = choose_batch-le config.batch_size cap len positive in
      rw (generate_tasks-initialized cap len room) (elim (dec_lt last start) [
        | yes above ↦ rw (lt→ltb last start above) (
            ap (range_from start)
              (min-zero (room * batch) (last - w.scanned_height) (inr (omega arith))))
        | no below ↦ rw (le→ltb_false last start (omega arith)) (
            tasks_from-covers chain_id sharding batch last
              (choose_batch-positive config.batch_size cap len) (omega arith) (last + 1 - start)
              room start (omega arith)
            ∙ ap (λ d. range_from start (min (room * batch) d)) (omega arith))
      ])

  pub generate_tasks-Fits :
      (cap len room : ℕ)
      → All
          (Fits config.batch_size (min finalized current))
          (generate_tasks chain_id sharding config cap len room m (ok current) (ok finalized))
  generate_tasks-Fits cap len room =
      let batch = choose_batch config.batch_size cap len in
      let start = w.scanned_height + 1 in
      let last = min finalized current in
      let chosen = choose_batch-le config.batch_size cap len positive in
      rw (generate_tasks-initialized cap len room) (elim (dec_lt last start) [
        | yes above ↦ rw (lt→ltb last start above) tt
        | no below ↦ rw (le→ltb_false last start (omega arith)) (
            All-weaken (Fits batch last) (Fits config.batch_size (min finalized current))
              (λ t fits. (fits.0, fits.1, omega (arith, fits.2, chosen)))
              (tasks_from chain_id sharding batch last (last + 1 - start) room start)
              (tasks_from-Fits chain_id sharding batch last
                (choose_batch-positive config.batch_size cap len) (omega arith) (last + 1 - start)
                room start))
      ])
