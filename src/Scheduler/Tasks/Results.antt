-- ===== src/Scheduler/Tasks/Results.antt =====
-- What the results of the tasks lead to.
use smart_scanner.Common.{
  ℕ, zero, suc, ◌+◌, ◌-◌, ◌*◌, ◌^◌, ◌%◌, ◌<◌, min, String, ◌≡◌, refl, true, ◌&&◌, Option, none,
  some, i64_min, arith, ok, if◌then◌else◌, ltb, le→ltb_false, lt→ltb, add64, range_from, dec_lt,
  u64_mod,
}
use smart_scanner.Types.{Watermark, ScanTask}
use smart_scanner.Scheduler.Watermark.{WatermarkManager}
use smart_scanner.Scheduler.Watermark.Boundary.{update_scanned_height-advances}
use smart_scanner.Scheduler.Sharding.{ShardingManager}
use smart_scanner.Scheduler.Tasks.{
  ConcurrencyConfig, ScannerStatus, choose_batch, generate_tasks, handle_success_result,
  handle_failure_result, exponential_backoff, max_delay,
}
use smart_scanner.Scheduler.Tasks.Cover.{blocks_of, generate_tasks-covers}

-- How often a task that always fails is queued again, in at most `fuel` rounds.
abbrev pub requeues : ConcurrencyConfig → (fuel : ℕ) → ScanTask → ScannerStatus → ℕ
requeues config zero task status = 0
requeues config (suc fuel) task status =
    let (again, status') = handle_failure_result config task status in
    elim again [ none ↦ 0 | some (task', delay) ↦ suc (requeues config fuel task' status') ]

-- A task that always fails is queued again as often as its retry count is below the maximum, and
-- then dropped.
pub requeues-ends :
    (config : ConcurrencyConfig) (fuel : ℕ) (task : ScanTask) (status : ScannerStatus)
    → config.max_retries - task.retry_count < fuel
    → requeues config fuel task status ≡ config.max_retries - task.retry_count
unfolding handle_failure_result
requeues-ends config zero task status enough = absurd (omega arith)
requeues-ends config (suc fuel) task status enough =
    elim (dec_lt task.retry_count config.max_retries) [
      | no last ↦
          rw (le→ltb_false task.retry_count config.max_retries (omega arith), requeues)
            (omega arith)
      | yes more ↦
          let task' : ScanTask = record task { retry_count = task.retry_count + 1 } in
          let status' : ScannerStatus = record status {
            error_count = add64 status.error_count 1;
          } in
          rw (lt→ltb task.retry_count config.max_retries more, requeues)
            (omega (arith, requeues-ends config fuel task' status' (omega arith)))
    ]

cut_off :
    (x : ℕ)
    → x < i64_min
    → (if ltb max_delay (x % u64_mod) && ltb (x % u64_mod) i64_min then max_delay else x % u64_mod)
      ≡ min x max_delay
cut_off x small = ground arith

-- The delay doubles with each retry up to five minutes, while the product fits an int64.
pub exponential_backoff-min :
    (base n : ℕ)
    → base * 2 ^ (n - 1) < i64_min
    → exponential_backoff base n ≡ min (base * 2 ^ (n - 1)) max_delay
unfolding exponential_backoff
exponential_backoff-min base n small = cut_off (base * 2 ^ (n - 1)) small

-- Where a batch has a block at least, and the heights with a batch above them and the detection
-- depth are below 2^63, once a task that ends at a block above the scanned height of an
-- initialised scanner succeeds with the Redis lock taken, the next tasks start right above this
-- block, whatever became of the tasks below it.
pub handle_success_result-skips :
    (chain_id : String) (sharding : Option ShardingManager) (config : ConcurrencyConfig)
    (m : WatermarkManager) (w : Watermark) (status : ScannerStatus)
    (now end_block current finalized : ℕ) (cap len room : ℕ)
    → 0 < config.batch_size
    → m.watermark ≡ some w
    → w.scanned_height < end_block
    → m.reorg_detection_depth < i64_min
    → min finalized current + config.batch_size < i64_min
    → end_block + 1 < i64_min
    → blocks_of (
        generate_tasks chain_id sharding config cap len room
          (handle_success_result true now end_block (m, status)).0
          (ok current)
          (ok finalized))
      ≡ range_from
          (end_block + 1)
          (min (room * choose_batch config.batch_size cap len) (min finalized current - end_block))
unfolding handle_success_result
handle_success_result-skips chain_id sharding config m w status now end_block current finalized cap
      len room positive initialized above deep small low =
    let w' : Watermark = record w {
      scanned_height = end_block;
      reorg_boundary = end_block - m.reorg_detection_depth;
      last_update_time = now;
    } in
    rw (update_scanned_height-advances m w end_block now initialized above (omega arith) deep) (
      generate_tasks-covers chain_id sharding config positive (record m { watermark = some w' }) w'
        refl current finalized (omega arith) (omega arith) cap len room)
