-- ===== src/Scheduler/Tasks.antt =====
-- The tasks and their results in internal/scheduler/chain_scanner.go. The queue is seen through its
-- length, its capacity, and the number of tasks it still takes before a wait times out.
pub mod Cover
pub mod Results
pub mod Rounds
pub mod Tests
use smart_scanner.Common.{
  ℕ, zero, suc, ◌+◌, ◌-◌, ◌*◌, ◌^◌, ◌/◌, String, Bool, not, ◌&&◌, Option, none, some, List, [], ◌∷◌,
  i64_min, Outcome, ok, err, if◌then◌else◌, ltb, leb, add64, sub64, mul64, length,
}
use smart_scanner.Types.{ScanTask}
use smart_scanner.Scheduler.Watermark.{WatermarkManager, get_watermark, update_scanned_height}
use smart_scanner.Scheduler.Sharding.{ShardingManager, calculate_shard}

-- `RetryDelay` is a number of nanoseconds.
pub record ConcurrencyConfig : Type 0 where
  pub batch_size : ℕ
  pub max_retries : ℕ
  pub retry_delay : ℕ
  pub parallel_requests : ℕ

-- `MinUint64`.
abbrev pub min_uint64 : ℕ → ℕ → ℕ
min_uint64 a b = if ltb a b then a else b

-- The batch size under the pressure of `len` tasks in a queue for `cap`, with 0.8 and 0.5 as
-- fractions. Where `cap` is 0 the quotient is not a number, and both tests fail.
unfoldable pub choose_batch : (batch_size cap len : ℕ) → ℕ
choose_batch batch_size cap len =
    let chosen =
      if ltb (8 * cap) (10 * len)
      then batch_size / 4
      else if ltb (5 * cap) (10 * len)
      then batch_size / 2
      else batch_size in
    if ltb chosen 1 then 1 else chosen

unfoldable pub make_task : String → Option ShardingManager → (batch last block : ℕ) → ScanTask
make_task chain_id sharding batch last block = record {
  chain_id = chain_id;
  start_block = block;
  end_block = min_uint64 (sub64 (add64 block batch) 1) last;
  shard_id = elim sharding [ none ↦ 0 | some m ↦ calculate_shard m block ];
  retry_count = 0;
  priority = 1;
}

-- The loop over the block numbers with `fuel` rounds left; the queue takes `room` tasks. Without a
-- bound on the rounds, a number that wraps at 2^64 would let the loop start over.
unfoldable pub tasks_from :
    String → Option ShardingManager → (batch last fuel room block : ℕ) → List ScanTask
tasks_from chain_id sharding batch last zero room block = []
tasks_from chain_id sharding batch last (suc fuel) zero block = []
tasks_from chain_id sharding batch last (suc fuel) (suc room) block =
    let rest = tasks_from chain_id sharding batch last fuel room (add64 block batch) in
    if leb block last then make_task chain_id sharding batch last block ∷ rest else []

-- `generateTasks`, which sends these tasks. A batch has at least one block, so there are at most as
-- many rounds as blocks.
unfoldable pub generate_tasks :
    String
    → Option ShardingManager
    → ConcurrencyConfig
    → (cap len room : ℕ) → WatermarkManager
    → (current finalized : Outcome String ℕ) → List ScanTask
generate_tasks chain_id sharding config cap len room m current finalized = elim (get_watermark m) [
  | err e ↦ []
  | ok watermark ↦ elim current [
    | err e ↦ []
    | ok current_height ↦ elim finalized [
      | err e ↦ []
      | ok finalized_height ↦
          let start = add64 watermark.scanned_height 1 in
          let last = min_uint64 finalized_height current_height in
          let batch = choose_batch config.batch_size cap len in
          if ltb last start
          then []
          else tasks_from chain_id sharding batch last (last + 1 - start) room start
    ]
  ]
]

-- The fields of `ScannerStatus` that the results change.
pub record ScannerStatus : Type 0 where
  pub scanned_height : ℕ
  pub error_count : ℕ
  pub last_scan_time : ℕ

-- `handleSuccessResult` of a task that ends at `end_block`: an error of the watermark is logged.
unfoldable pub handle_success_result :
    (locked : Bool)
    → (now end_block : ℕ) → WatermarkManager × ScannerStatus
    → WatermarkManager × ScannerStatus
handle_success_result locked now end_block (m, status) = (
  (update_scanned_height locked m end_block now).0,
  record status { scanned_height = end_block; last_scan_time = now },
)

-- Five minutes.
abbrev pub max_delay : ℕ
max_delay = 300000000000

-- `exponentialBackoff` for a retry count from 1 to 63: an int64 product that wraps, as a word; a
-- negative delay does not exceed the limit.
unfoldable pub exponential_backoff : (base retry_count : ℕ) → ℕ
exponential_backoff base retry_count =
    let delay = mul64 base (2 ^ (retry_count - 1)) in
    if ltb max_delay delay && ltb delay i64_min then max_delay else delay

-- `handleFailureResult`: the task that is queued again and its delay, if any.
unfoldable pub handle_failure_result :
    ConcurrencyConfig → ScanTask → ScannerStatus → Option (ScanTask × ℕ) × ScannerStatus
handle_failure_result config task status = (
  if ltb task.retry_count config.max_retries
      then some (
        record task { retry_count = task.retry_count + 1 },
        exponential_backoff config.retry_delay (task.retry_count + 1),
      )
      else none,
  record status { error_count = add64 status.error_count 1 },
)
