-- ===== src/Scheduler/Worker/Tests.antt =====
-- Runs of the worker at concrete inputs.
use smart_scanner.Common.{
  pos, ℕ, ◌+◌, ◌≡◌, take, ◌∷◌, String, refl, false, Option, none, some, List, [], map, arith,
  Outcome, ok, All,
}
use smart_scanner.Types.{Block, Watermark, ScanTask}
use smart_scanner.Scheduler.Watermark.{WatermarkManager}
use smart_scanner.Scheduler.Tasks.{ConcurrencyConfig, generate_tasks}
use smart_scanner.Scheduler.Tasks.Cover.{task_blocks}
use smart_scanner.Scheduler.Worker.{scan_blocks, sequential}
use smart_scanner.Scheduler.Worker.Processing.{
  WorkerState, process_tasks, results, process_tasks-drops,
}
use smart_scanner.Scheduler.Worker.Requests.{Finds, scan_blocks-Finds, generate_tasks-Finds}

abbrev chain : ℕ → Block
chain n = record {
  chain_id = "1";
  number = n;
  hash = "h";
  timestamp = pos 0;
  parent_hash = "p";
  transactions = [];
}

abbrev fetch : List ℕ → Outcome String (List (Option Block))
fetch ns = ok (map (λ n. some (chain n)) ns)

abbrev config : ConcurrencyConfig
config = record { batch_size = 4; max_retries = 3; retry_delay = 1000; parallel_requests = 2 }

-- Of the blocks 101 to 120 two batches of four are found.
scan_blocks-Finds_example :
    Finds chain
      (101 ∷ 102 ∷ 103 ∷ 104 ∷ 105 ∷ 106 ∷ 107 ∷ 108 ∷ [])
      (scan_blocks fetch config (λ n. false) 101 120)
scan_blocks-Finds_example =
    scan_blocks-Finds fetch chain (λ ns. refl) config (omega arith) 120 (omega arith) (λ n. false)
      (λ n. refl) 101 (omega arith) (omega arith)

abbrev at_fifty : Watermark
at_fifty = record {
  chain_id = "1";
  scanned_height = 50;
  confirmed_height = 40;
  finalized_height = 30;
  reorg_boundary = 38;
  last_update_time = 7;
}

abbrev manager : WatermarkManager
manager = record {
  chain_id = "1";
  reorg_detection_depth = 12;
  watermark = some at_fifty;
  block_hashes = [];
}

generate_tasks-Finds_example :
    All
      (λ t.
        Finds chain
          (task_blocks t)
          (scan_blocks fetch config (λ n. false) t.start_block t.end_block))
      (generate_tasks "1" none config 10 6 9 manager (ok 60) (ok 55))
generate_tasks-Finds_example =
    generate_tasks-Finds fetch chain (λ ns. refl) config (omega arith) manager at_fifty refl 60 55
      (omega arith) (omega arith) (λ n. false) (λ n. refl) "1" none 10 6 9

abbrev task_at : ℕ → ScanTask
task_at n = record {
  chain_id = "1";
  start_block = n;
  end_block = n + 1;
  shard_id = 0;
  retry_count = 0;
  priority = 1;
}

abbrev fresh : WorkerState
fresh = record { current_task = none; tasks_completed = 0; tasks_failed = 0 }

-- Three tasks and a queue for two results.
process_tasks-drops_example :
    let ts = task_at 1 ∷ task_at 3 ∷ task_at 5 ∷ [] in
    let r = process_tasks fetch config (λ n. false) 2 ts (fresh, []) in
    (r.1 ≡ take 2 (results fetch config (λ n. false) 2 ts))
    × (r.0.tasks_completed ≡ 3)
    × (r.0.tasks_failed ≡ 0)
unfolding scan_blocks sequential
process_tasks-drops_example =
    process_tasks-drops fetch config (λ n. false) 2 (task_at 1 ∷ task_at 3 ∷ task_at 5 ∷ []) fresh
      [] (omega arith, omega arith) (omega arith)
