-- ===== src/Scheduler/Tasks/Tests.antt =====
-- Runs of the task generation at concrete inputs.
use smart_scanner.Common.{◌<◌, ◌≡◌, refl, true, none, some, [], ◌∷◌, arith, ok}
use smart_scanner.Types.{Watermark, ScanTask}
use smart_scanner.Scheduler.Watermark.{WatermarkManager}
use smart_scanner.Scheduler.Tasks.{
  ConcurrencyConfig, ScannerStatus, choose_batch, generate_tasks, handle_success_result,
}
use smart_scanner.Scheduler.Tasks.Cover.{blocks_of, generate_tasks-covers}
use smart_scanner.Scheduler.Tasks.Rounds.{rounds, rounds_complete}
use smart_scanner.Scheduler.Tasks.Results.{handle_success_result-skips}

abbrev config : ConcurrencyConfig
config = record { batch_size = 4; max_retries = 3; retry_delay = 1000; parallel_requests = 2 }

abbrev at_fifty : Watermark
at_fifty = record {
  chain_id = "1";
  scanned_height = 50;
  confirmed_height = 40;
  finalized_height = 30;
  reorg_boundary = 38;
  last_update_time = 7;
}

abbrev manager : WatermarkManager
manager = record {
  chain_id = "1";
  reorg_detection_depth = 12;
  watermark = some at_fifty;
  block_hashes = [];
}

generate_tasks-covers_example :
    blocks_of (generate_tasks "1" none config 10 6 9 manager (ok 60) (ok 55))
    ≡ 51 ∷ 52 ∷ 53 ∷ 54 ∷ 55 ∷ []
unfolding choose_batch
generate_tasks-covers_example =
    generate_tasks-covers "1" none config (omega arith) manager at_fifty refl 60 55 (omega arith)
      (omega arith) 10 6 9

abbrev task : ScanTask
task = record {
  chain_id = "1";
  start_block = 51;
  end_block = 54;
  shard_id = 0;
  retry_count = 1;
  priority = 1;
}

abbrev status : ScannerStatus
status = record { scanned_height = 50; error_count = 0; last_scan_time = 7 }

-- The task for the blocks 51 to 54 is lost, the one for 55 to 58 succeeds.
handle_success_result-skips_example :
    blocks_of (
      generate_tasks "1" none config 10 0 9
        (handle_success_result true 8 58 (manager, status)).0
        (ok 60)
        (ok 60))
    ≡ 59 ∷ 60 ∷ []
unfolding choose_batch
handle_success_result-skips_example =
    handle_success_result-skips "1" none config manager at_fifty status 8 58 60 60 10 0 9
      (omega arith) refl (omega arith) (omega arith) (omega arith) (omega arith)

-- Rounds of a queue that takes one task.
ready : (true ≡ true) × (0 < 1)
ready = (refl, omega arith)

rounds_complete_example :
    let r =
      rounds "1" none config 60 55
        ((true, 8, 10, 0, 1)
          ∷ (true, 9, 10, 0, 1)
          ∷ (true, 10, 10, 0, 1)
          ∷ (true, 11, 10, 0, 1)
          ∷ (true, 12, 10, 0, 1)
          ∷ [])
        (manager, status) in
    (r.0 ≡ 51 ∷ 52 ∷ 53 ∷ 54 ∷ 55 ∷ [])
    × ((w' : Watermark) × (r.1.0.watermark ≡ some w') × (w'.scanned_height ≡ 55))
rounds_complete_example =
    rounds_complete "1" none config (omega arith) 60 55 (omega arith)
      ((true, 8, 10, 0, 1)
        ∷ (true, 9, 10, 0, 1)
        ∷ (true, 10, 10, 0, 1)
        ∷ (true, 11, 10, 0, 1)
        ∷ (true, 12, 10, 0, 1)
        ∷ [])
      manager status at_fifty refl (omega arith) (ready, (ready, (ready, (ready, (ready, tt)))))
      (omega arith)
