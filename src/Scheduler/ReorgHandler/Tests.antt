-- ===== src/Scheduler/ReorgHandler/Tests.antt =====
-- Runs of the scanner's reorg check.
use smart_scanner.Common.{
  ℕ, String, ◌≡◌, refl, Bool, true, false, none, some, List, [], ◌∷◌, Outcome, ok,
}
use smart_scanner.Scheduler.Watermark.{WatermarkManager}
use smart_scanner.Scheduler.ReorgHandler.{
  ReorgHandler, ReorgState, check_reorg, ScannerCall, scanned, reset, check, run,
}
use smart_scanner.Scheduler.ReorgHandler.Checks.{run-blind}

abbrev manager : WatermarkManager
manager = record {
  chain_id = "1";
  reorg_detection_depth = 12;
  watermark = some (record {
    chain_id = "1";
    scanned_height = 50;
    confirmed_height = 40;
    finalized_height = 30;
    reorg_boundary = 38;
    last_update_time = 7;
  });
  block_hashes = [];
}

abbrev idle : ReorgHandler
idle = record { processing = false; watermark = manager }

-- The node reports a fork at 45, and no check sees it.
abbrev detect : ℕ → String → Outcome String (Bool × ℕ)
detect height hash = ok (true, 45)

abbrev calls : List ScannerCall
calls = scanned true 8 60 ∷ check (ok tt) true 9 ∷ reset true 10 55 ∷ scanned true 11 70 ∷ []

abbrev start : ReorgState
start = record { handler = idle; reorg_count = 0; last_reorg_time = none }

run-blind_example :
    check_reorg detect (ok tt) true 12 (run detect calls start) ≡ run detect calls start
run-blind_example = run-blind detect calls (ok tt) true 12 start refl
