-- ===== src/Scheduler/Watermark/Tests.antt =====
-- Runs of the watermark manager at concrete inputs.
use smart_scanner.Common.{ℕ, ◌≡◌, refl, true, false, some, List, [], ◌∷◌}
use smart_scanner.Types.{Watermark}
use smart_scanner.Scheduler.Watermark.{WatermarkManager}
use smart_scanner.Scheduler.Watermark.History.{
  Call, scan, confirm, hash, run, heights, run-heights, spec_run, spec_step,
}

abbrev at_fifty : Watermark
at_fifty = record {
  chain_id = "1";
  scanned_height = 50;
  confirmed_height = 40;
  finalized_height = 30;
  reorg_boundary = 38;
  last_update_time = 7;
}

abbrev scanned_fifty : WatermarkManager
scanned_fifty = record {
  chain_id = "1";
  reorg_detection_depth = 12;
  watermark = some at_fifty;
  block_hashes = (49, "0xa") ∷ (50, "0xb") ∷ [];
}

abbrev reports : List (ℕ × Call)
reports =
    (8, scan true 64)
    ∷ (9, scan true 57)
    ∷ (9, scan false 70)
    ∷ (10, confirm 55)
    ∷ (11, hash 57 "0xc")
    ∷ []

run-heights_example : heights (run scanned_fifty reports).watermark ≡ (64, 55, 30)
unfolding spec_run spec_step
run-heights_example = run-heights scanned_fifty at_fifty reports refl
