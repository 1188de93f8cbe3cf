-- ===== src/Scheduler/Watermark/Boundary.antt =====
-- The reorg boundary of `UpdateScannedHeight` and `UpdateConfirmedHeight`.
use smart_scanner.Common.{ℕ, ◌-◌, ◌≤◌, ◌<◌, ◌≡◌, arith, true, some, none, i64_min}
use smart_scanner.Types.{Watermark}
use smart_scanner.Scheduler.Watermark.{
  WatermarkManager, reorg_boundary_of, update_scanned_height, reset_to_height,
}

pub reorg_boundary_of-eq :
    (height depth : ℕ)
    → height < i64_min
    → depth < i64_min
    → reorg_boundary_of height depth ≡ height - depth
unfolding reorg_boundary_of
reorg_boundary_of-eq height depth h d = ground arith

-- A report above the scanned height, with the Redis lock taken, moves the scanned height there and the reorg boundary to the
-- detection depth below it, or to 0 where the chain is shorter; it returns no error and leaves the
-- confirmed and the finalized height and the block hashes as they were.
pub update_scanned_height-advances :
    (m : WatermarkManager) (w : Watermark) (height now : ℕ)
    → m.watermark ≡ some w
    → w.scanned_height < height
    → height < i64_min
    → m.reorg_detection_depth < i64_min
    → update_scanned_height true m height now ≡ (
      record m {
        watermark = some (record w {
          scanned_height = height;
          reorg_boundary = height - m.reorg_detection_depth;
          last_update_time = now;
        });
      },
      none,
    )
unfolding update_scanned_height
update_scanned_height-advances m w height now e h small d =
    ground (arith, reorg_boundary_of-eq height m.reorg_detection_depth)

-- After a reset below the reorg boundary, the boundary stands above the scanned height: the
-- boundary is not computed again.
pub reset_to_height-boundary :
    (m : WatermarkManager) (w : Watermark) (height now : ℕ)
    → m.watermark ≡ some w
    → height ≤ w.scanned_height
    → height < w.reorg_boundary
    → (w' : Watermark) × ((reset_to_height true m height now).0.watermark ≡ some w')
      × ((reset_to_height true m height now).1 ≡ none)
      × (w'.scanned_height < w'.reorg_boundary)
unfolding reset_to_height
reset_to_height-boundary m w height now e h b = (
  record w { scanned_height = height; last_update_time = now },
  ground arith,
  ground arith,
  omega arith,
)
