-- ===== src/Reorg/Detector.antt =====
-- internal/reorg/detector.go for one chain: a check, its counters, and automatic processing. The
-- scanner is what `GetScanner` finds for the chain. `now` is the time of the check.
pub mod Processing
pub mod Counts
pub mod Tests
use smart_scanner.Common.{
  ℕ, ◌-◌, String, Bool, true, false, ◌&&◌, Option, none, some, Outcome, ok, err, is_ok,
  if◌then◌else◌, ltb, ◌==◌, str_eq, add64,
}
use Prim.Native.String.{◌++◌}
use smart_scanner.Common.Actions.{Action, ◌>>=◌, ◌>>◌, writing}
use smart_scanner.Types.{Block, ReorgEvent}
use smart_scanner.Storage.{Storage}
use smart_scanner.Scheduler.Scanner.{Scanner, latest_height, block_at, reset_watermark}
use smart_scanner.Scheduler.Watermark.{WatermarkError}
use smart_scanner.Reorg.Fork.{
  DetectorConfig, Watch, DetectError, scanner_not_found, latest_height_failed, local_block_failed,
  chain_block_failed, fork_point_failed, create_reorg_event, find_fork_point,
}

-- `stats.SuccessfulChecks++`.
unfoldable pub succeed : Watch → Watch
succeed w = record w {
  stats = record w.stats { successful_checks = add64 w.stats.successful_checks 1 };
}

-- `state.ConsecutiveFailures = 0`.
unfoldable pub clear_failures : Watch → Watch
clear_failures w = record w { state = record w.state { consecutive_failures = 0 } }

-- Steps 4 and 5 of `DetectReorg`.
unfoldable pub compare_hashes :
    Scanner
    → String
    → (now latest : ℕ) → Block
    → Watch
    → Outcome DetectError (Option ReorgEvent) × Watch
unfolding succeed clear_failures create_reorg_event block_at
compare_hashes scanner chain_id now latest local_block w = elim (block_at scanner latest) [
  | err e ↦ (err (chain_block_failed e), w)
  | ok chain_block ↦
      let (event, stats') = create_reorg_event chain_id now local_block chain_block 1 w.stats in
      if str_eq chain_block.hash local_block.hash
      then (ok none, clear_failures (succeed w))
      else (ok (some event), record w { stats = stats' })
]

unfoldable pub search_fork :
    (st : Storage)
    → Scanner
    → String
    → (threshold now : ℕ) → Block
    → Watch
    → st.State
    → Outcome DetectError (Option ReorgEvent) × Watch
unfolding succeed clear_failures find_fork_point
search_fork st scanner chain_id threshold now local_block w s =
    let (r, stats') = find_fork_point st scanner chain_id threshold now local_block w.stats s in
    let w' : Watch = record w { stats = stats' } in
    elim r [
      | err e ↦ (err (fork_point_failed e), w')
      | ok none ↦ (ok none, clear_failures (succeed w'))
      | ok (some event) ↦ (
        ok (some event),
        clear_failures (
            succeed (record w' {
              stats = record stats' {
                reorgs_detected = add64 stats'.reorgs_detected 1;
                last_reorg_time = some event.detected_at;
              };
            })),
      )
    ]

-- `stats.TotalChecks++` and `state.LastCheckTime = time.Now()`.
unfoldable pub start_check : (now : ℕ) → Watch → Watch
start_check now w = record {
  state = record w.state { last_check_time = now };
  stats = record w.stats { total_checks = add64 w.stats.total_checks 1 };
}

unfoldable pub no_blocks_text : String → String
no_blocks_text chain_id = "no blocks found for chain " ++ chain_id

-- `DetectReorg`.
unfoldable pub detect_reorg :
    (st : Storage)
    → DetectorConfig
    → String
    → (now : ℕ) → Option Scanner
    → Watch
    → st.State
    → Outcome DetectError (Option ReorgEvent) × Watch
unfolding start_check latest_height succeed compare_hashes search_fork no_blocks_text
detect_reorg st config chain_id now none w s = (err scanner_not_found, start_check now w)
detect_reorg st config chain_id now (some scanner) w s =
    let w' = start_check now w in
    elim (latest_height scanner) [
      | err e ↦ (err (latest_height_failed e), w')
      | ok latest ↦ elim (st.get_latest_block chain_id s) [
        | err e ↦
            if str_eq e (no_blocks_text chain_id)
            then (ok none, succeed w')
            else (err (local_block_failed e), w')
        | ok local_block ↦
            if ltb latest local_block.number
            then (ok none, succeed w')
            else if latest == local_block.number
            then compare_hashes scanner chain_id now latest local_block w'
            else search_fork st scanner chain_id config.reorg_depth_threshold now local_block w' s
      ]
    ]

-- `handleDetectionError`.
unfoldable pub handle_detection_error : Watch → Watch
handle_detection_error w = record {
  state = record w.state { consecutive_failures = add64 w.state.consecutive_failures 1 };
  stats = record w.stats { failed_checks = add64 w.stats.failed_checks 1 };
}

pub data ProcessError : Type 0 where
  no_scanner : ProcessError
  reset_failed : WatermarkError → ProcessError
  delete_blocks_failed delete_logs_failed mark_failed save_failed : String → ProcessError

module _ (st : Storage) where
  -- What automatic processing changes.
  pub record World : Type 0 where
    pub scanner : Option Scanner
    pub store : st.State

  abbrev pub in_store : {E : Type 0} → Action st.State E (Unit {0}) → Action World E (Unit {0})
  in_store write w = let (r, s) = write w.store in (r, record w { store = s })

  -- `scanner.ResetWatermark`, after `GetScanner`.
  unfoldable pub reset_scanner :
      (locked : Bool) → (now height : ℕ) → Action World ProcessError (Unit {0})
  unfolding reset_watermark
  reset_scanner locked now height w = elim w.scanner [
    | none ↦ (err no_scanner, w)
    | some scanner ↦
        let (scanner', e) = reset_watermark locked now height scanner in
        let w' : World = record w { scanner = some scanner' } in
        elim e [ none ↦ (ok tt, w') | some e ↦ (err (reset_failed e), w') ]
  ]

  -- `autoProcessReorg`.
  unfoldable pub auto_process_reorg :
      (locked : Bool) → (now : ℕ) → ReorgEvent → Action World ProcessError (Unit {0})
  unfolding reset_scanner
  auto_process_reorg locked now event =
      let from = event.new_block_number in
      let to = event.old_block_number in
      let chain_id = event.chain_id in
      reset_scanner locked now (event.old_block_number - 1)
      >> in_store (writing delete_blocks_failed (st.delete_blocks chain_id from to))
      >> in_store (writing delete_logs_failed (st.delete_logs chain_id from to))
      >> in_store (writing mark_failed (st.mark_transactions_as_reverted chain_id from to))
      >> in_store (writing save_failed (st.save_reorg_event (record event { processed = true })))

  -- `handleReorgEvent`: its errors are only logged. The flag is set and cleared again.
  unfoldable pub handle_reorg_event :
      DetectorConfig → (locked : Bool) → (now : ℕ) → ReorgEvent → Watch × World → Watch × World
  unfolding auto_process_reorg
  handle_reorg_event config locked now event (w, world) =
      let (saved, world') = in_store (writing save_failed (st.save_reorg_event event)) world in
      let processed = (auto_process_reorg locked now event world').1 in
      (
        record w { state = record w.state { is_processing_reorg = false } },
        if is_ok saved && config.enable_auto_processing then processed else world',
      )

  -- `checkChain` for a chain that is watched.
  unfoldable pub check_chain :
      DetectorConfig → String → (locked : Bool) → (now : ℕ) → Watch × World → Watch × World
  unfolding detect_reorg handle_detection_error handle_reorg_event
  check_chain config chain_id locked now (w, world) =
      let (r, w') = detect_reorg st config chain_id now world.scanner w world.store in
      let after : Watch × World = elim r [
        | err e ↦ (handle_detection_error w', world)
        | ok none ↦ (w', world)
        | ok (some event) ↦ handle_reorg_event config locked now event (w', world)
      ] in
      if w.state.is_processing_reorg then (w, world) else after
