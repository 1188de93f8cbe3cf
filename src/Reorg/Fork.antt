-- ===== src/Reorg/Fork.antt =====
-- The state of internal/reorg/detector.go for one chain, and its search for the fork point. `scanner` is what `GetScanner` finds for the chain.
pub mod Search
use smart_scanner.Common.{
  ℕ, zero, suc, ◌+◌, ◌-◌, ◌%◌, ◌≡◌, String, Bool, true, false, Option, none, some, List, Outcome,
  ok, err, wrap, if◌then◌else◌, ltb, leb, ◌==◌, str_eq, add64,
}
use smart_scanner.Common.Actions.{Action}
use smart_scanner.Types.{Block, ReorgEvent}
use smart_scanner.Storage.{Storage}
use smart_scanner.Scheduler.Scanner.{Scanner, latest_height, block_at, reset_watermark}

pub record DetectorConfig : Type 0 where
  pub reorg_depth_threshold : ℕ
  pub enable_auto_processing : Bool

pub record ChainDetectionState : Type 0 where
  pub last_check_time : ℕ
  pub consecutive_failures : ℕ
  pub is_processing_reorg : Bool

-- The average depth is the float64 quotient of the two numbers of `average_reorg_depth`.
pub record DetectorStatistics : Type 0 where
  pub total_checks : ℕ
  pub successful_checks : ℕ
  pub failed_checks : ℕ
  pub reorgs_detected : ℕ
  pub total_reorg_depth : ℕ
  pub max_reorg_depth : ℕ
  pub average_reorg_depth : ℕ × ℕ
  pub last_reorg_time : Option ℕ

-- The entries of a chain in `detectionState` and `statistics`.
pub record Watch : Type 0 where
  pub state : ChainDetectionState
  pub stats : DetectorStatistics

pub data DetectError : Type 0 where
  scanner_not_found genesis_mismatch depth_exceeded : DetectError
  latest_height_failed local_block_failed chain_block_failed : String → DetectError
  new_block_failed previous_block_failed : String → DetectError
  fork_point_failed : DetectError → DetectError

unfoldable pub max_depth : ℕ
max_depth = 100

-- The old block, the new block and the depth of a fork.
pub record ForkPoint : Type 0 where
  pub old_block : Block
  pub new_block : Block
  pub depth : ℕ

-- The branch of `findForkPoint` where the hashes match.
unfoldable pub at_match :
    Scanner → (threshold : ℕ) → Block → ℕ → Outcome DetectError (Option ForkPoint)
at_match scanner threshold current depth =
    if leb threshold depth
    then (elim (block_at scanner (add64 current.number 1)) [
      | err e ↦ err (new_block_failed e)
      | ok b ↦ ok (some (record { old_block = current; new_block = b; depth = depth }))
    ])
    else ok none

module _ (st : Storage) (scanner : Scanner) (chain_id : String) (threshold : ℕ) (s : st.State) where
  -- The loop of `findForkPoint` with `fuel` rounds left.
  unfoldable pub fork_loop :
      (fuel : ℕ) → Block → (depth : ℕ) → Outcome DetectError (Option ForkPoint)
  unfolding at_match
  fork_loop zero current depth = err depth_exceeded
  fork_loop (suc fuel) current depth = elim (block_at scanner current.number) [
    | err e ↦ err (chain_block_failed e)
    | ok chain_block ↦
        let deeper : Outcome DetectError (Option ForkPoint) =
          elim (st.get_block chain_id (current.number - 1) s) [
            | err e ↦ err (previous_block_failed e)
            | ok previous ↦ fork_loop fuel previous (depth + 1)
          ] in
        if str_eq chain_block.hash current.hash
        then at_match scanner threshold current depth
        else if current.number == 0
        then err genesis_mismatch
        else deeper
  ]

-- `createReorgEvent`, with its update of the statistics.
unfoldable pub create_reorg_event :
    String
    → (now : ℕ) → (old new : Block) → (depth : ℕ) → DetectorStatistics
    → ReorgEvent × DetectorStatistics
create_reorg_event chain_id now old new depth stats =
    let total = add64 stats.total_reorg_depth depth in
    (
      record {
        chain_id = chain_id;
        detected_at = now;
        old_block_number = old.number;
        old_block_hash = old.hash;
        new_block_number = new.number;
        new_block_hash = new.hash;
        depth = depth;
        affected_txs = List.[];
        processed = false;
      },
      record stats {
        total_reorg_depth = total;
        max_reorg_depth = if ltb stats.max_reorg_depth depth then depth else stats.max_reorg_depth;
        average_reorg_depth = (total, stats.reorgs_detected);
      },
    )

-- `findForkPoint`.
unfoldable pub find_fork_point :
    (st : Storage)
    → Scanner
    → String
    → (threshold now : ℕ) → Block
    → DetectorStatistics
    → st.State
    → Outcome DetectError (Option ReorgEvent) × DetectorStatistics
unfolding fork_loop max_depth create_reorg_event
find_fork_point st scanner chain_id threshold now local_block stats s =
    elim (fork_loop st scanner chain_id threshold s max_depth local_block 0) [
      | err e ↦ (err e, stats)
      | ok none ↦ (ok none, stats)
      | ok (some p) ↦
          let (event, stats') =
            create_reorg_event chain_id now p.old_block p.new_block p.depth stats in
          (ok (some event), stats')
    ]
