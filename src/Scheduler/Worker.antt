-- ===== src/Scheduler/Worker.antt =====
-- internal/scheduler/worker.go: the scan of a range of blocks. `BatchGetBlocks` of the chain's node
-- is a parameter, which answers a list of block numbers with a list of blocks, some of them nil.
-- The results of the parallel batches are taken in the order of the batches.
pub mod Requests
pub mod Processing
pub mod Tests
use smart_scanner.Common.{
  ℕ, zero, suc, ◌+◌, ◌-◌, ◌*◌, String, Bool, not, ◌||◌, Option, none, some, List, [], ◌∷◌, i64_min,
  Outcome, ok, err, if◌then◌else◌, ltb, leb, ◌==◌, add64, sub64, length, range_from,
}
use smart_scanner.Types.{Block}
use smart_scanner.Scheduler.Tasks.{ConcurrencyConfig, min_uint64}

pub data ScanError : Type 0 where
  invalid_range : ℕ → ℕ → ScanError
  batch_failed : ℕ → ℕ → String → ScanError
  context_done : ScanError

-- The numbers of blocks and of transactions that were found, and the error.
pub record Scan : Type 0 where
  pub blocks_scanned : ℕ
  pub txs_found : ℕ
  pub error : Option ScanError

-- The loop over the blocks that came back; a nil block is skipped.
unfoldable pub count_blocks : List (Option Block) → ℕ × ℕ
count_blocks [] = (0, 0)
count_blocks (none ∷ rest) = count_blocks rest
count_blocks (some b ∷ rest) =
    let (blocks, txs) = count_blocks rest in (blocks + 1, txs + length b.transactions)

-- The numbers from `first` to `last`.
abbrev pub numbers : (first last : ℕ) → List ℕ
numbers first last = range_from first (last + 1 - first)

-- The end of the batch that starts at `first`.
unfoldable pub batch_end : (batch_size first last : ℕ) → ℕ
batch_end batch_size first last = min_uint64 (sub64 (add64 first batch_size) 1) last

-- The batches that `scanBlocksParallel` starts, at most `count`.
unfoldable pub batches : (batch_size last count first : ℕ) → List (ℕ × ℕ)
batches batch_size last zero first = []
batches batch_size last (suc count) first =
    let rest = batches batch_size last count (add64 first batch_size) in
    if ltb last first then [] else (first, batch_end batch_size first last) ∷ rest

module _ (fetch : List ℕ → Outcome String (List (Option Block))) where
  -- The loop of `scanBlocksSequential` with `fuel` rounds left, from what was found so far. `stopped`
  -- says whether the context is done after the batch that starts at a block.
  unfoldable pub sequential :
      (batch_size last : ℕ) → (stopped : ℕ → Bool) → (fuel first blocks txs : ℕ) → Scan
  sequential batch_size last stopped zero first blocks txs = record {
    blocks_scanned = blocks;
    txs_found = txs;
    error = none;
  }
  sequential batch_size last stopped (suc fuel) first blocks txs =
      let till = batch_end batch_size first last in
      let so_far : Scan = record { blocks_scanned = blocks; txs_found = txs; error = none } in
      let after : Scan = elim (fetch (numbers first till)) [
        | err e ↦ record so_far { error = some (batch_failed first till e) }
        | ok found ↦
            let (more, more_txs) = count_blocks found in
            if stopped first
            then record {
              blocks_scanned = blocks + more;
              txs_found = txs + more_txs;
              error = some context_done;
            }
            else sequential batch_size last stopped fuel (add64 first batch_size) (blocks + more)
                (txs + more_txs)
      ] in
      if ltb last first then so_far else after

  -- The results of the parallel batches, added up to the first error.
  unfoldable pub collect : List (ℕ × ℕ) → (blocks txs : ℕ) → Scan
  collect [] blocks txs = record { blocks_scanned = blocks; txs_found = txs; error = none }
  collect ((first, till) ∷ rest) blocks txs = elim (fetch (numbers first till)) [
    | err e ↦ record {
      blocks_scanned = blocks;
      txs_found = txs;
      error = some (batch_failed first till e);
    }
    | ok found ↦
        let (more, more_txs) = count_blocks found in collect rest (blocks + more) (txs + more_txs)
  ]

  -- `scanBlocksParallel`, while the context is not done.
  unfoldable pub scan_blocks_parallel : ConcurrencyConfig → (first last : ℕ) → Scan
  scan_blocks_parallel config first last =
      let count = if ltb config.parallel_requests 2 then 2 else config.parallel_requests in
      collect (batches config.batch_size last count first) 0 0

  -- `scanBlocks`. A batch has at least one block, so the sequential loop has at most as many rounds
  -- as there are blocks.
  unfoldable pub scan_blocks : ConcurrencyConfig → (stopped : ℕ → Bool) → (first last : ℕ) → Scan
  scan_blocks config stopped first last =
      let total = add64 (sub64 last first) 1 in
      if total == 0 || leb i64_min total
      then record { blocks_scanned = 0; txs_found = 0; error = some (invalid_range first last) }
      else if leb total (config.batch_size * 2)
      then sequential config.batch_size last stopped (total + 1) first 0 0
      else scan_blocks_parallel config first last
