-- ===== src/Reorg/Processor/Steps.antt =====
-- The steps of internal/reorg/processor.go for one chain. A world is what the steps read and write.
use smart_scanner.Common.{
  ℕ, ◌+◌, ◌-◌, String, Bool, true, ◌||◌, none, some, List, [], ◌∷◌, ◌++◌, Outcome, ok, err,
  if◌then◌else◌, ◌==◌, str_eq, range_from,
}
use smart_scanner.Common.Actions.{Action, pure, ◌>>◌, writing}
use smart_scanner.Types.{Transaction, ReorgEvent}
use smart_scanner.Storage.{Storage}
use smart_scanner.Scheduler.Scanner.{reset_watermark}
use smart_scanner.Scheduler.Watermark.{WatermarkError}
use smart_scanner.Reorg.Detector.{World, in_store}

pub data StepError : Type 0 where
  chain_id_empty old_number_zero new_number_zero depth_zero hash_empty number_mismatch : StepError
  new_block_missing : String → StepError
  mark_failed delete_blocks_failed delete_logs_failed save_failed : String → StepError
  scanner_not_found : StepError
  reset_failed : WatermarkError → StepError

-- The checks of the event's fields in `validateEvent`.
unfoldable pub validate_fields : ReorgEvent → Outcome StepError (Unit {0})
validate_fields event =
    if str_eq event.chain_id ""
    then err chain_id_empty
    else if event.old_block_number == 0
    then err old_number_zero
    else if event.new_block_number == 0
    then err new_number_zero
    else if event.depth == 0
    then err depth_zero
    else if str_eq event.old_block_hash "" || str_eq event.new_block_hash ""
    then err hash_empty
    else ok tt

-- The numbers of the blocks `from` to `to`, both included; `to` is below 2^64 - 1.
abbrev block_range : (from to : ℕ) → List ℕ
block_range from to = range_from from (to + 1 - from)

module _ (st : Storage) where
  -- `validateEvent`.
  unfoldable pub validate_event : ReorgEvent → Action (World st) StepError (Unit {0})
  validate_event event w = elim (validate_fields event) [
    | err e ↦ (err e, w)
    | ok u ↦ elim (st.get_block_by_hash event.chain_id event.new_block_hash w.store) [
      | err e ↦ (err (new_block_missing e), w)
      | ok b ↦ (if b.number == event.new_block_number then ok tt else err number_mismatch, w)
    ]
  ]

  -- `markRevertedTransactions`. The transactions are counted for the log only.
  unfoldable pub mark_reverted_transactions : ReorgEvent → Action (World st) StepError (Unit {0})
  mark_reverted_transactions event = in_store st (
      writing mark_failed (
        st.mark_transactions_as_reverted event.chain_id event.new_block_number
          event.old_block_number))

  -- The transactions of the range's blocks; a block that cannot be read is skipped.
  unfoldable pub affected_transactions : String → List ℕ → st.State → List Transaction
  affected_transactions chain_id [] s = []
  affected_transactions chain_id (n ∷ ns) s =
      let rest = affected_transactions chain_id ns s in
      elim (st.get_transactions_by_block chain_id n s) [ ok txs ↦ txs ++ rest | err e ↦ rest ]

  -- `revertTransactionBusinessData`, which only logs.
  unfoldable pub revert_transaction : Transaction → Action (World st) StepError (Unit {0})
  revert_transaction tx = pure tt

  unfoldable pub revert_all : List Transaction → Action (World st) StepError (Unit {0})
  revert_all [] w = (ok tt, w)
  revert_all (tx ∷ txs) w = revert_all txs (revert_transaction tx w).1

  -- `revertBusinessData`: the errors of the single transactions are only logged.
  unfoldable pub revert_business_data : ReorgEvent → Action (World st) StepError (Unit {0})
  revert_business_data event w =
      revert_all
        (affected_transactions event.chain_id
          (block_range event.new_block_number event.old_block_number) w.store)
        w

  -- `cleanAffectedData`.
  unfoldable pub clean_affected_data : ReorgEvent → Action (World st) StepError (Unit {0})
  clean_affected_data event =
      let from = event.new_block_number in
      let to = event.old_block_number in
      in_store st (writing delete_blocks_failed (st.delete_blocks event.chain_id from to))
      >> in_store st (writing delete_logs_failed (st.delete_logs event.chain_id from to))

  -- `resetScannerWatermark`; `locked` and `now` are those of `ResetToHeight`.
  unfoldable pub reset_scanner_watermark :
      (locked : Bool) → (now : ℕ) → ReorgEvent → Action (World st) StepError (Unit {0})
  reset_scanner_watermark locked now event w = elim w.scanner [
    | none ↦ (err scanner_not_found, w)
    | some scanner ↦
        let (scanner', e) = reset_watermark locked now (event.old_block_number - 1) scanner in
        let w' : World st = record w { scanner = some scanner' } in
        elim e [ none ↦ (ok tt, w') | some e ↦ (err (reset_failed e), w') ]
  ]

  -- `markEventAsProcessed`.
  unfoldable pub mark_event_as_processed : ReorgEvent → Action (World st) StepError (Unit {0})
  mark_event_as_processed event =
      in_store st (writing save_failed (st.save_reorg_event (record event { processed = true })))

  -- The table of steps of `processEvent`.
  unfoldable pub steps :
      (locked : Bool)
      → (now : ℕ) → List (String × (ReorgEvent → Action (World st) StepError (Unit {0})))
  steps locked now =
      ("validate", validate_event)
      ∷ ("mark_transactions", mark_reverted_transactions)
      ∷ ("revert_business_data", revert_business_data)
      ∷ ("clean_data", clean_affected_data)
      ∷ ("reset_watermark", reset_scanner_watermark locked now)
      ∷ ("mark_processed", mark_event_as_processed)
      ∷ []
