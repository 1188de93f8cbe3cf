-- ===== src/Reorg/Processor/Tests.antt =====
-- Runs of the reorg processor on the storage in memory, which meets what the storage documents.
use smart_scanner.Common.{
  pos, none, ℕ, ◌+◌, ◌*◌, String, ◌≡◌, refl, ap, Bool, true, false, not, ◌&&◌, none, some, List, [],
  ◌∷◌, arith, Outcome, ok, err, is_ok, str_eq,
}
use smart_scanner.Types.{Block, ReorgEvent}
use smart_scanner.Storage.Memory.{memory, Tables, keep, find_first, within}
use smart_scanner.Scheduler.Scanner.{Scanner, reset_watermark}
use smart_scanner.Scheduler.Watermark.{reset_to_height, reset_step, with_current}
use smart_scanner.Reorg.Detector.{World}
use smart_scanner.Reorg.Processor.Steps.{
  scanner_not_found, new_block_missing, validate_fields, validate_event, mark_reverted_transactions,
  affected_transactions, revert_transaction, revert_all, revert_business_data, clean_affected_data,
  reset_scanner_watermark, mark_event_as_processed, steps,
}
use smart_scanner.Reorg.Processor.Run.{
  Processing, ProcessorConfig, EventError, step_failed, attempts_failed, process_event,
  process_event_with_retry, run_steps, finish,
}
use smart_scanner.Reorg.Processor.Order.{process_event-steps}
use smart_scanner.Reorg.Processor.Retries.{none_yet, one_more, process_event_with_retry-exhausted}
use smart_scanner.Reorg.Processor.Cleaning.{HashLaws, clean_affected_data-invalidates}

abbrev block : ℕ → String → Block
block n h = record {
  chain_id = "1";
  number = n;
  hash = h;
  timestamp = pos 0;
  parent_hash = "";
  transactions = [];
}

abbrev event : ReorgEvent
event = record {
  chain_id = "1";
  detected_at = 77;
  old_block_number = 9;
  old_block_hash = "stale";
  new_block_number = 5;
  new_block_hash = "new";
  depth = 4;
  affected_txs = [];
  processed = false;
}

abbrev tables : Tables
tables = record {
  blocks = block 9 "stale" ∷ block 5 "new" ∷ block 4 "common" ∷ [];
  transactions = [];
  events = [];
  logs = [];
  watermarks = [];
}

abbrev cleaned : Tables
cleaned = record tables { blocks = block 4 "common" ∷ [] }

abbrev scanner : Scanner
scanner = record {
  client = record { get_current_height = ok 12; get_block = λ n. ok (block n "new") };
  watermark = record {
    chain_id = "1";
    reorg_detection_depth = 12;
    watermark = some (record {
      chain_id = "1";
      scanned_height = 9;
      confirmed_height = 2;
      finalized_height = 1;
      reorg_boundary = 0;
      last_update_time = 7;
    });
    block_hashes = [];
  };
}

abbrev without_scanner : Processing memory
without_scanner = record {
  world = record { scanner = none; store = tables };
  status = none;
  statistics = none;
  rescans = [];
}

abbrev with_scanner : Processing memory
with_scanner = record without_scanner { world = record { scanner = some scanner; store = tables } }

abbrev config : ProcessorConfig
config = record { max_retries = 1; enable_auto_rescan = true }

process_event-steps_example :
    let r = process_event memory config true 10 20 event without_scanner in
    ◌≡◌ {A = Outcome EventError (Unit {0}) × World memory}
      (r.0, r.1.world)
      (
        err (step_failed "reset_watermark" scanner_not_found),
        record { scanner = none; store = cleaned },
      )
unfolding validate_fields validate_event mark_reverted_transactions affected_transactions
    revert_transaction revert_all revert_business_data clean_affected_data reset_scanner_watermark
    mark_event_as_processed
process_event-steps_example = process_event-steps memory config true 10 20 event without_scanner

abbrev clock : ℕ → ℕ × ℕ
clock i = (10 * i, 10 * i + 5)

succeeds : (process_event memory config true 0 5 event with_scanner).0 ≡ ok tt
unfolding process_event run_steps steps validate_fields validate_event mark_reverted_transactions
    affected_transactions revert_transaction revert_all revert_business_data clean_affected_data
    reset_scanner_watermark mark_event_as_processed reset_watermark reset_to_height reset_step
    with_current
succeeds = refl

find_first-kept {ℓ} :
    {A : Type ℓ} (test kept : A → Bool) (e : String) (xs : List A) (x : A)
    → find_first test e (keep kept xs) ≡ ok x
    → (test x ≡ true) × (kept x ≡ true)
find_first-kept test kept e [] x = ground arith
find_first-kept test kept e (y ∷ ys) x = ground (arith, find_first-kept test kept e ys x)

memory-HashLaws : HashLaws memory
memory-HashLaws = record {
  deleted = λ c from to s h b done found.
      let facts =
        find_first-kept (λ b. str_eq b.chain_id c && str_eq b.hash h)
          (λ b. not (str_eq b.chain_id c && within from to b.number)) "block not found" s.blocks b
          found in
      ground (arith, facts);
  logs_apart = λ c from to d h s. refl;
}

abbrev first_failed : Processing memory
first_failed = (process_event memory config true 0 5 event without_scanner).1

abbrev second_failed : Processing memory
second_failed = (process_event memory config true 10 15 event first_failed).1

clean_affected_data-invalidates_example :
    let w : World memory = record { scanner = none; store = cleaned } in
    (is_ok (validate_event memory event w).0 ≡ false)
    × (is_ok (validate_event memory event (reset_scanner_watermark memory true 5 event w).1).0
        ≡ false)
unfolding clean_affected_data
clean_affected_data-invalidates_example =
    clean_affected_data-invalidates memory memory-HashLaws event without_scanner.world true 5
      (omega arith) refl

first_fails :
    (process_event memory config true 0 5 event without_scanner).0
    ≡ err (step_failed "reset_watermark" scanner_not_found)
unfolding process_event run_steps steps validate_fields validate_event mark_reverted_transactions
    affected_transactions revert_transaction revert_all revert_business_data clean_affected_data
    reset_scanner_watermark mark_event_as_processed
first_fails = refl

second_fails :
    (process_event memory config true 10 15 event first_failed).0
    ≡ err (step_failed "validate" (new_block_missing "block not found"))
unfolding process_event run_steps steps finish validate_fields validate_event
    mark_reverted_transactions affected_transactions revert_transaction revert_all
    revert_business_data clean_affected_data reset_scanner_watermark mark_event_as_processed
second_fails = refl

-- The first attempt fails for want of a scanner, the second one for the block that the first deleted.
process_event_with_retry-exhausted_example :
    process_event_with_retry memory config true clock (λ i. false) event without_scanner ≡ (
      err (attempts_failed 2 (some (step_failed "validate" (new_block_missing "block not found")))),
      second_failed,
    )
process_event_with_retry-exhausted_example =
    process_event_with_retry-exhausted memory config true clock (λ i. false) event (λ i. refl)
      (some (step_failed "validate" (new_block_missing "block not found"))) without_scanner
      second_failed
      (one_more 0 1 none without_scanner first_failed second_failed
        (step_failed "reset_watermark" scanner_not_found)
        (some (step_failed "validate" (new_block_missing "block not found")))
        (ap (λ r. (r, first_failed)) first_fails)
        (one_more 1 0 (some (step_failed "reset_watermark" scanner_not_found)) first_failed
          second_failed second_failed (step_failed "validate" (new_block_missing "block not found"))
          (some (step_failed "validate" (new_block_missing "block not found")))
          (ap (λ r. (r, second_failed)) second_fails)
          (none_yet 2 (some (step_failed "validate" (new_block_missing "block not found")))
            second_failed)))
