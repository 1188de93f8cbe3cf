-- ===== src/Scheduler/ReorgHandler.antt =====
-- internal/scheduler/reorg_handler.go, and checkReorg of internal/scheduler/chain_scanner.go, which
-- calls it. Whether the two Redis locks were acquired and what DetectReorg of the chain's node
-- answers are arguments. The event that HandleReorg publishes goes to a stub that does nothing.
pub mod Checks
pub mod Tests
use smart_scanner.Common.{
  ℕ, String, Bool, false, Option, none, some, List, [], ◌∷◌, Outcome, ok, err, if◌then◌else◌, ◌==◌,
  add64,
}
use smart_scanner.Scheduler.Watermark.{
  WatermarkManager, WatermarkError, get_watermark, get_block_hash, update_scanned_height,
  reset_to_height,
}

pub record ReorgHandler : Type 0 where
  pub processing : Bool
  pub watermark : WatermarkManager

pub data HandleError : Type 0 where
  already_in_progress : HandleError
  reorg_lock_failed : String → HandleError
  reset_failed : WatermarkError → HandleError

-- `HandleReorg`. Marking the transactions and reverting business data are stubs that do nothing.
unfoldable pub handle_reorg :
    (reorg_lock : Outcome String (Unit {0}))
    → (locked : Bool) → (now old_height new_height : ℕ) → ReorgHandler
    → Outcome HandleError (Unit {0}) × ReorgHandler
handle_reorg reorg_lock locked now old_height new_height h =
    let (m, e) = reset_to_height locked h.watermark new_height now in
    let reset : Outcome HandleError (Unit {0}) = elim e [
      | none ↦ ok tt
      | some e ↦ err (reset_failed e)
    ] in
    let done : Outcome HandleError (Unit {0}) × ReorgHandler = elim reorg_lock [
      | err e ↦ (err (reorg_lock_failed e), record h { processing = false })
      | ok u ↦ (reset, record { processing = false; watermark = m })
    ] in
    if h.processing then (err already_in_progress, h) else done

-- What `checkReorg` changes: the handler, and the count and the time of reorgs in the status.
pub record ReorgState : Type 0 where
  pub handler : ReorgHandler
  pub reorg_count : ℕ
  pub last_reorg_time : Option ℕ

-- `checkReorg`. `detect` is `DetectReorg` of the node: whether the block is gone, and the common
-- ancestor. An error of `HandleReorg` is logged.
unfoldable pub check_reorg :
    (detect : ℕ → String → Outcome String (Bool × ℕ))
    → (reorg_lock : Outcome String (Unit {0})) → (locked : Bool) → (now : ℕ) → ReorgState
    → ReorgState
check_reorg detect reorg_lock locked now s = elim (get_watermark s.handler.watermark) [
  | err e ↦ s
  | ok w ↦
      let checked : ReorgState = elim (get_block_hash s.handler.watermark w.scanned_height) [
        | err e ↦ s
        | ok hash ↦ elim (detect w.scanned_height hash) [
          | err e ↦ s
          | ok (has_reorg, ancestor) ↦
              let (r, h) = handle_reorg reorg_lock locked now w.scanned_height ancestor s.handler in
              if has_reorg
              then record {
                handler = h;
                reorg_count = add64 s.reorg_count 1;
                last_reorg_time = some now;
              }
              else s
        ]
      ] in
      if w.scanned_height == 0 then s else checked
]

-- What the scanner does to its watermark: the results of tasks, resets by the reorg components, and
-- its own checks. No code calls `SetBlockHash`.
pub data ScannerCall : Type 0 where
  scanned : (locked : Bool) → (now height : ℕ) → ScannerCall
  reset : (locked : Bool) → (now height : ℕ) → ScannerCall
  check : (reorg_lock : Outcome String (Unit {0})) → (locked : Bool) → (now : ℕ) → ScannerCall

abbrev pub with_watermark : WatermarkManager → ReorgState → ReorgState
with_watermark m s = record s { handler = record s.handler { watermark = m } }

unfoldable pub step :
    (detect : ℕ → String → Outcome String (Bool × ℕ)) → ScannerCall → ReorgState → ReorgState
step detect (scanned locked now height) s =
    with_watermark (update_scanned_height locked s.handler.watermark height now).0 s
step detect (reset locked now height) s =
    with_watermark (reset_to_height locked s.handler.watermark height now).0 s
step detect (check reorg_lock locked now) s = check_reorg detect reorg_lock locked now s

unfoldable pub run :
    (detect : ℕ → String → Outcome String (Bool × ℕ)) → List ScannerCall → ReorgState → ReorgState
run detect [] s = s
run detect (c ∷ cs) s = run detect cs (step detect c s)
