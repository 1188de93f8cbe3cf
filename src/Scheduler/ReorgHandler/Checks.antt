-- ===== src/Scheduler/ReorgHandler/Checks.antt =====
-- What the scanner's own reorg check does.
use smart_scanner.Common.{
  ℕ, String, ◌≡◌, ◌⊎◌, inl, inr, refl, ap, ◌∙◌, Bool, true, false, List, [], ◌∷◌, Outcome, err,
  ◌==◌, Outcome-cases, Bool-cases,
}
use smart_scanner.Scheduler.Watermark.{get_watermark, update_scanned_height, reset_to_height}
use smart_scanner.Scheduler.Watermark.Hashes.{
  update_scanned_height-hashes, reset_to_height-hashes, get_block_hash-empty,
}
use smart_scanner.Scheduler.ReorgHandler.{
  ReorgHandler, handle_reorg, already_in_progress, ReorgState, check_reorg, ScannerCall, scanned,
  reset, check, with_watermark, step, run,
}

-- The processing mark is off after `HandleReorg`, on every branch, unless another call had set it.
pub handle_reorg-processing :
    (reorg_lock : Outcome String (Unit {0})) (locked : Bool) (now old_height new_height : ℕ)
    (h : ReorgHandler)
    → let r = handle_reorg reorg_lock locked now old_height new_height h in
      ((h.processing ≡ true) × (r ≡ (err already_in_progress, h))) ⊎ (r.1.processing ≡ false)
unfolding handle_reorg
handle_reorg-processing reorg_lock locked now old_height new_height h =
    elim (Bool-cases h.processing) [
      | inl busy ↦ inl (busy, rw (busy, handle_reorg) refl)
      | inr free ↦ elim (Outcome-cases reorg_lock) [
        | inl (u, e) ↦ inr (rw (free, e, handle_reorg) refl)
        | inr (x, e) ↦ inr (rw (free, e, handle_reorg) refl)
      ]
    ]

module _ (detect : ℕ → String → Outcome String (Bool × ℕ)) where
  check_reorg-blind :
      (reorg_lock : Outcome String (Unit {0})) (locked : Bool) (now : ℕ) (s : ReorgState)
      → s.handler.watermark.block_hashes ≡ []
      → check_reorg detect reorg_lock locked now s ≡ s
  unfolding check_reorg
  check_reorg-blind reorg_lock locked now s empty =
      elim (Outcome-cases (get_watermark s.handler.watermark)) [
        | inr (x, e) ↦ rw (e, check_reorg) refl
        | inl (w, e) ↦
            let none_stored = get_block_hash-empty s.handler.watermark w.scanned_height empty in
            elim (Bool-cases (w.scanned_height == 0)) [
              | inl z ↦ rw (e, z, check_reorg) refl
              | inr z ↦ rw (e, none_stored, z, check_reorg) refl
            ]
      ]

  -- A scanner that starts without block hashes, as the constructor makes it, never finds a reorg:
  -- whatever its tasks and resets do, none of its checks changes anything, whatever the node answers.
  pub run-blind :
      (cs : List ScannerCall) (reorg_lock : Outcome String (Unit {0})) (locked : Bool) (now : ℕ)
      (s : ReorgState)
      → s.handler.watermark.block_hashes ≡ []
      → check_reorg detect reorg_lock locked now (run detect cs s) ≡ run detect cs s
  unfolding run step
  run-blind [] reorg_lock locked now s empty = check_reorg-blind reorg_lock locked now s empty
  run-blind (scanned l t height ∷ cs) reorg_lock locked now s empty =
      let m = (update_scanned_height l s.handler.watermark height t).0 in
      run-blind cs reorg_lock locked now (with_watermark m s)
        (update_scanned_height-hashes l s.handler.watermark height t ∙ empty)
  run-blind (reset l t height ∷ cs) reorg_lock locked now s empty =
      let m = (reset_to_height l s.handler.watermark height t).0 in
      run-blind cs reorg_lock locked now (with_watermark m s)
        (reset_to_height-hashes l s.handler.watermark height t empty)
  run-blind (check rl l t ∷ cs) reorg_lock locked now s empty =
      run-blind cs reorg_lock locked now (check_reorg detect rl l t s)
        (ap (λ x. x.handler.watermark.block_hashes) (check_reorg-blind rl l t s empty) ∙ empty)
