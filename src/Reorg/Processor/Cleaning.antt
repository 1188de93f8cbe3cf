-- ===== src/Reorg/Processor/Cleaning.antt =====
-- What a second attempt of internal/reorg/processor.go meets after the data of an event was cleaned.
use smart_scanner.Common.{
  ℕ, ◌≤◌, ◌<◌, String, ◌≡◌, ◌⊎◌, inl, inr, refl, sym, ap, ◌∙◌, Bool, false, arith, ok, is_ok,
  Outcome-cases,
}
use smart_scanner.Common.Actions.{Keeps}
use smart_scanner.Types.{Block, ReorgEvent}
use smart_scanner.Storage.{Storage}
use smart_scanner.Reorg.Detector.{World}
use smart_scanner.Reorg.Processor.Steps.{
  validate_fields, validate_event, clean_affected_data, reset_scanner_watermark,
}

-- What the storage documents about blocks found by hash: a deletion that succeeded leaves no block
-- of its range, and the logs are kept apart.
pub record HashLaws (st : Storage) : Type 0 where
  pub deleted :
      (c : String) (from to : ℕ) (s : st.State) (h : String) (b : Block)
      → (st.delete_blocks c from to s).0 ≡ ok tt
      → st.get_block_by_hash c h (st.delete_blocks c from to s).1 ≡ ok b
      → (b.number < from) ⊎ (to < b.number)
  pub logs_apart :
      (c : String) (from to : ℕ) (d h : String)
      → Keeps (st.get_block_by_hash d h) (st.delete_logs c from to)

module _ (st : Storage) (laws : HashLaws st) where
  reset-store :
      (locked : Bool) (now : ℕ) (event : ReorgEvent) (w : World st)
      → (reset_scanner_watermark st locked now event w).1.store ≡ w.store
  unfolding reset_scanner_watermark
  reset-store locked now event w = ground arith

  clean-store :
      (event : ReorgEvent) (w : World st) (u v : Unit {0})
      → let c = event.chain_id in
        let from = event.new_block_number in
        let to = event.old_block_number in
        let s = (st.delete_blocks c from to w.store).1 in
        (st.delete_blocks c from to w.store).0 ≡ ok u
        → (st.delete_logs c from to s).0 ≡ ok v
        → (clean_affected_data st event w).1.store ≡ (st.delete_logs c from to s).1
  unfolding clean_affected_data
  clean-store event w u v done cleaned = ground (arith, done, cleaned)

  -- The block's number is outside the deleted range.
  clean-outside :
      (event : ReorgEvent) (w : World st) (h : String) (b : Block)
      → (clean_affected_data st event w).0 ≡ ok tt
      → st.get_block_by_hash event.chain_id h (clean_affected_data st event w).1.store ≡ ok b
      → (b.number < event.new_block_number) ⊎ (event.old_block_number < b.number)
  unfolding clean_affected_data
  clean-outside event w h b =
      let c = event.chain_id in
      let from = event.new_block_number in
      let to = event.old_block_number in
      let s = (st.delete_blocks c from to w.store).1 in
      elim (Outcome-cases (st.delete_blocks c from to w.store).0) [
        | inr (e, failed) ↦ ground (arith, failed)
        | inl (u, done) ↦ elim (Outcome-cases (st.delete_logs c from to s).0) [
          | inr (e, failed) ↦ ground (arith, done, failed)
          | inl (v, cleaned) ↦ λ ok_tt found. laws.deleted c from to w.store h b done (
              sym (laws.logs_apart c from to c h s)
              ∙ ap (st.get_block_by_hash c h) (sym (clean-store event w u v done cleaned))
              ∙ found)
        ]
      ]

  store-invalid :
      (event : ReorgEvent) (w w' : World st)
      → event.new_block_number ≤ event.old_block_number
      → (clean_affected_data st event w).0 ≡ ok tt
      → w'.store ≡ (clean_affected_data st event w).1.store
      → is_ok (validate_event st event w').0 ≡ false
  unfolding validate_event
  store-invalid event w w' ordered done same =
      let c = event.chain_id in
      let h = event.new_block_hash in
      elim (Outcome-cases (validate_fields event)) [
        | inr (e, invalid) ↦ ground (arith, invalid)
        | inl (u, valid) ↦ elim (Outcome-cases (st.get_block_by_hash c h w'.store)) [
          | inr (e, missing) ↦ ground (arith, valid, missing)
          | inl (b, found) ↦
              let outside =
                clean-outside event w h b done (ap (st.get_block_by_hash c h) (sym same) ∙ found) in
              ground (arith, valid, found, outside)
        ]
      ]

  -- Where the storage meets its laws, once cleanAffectedData has succeeded for an event whose new
  -- block is not above its old one, the event does not pass validateEvent again, whether or not
  -- the watermark was reset.
  pub clean_affected_data-invalidates :
      (event : ReorgEvent) (w : World st) (locked : Bool) (now : ℕ)
      → event.new_block_number ≤ event.old_block_number
      → (clean_affected_data st event w).0 ≡ ok tt
      → let cleaned = (clean_affected_data st event w).1 in
        (is_ok (validate_event st event cleaned).0 ≡ false)
        × (is_ok (validate_event st event (reset_scanner_watermark st locked now event cleaned).1).0
            ≡ false)
  unfolding validate_event
  clean_affected_data-invalidates event w locked now ordered done =
      let cleaned = (clean_affected_data st event w).1 in
      (
        store-invalid event w cleaned ordered done refl,
        store-invalid event w (reset_scanner_watermark st locked now event cleaned).1 ordered done
            (reset-store locked now event cleaned),
      )
