-- ===== src/Consumer/ReorgHandler/Advanced.antt =====
-- internal/consumer/reorg_handler.go: the advanced handler of a reorg event, which calls the steps of
-- the default one. Its timeout is left out.
use smart_scanner.Common.{
  ℕ, ◌≤◌, ◌≡◌, refl, ap, inl, inr, Bool, true, List, ◌∷◌, Outcome, err, wrap, is_ok, if◌then◌else◌,
  ltb, le→ltb_false, Outcome-cases, Bool-cases,
}
use smart_scanner.Common.Actions.{Action, ◌>>◌, pure, writing, seq-writing}
use smart_scanner.Types.{ReorgEvent}
use smart_scanner.Storage.{Storage}
use smart_scanner.Consumer.ReorgHandler.{
  ReorgError, EventKey, is_processing, delete_key, validate_reorg_event,
  mark_transactions_as_reverted, cleanup_reorg_data, mark_reorg_event_as_processed, reorg_steps,
  handle_reorg,
}

pub record ReorgHandlerConfig : Type 0 where
  pub max_allowed_depth : ℕ
  pub enable_business_data_reversion : Bool
  pub enable_data_cleanup : Bool

pub data AdvancedError : Type 0 where
  being_processed : AdvancedError
  depth_exceeds : (depth max_allowed : ℕ) → AdvancedError
  step_failed : ReorgError → AdvancedError

module _ (st : Storage) (config : ReorgHandlerConfig) where
  unfoldable pub validate_depth : ReorgEvent → st.State → Outcome AdvancedError (Unit {0})
  validate_depth event s =
      if ltb config.max_allowed_depth event.depth
      then err (depth_exceeds event.depth config.max_allowed_depth)
      else wrap step_failed (validate_reorg_event st event s)

  abbrev step : Action st.State ReorgError (Unit {0}) → Action st.State AdvancedError (Unit {0})
  step = writing step_failed

  -- Where it is enabled, `revertBusinessData` reads and logs, and changes nothing.
  unfoldable pub advanced_steps : ReorgEvent → Action st.State AdvancedError (Unit {0})
  advanced_steps event =
      (λ s. (validate_depth event s, s))
      >> step (mark_transactions_as_reverted st event)
      >> (if config.enable_data_cleanup then step (cleanup_reorg_data st event) else pure tt)
      >> step (mark_reorg_event_as_processed st event)

  unfoldable pub advanced_handle_reorg :
      ReorgEvent → Action (List EventKey × st.State) AdvancedError (Unit {0})
  advanced_handle_reorg event (processing, s) =
      let k : EventKey = (event.chain_id, event.old_block_number, event.new_block_number) in
      let (r, s') = advanced_steps event s in
      if is_processing k processing
      then (err being_processed, (processing, s))
      else (r, (delete_key k (k ∷ processing), s'))

  validated :
      (event : ReorgEvent) (s : st.State)
      → event.depth ≤ config.max_allowed_depth
      → (validate_depth event s, s)
        ≡ writing step_failed (λ t. (validate_reorg_event st event t, t)) s
  unfolding validate_depth
  validated event s shallow =
      let allowed = le→ltb_false config.max_allowed_depth event.depth shallow in
      elim (Outcome-cases (validate_reorg_event st event s)) [
        | inl (u, e) ↦ rw (allowed, e, writing) refl
        | inr (x, e) ↦ rw (allowed, e, writing) refl
      ]

  steps-default :
      (event : ReorgEvent) (s : st.State)
      → event.depth ≤ config.max_allowed_depth
      → config.enable_data_cleanup ≡ true
      → advanced_steps event s ≡ writing step_failed (reorg_steps st event) s
  unfolding advanced_steps reorg_steps validate_depth
  steps-default event s shallow clean =
      let v : Action st.State ReorgError (Unit {0}) = λ t. (validate_reorg_event st event t, t) in
      let w : Action st.State AdvancedError (Unit {0}) = λ t. (validate_depth event t, t) in
      let a = mark_transactions_as_reverted st event in
      let b = cleanup_reorg_data st event in
      let c = mark_reorg_event_as_processed st event in
      let clean_step = if config.enable_data_cleanup then step b else pure tt in
      seq-writing step_failed (v >> a >> b) c (w >> step a >> clean_step) (step c) s
        (seq-writing step_failed (v >> a) b (w >> step a) clean_step s
          (seq-writing step_failed v a w (step a) s (validated event s shallow) (λ t. refl))
          (λ t. ap (λ x. (if x then step b else pure tt) t) clean))
        (λ t. refl)

  -- For an event that is not deeper than its maximum, and with the cleanup enabled, the advanced handler
  -- leaves the storage and the running events as the default one does, and succeeds exactly where that
  -- does.
  pub advanced_handle_reorg-default :
      (event : ReorgEvent) (x : List EventKey × st.State)
      → event.depth ≤ config.max_allowed_depth
      → config.enable_data_cleanup ≡ true
      → ((advanced_handle_reorg event x).1 ≡ (handle_reorg st event x).1)
        × (is_ok (advanced_handle_reorg event x).0 ≡ is_ok (handle_reorg st event x).0)
  unfolding advanced_handle_reorg handle_reorg
  advanced_handle_reorg-default event (processing, s) shallow clean =
      let same = steps-default event s shallow clean in
      elim (Bool-cases (
        is_processing (event.chain_id, event.old_block_number, event.new_block_number)
          processing)) [
            | inl busy ↦ rw busy (refl, refl)
            | inr free ↦ elim (Outcome-cases (reorg_steps st event s).0) [
              | inl (u, e) ↦ rw (free, same, writing, e) (refl, refl)
              | inr (x, e) ↦ rw (free, same, writing, e) (refl, refl)
            ]
          ]
