-- ===== src/Reorg/Processor/Order.antt =====
-- The order of the steps in internal/reorg/processor.go.
use smart_scanner.Common.{
  ℕ, ◌≡◌, inl, inr, refl, ap, ◌∙◌, Bool, List, [], ◌∷◌, Outcome, ok, err, length, Outcome-cases,
}
use smart_scanner.Common.Actions.{Action, pure, ◌>>◌}
use smart_scanner.Types.{ReorgEvent}
use smart_scanner.Storage.{Storage}
use smart_scanner.Reorg.Detector.{World}
use smart_scanner.Reorg.Processor.Steps.{
  validate_event, mark_reverted_transactions, revert_business_data, clean_affected_data,
  reset_scanner_watermark, mark_event_as_processed, steps,
}
use smart_scanner.Reorg.Processor.Run.{
  Processing, ProcessorConfig, EventError, run_steps, process_event, begin, finish,
}
use smart_scanner.Reorg.Processor.Loop.{Step, named, in_order, run_steps-world}

module _ (st : Storage) where
  -- The steps of a table as a sequence of actions.
  abbrev chain : List (Step st) → ReorgEvent → Action (World st) EventError (Unit {0})
  chain [] event = pure tt
  chain ((name, step) ∷ rest) event = named st name (step event) >> chain rest event

  in_order-chain :
      (table : List (Step st)) (event : ReorgEvent) (w : World st)
      → in_order st table event w ≡ chain table event w
  in_order-chain [] event w = refl
  in_order-chain ((name, step) ∷ rest) event w = elim (Outcome-cases (step event w).0) [
    | inl (u, e) ↦ rw (e, in_order, chain, named, ◌>>◌) (in_order-chain rest event (step event w).1)
    | inr (x, e) ↦ rw (e, in_order, chain, named, ◌>>◌) refl
  ]

  finish-world :
      (config : ProcessorConfig) (started finished : ℕ) (event : ReorgEvent)
      (r : Outcome EventError (Unit {0})) (p : Processing st)
      → (finish st config started finished event r p).world ≡ p.world
  unfolding finish
  finish-world config started finished event (ok u) p = refl
  finish-world config started finished event (err e) p = refl

  -- `processEvent` runs its six steps in this order on the scanner and the storage, up to the
  -- first that fails, and returns that step's name and error.
  pub process_event-steps :
      (config : ProcessorConfig) (locked : Bool) (started finished : ℕ) (event : ReorgEvent)
      (p : Processing st)
      → let r = process_event st config locked started finished event p in
        ◌≡◌ {A = Outcome EventError (Unit {0}) × World st}
          (r.0, r.1.world)
          ((named st "validate" (validate_event st event)
              >> (named st "mark_transactions" (mark_reverted_transactions st event)
                  >> (named st "revert_business_data" (revert_business_data st event)
                      >> (named st "clean_data" (clean_affected_data st event)
                          >> (named st "reset_watermark"
                                (reset_scanner_watermark st locked finished event)
                              >> (named st "mark_processed" (mark_event_as_processed st event)
                                  >> pure tt))))))
            p.world)
  unfolding process_event steps
  process_event-steps config locked started finished event p =
      let table = steps st locked finished in
      let r = run_steps st 0 (length table) table event (begin st started p) in
      ap (λ w. (r.0, w)) (finish-world config started finished event r.0 r.1)
      ∙ run_steps-world st 0 (length table) table event (begin st started p)
      ∙ in_order-chain table event p.world
