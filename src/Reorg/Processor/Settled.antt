-- ===== src/Reorg/Processor/Settled.antt =====
-- The status and the statistics after an event of internal/reorg/processor.go.
use smart_scanner.Common.{
  ℕ, ◌+◌, ◌≡◌, refl, sym, ap, ◌∙◌, Bool, true, false, Option, none, some, arith, Outcome, ok, err,
  is_ok, if◌then◌else◌, length,
}
use mathlib.Core.Bool.{true≢false}
use smart_scanner.Types.{ReorgEvent}
use smart_scanner.Storage.{Storage}
use smart_scanner.Reorg.Processor.Steps.{steps}
use smart_scanner.Reorg.Processor.Run.{
  Processing, ProcessorConfig, ProcessingStatus, ProcessorStatistics, EventError, run_steps,
  process_event, update_processing_step, clear_processing_status, update_statistics, count_result,
  begin, finish,
}
use smart_scanner.Reorg.Processor.Loop.{
  run_steps-statistics, run_steps-status, is_some, update_processing_step-is_some,
}

module _ (st : Storage) where
  -- The chain is not being processed, and no step is under way.
  abbrev pub Settled : Option ProcessingStatus → Type 0
  Settled none = ⊥
  Settled (some status) = (status.is_processing ≡ false) × (status.current_step ≡ "")

  clear_processing_status-Settled :
      (now : ℕ) (o : Option ProcessingStatus)
      → is_some st o ≡ true
      → Settled (clear_processing_status now o)
  unfolding clear_processing_status
  clear_processing_status-Settled now none e = true≢false (sym e)
  clear_processing_status-Settled now (some status) e = (refl, refl)

  finish-Settled :
      (config : ProcessorConfig) (started finished : ℕ) (event : ReorgEvent)
      (r : Outcome EventError (Unit {0})) (p : Processing st)
      → is_some st p.status ≡ true
      → Settled
          (clear_processing_status finished (finish st config started finished event r p).status)
  unfolding finish
  finish-Settled config started finished event (ok u) p e =
      clear_processing_status-Settled finished (update_processing_step "completed" (1, 1) p.status)
        (update_processing_step-is_some st "completed" (1, 1) p.status ∙ e)
  finish-Settled config started finished event (err x) p e =
      clear_processing_status-Settled finished p.status e

  -- After `processEvent`, successful or not, the chain is not being processed and no step is under
  -- way.
  pub process_event-Settled :
      (config : ProcessorConfig) (locked : Bool) (started finished : ℕ) (event : ReorgEvent)
      (p : Processing st)
      → Settled (process_event st config locked started finished event p).1.status
  unfolding process_event
  process_event-Settled config locked started finished event p =
      let table = steps st locked finished in
      let r = run_steps st 0 (length table) table event (begin st started p) in
      finish-Settled config started finished event r.0 r.1
        (run_steps-status st 0 (length table) table event (begin st started p))

  -- The numbers of processed and of failed events.
  abbrev pub counts : Option ProcessorStatistics → ℕ × ℕ
  counts none = (0, 0)
  counts (some stats) = (stats.total_processed, stats.total_failed)

  finish-counts :
      (config : ProcessorConfig) (started finished : ℕ) (event : ReorgEvent)
      (r : Outcome EventError (Unit {0})) (p : Processing st)
      → counts (finish st config started finished event r p).statistics ≡ (
          if is_ok r
          then ((counts p.statistics).0 + 1, (counts p.statistics).1)
          else counts p.statistics)
  unfolding finish update_statistics count_result
  finish-counts config started finished event (err e) p = refl
  finish-counts config started finished event (ok u) p = ground arith

  -- A processed event is counted as processed, and a failed one is not counted at all: the number
  -- of failed events never changes.
  pub process_event-counts :
      (config : ProcessorConfig) (locked : Bool) (started finished : ℕ) (event : ReorgEvent)
      (p : Processing st)
      → let r = process_event st config locked started finished event p in
        counts r.1.statistics ≡ (
          if is_ok r.0
          then ((counts p.statistics).0 + 1, (counts p.statistics).1)
          else counts p.statistics)
  unfolding process_event
  process_event-counts config locked started finished event p =
      let table = steps st locked finished in
      let r = run_steps st 0 (length table) table event (begin st started p) in
      let kept = run_steps-statistics st 0 (length table) table event (begin st started p) in
      finish-counts config started finished event r.0 r.1
      ∙ ap (λ s. if is_ok r.0 then ((counts s).0 + 1, (counts s).1) else counts s)
          (ap (λ x. x.0) kept)
