-- ===== src/Reorg/Processor/Run.antt =====
-- How internal/reorg/processor.go runs the steps of an event: the status and the statistics of a
-- chain, and the retries. The event that a status points to and the counters of a status, which
-- nothing sets, are left out, a duration is a number of
-- nanoseconds, and the maximum of retries is not negative.
use smart_scanner.Common.{
  ℕ, zero, suc, ◌+◌, ◌-◌, ◌*◌, ◌/◌, String, Bool, true, false, ◌&&◌, Option, none, some, List, [],
  ◌∷◌, Outcome, ok, err, if◌then◌else◌, ltb, length,
}
use smart_scanner.Common.Actions.{Action}
use Prim.Native.String.{◌++◌}
use smart_scanner.Types.{ReorgEvent}
use smart_scanner.Storage.{Storage}
use smart_scanner.Reorg.Detector.{World}
use smart_scanner.Reorg.Processor.Steps.{StepError, steps}

pub record ProcessorConfig : Type 0 where
  pub max_retries : ℕ
  pub enable_auto_rescan : Bool

-- The progress is the float64 quotient of two numbers.
pub record ProcessingStatus : Type 0 where
  pub is_processing : Bool
  pub start_time : ℕ
  pub last_process_time : ℕ
  pub current_step : String
  pub current_step_progress : ℕ × ℕ

pub record ProcessorStatistics : Type 0 where
  pub total_processed : ℕ
  pub total_failed : ℕ
  pub average_processing_time : ℕ
  pub last_process_time : ℕ

-- The entries of a chain in `processingStatus` and `statistics`, the world of its steps, and the
-- events that a rescan was scheduled for.
pub record Processing (st : Storage) : Type 0 where
  pub world : World st
  pub status : Option ProcessingStatus
  pub statistics : Option ProcessorStatistics
  pub rescans : List ReorgEvent

pub data EventError : Type 0 where
  step_failed : String → StepError → EventError

pub data RetryError : Type 0 where
  context_done : RetryError
  attempts_failed : ℕ → Option EventError → RetryError

-- `updateProcessingStep`.
unfoldable pub update_processing_step :
    String → ℕ × ℕ → Option ProcessingStatus → Option ProcessingStatus
update_processing_step step progress none = none
update_processing_step step progress (some status) =
    some (record status { current_step = step; current_step_progress = progress })

-- `clearProcessingStatus`.
unfoldable pub clear_processing_status :
    (now : ℕ) → Option ProcessingStatus → Option ProcessingStatus
clear_processing_status now none = none
clear_processing_status now (some status) = some (record status {
  is_processing = false;
  last_process_time = now;
  current_step = "";
  current_step_progress = (0, 1);
})

abbrev no_statistics : ProcessorStatistics
no_statistics = record {
  total_processed = 0;
  total_failed = 0;
  average_processing_time = 0;
  last_process_time = 0;
}

-- The counts and the times are int64s, which are taken not to overflow.
unfoldable pub count_result : (now duration : ℕ) → Bool → ProcessorStatistics → ProcessorStatistics
count_result now duration success stats =
    let processed = if success then stats.total_processed + 1 else stats.total_processed in
    let failed = if success then stats.total_failed else stats.total_failed + 1 in
    let total = processed + failed in
    record {
      total_processed = processed;
      total_failed = failed;
      average_processing_time =
          if ltb 0 total
          then (stats.average_processing_time * (total - 1) + duration) / total
          else stats.average_processing_time;
      last_process_time = now;
    }

-- `updateStatistics`.
unfoldable pub update_statistics :
    (now duration : ℕ) → Bool → Option ProcessorStatistics → ProcessorStatistics
update_statistics now duration success none = count_result now duration success no_statistics
update_statistics now duration success (some stats) = count_result now duration success stats

module _ (st : Storage) where
  abbrev Step : Type 0
  Step = String × (ReorgEvent → Action (World st) StepError (Unit {0}))

  -- The loop over the steps, from the step number `i` of `n` on.
  unfoldable pub run_steps :
      (i n : ℕ) → List Step → ReorgEvent → Action (Processing st) EventError (Unit {0})
  run_steps i n [] event p = (ok tt, p)
  run_steps i n ((name, step) ∷ rest) event p =
      let (r, world') = step event p.world in
      let started : Processing st = record p {
        world = world';
        status = update_processing_step name (i, n) p.status;
      } in
      elim r [
        | ok u ↦ run_steps (i + 1) n rest event started
        | err e ↦ (
          err (step_failed name e),
          record started {
            status = update_processing_step (name ++ " (failed)") (i, n) started.status;
          },
        )
      ]

  -- The status at the start of `processEvent`.
  abbrev pub begin : (started : ℕ) → Processing st → Processing st
  begin started p = record p {
    status = some (record {
      is_processing = true;
      start_time = started;
      last_process_time = 0;
      current_step = "starting";
      current_step_progress = (0, 1);
    });
  }

  -- What `processEvent` does after the steps, by their result.
  unfoldable pub finish :
      ProcessorConfig
      → (started finished : ℕ) → ReorgEvent
      → Outcome EventError (Unit {0})
      → Processing st
      → Processing st
  finish config started finished event (err e) p = p
  finish config started finished event (ok u) p = record p {
    status = update_processing_step "completed" (1, 1) p.status;
    statistics = some (update_statistics finished (finished - started) true p.statistics);
    rescans = if config.enable_auto_rescan then event ∷ p.rescans else p.rescans;
  }

  -- `processEvent` from the time `started` to the time `finished`.
  unfoldable pub process_event :
      ProcessorConfig
      → (locked : Bool) → (started finished : ℕ) → ReorgEvent
      → Action (Processing st) EventError (Unit {0})
  process_event config locked started finished event p =
      let table = steps st locked finished in
      let (r, p') = run_steps 0 (length table) table event (begin started p) in
      let done = finish config started finished event r p' in
      (r, record done { status = clear_processing_status finished done.status })

  -- The loop of `processEventWithRetry` with `left` attempts left. An attempt has its times, and
  -- the context may be cancelled before a retry.
  unfoldable pub retry :
      ProcessorConfig
      → (locked : Bool) → (clock : ℕ → ℕ × ℕ) → (cancelled : ℕ → Bool) → (left attempt : ℕ)
      → Option EventError
      → ReorgEvent
      → Action (Processing st) RetryError (Unit {0})
  retry config locked clock cancelled zero attempt last event p =
      (err (attempts_failed (config.max_retries + 1) last), p)
  retry config locked clock cancelled (suc left) attempt last event p =
      let (r, p') = process_event config locked (clock attempt).0 (clock attempt).1 event p in
      let after : Outcome RetryError (Unit {0}) × Processing st = elim r [
        | ok u ↦ (ok tt, p')
        | err e ↦ retry config locked clock cancelled left (attempt + 1) (some e) event p'
      ] in
      if ltb 0 attempt && cancelled attempt then (err context_done, p) else after

  -- `processEventWithRetry`.
  unfoldable pub process_event_with_retry :
      ProcessorConfig
      → (locked : Bool) → (clock : ℕ → ℕ × ℕ) → (cancelled : ℕ → Bool) → ReorgEvent
      → Action (Processing st) RetryError (Unit {0})
  process_event_with_retry config locked clock cancelled event =
      retry config locked clock cancelled (config.max_retries + 1) 0 none event
