-- ===== src/Scheduler/Worker/Processing.antt =====
-- internal/scheduler/worker.go: processTask, whose result is dropped where the queue is full.
use smart_scanner.Common.{
  ℕ, zero, suc, ◌+◌, ◌-◌, ◌≤◌, ◌<◌, String, ◌≡◌, refl, ◌∙◌, sym, ap, Bool, Option, none, some, List,
  [], ◌∷◌, ◌++◌, map, Outcome, if◌then◌else◌, ltb, length, length-append, take, arith, lt→ltb,
  le→ltb_false, add64, u64_mod,
}
use mathlib.Core.List.{append-nil, append_assoc}
use smart_scanner.Types.{Block, ScanTask}
use smart_scanner.Scheduler.Tasks.{ConcurrencyConfig}
use smart_scanner.Scheduler.Worker.{Scan, ScanError, scan_blocks}

-- A result has an error exactly if it is no success; the duration is left out.
pub record ScanResult : Type 0 where
  pub task : ScanTask
  pub blocks_scanned : ℕ
  pub txs_found : ℕ
  pub error : Option ScanError

pub record WorkerState : Type 0 where
  pub current_task : Option ScanTask
  pub tasks_completed : ℕ
  pub tasks_failed : ℕ

-- The counts of a scan that failed are not passed on.
abbrev pub result_of : ScanTask → Scan → ScanResult
result_of task scan = elim scan.error [
  | none ↦ record {
    task = task;
    blocks_scanned = scan.blocks_scanned;
    txs_found = scan.txs_found;
    error = none;
  }
  | some e ↦ record { task = task; blocks_scanned = 0; txs_found = 0; error = some e }
]

abbrev pub count : Option ScanError → WorkerState → WorkerState
count none w = record w { tasks_completed = add64 w.tasks_completed 1 }
count (some e) w = record w { tasks_failed = add64 w.tasks_failed 1 }

abbrev if_ok : Option ScanError → ℕ → ℕ → ℕ
if_ok none a b = a
if_ok (some e) a b = b

-- A send that does not wait, on a queue for `cap` results.
abbrev pub send : (cap : ℕ) → ScanResult → List ScanResult → List ScanResult
send cap r queue = if ltb (length queue) cap then queue ++ (r ∷ []) else queue

send-full :
    (cap : ℕ) (r : ScanResult) (queue : List ScanResult)
    → cap ≤ length queue
    → send cap r queue ≡ queue
send-full cap r queue h = rw (le→ltb_false (length queue) cap h) refl

send-room :
    (cap : ℕ) (r : ScanResult) (queue : List ScanResult)
    → length queue < cap
    → send cap r queue ≡ queue ++ (r ∷ [])
send-room cap r queue h = rw (lt→ltb (length queue) cap h) refl

module _ (fetch : List ℕ → Outcome String (List (Option Block))) (config : ConcurrencyConfig)
    (stopped : ℕ → Bool) (cap : ℕ) where
  abbrev pub scan_of : ScanTask → Scan
  scan_of task = scan_blocks fetch config stopped task.start_block task.end_block

  unfoldable pub process_task :
      ScanTask → WorkerState × List ScanResult → WorkerState × List ScanResult
  process_task task (w, queue) =
      let scan = scan_of task in
      (record (count scan.error w) { current_task = none }, send cap (result_of task scan) queue)

  -- The loop of `Start` over the tasks that it takes.
  unfoldable pub process_tasks :
      List ScanTask → WorkerState × List ScanResult → WorkerState × List ScanResult
  process_tasks [] s = s
  process_tasks (t ∷ ts) s = process_tasks ts (process_task t s)

  -- How many of the tasks succeed, and how many fail.
  abbrev pub succeeded : List ScanTask → ℕ
  succeeded [] = 0
  succeeded (t ∷ ts) = if_ok (scan_of t).error 1 0 + succeeded ts

  abbrev pub failing : List ScanTask → ℕ
  failing [] = 0
  failing (t ∷ ts) = if_ok (scan_of t).error 0 1 + failing ts

  count-completed :
      (e : Option ScanError) (w : WorkerState) (n : ℕ)
      → add64 (count e w).tasks_completed n ≡ add64 w.tasks_completed (if_ok e 1 0 + n)
  count-completed none w n = omega arith
  count-completed (some e) w n = omega arith

  count-failed :
      (e : Option ScanError) (w : WorkerState) (n : ℕ)
      → add64 (count e w).tasks_failed n ≡ add64 w.tasks_failed (if_ok e 0 1 + n)
  count-failed none w n = omega arith
  count-failed (some e) w n = omega arith

  -- The counters are uint64s.
  abbrev pub InRange : WorkerState → Type 0
  InRange w = (w.tasks_completed < u64_mod) × (w.tasks_failed < u64_mod)

  count-InRange : (e : Option ScanError) (w : WorkerState) → InRange w → InRange (count e w)
  count-InRange none w h = (omega arith, h.1)
  count-InRange (some e) w h = (h.0, omega arith)

  -- Every task is counted once, where it belongs.
  process_tasks-counts :
      (ts : List ScanTask) (w : WorkerState) (queue : List ScanResult)
      → InRange w
      → let w' = (process_tasks ts (w, queue)).0 in
        (w'.tasks_completed ≡ add64 w.tasks_completed (succeeded ts))
        × (w'.tasks_failed ≡ add64 w.tasks_failed (failing ts))
  unfolding process_tasks process_task
  process_tasks-counts [] w queue h = (omega (arith, h.0), omega (arith, h.1))
  process_tasks-counts (t ∷ ts) w queue h =
      let e = (scan_of t).error in
      let (completed, failed) =
        process_tasks-counts ts (record (count e w) { current_task = none })
          (send cap (result_of t (scan_of t)) queue) (count-InRange e w h) in
      (completed ∙ count-completed e w (succeeded ts), failed ∙ count-failed e w (failing ts))

  abbrev pub results : List ScanTask → List ScanResult
  results ts = map (λ t. result_of t (scan_of t)) ts

  sent :
      (ts : List ScanTask) (w : WorkerState) (queue : List ScanResult) (room : ℕ)
      → length queue + room ≡ cap
      → (process_tasks ts (w, queue)).1 ≡ queue ++ take room (results ts)
  unfolding process_tasks process_task
  sent [] w queue zero h = sym (append-nil queue)
  sent [] w queue (suc room) h = sym (append-nil queue)
  sent (t ∷ ts) w queue zero h =
      let w' : WorkerState = record (count (scan_of t).error w) { current_task = none } in
      let r = result_of t (scan_of t) in
      ap (λ q. (process_tasks ts (w', q)).1) (send-full cap r queue (omega arith))
      ∙ sent ts w' queue zero h
  sent (t ∷ ts) w queue (suc room) h =
      let w' : WorkerState = record (count (scan_of t).error w) { current_task = none } in
      let r = result_of t (scan_of t) in
      ap (λ q. (process_tasks ts (w', q)).1) (send-room cap r queue (omega arith))
      ∙ sent ts w' (queue ++ (r ∷ [])) room (omega (arith, length-append queue (r ∷ [])))
      ∙ append_assoc queue (r ∷ []) (take room (results ts))

  -- A worker that processes tasks while nobody reads its results, on a queue that is not over its
  -- capacity, adds the number of the tasks that succeed to its uint64 count of completed tasks and
  -- the number of those that fail to that of failed ones, modulo 2^64, and sends the first results
  -- in their order, as far as the queue has room; the others are dropped.
  pub process_tasks-drops :
      (ts : List ScanTask) (w : WorkerState) (queue : List ScanResult)
      → InRange w
      → length queue ≤ cap
      → let r = process_tasks ts (w, queue) in
        (r.1 ≡ queue ++ take (cap - length queue) (results ts))
        × (r.0.tasks_completed ≡ add64 w.tasks_completed (succeeded ts))
        × (r.0.tasks_failed ≡ add64 w.tasks_failed (failing ts))
  process_tasks-drops ts w queue small h =
      let counts = process_tasks-counts ts w queue small in
      (sent ts w queue (cap - length queue) (omega arith), counts.0, counts.1)
