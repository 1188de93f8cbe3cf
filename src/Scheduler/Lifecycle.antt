-- ===== src/Scheduler/Lifecycle.antt =====
-- internal/scheduler/chain_scanner.go: Start and Stop, and the goroutines that they start and wait for.
-- A worker ends with the context or the closed task queue, a timed loop with the context; the
-- processors of results read a queue that nothing closes, so no step ends one.
mod Tests
use smart_scanner.Common.{
  ℕ, suc, ◌+◌, ◌≤◌, ◌<◌, ◌≡◌, min, inl, inr, refl, sym, ap, ◌∙◌, Bool, Bool-cases, true, false, ok,
  err, is_ok, if◌then◌else◌, ◌||◌, arith,
}
use mathlib.Core.Bool.{true≢false}
use smart_scanner.Common.Actions.{Action}

-- `waiting` counts the calls of Stop in `wg.Wait`.
pub record ScannerLife : Type 0 where
  pub running : Bool
  pub cancelled : Bool
  pub queue_closed : Bool
  pub workers : ℕ
  pub processors : ℕ
  pub loops : ℕ
  pub waiting : ℕ

pub data LifeError : Type 0 where
  already_running : LifeError
  close_of_closed_channel : LifeError

abbrev pub new_scanner : ScannerLife
new_scanner = record {
  running = false;
  cancelled = false;
  queue_closed = false;
  workers = 0;
  processors = 0;
  loops = 0;
  waiting = 0;
}

-- The counter of the wait group.
abbrev pub group : ScannerLife → ℕ
group l = l.workers + l.processors + l.loops

module _ (max_workers : ℕ) where
  -- The context and the queue of a scanner that was stopped stay as they are.
  unfoldable pub start : Action ScannerLife LifeError (Unit {0})
  start l = if l.running then (err already_running, l) else (
    ok tt,
    record l {
      running = true;
      workers = l.workers + max_workers;
      processors = l.processors + min max_workers 4;
      loops = l.loops + 3;
    },
  )

  -- `Stop` up to its wait; closing the task queue a second time is a panic.
  unfoldable pub stop : Action ScannerLife LifeError (Unit {0})
  stop l =
      if l.running
      then if l.queue_closed
        then (err close_of_closed_channel, record l { running = false; cancelled = true })
        else (
          ok tt,
          record l {
            running = false;
            cancelled = true;
            queue_closed = true;
            waiting = l.waiting + 1;
          },
        )
      else (ok tt, l)

  pub data Step : ScannerLife → ScannerLife → Type 0 where
    start_called : {l : ScannerLife} → Step l (start l).1
    stop_called : {l : ScannerLife} → Step l (stop l).1
    worker_ends :
        {l : ScannerLife} (n : ℕ)
        → (l.cancelled || l.queue_closed) ≡ true
        → l.workers ≡ suc n
        → Step l (record l { workers = n })
    loop_ends :
        {l : ScannerLife} (n : ℕ)
        → l.cancelled ≡ true
        → l.loops ≡ suc n
        → Step l (record l { loops = n })
    stop_returns :
        {l : ScannerLife} (n : ℕ)
        → group l ≡ 0
        → l.waiting ≡ suc n
        → Step l (record l { waiting = n })

  pub data Steps : ScannerLife → ScannerLife → Type 0 where
    here : {l : ScannerLife} → Steps l l
    next : {l m n : ScannerLife} → Steps l m → Step m n → Steps l n

  -- What only grows: the processors, and, while there is one, the calls that wait.
  abbrev Grows : ScannerLife → ScannerLife → Type 0
  Grows l m = (l.processors ≤ m.processors) × (0 < l.processors → l.waiting ≤ m.waiting)

  Step-Grows : {l m : ScannerLife} → Step l m → Grows l m
  unfolding start stop
  Step-Grows (start_called {l}) = (ground arith, λ h. ground arith)
  Step-Grows (stop_called {l}) = (ground arith, λ h. ground arith)
  Step-Grows (worker_ends n done e) = (omega arith, λ h. omega arith)
  Step-Grows (loop_ends n done e) = (omega arith, λ h. omega arith)
  Step-Grows (stop_returns n empty e) = (omega arith, λ h. omega arith)

  Steps-Grows : {l m : ScannerLife} → Steps l m → Grows l m
  Steps-Grows here = (omega arith, λ h. omega arith)
  Steps-Grows (next before last) =
      let (more, waits) = Steps-Grows before in
      let (more', waits') = Step-Grows last in
      (omega arith, λ h. let first = waits h in let second = waits' (omega arith) in omega arith)

  start-processors :
      (l : ScannerLife) → 0 < max_workers → (start l).0 ≡ ok tt → 0 < (start l).1.processors
  unfolding start
  start-processors l workers started = elim (Bool-cases l.running) [
    | inl on ↦ absurd (true≢false (sym (ap is_ok (rw (on, start) at started))))
    | inr off ↦ rw (off, start) (omega arith)
  ]

  stop-open :
      (k : ScannerLife)
      → k.running ≡ true
      → k.queue_closed ≡ false
      → ((stop k).1.processors ≡ k.processors) × ((stop k).1.waiting ≡ k.waiting + 1)
  unfolding stop
  stop-open k on unclosed = rw (on, unclosed, stop) (refl, refl)

  -- Where a scanner with a worker at least was started, and Stop is called while it is running and its
  -- task queue is open, this call never returns: in every later state it still waits, and the group
  -- that it waits for is not empty.
  pub stop-waits :
      (l k m : ScannerLife)
      → 0 < max_workers
      → (start l).0 ≡ ok tt
      → Steps (start l).1 k
      → k.running ≡ true
      → k.queue_closed ≡ false
      → Steps (stop k).1 m
      → (0 < m.waiting) × (0 < group m)
  stop-waits l k m workers started before on unclosed after =
      let (more, waits) = Steps-Grows before in
      let (more', waits') = Steps-Grows after in
      let (same, one_more) = stop-open k on unclosed in
      let some_processor = start-processors l workers started in
      let waiting = waits' (omega (arith, same)) in (omega (arith, one_more), omega (arith, same))
