-- ===== src/Scheduler/Lifecycle/Tests.antt =====
-- Runs of a scanner's life.
use smart_scanner.Common.{◌≡◌, ◌<◌, refl, true, false, arith, err}
use smart_scanner.Scheduler.Lifecycle.{
  ScannerLife, Steps, here, next, worker_ends, loop_ends, start, stop, new_scanner, group,
  close_of_closed_channel, stop-waits,
}

-- A scanner with one worker whose other goroutines have ended after Stop.
abbrev ended : ScannerLife
ended = record {
  running = false;
  cancelled = true;
  queue_closed = true;
  workers = 0;
  processors = 1;
  loops = 0;
  waiting = 1;
}

run_down : Steps 1 (stop 1 (start 1 new_scanner).1).1 ended
unfolding start stop
run_down =
    next
      (next (next (next here (worker_ends 0 refl refl)) (loop_ends 2 refl refl))
        (loop_ends 1 refl refl))
      (loop_ends 0 refl refl)

stop-waits_example : (0 < ended.waiting) × (0 < group ended)
unfolding start
stop-waits_example =
    stop-waits 1 new_scanner (start 1 new_scanner).1 ended (omega arith) refl here refl refl
      run_down

-- A scanner that was stopped starts again, and the next Stop panics.
restarted : (stop 1 (start 1 (stop 1 (start 1 new_scanner).1).1).1).0 ≡ err close_of_closed_channel
unfolding start stop
restarted = refl
