-- ===== src/Consumer/Business/Lifecycle.antt =====
-- internal/consumer/consumer.go: Start and Stop, and the workers, which end with their context alone.
use smart_scanner.Common.{
  ℕ, zero, suc, ◌+◌, ◌≤◌, ◌≡◌, inl, inr, refl, sym, ◌∙◌, Bool, Bool-cases, true, false, ok, err,
  if◌then◌else◌, arith,
}
use mathlib.Core.Bool.{true≢false}
use mathlib.Core.Path.{subst}
use smart_scanner.Common.Actions.{Action}

-- `stopping` is Stop in `wg.Wait` with the lock taken.
pub record Lifecycle : Type 0 where
  pub running : Bool
  pub stopping : Bool
  pub cancelled : Bool
  pub workers : ℕ

-- `NewBusinessConsumer`.
abbrev pub idle : Lifecycle
idle = record { running = false; stopping = false; cancelled = false; workers = 0 }

pub data StartError : Type 0 where
  already_running : StartError

module _ (consumer_count : ℕ) (metrics_enabled : Bool) where
  -- The goroutines that `Start` adds to the wait group.
  abbrev pub started : ℕ
  started = consumer_count + (if metrics_enabled then 1 else 0)

  -- With a context that may be done already.
  unfoldable pub start : (done : Bool) → Action Lifecycle StartError (Unit {0})
  start done l =
      if l.running
      then (err already_running, l)
      else (ok tt, record l { running = true; cancelled = done; workers = l.workers + started })

  -- `Stop` up to its wait.
  unfoldable pub stop : Lifecycle → Lifecycle
  stop l = if l.running then record l { running = false; stopping = true } else l

  -- While Stop waits, no other call gets the lock.
  pub data Step : Lifecycle → Lifecycle → Type 0 where
    start_called : {l : Lifecycle} (done : Bool) → l.stopping ≡ false → Step l (start done l).1
    stop_called : {l : Lifecycle} → l.stopping ≡ false → Step l (stop l)
    stop_returns :
        {l : Lifecycle} → l.stopping ≡ true → l.workers ≡ 0 → Step l (record l { stopping = false })
    context_done : {l : Lifecycle} → Step l (record l { cancelled = true })
    worker_ends :
        {l : Lifecycle} (n : ℕ)
        → l.cancelled ≡ true
        → l.workers ≡ suc n
        → Step l (record l { workers = n })

  pub data Steps : Lifecycle → Lifecycle → Type 0 where
    here : {l : Lifecycle} → Steps l l
    next : {l m n : Lifecycle} → Steps l m → Step m n → Steps l n

  pub record WellFormed (l : Lifecycle) : Type 0 where
    pub at_most : l.workers ≤ started
    pub at_rest : l.running ≡ false → l.stopping ≡ false → l.workers ≡ 0

  step-WellFormed : {l m : Lifecycle} → Step l m → WellFormed l → WellFormed m
  unfolding start stop
  step-WellFormed (start_called {l} done free) w = elim (Bool-cases l.running) [
    | inl on ↦
        rw (on, if◌then◌else◌)
          (record { at_most = w.at_most; at_rest = λ p q. absurd (true≢false p) })
    | inr off ↦
        rw (off, if◌then◌else◌)
          (record {
            at_most = rw (w.at_rest off free) (ground arith);
            at_rest = λ p q. absurd (true≢false p);
          })
  ]
  step-WellFormed (stop_called {l} free) w = elim (Bool-cases l.running) [
    | inl on ↦
        rw (on, if◌then◌else◌)
          (record { at_most = w.at_most; at_rest = λ p q. absurd (true≢false q) })
    | inr off ↦
        rw (off, if◌then◌else◌) (record { at_most = w.at_most; at_rest = λ p q. w.at_rest off q })
  ]
  step-WellFormed (stop_returns waits none_left) w = record {
    at_most = w.at_most;
    at_rest = λ p q. none_left;
  }
  step-WellFormed context_done w = record { at_most = w.at_most; at_rest = w.at_rest }
  step-WellFormed (worker_ends n done e) w = record {
    at_most = let h = w.at_most in ground arith;
    at_rest = λ p q. let h = w.at_rest p q in absurd (ground arith);
  }

  -- Whatever calls are made and however workers end, there are never more of them than one Start
  -- adds, and there are none while the consumer is neither running nor stopping.
  pub reachable-WellFormed : {l : Lifecycle} → Steps idle l → WellFormed l
  reachable-WellFormed here = record { at_most = ground arith; at_rest = λ p q. refl }
  reachable-WellFormed (next before last) = step-WellFormed last (reachable-WellFormed before)

  prepend : {k l m : Lifecycle} → Step k l → Steps l m → Steps k m
  prepend first here = next here first
  prepend first (next more last) = next (prepend first more) last

  append : {k l m : Lifecycle} → Steps k l → Steps l m → Steps k m
  append before here = before
  append before (next more last) = next (append before more) last

  abbrev after_cancel : Bool → Bool → ℕ → Lifecycle
  after_cancel running stopping n = record {
    running = running;
    stopping = stopping;
    cancelled = true;
    workers = n;
  }

  -- Once the context is done, every worker can end.
  ends :
      (running stopping : Bool) (n : ℕ)
      → Steps (after_cancel running stopping n) (after_cancel running stopping 0)
  ends running stopping zero = here
  ends running stopping (suc n) = prepend (worker_ends n refl refl) (ends running stopping n)

  -- A Stop of a running consumer returns on some run: once its context is done, its workers can end, and
  -- then it returns with the consumer at rest.
  pub stop-returns :
      (l : Lifecycle)
      → l.running ≡ true
      → l.stopping ≡ false
      → Steps l (record { running = false; stopping = false; cancelled = true; workers = 0 })
  unfolding stop
  stop-returns l on free =
      let called : Steps l (record l { running = false; stopping = true }) =
        next here (subst (Step l) (rw (on, stop) refl) (stop_called free)) in
      next (append called (prepend context_done (ends false true l.workers)))
        (stop_returns refl refl)

  -- While Stop waits with a worker left and a context that is not done, the next step is that the context
  -- is done.
  pub stopping-waits :
      {l m : Lifecycle} (n : ℕ)
      → l.stopping ≡ true
      → l.workers ≡ suc n
      → l.cancelled ≡ false
      → Step l m
      → m ≡ record l { cancelled = true }
  stopping-waits n waits left live (start_called done free) = absurd (true≢false (sym waits ∙ free))
  stopping-waits n waits left live (stop_called free) = absurd (true≢false (sym waits ∙ free))
  stopping-waits n waits left live (stop_returns w gone) = absurd (ground arith)
  stopping-waits n waits left live context_done = refl
  stopping-waits n waits left live (worker_ends k done e) = absurd (true≢false (sym done ∙ live))
