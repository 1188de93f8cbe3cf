-- ===== src/Reorg/Processor/Loop.antt =====
-- What the loops of internal/reorg/processor.go do: the steps in order, the status on every branch,
-- and the retries.
use smart_scanner.Common.{
  ℕ, ◌+◌, String, ◌≡◌, inl, inr, refl, ap, ◌∙◌, Bool, true, false, Option, none, some, List, [],
  ◌∷◌, ok, err, wrap, Outcome-cases,
}
use Prim.Native.String.{◌++◌}
use smart_scanner.Common.Actions.{Action}
use smart_scanner.Types.{ReorgEvent}
use smart_scanner.Storage.{Storage}
use smart_scanner.Reorg.Detector.{World}
use smart_scanner.Reorg.Processor.Steps.{StepError}
use smart_scanner.Reorg.Processor.Run.{
  Processing, ProcessingStatus, ProcessorStatistics, EventError, step_failed, run_steps,
  update_processing_step,
}

module _ (st : Storage) where
  abbrev pub Step : Type 0
  Step = String × (ReorgEvent → Action (World st) StepError (Unit {0}))

  -- A step with its name on its error, in the world alone.
  abbrev pub named :
      String → Action (World st) StepError (Unit {0}) → Action (World st) EventError (Unit {0})
  named name step w = let (r, w') = step w in (wrap (step_failed name) r, w')

  abbrev pub in_order : List Step → ReorgEvent → Action (World st) EventError (Unit {0})
  in_order [] event w = (ok tt, w)
  in_order ((name, step) ∷ rest) event w =
      let (r, w') = step event w in
      elim r [ ok u ↦ in_order rest event w' | err e ↦ (err (step_failed name e), w') ]

  -- Right after the step number `i` of `n` has run.
  abbrev advance : (i n : ℕ) → Step → ReorgEvent → Processing st → Processing st
  advance i n (name, step) event p = record p {
    world = (step event p.world).1;
    status = update_processing_step name (i, n) p.status;
  }

  run_steps-ok :
      (i n : ℕ) (name : String) (step : ReorgEvent → Action (World st) StepError (Unit {0}))
      (rest : List Step) (event : ReorgEvent) (p : Processing st) (u : Unit {0})
      → (step event p.world).0 ≡ ok u
      → run_steps st i n ((name, step) ∷ rest) event p
        ≡ run_steps st (i + 1) n rest event (advance i n (name, step) event p)
  unfolding run_steps
  run_steps-ok i n name step rest event p u e = rw (e, run_steps) refl

  run_steps-err :
      (i n : ℕ) (name : String) (step : ReorgEvent → Action (World st) StepError (Unit {0}))
      (rest : List Step) (event : ReorgEvent) (p : Processing st) (x : StepError)
      → (step event p.world).0 ≡ err x
      → let after = advance i n (name, step) event p in
        run_steps st i n ((name, step) ∷ rest) event p ≡ (
          err (step_failed name x),
          record after {
            status = update_processing_step (name ++ " (failed)") (i, n) after.status;
          },
        )
  unfolding run_steps
  run_steps-err i n name step rest event p x e = rw (e, run_steps) refl

  pub run_steps-world :
      (i n : ℕ) (table : List Step) (event : ReorgEvent) (p : Processing st)
      → let r = run_steps st i n table event p in (r.0, r.1.world) ≡ in_order table event p.world
  unfolding run_steps
  run_steps-world i n [] event p = refl
  run_steps-world i n ((name, step) ∷ rest) event p = elim (Outcome-cases (step event p.world).0) [
    | inl (u, e) ↦
        ap (λ r. (r.0, r.1.world)) (run_steps-ok i n name step rest event p u e)
        ∙ run_steps-world (i + 1) n rest event (advance i n (name, step) event p)
        ∙ rw (e, in_order) refl
    | inr (x, e) ↦
        ap (λ r. (r.0, r.1.world)) (run_steps-err i n name step rest event p x e)
        ∙ rw (e, in_order) refl
  ]

  pub run_steps-statistics :
      (i n : ℕ) (table : List Step) (event : ReorgEvent) (p : Processing st)
      → let r = run_steps st i n table event p in
        ◌≡◌ {A = Option ProcessorStatistics × List ReorgEvent}
          (r.1.statistics, r.1.rescans)
          (p.statistics, p.rescans)
  unfolding run_steps
  run_steps-statistics i n [] event p = refl
  run_steps-statistics i n ((name, step) ∷ rest) event p =
      elim (Outcome-cases (step event p.world).0) [
        | inl (u, e) ↦
            ap (λ r. (r.1.statistics, r.1.rescans)) (run_steps-ok i n name step rest event p u e)
            ∙ run_steps-statistics (i + 1) n rest event (advance i n (name, step) event p)
        | inr (x, e) ↦
            ap (λ r. (r.1.statistics, r.1.rescans)) (run_steps-err i n name step rest event p x e)
      ]

  abbrev pub is_some : Option ProcessingStatus → Bool
  is_some none = false
  is_some (some status) = true

  pub update_processing_step-is_some :
      (step : String) (progress : ℕ × ℕ) (o : Option ProcessingStatus)
      → is_some (update_processing_step step progress o) ≡ is_some o
  unfolding update_processing_step
  update_processing_step-is_some step progress none = refl
  update_processing_step-is_some step progress (some status) = refl

  pub run_steps-status :
      (i n : ℕ) (table : List Step) (event : ReorgEvent) (p : Processing st)
      → is_some (run_steps st i n table event p).1.status ≡ is_some p.status
  unfolding run_steps
  run_steps-status i n [] event p = refl
  run_steps-status i n ((name, step) ∷ rest) event p =
      let noted = update_processing_step name (i, n) p.status in
      let kept = update_processing_step-is_some name (i, n) p.status in
      elim (Outcome-cases (step event p.world).0) [
        | inl (u, e) ↦
            ap (λ r. is_some r.1.status) (run_steps-ok i n name step rest event p u e)
            ∙ run_steps-status (i + 1) n rest event (advance i n (name, step) event p)
            ∙ kept
        | inr (x, e) ↦
            ap (λ r. is_some r.1.status) (run_steps-err i n name step rest event p x e)
            ∙ update_processing_step-is_some (name ++ " (failed)") (i, n) noted
            ∙ kept
      ]
