-- ===== src/Reorg/Processor/Retries.antt =====
-- The retries of internal/reorg/processor.go.
use smart_scanner.Common.{
  ℕ, zero, suc, ◌+◌, ◌-◌, ◌≤◌, ◌≡◌, inl, inr, refl, ap, ◌∙◌, Bool, false, Option, none, some, arith,
  Outcome, ok, err, ltb, Bool-cases,
}
use smart_scanner.Common.Actions.{Action}
use smart_scanner.Types.{ReorgEvent}
use smart_scanner.Storage.{Storage}
use smart_scanner.Reorg.Processor.Run.{
  Processing, ProcessorConfig, EventError, RetryError, attempts_failed, process_event, retry,
  process_event_with_retry,
}

module _ (st : Storage) (config : ProcessorConfig) (locked : Bool) (clock : ℕ → ℕ × ℕ)
    (cancelled : ℕ → Bool) (event : ReorgEvent) where
  abbrev pub attempt : ℕ → Action (Processing st) EventError (Unit {0})
  attempt i = process_event st config locked (clock i).0 (clock i).1 event

  -- `n` attempts from the number `i` on fail, and lead from one state to the other; the last error
  -- is kept.
  pub data Fails
      : (i n : ℕ)
        → Option EventError
        → Processing st
        → Option EventError
        → Processing st
        → Type 0 where
    none_yet : (i : ℕ) (last : Option EventError) (p : Processing st) → Fails i 0 last p last p
    one_more :
        (i n : ℕ) (last : Option EventError) (p q r : Processing st) (e : EventError)
        (after : Option EventError)
        → attempt i p ≡ (err e, q)
        → Fails (i + 1) n (some e) q after r
        → Fails i (suc n) last p after r

  module _ (running : (i : ℕ) → cancelled i ≡ false) where
    retry-next :
        (left i : ℕ) (last : Option EventError) (p q : Processing st) (e : EventError)
        → attempt i p ≡ (err e, q)
        → retry st config locked clock cancelled (suc left) i last event p
          ≡ retry st config locked clock cancelled left (i + 1) (some e) event q
    unfolding retry
    retry-next left i last p q e failed =
        let after =
          ap (λ r. retry st config locked clock cancelled left (i + 1) (some e) event r.1) failed in
        elim (Bool-cases (ltb 0 i)) [
          | inl b ↦ rw (failed, running i, b, retry) after
          | inr b ↦ rw (failed, running i, b, retry) after
        ]

    retry-done :
        (left i : ℕ) (last : Option EventError) (p q : Processing st)
        → attempt i p ≡ (ok tt, q)
        → retry st config locked clock cancelled (suc left) i last event p ≡ (ok tt, q)
    unfolding retry
    retry-done left i last p q done =
        let after : ◌≡◌ {A = Outcome RetryError (Unit {0}) × Processing st} (ok tt, (attempt i p).1)
            (ok tt, q) =
          ap (λ r. (ok tt, r.1)) done in
        elim (Bool-cases (ltb 0 i)) [
          | inl b ↦ rw (done, running i, b, retry) after
          | inr b ↦ rw (done, running i, b, retry) after
        ]

    retry-Fails :
        (i n left : ℕ) (last after : Option EventError) (p r : Processing st) (total j : ℕ)
        → Fails i n last p after r
        → total ≡ n + left
        → j ≡ i + n
        → retry st config locked clock cancelled total i last event p
          ≡ retry st config locked clock cancelled left j after event r
    retry-Fails i zero left last after p r total j (none_yet _ _ _) e f =
        ap (λ t. retry st config locked clock cancelled t i last event p) (omega (arith, e))
        ∙ ap (λ k. retry st config locked clock cancelled left k last event p) (omega (arith, f))
    retry-Fails i (suc n) left last after p r total j (one_more _ _ _ _ q _ x _ failed rest) e f =
        let same : total ≡ suc (n + left) = omega (arith, e) in
        ap (λ t. retry st config locked clock cancelled t i last event p) same
        ∙ retry-next (n + left) i last p q x failed
        ∙ retry-Fails (i + 1) n left (some x) after q r (n + left) j rest refl (omega (arith, f))

    -- Where the context is not cancelled, a first success among the first `MaxRetries + 1` attempts
    -- is the result, and no attempt is made after it.
    pub process_event_with_retry-first :
        (n : ℕ) (after : Option EventError) (p q r : Processing st)
        → Fails 0 n none p after q
        → n ≤ config.max_retries
        → attempt n q ≡ (ok tt, r)
        → process_event_with_retry st config locked clock cancelled event p ≡ (ok tt, r)
    unfolding process_event_with_retry
    process_event_with_retry-first n after p q r fails few done =
        retry-Fails 0 n (suc (config.max_retries - n)) none after p q (config.max_retries + 1) n
          fails (omega arith) (omega arith)
        ∙ retry-done (config.max_retries - n) n after q r done

    -- Where the context is not cancelled and `MaxRetries + 1` attempts fail, the result is an error
    -- with this number and the last attempt's error, and the state is the one that attempt left.
    pub process_event_with_retry-exhausted :
        (after : Option EventError) (p q : Processing st)
        → Fails 0 (config.max_retries + 1) none p after q
        → process_event_with_retry st config locked clock cancelled event p
          ≡ (err (attempts_failed (config.max_retries + 1) after), q)
    unfolding process_event_with_retry retry
    process_event_with_retry-exhausted after p q fails =
        retry-Fails 0 (config.max_retries + 1) 0 none after p q (config.max_retries + 1)
          (config.max_retries + 1) fails (omega arith) (omega arith)
