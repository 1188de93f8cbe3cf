-- ===== src/Scheduler/Watermark/History.antt =====
-- Any sequence of calls, in any order, such as the result handlers' goroutines make them.
use smart_scanner.Common.{
  refl, All, ℕ, ◌≡◌, ap, ◌∙◌, arith, Bool, true, false, Option, some, none, List, [], ◌∷◌, max,
  String, Option-cases, inl, inr, leb, if◌then◌else◌, ◌≢◌,
}
use smart_scanner.Types.{Watermark}
use smart_scanner.Scheduler.Watermark.{
  WatermarkManager, update_scanned_height, update_confirmed_height, update_finalized_height,
  reset_to_height, set_block_hash, cleanup_old_block_hashes,
}

-- One call; the first argument of `scan` and `reset` tells whether the Redis lock was taken.
pub data Call : Type 0 where
  scan reset : Bool → ℕ → Call
  confirm finalize : ℕ → Call
  hash : ℕ → String → Call
  cleanup : Call

unfoldable pub step : WatermarkManager → ℕ × Call → WatermarkManager
step m (now, scan locked h) = (update_scanned_height locked m h now).0
step m (now, reset locked h) = (reset_to_height locked m h now).0
step m (now, confirm h) = (update_confirmed_height m h now).0
step m (now, finalize h) = (update_finalized_height m h now).0
step m (now, hash n h) = set_block_hash m n h
step m (now, cleanup) = cleanup_old_block_hashes m

unfoldable pub run : WatermarkManager → List (ℕ × Call) → WatermarkManager
run m [] = m
run m (c ∷ cs) = run (step m c) cs

-- The heights that a manager shows; 0 where there is no watermark.
abbrev pub heights : Option Watermark → ℕ × ℕ × ℕ
heights none = (0, 0, 0)
heights (some w) = (w.scanned_height, w.confirmed_height, w.finalized_height)

-- The abstract view: what one call does to the three heights.
unfoldable pub spec_step : ℕ × ℕ × ℕ → Call → ℕ × ℕ × ℕ
spec_step (s, c, f) (scan true h) = (max s h, c, f)
spec_step (s, c, f) (scan false h) = (s, c, f)
spec_step (s, c, f) (reset true h) = if leb h s then (h, c, f) else (s, c, f)
spec_step (s, c, f) (reset false h) = (s, c, f)
spec_step (s, c, f) (confirm h) = (s, max c h, f)
spec_step (s, c, f) (finalize h) = (s, c, max f h)
spec_step (s, c, f) (hash n h) = (s, c, f)
spec_step (s, c, f) cleanup = (s, c, f)

unfoldable pub spec_run : ℕ × ℕ × ℕ → List (ℕ × Call) → ℕ × ℕ × ℕ
spec_run v [] = v
spec_run v ((now, c) ∷ cs) = spec_run (spec_step v c) cs

step-heights :
    (m : WatermarkManager) (w : Watermark) (c : ℕ × Call)
    → m.watermark ≡ some w
    → heights (step m c).watermark ≡ spec_step (heights (some w)) c.1
unfolding step spec_step update_scanned_height update_confirmed_height update_finalized_height
    reset_to_height set_block_hash cleanup_old_block_hashes
step-heights m w (now, scan true h) e = ground arith
step-heights m w (now, scan false h) e = ground arith
step-heights m w (now, reset true h) e = ground arith
step-heights m w (now, reset false h) e = ground arith
step-heights m w (now, confirm h) e = ground arith
step-heights m w (now, finalize h) e = ground arith
step-heights m w (now, hash n h) e = ground arith
step-heights m w (now, cleanup) e = ground arith

step-ne-none :
    (m : WatermarkManager) (w : Watermark) (c : ℕ × Call)
    → m.watermark ≡ some w
    → (step m c).watermark ≢ none
unfolding step update_scanned_height update_confirmed_height update_finalized_height reset_to_height
    set_block_hash cleanup_old_block_hashes
step-ne-none m w (now, scan true h) e = ground arith
step-ne-none m w (now, scan false h) e = ground arith
step-ne-none m w (now, reset true h) e = ground arith
step-ne-none m w (now, reset false h) e = ground arith
step-ne-none m w (now, confirm h) e = ground arith
step-ne-none m w (now, finalize h) e = ground arith
step-ne-none m w (now, hash n h) e = ground arith
step-ne-none m w (now, cleanup) e = ground arith

-- Whatever calls are made, in whatever order, the three heights of an initialised manager are
-- those of the abstract view: a scan, confirmation or finalization report raises its height to the
-- maximum, a reset at or below the scanned height sets that height alone, and a call without the
-- Redis lock does nothing.
pub run-heights :
    (m : WatermarkManager) (w : Watermark) (cs : List (ℕ × Call))
    → m.watermark ≡ some w
    → heights (run m cs).watermark ≡ spec_run (heights (some w)) cs
unfolding run spec_run
run-heights m w [] e = rw e
run-heights m w (c ∷ cs) e = elim (Option-cases (step m c).watermark) [
  | inl n ↦ absurd (step-ne-none m w c e n)
  | inr (w', e') ↦
      run-heights (step m c) w' cs e' ∙ ap (λ v. spec_run v cs) (rw e' at (step-heights m w c e))
]

pub run-initialized :
    (m : WatermarkManager) (w : Watermark) (cs : List (ℕ × Call))
    → m.watermark ≡ some w
    → (w' : Watermark) × ((run m cs).watermark ≡ some w')
unfolding run
run-initialized m w [] e = (w, e)
run-initialized m w (c ∷ cs) e = elim (Option-cases (step m c).watermark) [
  | inl n ↦ absurd (step-ne-none m w c e n)
  | inr (w', e') ↦ run-initialized (step m c) w' cs e'
]

-- The heights that were reported as scanned with the Redis lock taken.
abbrev pub reported : List (ℕ × Call) → List ℕ
reported [] = []
reported ((now, scan true h) ∷ cs) = h ∷ reported cs
reported ((now, scan false h) ∷ cs) = reported cs
reported ((now, reset locked h) ∷ cs) = reported cs
reported ((now, confirm h) ∷ cs) = reported cs
reported ((now, finalize h) ∷ cs) = reported cs
reported ((now, hash n h) ∷ cs) = reported cs
reported ((now, cleanup) ∷ cs) = reported cs

abbrev pub is_reset : Call → Bool
is_reset (reset locked h) = true
is_reset _ = false

abbrev pub maximum : ℕ → List ℕ → ℕ
maximum s [] = s
maximum s (h ∷ hs) = max h (maximum s hs)

maximum-max : (s h : ℕ) (hs : List ℕ) → maximum (max s h) hs ≡ max h (maximum s hs)
maximum-max s h [] = omega arith
maximum-max s h (k ∷ hs) = omega (arith, maximum-max s h hs)

spec_run-scanned :
    (v : ℕ × ℕ × ℕ) (cs : List (ℕ × Call))
    → All (λ c. is_reset c.1 ≡ false) cs
    → (spec_run v cs).0 ≡ maximum v.0 (reported cs)
unfolding spec_run spec_step
spec_run-scanned v [] no_resets = refl
spec_run-scanned (s, c, f) ((now, scan true h) ∷ cs) n =
    spec_run-scanned (max s h, c, f) cs n.1 ∙ maximum-max s h (reported cs)
spec_run-scanned (s, c, f) ((now, scan false h) ∷ cs) n = spec_run-scanned (s, c, f) cs n.1
spec_run-scanned (s, c, f) ((now, reset locked h) ∷ cs) n = cc (n.0)
spec_run-scanned (s, c, f) ((now, confirm h) ∷ cs) n = spec_run-scanned (s, max c h, f) cs n.1
spec_run-scanned (s, c, f) ((now, finalize h) ∷ cs) n = spec_run-scanned (s, c, max f h) cs n.1
spec_run-scanned (s, c, f) ((now, hash k h) ∷ cs) n = spec_run-scanned (s, c, f) cs n.1
spec_run-scanned (s, c, f) ((now, cleanup) ∷ cs) n = spec_run-scanned (s, c, f) cs n.1

-- Between resets the scanned height is the maximum of its first value and of all reports that held the Redis lock, in
-- whatever order the results come in.
pub run-scanned :
    (m : WatermarkManager) (w : Watermark) (cs : List (ℕ × Call))
    → m.watermark ≡ some w
    → All (λ c. is_reset c.1 ≡ false) cs
    → (heights (run m cs).watermark).0 ≡ maximum w.scanned_height (reported cs)
run-scanned m w cs e n =
    ap (λ v. v.0) (run-heights m w cs e) ∙ spec_run-scanned (heights (some w)) cs n
