-- ===== src/Scheduler/Worker/Requests.antt =====
-- Which blocks a scan of internal/scheduler/worker.go finds where the node answers every request
-- with all its blocks.
use smart_scanner.Common.{
  le→leb, All-weaken, lt→leb_false, ℕ, zero, suc, ◌+◌, ◌-◌, ◌*◌, ◌≤◌, ◌<◌, min, max, String, ◌≡◌,
  inl, inr, refl, sym, ap, ◌∙◌, Bool, false, Option, none, some, List, [], ◌∷◌, ◌++◌, map,
  range_from, range_from-append, length-append, i64_min, arith, Outcome, ok, if◌then◌else◌, ltb,
  leb, le→ltb_false, lt→ltb, length-range_from, add64, sub64, length, All, Bool-cases, dec_le,
  u64_mod, ne→==_false,
}
use mathlib.Core.List.{append-nil}
use mathlib.Core.Path.{subst}
use native.Mathlib.Nat.{suc-mul}
use smart_scanner.Types.{Block, Watermark}
use smart_scanner.Scheduler.Watermark.{WatermarkManager}
use smart_scanner.Scheduler.Sharding.{ShardingManager}
use smart_scanner.Scheduler.Tasks.{ConcurrencyConfig, generate_tasks}
use smart_scanner.Scheduler.Tasks.Cover.{task_blocks, Fits, generate_tasks-Fits}
use smart_scanner.Scheduler.Worker.{
  Scan, count_blocks, numbers, batch_end, batches, sequential, collect, scan_blocks_parallel,
  scan_blocks,
}

-- The transactions of these blocks of a chain.
abbrev pub transactions_of : (chain : ℕ → Block) → List ℕ → ℕ
transactions_of chain [] = 0
transactions_of chain (n ∷ ns) = transactions_of chain ns + length (chain n).transactions

-- No error, and this many blocks and transactions, on top of some, are those of these blocks.
abbrev FindsFrom : (blocks txs : ℕ) → (chain : ℕ → Block) → List ℕ → Scan → Type 0
FindsFrom blocks txs chain ns r =
    (r.blocks_scanned ≡ blocks + length ns)
    × (r.txs_found ≡ txs + transactions_of chain ns)
    × (r.error ≡ none)

-- The same from nothing on.
abbrev pub Finds : (chain : ℕ → Block) → List ℕ → Scan → Type 0
Finds chain ns r =
    (r.blocks_scanned ≡ length ns) × (r.txs_found ≡ transactions_of chain ns) × (r.error ≡ none)

FindsFrom-zero :
    (chain : ℕ → Block) (ns : List ℕ) (r : Scan) → FindsFrom 0 0 chain ns r → Finds chain ns r
FindsFrom-zero chain ns r (blocks, txs, error) = (omega (arith, blocks), omega (arith, txs), error)

transactions_of-append :
    (chain : ℕ → Block) (ms ns : List ℕ)
    → transactions_of chain (ms ++ ns) ≡ transactions_of chain ms + transactions_of chain ns
transactions_of-append chain [] ns = omega arith
transactions_of-append chain (m ∷ ms) ns = omega (arith, transactions_of-append chain ms ns)

count_blocks-map :
    (chain : ℕ → Block) (ns : List ℕ)
    → let counts = count_blocks (map (λ n. some (chain n)) ns) in
      (counts.0 ≡ length ns) × (counts.1 ≡ transactions_of chain ns)
unfolding count_blocks
count_blocks-map chain [] = (refl, refl)
count_blocks-map chain (n ∷ ns) =
    let (blocks, txs) = count_blocks-map chain ns in (omega (arith, blocks), omega (arith, txs))

-- A batch, and what is found after it.
FindsFrom-batch :
    (chain : ℕ → Block) (blocks txs : ℕ) (ms ns : List ℕ) (r : Scan)
    → let more = count_blocks (map (λ n. some (chain n)) ms) in
      FindsFrom (blocks + more.0) (txs + more.1) chain ns r
      → FindsFrom blocks txs chain (ms ++ ns) r
FindsFrom-batch chain blocks txs ms ns r (found, found_txs, error) =
    let (counted, counted_txs) = count_blocks-map chain ms in
    (
      omega (arith, found, counted, length-append ms ns),
      omega (arith, found_txs, counted_txs, transactions_of-append chain ms ns),
      error,
    )

range_from-split :
    (first left batch : ℕ)
    → range_from first left
      ≡ range_from first (min batch left) ++ range_from (first + batch) (left - batch)
range_from-split first left batch = elim (dec_le batch left) [
  | yes inside ↦
      let whole : left ≡ batch + (left - batch) = omega arith in
      let part : min batch left ≡ batch = omega arith in
      ap (range_from first) whole
      ∙ range_from-append first batch (left - batch)
      ∙ ap (λ k. range_from first k ++ range_from (first + batch) (left - batch)) (sym part)
  | no beyond ↦
      let part : min batch left ≡ left = omega arith in
      let nothing : left - batch ≡ 0 = omega arith in
      rw (part, nothing) (sym (append-nil (range_from first left)))
]

module _ (fetch : List ℕ → Outcome String (List (Option Block))) (chain : ℕ → Block)
    (complete : (ns : List ℕ) → fetch ns ≡ ok (map (λ n. some (chain n)) ns))
    (config : ConcurrencyConfig) (positive : 0 < config.batch_size) (last : ℕ)
    (small : last + config.batch_size < u64_mod) where
  batch_end-lem :
      (first : ℕ)
      → first ≤ last
      → batch_end config.batch_size first last ≡ min (first + config.batch_size - 1) last
  unfolding batch_end
  batch_end-lem first below = ground arith

  -- What a batch asks for.
  numbers-batch :
      (first : ℕ)
      → first ≤ last
      → numbers first (batch_end config.batch_size first last)
        ≡ range_from first (min config.batch_size (last + 1 - first))
  numbers-batch first below = ap (range_from first) (omega (arith, batch_end-lem first below))

  next : (first : ℕ) → first ≤ last → add64 first config.batch_size ≡ first + config.batch_size
  next first below = ground arith

  sequential-Finds :
      (stopped : ℕ → Bool)
      → ((n : ℕ) → stopped n ≡ false)
      → (fuel first blocks txs : ℕ) → last + 1 - first ≤ fuel
      → FindsFrom blocks txs chain
          (range_from first (last + 1 - first))
          (sequential fetch config.batch_size last stopped fuel first blocks txs)
  unfolding sequential
  sequential-Finds stopped running zero first blocks txs enough =
      let nothing : last + 1 - first ≡ 0 = omega arith in
      rw nothing (omega arith, omega arith, refl)
  sequential-Finds stopped running (suc fuel) first blocks txs enough = elim (dec_le first last) [
    | no above ↦
        let nothing : last + 1 - first ≡ 0 = omega arith in
        rw (lt→ltb last first (omega arith), nothing) (omega arith, omega arith, refl)
    | yes below ↦
        let asked = numbers first (batch_end config.batch_size first last) in
        let more = count_blocks (map (λ n. some (chain n)) asked) in
        let moved = next first below in
        let left = last + 1 - first in
        let rest =
          sequential fetch config.batch_size last stopped fuel (add64 first config.batch_size)
            (blocks + more.0) (txs + more.1) in
        let split : asked
              ++ range_from (add64 first config.batch_size)
                  (last + 1 - add64 first config.batch_size)
            ≡ range_from first left =
          rw (numbers-batch first below, moved)
            (ap
                (λ k.
                  range_from first (min config.batch_size left)
                  ++ range_from (first + config.batch_size) k)
                (omega arith)
              ∙ sym (range_from-split first left config.batch_size)) in
        rw (le→ltb_false last first below, complete asked, running first)
          (subst (λ ns. FindsFrom blocks txs chain ns rest) split
            (FindsFrom-batch chain blocks txs asked _ rest (
              sequential-Finds stopped running fuel (add64 first config.batch_size)
                (blocks + more.0) (txs + more.1) (omega (arith, moved)))))
  ]

  collect-Finds :
      (count first blocks txs : ℕ)
      → FindsFrom blocks txs chain
          (range_from first (min (count * config.batch_size) (last + 1 - first)))
          (collect fetch (batches config.batch_size last count first) blocks txs)
  unfolding batches collect
  collect-Finds zero first blocks txs =
      let nothing : min (0 * config.batch_size) (last + 1 - first) ≡ 0 = omega arith in
      rw nothing (omega arith, omega arith, refl)
  collect-Finds (suc count) first blocks txs = elim (dec_le first last) [
    | no above ↦
        let nothing : min (suc count * config.batch_size) (last + 1 - first) ≡ 0 = omega arith in
        rw (lt→ltb last first (omega arith), nothing) (omega arith, omega arith, refl)
    | yes below ↦
        let asked = numbers first (batch_end config.batch_size first last) in
        let more = count_blocks (map (λ n. some (chain n)) asked) in
        let moved = next first below in
        let size = config.batch_size in
        let left = last + 1 - first in
        let all = min (suc count * size) left in
        let rest =
          collect fetch (batches size last count (add64 first size)) (blocks + more.0)
            (txs + more.1) in
        let here : min size left ≡ min size all = omega (arith, suc-mul count size) in
        let later : min (count * size) (last + 1 - (first + size)) ≡ all - size =
          omega (arith, suc-mul count size) in
        let split : asked
              ++ range_from (add64 first size) (min (count * size) (last + 1 - add64 first size))
            ≡ range_from first all =
          rw (numbers-batch first below, moved, here, later)
            (sym (range_from-split first all size)) in
        rw (le→ltb_false last first below) (
          rw (complete asked) (
            subst (λ ns. FindsFrom blocks txs chain ns rest) split
              (FindsFrom-batch chain blocks txs asked _ rest
                (collect-Finds count (add64 first size) (blocks + more.0) (txs + more.1)))))
  ]

  -- Where the node answers every request with all its blocks, a batch has a block at least, the
  -- last block with a batch above it is below 2^64 and itself below 2^63 - 1, and the worker is
  -- not stopped, a scan of at most two batches reports the number of all blocks of the range and
  -- of their transactions in the node's chain, whatever this chain is; a longer one reports those
  -- of the first ParallelRequests batches alone, two at least, and still no error.
  pub scan_blocks-Finds :
      (stopped : ℕ → Bool)
      → ((n : ℕ) → stopped n ≡ false)
      → (first : ℕ) → first ≤ last
      → last + 1 < i64_min
      → let total = last + 1 - first in
        let count = max 2 config.parallel_requests in
        Finds chain
          (range_from first (
            if leb total (config.batch_size * 2)
            then total
            else min (count * config.batch_size) total))
          (scan_blocks fetch config stopped first last)
  unfolding scan_blocks scan_blocks_parallel
  scan_blocks-Finds stopped running first below short =
      let total = last + 1 - first in
      let count = if ltb config.parallel_requests 2 then 2 else config.parallel_requests in
      let counted : add64 (sub64 last first) 1 ≡ total = ground arith in
      let largest : count ≡ max 2 config.parallel_requests = ground arith in
      rw
        (
          counted,
          ne→==_false total 0 (λ e. omega (arith, e)),
          lt→leb_false i64_min total (omega arith),
        )
        (elim (Bool-cases (leb total (config.batch_size * 2))) [
          | inl few ↦ rw few (
              FindsFrom-zero chain _ _
                (sequential-Finds stopped running (total + 1) first 0 0 (omega arith)))
          | inr many ↦ rw many (
              subst
                (λ c.
                  Finds chain (range_from first (min (c * config.batch_size) total))
                    (collect fetch (batches config.batch_size last count first) 0 0))
                largest (FindsFrom-zero chain _ _ (collect-Finds count first 0 0)))
        ])

-- Where the node answers every request with all its blocks, a batch has a block at least, the
-- heights with a batch above them are below 2^63, and the worker is not stopped, then for every
-- task that an initialised scanner generates the worker reports the number of its blocks and the
-- number of their transactions in the node's chain, whatever this chain is, and no error.
pub generate_tasks-Finds :
    (fetch : List ℕ → Outcome String (List (Option Block))) (chain : ℕ → Block)
    → ((ns : List ℕ) → fetch ns ≡ ok (map (λ n. some (chain n)) ns))
    → (config : ConcurrencyConfig) → 0 < config.batch_size
    → (m : WatermarkManager) (w : Watermark) → m.watermark ≡ some w
    → (current finalized : ℕ) → w.scanned_height + 1 < u64_mod
    → min finalized current + config.batch_size < i64_min
    → (stopped : ℕ → Bool) → ((n : ℕ) → stopped n ≡ false)
    → (chain_id : String) (sharding : Option ShardingManager) (cap len room : ℕ)
    → All
        (λ t.
          Finds chain (task_blocks t) (scan_blocks fetch config stopped t.start_block t.end_block))
        (generate_tasks chain_id sharding config cap len room m (ok current) (ok finalized))
generate_tasks-Finds fetch chain complete config positive m w initialized current finalized low
      small stopped running chain_id sharding cap len room =
    let last = min finalized current in
    All-weaken (Fits config.batch_size last)
      (λ t.
        Finds chain (task_blocks t) (scan_blocks fetch config stopped t.start_block t.end_block))
      (λ t fits.
        let total = t.end_block + 1 - t.start_block in
        let counted = length-range_from t.start_block total in
        let few : total ≤ config.batch_size * 2 = omega (arith, counted, fits.2) in
        subst
          (λ k.
            Finds chain (range_from t.start_block k)
              (scan_blocks fetch config stopped t.start_block t.end_block))
          (rw (le→leb total (config.batch_size * 2) few) refl)
          (scan_blocks-Finds fetch chain complete config positive t.end_block
            (omega (arith, fits.1)) stopped running t.start_block fits.0 (omega (arith, fits.1))))
      (generate_tasks chain_id sharding config cap len room m (ok current) (ok finalized))
      (generate_tasks-Fits chain_id sharding config positive m w initialized current finalized low
        (omega arith) cap len room)
