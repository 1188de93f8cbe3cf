-- ===== src/Scheduler/Tasks/Rounds.antt =====
-- Rounds of generateTasks and handleSuccessResult, one after the other, where every task succeeds.
use smart_scanner.Common.{
  ℕ, zero, suc, ◌+◌, ◌-◌, ◌*◌, ◌≤◌, ◌<◌, min, String, ◌≡◌, refl, sym, ap, ◌∙◌, Bool, true, false,
  Option, some, List, [], ◌∷◌, ◌++◌, map, arith, ok, if◌then◌else◌, ◌==◌, add64, All, range_from,
  range_from-append, length, le→leb, lt→leb_false, lt→ltb, le→ltb_false, dec_lt, dec_le, u64_mod,
}
use mathlib.Core.Bool.{true≢false}
use native.Mathlib.Nat.{suc-mul}
use smart_scanner.Types.{Watermark, ScanTask}
use smart_scanner.Scheduler.Watermark.{WatermarkManager, update_scanned_height}
use smart_scanner.Scheduler.Watermark.History.{
  Call, scan, step, run, heights, is_reset, reported, maximum, run-scanned, run-initialized,
}
use smart_scanner.Scheduler.Sharding.{ShardingManager}
use smart_scanner.Scheduler.Tasks.{
  ConcurrencyConfig, ScannerStatus, choose_batch, tasks_from, generate_tasks, handle_success_result,
}
use smart_scanner.Scheduler.Tasks.Cover.{
  blocks_of, choose_batch-positive, choose_batch-le, make_task-end, generate_tasks-initialized,
  generate_tasks-covers,
}

-- The results of tasks that all succeeded, in their order, with the Redis lock taken or not.
abbrev pub handle_all :
    (locked : Bool) (now : ℕ)
    → List ScanTask
    → WatermarkManager × ScannerStatus
    → WatermarkManager × ScannerStatus
handle_all locked now [] s = s
handle_all locked now (t ∷ ts) s =
    handle_all locked now ts (handle_success_result locked now t.end_block s)

-- What a round sees: whether the Redis lock of the watermark can be taken, the time, and the capacity,
-- the length and the room of the queue.
abbrev pub View : Type 0
View = Bool × ℕ × ℕ × ℕ × ℕ

module _ (chain_id : String) (sharding : Option ShardingManager) (config : ConcurrencyConfig)
    (current finalized : ℕ) where
  -- The rounds: the blocks of their tasks, and the state that they leave.
  pub rounds :
      List View → WatermarkManager × ScannerStatus → List ℕ × (WatermarkManager × ScannerStatus)
  rounds [] s = ([], s)
  rounds ((locked, now, cap, len, room) ∷ views) (m, status) =
      let ts = generate_tasks chain_id sharding config cap len room m (ok current) (ok finalized) in
      let (later, s) = rounds views (handle_all locked now ts (m, status)) in
      (blocks_of ts ++ later, s)

abbrev ends : List ScanTask → List ℕ
ends ts = map (λ t. t.end_block) ts

abbrev calls : ℕ → List ScanTask → List (ℕ × Call)
calls now ts = map (λ t. (now, scan true t.end_block)) ts

reported-calls : (now : ℕ) (ts : List ScanTask) → reported (calls now ts) ≡ ends ts
reported-calls now [] = refl
reported-calls now (t ∷ ts) = ap (◌∷◌ t.end_block) (reported-calls now ts)

calls-no_reset : (now : ℕ) (ts : List ScanTask) → All (λ c. is_reset c.1 ≡ false) (calls now ts)
calls-no_reset now [] = tt
calls-no_reset now (t ∷ ts) = (refl, calls-no_reset now ts)

handle_all-run :
    (now : ℕ) (ts : List ScanTask) (m : WatermarkManager) (status : ScannerStatus)
    → (handle_all true now ts (m, status)).0 ≡ run m (calls now ts)
unfolding handle_success_result run step
handle_all-run now [] m status = refl
handle_all-run now (t ∷ ts) m status =
    handle_all-run now ts (update_scanned_height true m t.end_block now).0
      (record status { scanned_height = t.end_block; last_scan_time = now })

-- The height that `k` blocks from `block` on lead to, from the height `s` below them.
abbrev reached : (s block k : ℕ) → ℕ
reached s block k = if k == 0 then s else block + k - 1

module _ (chain_id : String) (sharding : Option ShardingManager) (batch last : ℕ)
    (positive : 0 < batch) (small : last + batch < u64_mod) where
  tasks_from-ends :
      (fuel room block s : ℕ)
      → last + 1 - block ≤ fuel
      → s < block
      → maximum s (ends (tasks_from chain_id sharding batch last fuel room block))
        ≡ reached s block (min (room * batch) (last + 1 - block))
  unfolding tasks_from
  tasks_from-ends zero room block s enough below = ground arith
  tasks_from-ends (suc fuel) zero block s enough below = ground arith
  tasks_from-ends (suc fuel) (suc room) block s enough below = elim (dec_le block last) [
    | no above ↦ rw (lt→leb_false block last (omega arith)) (ground arith)
    | yes here ↦
        let next : add64 block batch ≡ block + batch = ground arith in
        let rest =
          tasks_from-ends fuel room (add64 block batch) s (omega (arith, next))
            (omega (arith, next)) in
        let end = make_task-end chain_id sharding batch last block positive (omega arith) in
        rw (le→leb block last here) (ground (arith, rest, next, end, suc-mul room batch))
  ]

product-positive : (a b : ℕ) → 0 < a → 0 < b → 0 < a * b
product-positive a b h k = grind arith

module _ (chain_id : String) (sharding : Option ShardingManager) (config : ConcurrencyConfig)
    (positive : 0 < config.batch_size) (current finalized : ℕ)
    (small : min finalized current + config.batch_size < u64_mod) where
  -- A round whose tasks succeed ends at its last block.
  round-reaches :
      (now cap len room : ℕ) (m : WatermarkManager) (status : ScannerStatus) (w : Watermark)
      → m.watermark ≡ some w
      → w.scanned_height + 1 < u64_mod
      → let ts =
          generate_tasks chain_id sharding config cap len room m (ok current) (ok finalized) in
        let k =
          min
            (room * choose_batch config.batch_size cap len)
            (min finalized current - w.scanned_height) in
        (w' : Watermark) × ((handle_all true now ts (m, status)).0.watermark ≡ some w')
        × (w'.scanned_height ≡ w.scanned_height + k)
  round-reaches now cap len room m status w initialized low =
      let ts = generate_tasks chain_id sharding config cap len room m (ok current) (ok finalized) in
      let batch = choose_batch config.batch_size cap len in
      let last = min finalized current in
      let start = w.scanned_height + 1 in
      let same = handle_all-run now ts m status in
      let (w', e) = run-initialized m w (calls now ts) initialized in
      let chosen = choose_batch-le config.batch_size cap len positive in
      let made =
        generate_tasks-initialized chain_id sharding config positive m w initialized current
          finalized low small cap len room in
      let scanned : w'.scanned_height ≡ maximum w.scanned_height (ends ts) =
        ap (λ o. (heights o).0) (sym e)
        ∙ run-scanned m w (calls now ts) initialized (calls-no_reset now ts)
        ∙ ap (maximum w.scanned_height) (reported-calls now ts) in
      let ended : maximum w.scanned_height (ends ts)
          ≡ w.scanned_height + min (room * batch) (last - w.scanned_height) =
        rw made (elim (dec_lt last start) [
          | yes above ↦ rw (lt→ltb last start above) (omega arith)
          | no below ↦ rw (le→ltb_false last start (omega arith)) (
              tasks_from-ends chain_id sharding batch last
                (choose_batch-positive config.batch_size cap len) (omega arith) (last + 1 - start)
                room start w.scanned_height (omega arith) (omega arith)
              ∙ ground arith)
        ]) in
      (w', ap (λ x. x.watermark) same ∙ e, scanned ∙ ended)

  -- Where a batch has a block at least, and the heights with a batch above them are below 2^64, in
  -- rounds of an initialised scanner, each with the Redis lock taken, a queue that takes a task at
  -- least, and tasks that succeed and whose results are handled in their order before the next
  -- round, every block above the scanned height up to the current and the finalized height is in a
  -- task, once and in order, and is scanned at the end, whatever the queue's length and capacity
  -- are, if there are as many rounds as blocks.
  pub rounds_complete :
      (views : List View) (m : WatermarkManager) (status : ScannerStatus) (w : Watermark)
      → m.watermark ≡ some w
      → w.scanned_height + 1 < u64_mod
      → All (λ v. (v.0 ≡ true) × (0 < v.4)) views
      → min finalized current - w.scanned_height ≤ length views
      → let r = rounds chain_id sharding config current finalized views (m, status) in
        let left = min finalized current - w.scanned_height in
        (r.0 ≡ range_from (w.scanned_height + 1) left)
        × ((w' : Watermark) × (r.1.0.watermark ≡ some w')
            × (w'.scanned_height ≡ w.scanned_height + left))
  unfolding rounds
  rounds_complete [] m status w initialized low rooms enough =
      let none_left : min finalized current - w.scanned_height ≡ 0 = omega arith in
      rw none_left (refl, (w, initialized, omega arith))
  rounds_complete ((false, now, cap, len, room) ∷ views) m status w initialized low rooms enough =
      absurd (true≢false (sym rooms.0.0))
  rounds_complete ((true, now, cap, len, room) ∷ views) m status w initialized low rooms enough =
      let ts = generate_tasks chain_id sharding config cap len room m (ok current) (ok finalized) in
      let batch = choose_batch config.batch_size cap len in
      let left = min finalized current - w.scanned_height in
      let k = min (room * batch) left in
      let (w', e, scanned) = round-reaches now cap len room m status w initialized low in
      let grows =
        product-positive room batch rooms.0.1 (choose_batch-positive config.batch_size cap len) in
      let (s, status') = handle_all true now ts (m, status) in
      let (blocks, (w'', e'', scanned')) =
        rounds_complete views s status' w' e (omega (arith, scanned)) rooms.1
          (omega (arith, scanned, grows)) in
      let rest : min finalized current - w'.scanned_height ≡ left - k = omega (arith, scanned) in
      let covered =
        generate_tasks-covers chain_id sharding config positive m w initialized current finalized
          low small cap len room in
      let start = w.scanned_height + 1 in
      let next : w'.scanned_height + 1 ≡ start + k = omega (arith, scanned) in
      let later = (rounds chain_id sharding config current finalized views (s, status')).0 in
      (
        ap (λ xs. xs ++ later) covered
            ∙ ap (λ ys. range_from start k ++ ys)
                (blocks
                  ∙ ap (λ n. range_from n (min finalized current - w'.scanned_height)) next
                  ∙ ap (range_from (start + k)) rest)
            ∙ sym (range_from-append start k (left - k))
            ∙ ap (range_from start) (omega arith),
        (w'', e'', omega (arith, scanned, scanned', rest)),
      )
