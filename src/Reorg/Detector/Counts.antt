-- ===== src/Reorg/Detector/Counts.antt =====
-- The counters of a check of internal/reorg/detector.go.
use smart_scanner.Common.{
  ℕ, String, ◌≡◌, ◌≢◌, inl, inr, refl, sym, ap, ◌∙◌, Bool, false, not, ◌&&◌, Option, none, some,
  arith, Outcome, ok, err, if◌then◌else◌, ltb, ◌==◌, str_eq, str_eq_iff, add64, Outcome-cases,
  Bool-cases, ℕ_discrete, ne→==_false,
}
use mathlib.Core.Path.{subst}
use smart_scanner.Types.{Block, ReorgEvent}
use smart_scanner.Storage.{Storage}
use smart_scanner.Scheduler.Scanner.{Scanner, latest_height, block_at}
use smart_scanner.Reorg.Fork.{
  DetectorConfig, DetectorStatistics, Watch, DetectError, find_fork_point, fork_loop, max_depth,
  create_reorg_event,
}
use smart_scanner.Reorg.Detector.{
  check_chain, handle_detection_error, World, handle_reorg_event, succeed, clear_failures,
  compare_hashes, search_fork, start_check, detect_reorg,
}

-- The check was counted, and as one of a success and a failure.
pub data Counted (before after : DetectorStatistics) : Type 0 where
  as_success :
      after.total_checks ≡ add64 before.total_checks 1
      → after.successful_checks ≡ add64 before.successful_checks 1
      → after.failed_checks ≡ before.failed_checks
      → Counted before after
  as_failure :
      after.total_checks ≡ add64 before.total_checks 1
      → after.successful_checks ≡ before.successful_checks
      → after.failed_checks ≡ add64 before.failed_checks 1
      → Counted before after

-- What a detection did to the counters, by its result.
abbrev Judged :
    (before after : DetectorStatistics) → Outcome DetectError (Option ReorgEvent) → Type 0
Judged before after (ok r) =
    (after.successful_checks ≡ add64 before.successful_checks 1)
    × (after.failed_checks ≡ before.failed_checks)
Judged before after (err e) =
    (after.successful_checks ≡ before.successful_checks)
    × (after.failed_checks ≡ before.failed_checks)

module _ (st : Storage) where
  find_fork_point-counters :
      (scanner : Scanner) (chain_id : String) (threshold now : ℕ) (b : Block)
      (stats : DetectorStatistics) (s : st.State)
      → let after = (find_fork_point st scanner chain_id threshold now b stats s).1 in
        (after.total_checks ≡ stats.total_checks)
        × (after.successful_checks ≡ stats.successful_checks)
        × (after.failed_checks ≡ stats.failed_checks)
  unfolding find_fork_point create_reorg_event
  find_fork_point-counters scanner chain_id threshold now b stats s =
      ground (arith, Outcome-cases (fork_loop st scanner chain_id threshold s max_depth b 0))

  search_fork-counts :
      (scanner : Scanner) (chain_id : String) (threshold now : ℕ) (b : Block) (w : Watch)
      (s : st.State)
      → let r = search_fork st scanner chain_id threshold now b w s in
        (r.1.stats.total_checks ≡ w.stats.total_checks) × Judged w.stats r.1.stats r.0
  unfolding search_fork succeed clear_failures
  search_fork-counts scanner chain_id threshold now b w s = ground (
    arith,
    Outcome-cases (find_fork_point st scanner chain_id threshold now b w.stats s).0,
    find_fork_point-counters scanner chain_id threshold now b w.stats s,
  )

  -- The node is at the height of the last stored block, with another hash there.
  unfoldable pub same_height_mismatch : String → Option Scanner → st.State → Bool
  same_height_mismatch chain_id none s = false
  same_height_mismatch chain_id (some scanner) s = elim (latest_height scanner) [
    | err e ↦ false
    | ok latest ↦ elim (st.get_latest_block chain_id s) [
      | err e ↦ false
      | ok b ↦ elim (block_at scanner latest) [
        | err e ↦ false
        | ok c ↦ latest == b.number && not (str_eq c.hash b.hash)
      ]
    ]
  ]

  same_height-hash :
      (chain_id : String) (scanner : Scanner) (s : st.State) (b c : Block)
      → latest_height scanner ≡ ok b.number
      → st.get_latest_block chain_id s ≡ ok b
      → block_at scanner b.number ≡ ok c
      → same_height_mismatch chain_id (some scanner) s ≡ false
      → c.hash ≡ b.hash
  unfolding same_height_mismatch
  same_height-hash chain_id scanner s b c height local read regular =
      ground (arith, height, local, read, str_eq_iff c.hash b.hash)

  compare_hashes-total :
      (scanner : Scanner) (chain_id : String) (now latest : ℕ) (b : Block) (w : Watch)
      → (compare_hashes scanner chain_id now latest b w).1.stats.total_checks ≡ w.stats.total_checks
  unfolding compare_hashes succeed clear_failures create_reorg_event
  compare_hashes-total scanner chain_id now latest b w =
      ground (arith, Outcome-cases (block_at scanner latest))

  detect_reorg-total :
      (config : DetectorConfig) (chain_id : String) (now : ℕ) (scanner : Option Scanner) (w : Watch)
      (s : st.State)
      → (detect_reorg st config chain_id now scanner w s).1.stats.total_checks
        ≡ add64 w.stats.total_checks 1
  unfolding detect_reorg start_check succeed
  detect_reorg-total config chain_id now none w s = refl
  detect_reorg-total config chain_id now (some scanner) w s =
      let w' = start_check now w in
      elim (Outcome-cases (latest_height scanner)) [
        | inr (e, height) ↦ ground (arith, height)
        | inl (latest, height) ↦ elim (Outcome-cases (st.get_latest_block chain_id s)) [
          | inr (e, local) ↦ ground (arith, height, local)
          | inl (b, local) ↦ ground (
            arith,
            height,
            local,
            compare_hashes-total scanner chain_id now latest b w',
            search_fork-counts scanner chain_id config.reorg_depth_threshold now b w' s,
          )
        ]
      ]

  compare_hashes-Judged :
      (scanner : Scanner) (chain_id : String) (now latest : ℕ) (b : Block) (w : Watch)
      → ((c : Block) → block_at scanner latest ≡ ok c → c.hash ≡ b.hash)
      → let r = compare_hashes scanner chain_id now latest b w in Judged w.stats r.1.stats r.0
  unfolding compare_hashes succeed clear_failures create_reorg_event
  compare_hashes-Judged scanner chain_id now latest b w same =
      elim (Outcome-cases (block_at scanner latest)) [
        | inr (e, read) ↦ ground (arith, read)
        | inl (c, read) ↦ ground (arith, read, same c read, str_eq_iff c.hash b.hash)
      ]

  -- Where the heights differ the hashes at the node's height are not compared.
  detect_reorg-other_height :
      (config : DetectorConfig) (chain_id : String) (now latest : ℕ) (scanner : Scanner) (b : Block)
      (w : Watch) (s : st.State)
      → latest_height scanner ≡ ok latest
      → st.get_latest_block chain_id s ≡ ok b
      → latest ≢ b.number
      → detect_reorg st config chain_id now (some scanner) w s ≡ (
          if ltb latest b.number
          then (ok none, succeed (start_check now w))
          else search_fork st scanner chain_id config.reorg_depth_threshold now b
              (start_check now w)
              s)
  unfolding detect_reorg
  detect_reorg-other_height config chain_id now latest scanner b w s height local ne =
      rw (height, local) (rw (ne→==_false latest b.number ne) refl)

  detect_reorg-Judged :
      (config : DetectorConfig) (chain_id : String) (now : ℕ) (scanner : Option Scanner) (w : Watch)
      (s : st.State)
      → same_height_mismatch chain_id scanner s ≡ false
      → let r = detect_reorg st config chain_id now scanner w s in Judged w.stats r.1.stats r.0
  unfolding detect_reorg start_check succeed
  detect_reorg-Judged config chain_id now none w s regular = (refl, refl)
  detect_reorg-Judged config chain_id now (some scanner) w s regular =
      let w' = start_check now w in
      elim (Outcome-cases (latest_height scanner)) [
        | inr (e, height) ↦ ground (arith, height)
        | inl (latest, height) ↦ elim (Outcome-cases (st.get_latest_block chain_id s)) [
          | inr (e, local) ↦ ground (arith, height, local)
          | inl (b, local) ↦ elim (ℕ_discrete latest b.number) [
            | yes e ↦ ground (
              arith,
              height,
              local,
              e,
              compare_hashes-Judged scanner chain_id now latest b w' (λ c read.
                  same_height-hash chain_id scanner s b c (height ∙ ap ok e) local
                    (ap (block_at scanner) (sym e) ∙ read) regular),
            )
            | no ne ↦
                subst (λ r. Judged w.stats r.1.stats r.0)
                  (sym (
                    detect_reorg-other_height config chain_id now latest scanner b w s height local
                      ne))
                  (elim (Bool-cases (ltb latest b.number)) [
                    | inl low ↦ rw low (refl, refl)
                    | inr high ↦
                        rw high
                          (search_fork-counts scanner chain_id config.reorg_depth_threshold now b w'
                            s).1
                  ])
          ]
        ]
      ]

  -- A check of a chain that no reorg is processed for is counted once, and as a success or as a
  -- failure, unless the node is at the height of the last stored block with another hash.
  pub check_chain-Counted :
      (config : DetectorConfig) (chain_id : String) (locked : Bool) (now : ℕ) (w : Watch)
      (world : World st)
      → w.state.is_processing_reorg ≡ false
      → same_height_mismatch chain_id world.scanner world.store ≡ false
      → Counted w.stats (check_chain st config chain_id locked now (w, world)).0.stats
  unfolding check_chain handle_detection_error handle_reorg_event
  check_chain-Counted config chain_id locked now w world idle regular =
      let r = detect_reorg st config chain_id now world.scanner w world.store in
      let total = detect_reorg-total config chain_id now world.scanner w world.store in
      let judged = detect_reorg-Judged config chain_id now world.scanner w world.store regular in
      ground (arith, idle, total, judged, Outcome-cases r.0)
