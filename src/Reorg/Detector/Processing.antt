-- ===== src/Reorg/Detector/Processing.antt =====
-- What automatic processing in internal/reorg/detector.go does to the stored blocks.
use smart_scanner.Common.{
  ℕ, zero, suc, ◌+◌, ◌-◌, ◌<◌, String, ◌≡◌, ◌⊎◌, inl, inr, Bool, true, none, some, arith, Outcome,
  ok, add64, Outcome-cases, u64_mod,
}
use smart_scanner.Common.Actions.{Action, Keeps, seq-Keeps, writing-Keeps, writing, ◌>>◌}
use smart_scanner.Types.{Block, Block, ReorgEvent}
use smart_scanner.Storage.{Storage}
use smart_scanner.Scheduler.Scanner.{Scanner, block_at}
use smart_scanner.Reorg.Fork.{
  DetectorStatistics, ForkPoint, at_match, find_fork_point, fork_loop, max_depth,
  create_reorg_event,
}
use smart_scanner.Reorg.Detector.{
  World, ProcessError, delete_blocks_failed, delete_logs_failed, mark_failed, save_failed, in_store,
  reset_scanner, auto_process_reorg,
}

-- What the storage documents about blocks: a deletion reaches its range only, and the writes of
-- other records leave the blocks alone.
pub record BlockLaws (st : Storage) : Type 0 where
  pub outside_range :
      (c : String) (from to : ℕ) (s : st.State) (d : String) (n : ℕ)
      → (n < from) ⊎ (to < n)
      → st.get_block d n (st.delete_blocks c from to s).1 ≡ st.get_block d n s
  pub logs_apart :
      (c : String) (from to : ℕ) (d : String) (n : ℕ)
      → Keeps (st.get_block d n) (st.delete_logs c from to)
  pub marks_apart :
      (c : String) (from to : ℕ) (d : String) (n : ℕ)
      → Keeps (st.get_block d n) (st.mark_transactions_as_reverted c from to)
  pub events_apart :
      (e : ReorgEvent) (d : String) (n : ℕ) → Keeps (st.get_block d n) (st.save_reorg_event e)

module _ (st : Storage) (laws : BlockLaws st) where
  abbrev block_in : String → ℕ → World st → Outcome String Block
  block_in d n w = st.get_block d n w.store

  in_store-Keeps :
      (d : String) (n : ℕ) (wrapped : String → ProcessError)
      (write : Action st.State String (Unit {0}))
      → Keeps (st.get_block d n) write
      → Keeps (block_in d n) (in_store st (writing wrapped write))
  in_store-Keeps d n wrapped write keeps w =
      writing-Keeps (st.get_block d n) wrapped write keeps w.store

  reset_scanner-Keeps :
      (locked : Bool) (now height : ℕ) (d : String) (n : ℕ)
      → Keeps (block_in d n) (reset_scanner st locked now height)
  unfolding reset_scanner
  reset_scanner-Keeps locked now height d n w = ground arith

  auto_process_reorg-Keeps :
      (locked : Bool) (now : ℕ) (event : ReorgEvent) (d : String) (n : ℕ)
      → (n < event.new_block_number) ⊎ (event.old_block_number < n)
      → Keeps (block_in d n) (auto_process_reorg st locked now event)
  unfolding auto_process_reorg
  auto_process_reorg-Keeps locked now event d n outside =
      let c = event.chain_id in
      let from = event.new_block_number in
      let to = event.old_block_number in
      let reset = reset_scanner st locked now (event.old_block_number - 1) in
      let delete = st.delete_blocks c from to in
      let clean = st.delete_logs c from to in
      let mark = st.mark_transactions_as_reverted c from to in
      let save = st.save_reorg_event (record event { processed = true }) in
      let deleted = in_store st (writing delete_blocks_failed delete) in
      let cleaned = in_store st (writing delete_logs_failed clean) in
      let marked = in_store st (writing mark_failed mark) in
      let f = block_in d n in
      seq-Keeps f (reset >> deleted >> cleaned >> marked) (in_store st (writing save_failed save))
        (seq-Keeps f (reset >> deleted >> cleaned) marked
          (seq-Keeps f (reset >> deleted) cleaned
            (seq-Keeps f reset deleted
              (reset_scanner-Keeps locked now (event.old_block_number - 1) d n)
              (in_store-Keeps d n delete_blocks_failed delete
                (λ s. laws.outside_range c from to s d n outside)))
            (in_store-Keeps d n delete_logs_failed clean (laws.logs_apart c from to d n)))
          (in_store-Keeps d n mark_failed mark (laws.marks_apart c from to d n)))
        (in_store-Keeps d n save_failed save
          (laws.events_apart (record event { processed = true }) d n))

module _ (st : Storage) (scanner : Scanner)
    (numbered : (n : ℕ) (c : Block) → block_at scanner n ≡ ok c → c.number ≡ n) (chain_id : String)
    (threshold : ℕ) (s : st.State) where
  at_match-numbers :
      (b : Block) (depth : ℕ) (p : ForkPoint)
      → at_match scanner threshold b depth ≡ ok (some p)
      → p.new_block.number ≡ add64 p.old_block.number 1
  unfolding at_match
  at_match-numbers b depth p = elim (Outcome-cases (block_at scanner (add64 b.number 1))) [
    | inr (e, read) ↦ ground (arith, read)
    | inl (c, read) ↦ ground (arith, read, numbered (add64 b.number 1) c read)
  ]

  fork_loop-numbers :
      (fuel : ℕ) (b : Block) (depth : ℕ) (p : ForkPoint)
      → fork_loop st scanner chain_id threshold s fuel b depth ≡ ok (some p)
      → p.new_block.number ≡ add64 p.old_block.number 1
  unfolding fork_loop
  fork_loop-numbers zero b depth p = ground arith
  fork_loop-numbers (suc fuel) b depth p = elim (Outcome-cases (block_at scanner b.number)) [
    | inr (e, read) ↦ ground (arith, read)
    | inl (c, read) ↦ elim (Outcome-cases (st.get_block chain_id (b.number - 1) s)) [
      | inr (e, below) ↦ ground (arith, read, below, at_match-numbers b depth p)
      | inl (a, below) ↦
          ground
            (arith, read, below, at_match-numbers b depth p, fork_loop-numbers fuel a (depth + 1) p)
    ]
  ]

  find_fork_point-numbers :
      (now : ℕ) (b : Block) (stats : DetectorStatistics) (event : ReorgEvent)
      → (find_fork_point st scanner chain_id threshold now b stats s).0 ≡ ok (some event)
      → event.new_block_number ≡ add64 event.old_block_number 1
  unfolding find_fork_point create_reorg_event
  find_fork_point-numbers now b stats event =
      elim (Outcome-cases (fork_loop st scanner chain_id threshold s max_depth b 0)) [
        | inr (e, r) ↦ ground (arith, r)
        | inl (none, r) ↦ ground (arith, r)
        | inl (some p, r) ↦ ground (arith, r, fork_loop-numbers max_depth b 0 p r)
      ]

  -- Where the storage meets its laws, and the node's blocks bear the numbers they are asked for
  -- by, automatic processing of an event that findForkPoint reports, and whose old block is below
  -- 2^64 - 1, leaves every stored block as it was, the stale ones too.
  pub find_fork_point-keeps_stale :
      BlockLaws st
      → (now : ℕ) (local_block : Block) (stats : DetectorStatistics) (event : ReorgEvent)
      → (find_fork_point st scanner chain_id threshold now local_block stats s).0 ≡ ok (some event)
      → event.old_block_number + 1 < u64_mod
      → (locked : Bool) (world : World st) (d : String) (n : ℕ)
      → st.get_block d n (auto_process_reorg st locked now event world).1.store
        ≡ st.get_block d n world.store
  find_fork_point-keeps_stale laws now local_block stats event found small locked world d n =
      auto_process_reorg-Keeps st laws locked now event d n
        (ground (arith, small, find_fork_point-numbers now local_block stats event found)) world
