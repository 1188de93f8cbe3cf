-- ===== src/Reorg/Fork/Search.antt =====
-- What the search of internal/reorg/detector.go finds: the height up to which the stored chain and
-- the node's chain agree.
use smart_scanner.Common.{
  u64_mod, ℕ, zero, suc, ◌+◌, ◌-◌, ◌≤◌, ◌<◌, String, ◌≡◌, ◌≢◌, refl, sym, ap, ◌∙◌, Option, none,
  some, arith, Outcome, ok, err, if◌then◌else◌, leb, str_eq_iff, u64_mod, ℕ_discrete, str_eq_ne,
}
use smart_scanner.Types.{Block}
use smart_scanner.Storage.{Storage}
use smart_scanner.Scheduler.Scanner.{Scanner, block_at}
use smart_scanner.Reorg.Fork.{
  DetectError, depth_exceeded, ForkPoint, DetectorStatistics, at_match, fork_loop, max_depth,
  find_fork_point, create_reorg_event,
}

-- Both chains can be read up to the height `top`, and the node's one above it.
pub record Readable (st : Storage) (scanner : Scanner) (chain_id : String) (s : st.State)
    (stored node : ℕ → Block) (top : ℕ) : Type 0 where
  pub read_stored : (n : ℕ) → n ≤ top → st.get_block chain_id n s ≡ ok (stored n)
  pub read_node : (n : ℕ) → n ≤ top + 1 → block_at scanner n ≡ ok (node n)
  pub small : top + 1 < u64_mod
  pub numbered : (n : ℕ) → n ≤ top → (stored n).number ≡ n

-- The stored chain leaves the node's one right above the height `fork`.
pub record ForksAt (stored node : ℕ → Block) (fork top : ℕ) : Type 0 where
  pub agree : (node fork).hash ≡ (stored fork).hash
  pub differ : (n : ℕ) → fork < n → n ≤ top → (node n).hash ≢ (stored n).hash

module _ (st : Storage) (scanner : Scanner) (chain_id : String) (threshold : ℕ) (s : st.State)
    (stored node : ℕ → Block) (top : ℕ)
    (readable : Readable st scanner chain_id s stored node top) where
  -- What the search reports for a fork of some depth at a height.
  abbrev pub verdict : (fork depth : ℕ) → Outcome DetectError (Option ForkPoint)
  verdict fork depth =
      if leb threshold depth
      then ok
          (some (record { old_block = stored fork; new_block = node (fork + 1); depth = depth }))
      else ok none

  fork_loop-match :
      (fuel depth : ℕ) (b c : Block)
      → block_at scanner b.number ≡ ok c
      → c.hash ≡ b.hash
      → fork_loop st scanner chain_id threshold s (suc fuel) b depth
        ≡ at_match scanner threshold b depth
  unfolding fork_loop
  fork_loop-match fuel depth b c read same = ground (arith, read, str_eq_iff c.hash b.hash)

  fork_loop-mismatch :
      (fuel depth : ℕ) (b c previous : Block)
      → block_at scanner b.number ≡ ok c
      → c.hash ≢ b.hash
      → b.number ≢ 0
      → st.get_block chain_id (b.number - 1) s ≡ ok previous
      → fork_loop st scanner chain_id threshold s (suc fuel) b depth
        ≡ fork_loop st scanner chain_id threshold s fuel previous (depth + 1)
  unfolding fork_loop
  fork_loop-mismatch fuel depth b c previous read other positive below =
      ground (arith, read, below, str_eq_ne c.hash b.hash other)

  at_match-verdict :
      (height depth : ℕ)
      → height ≤ top
      → at_match scanner threshold (stored height) depth ≡ verdict height depth
  unfolding at_match
  at_match-verdict height depth below = ground (
    arith,
    readable.numbered height below,
    readable.small,
    readable.read_node (height + 1) (omega arith),
  )

  fork_loop-here :
      (fuel height depth : ℕ)
      → height ≤ top
      → (node height).hash ≡ (stored height).hash
      → fork_loop st scanner chain_id threshold s (suc fuel) (stored height) depth
        ≡ verdict height depth
  fork_loop-here fuel height depth below same =
      fork_loop-match fuel depth (stored height) (node height)
        (ap (block_at scanner) (readable.numbered height below)
          ∙ readable.read_node height (omega arith))
        same
      ∙ at_match-verdict height depth below

  fork_loop-down :
      (fuel height depth : ℕ)
      → 0 < height
      → height ≤ top
      → (node height).hash ≢ (stored height).hash
      → fork_loop st scanner chain_id threshold s (suc fuel) (stored height) depth
        ≡ fork_loop st scanner chain_id threshold s fuel (stored (height - 1)) (depth + 1)
  fork_loop-down fuel height depth positive below other =
      let number = readable.numbered height below in
      fork_loop-mismatch fuel depth (stored height) (node height) (stored (height - 1))
        (ap (block_at scanner) number ∙ readable.read_node height (omega arith)) other
        (λ e. omega (arith, e, number))
        (ap (λ n. st.get_block chain_id (n - 1) s) number
          ∙ readable.read_stored (height - 1) (omega arith))

  -- From a height above the fork, the search goes down to the fork, one height a round.
  pub fork_loop-finds :
      (fork fuel height depth : ℕ)
      → ForksAt stored node fork top
      → fork ≤ height
      → height ≤ top
      → height - fork < fuel
      → fork_loop st scanner chain_id threshold s fuel (stored height) depth
        ≡ verdict fork (depth + (height - fork))
  fork_loop-finds fork zero height depth forks above below fuelled = absurd (omega arith)
  fork_loop-finds fork (suc fuel) height depth forks above below fuelled =
      elim (ℕ_discrete fork height) [
        | yes e ↦
            fork_loop-here fuel height depth below (rw (sym e) forks.agree)
            ∙ rw (sym e) (ap (verdict fork) (omega arith))
        | no ne ↦
            fork_loop-down fuel height depth (omega arith) below
              (forks.differ height (omega arith) below)
            ∙ fork_loop-finds fork fuel (height - 1) (depth + 1) forks (omega arith) (omega arith)
                (omega arith)
            ∙ ap (verdict fork) (omega arith)
      ]

  -- A search whose rounds all meet differing blocks above the first one gives up.
  pub fork_loop-exceeds :
      (fuel height depth : ℕ)
      → fuel ≤ height
      → height ≤ top
      → ((n : ℕ) → height - fuel < n → n ≤ height → (node n).hash ≢ (stored n).hash)
      → fork_loop st scanner chain_id threshold s fuel (stored height) depth ≡ err depth_exceeded
  unfolding fork_loop
  fork_loop-exceeds zero height depth enough below differ = refl
  fork_loop-exceeds (suc fuel) height depth enough below differ =
      fork_loop-down fuel height depth (omega arith) below
        (differ height (omega arith) (omega arith))
      ∙ fork_loop-exceeds fuel (height - 1) (depth + 1) (omega arith) (omega arith)
          (λ n a b. differ n (omega arith) (omega arith))

  -- Where the storage and the node can be read, and the stored chain leaves the node's chain fewer
  -- than 100 blocks below its last block, findForkPoint reports the last common block, the node's
  -- block above it and their distance, unless the distance is below the threshold: then it reports
  -- nothing.
  pub find_fork_point-finds :
      (now fork : ℕ) (stats : DetectorStatistics)
      → ForksAt stored node fork top
      → fork ≤ top
      → top < fork + 100
      → find_fork_point st scanner chain_id threshold now (stored top) stats s ≡ (
          if leb threshold (top - fork)
          then (let r =
                create_reorg_event chain_id now
                  (stored fork)
                  (node (fork + 1))
                  (top - fork)
                  stats in
              (ok (some r.0), r.1))
          else (ok none, stats))
  unfolding find_fork_point create_reorg_event max_depth
  find_fork_point-finds now fork stats forks above near =
      ground (arith, fork_loop-finds fork max_depth top 0 forks above (omega arith) (omega arith))

  -- Where the stored chain differs from the node's chain in its last 100 blocks, `findForkPoint`
  -- gives up, whatever lies below.
  pub find_fork_point-exceeds :
      (now : ℕ) (stats : DetectorStatistics)
      → 100 ≤ top
      → ((n : ℕ) → top < n + 100 → n ≤ top → (node n).hash ≢ (stored n).hash)
      → find_fork_point st scanner chain_id threshold now (stored top) stats s
        ≡ (err depth_exceeded, stats)
  unfolding find_fork_point max_depth
  find_fork_point-exceeds now stats enough differ = ground (
    arith,
    fork_loop-exceeds max_depth top 0 enough (omega arith) (λ n a b. differ n (omega arith) b),
  )
