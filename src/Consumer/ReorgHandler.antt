-- ===== src/Consumer/ReorgHandler.antt =====
-- internal/consumer/reorg_handler.go: the default handler of a reorg event. The key of an event that
-- is being processed is the triple that its text is made of. The statistics are those of the last
-- 100 events, the average depth as the two numbers of a float64 quotient.
pub mod Effects
pub mod Reverted
pub mod Advanced
pub mod Tests
use smart_scanner.Common.{
  ℕ, ◌+◌, ◌-◌, String, Bool, true, false, ◌&&◌, ◌||◌, List, [], ◌∷◌, map, Outcome, ok, err,
  if◌then◌else◌, ltb, ◌==◌, str_eq, range_from,
}
use smart_scanner.Common.Actions.{Action, ◌>>◌, writing}
use smart_scanner.Types.{Transaction, ReorgEvent, reverted}
use smart_scanner.Storage.{Storage}
use smart_scanner.Consumer.StateMachine.{force_set_state}

pub data ReorgError : Type 0 where
  already_processed hash_empty number_mismatch : ReorgError
  depth_invalid depth_too_large : ℕ → ReorgError
  new_block_missing : String → ReorgError
  mark_failed delete_blocks_failed delete_logs_failed save_failed : String → ReorgError

abbrev pub EventKey : Type 0
EventKey = String × ℕ × ℕ

abbrev pub key_eq : EventKey → EventKey → Bool
key_eq (c, old, new) (d, old', new') = str_eq c d && (old == old' && new == new')

-- Reading and deleting in the map `processing`.
unfoldable pub is_processing : EventKey → List EventKey → Bool
is_processing k [] = false
is_processing k (x ∷ xs) = key_eq k x || is_processing k xs

unfoldable pub delete_key : EventKey → List EventKey → List EventKey
delete_key k [] = []
delete_key k (x ∷ xs) = let rest = delete_key k xs in if key_eq k x then rest else x ∷ rest

-- The numbers of the blocks `from` to `to`, both included; `to` is below 2^64 - 1.
abbrev pub block_range : (from to : ℕ) → List ℕ
block_range from to = range_from from (to + 1 - from)

module _ (st : Storage) where
  -- `validateReorgEvent`.
  unfoldable pub validate_reorg_event : ReorgEvent → st.State → Outcome ReorgError (Unit {0})
  validate_reorg_event event s =
      let stored : Outcome ReorgError (Unit {0}) =
        elim (st.get_block_by_hash event.chain_id event.new_block_hash s) [
          | err e ↦ err (new_block_missing e)
          | ok b ↦ if b.number == event.new_block_number then ok tt else err number_mismatch
        ] in
      if event.depth == 0
      then err (depth_invalid event.depth)
      else if ltb 1000 event.depth
      then err (depth_too_large event.depth)
      else if str_eq event.old_block_hash "" || str_eq event.new_block_hash ""
      then err hash_empty
      else stored

  -- The loop over the transactions of a block; an error of `ForceSetState` is logged.
  unfoldable pub revert_transactions : String → List Transaction → st.State → st.State
  revert_transactions chain_id [] s = s
  revert_transactions chain_id (tx ∷ txs) s =
      revert_transactions chain_id txs (force_set_state st chain_id tx.hash reverted s).1

  -- The loop over the blocks; a block whose transactions cannot be read is skipped.
  unfoldable pub revert_blocks : String → List ℕ → st.State → st.State
  revert_blocks chain_id [] s = s
  revert_blocks chain_id (n ∷ ns) s =
      revert_blocks chain_id ns (elim (st.get_transactions_by_block chain_id n s) [
        | ok txs ↦ revert_transactions chain_id txs s
        | err e ↦ s
      ])

  -- `markTransactionsAsReverted`.
  unfoldable pub mark_transactions_as_reverted : ReorgEvent → Action st.State ReorgError (Unit {0})
  mark_transactions_as_reverted event =
      let from = event.new_block_number in
      let to = event.old_block_number in
      writing mark_failed (st.mark_transactions_as_reverted event.chain_id from to) >> λ s.
      (ok tt, revert_blocks event.chain_id (block_range from to) s)

  -- `cleanupReorgData`.
  unfoldable pub cleanup_reorg_data : ReorgEvent → Action st.State ReorgError (Unit {0})
  cleanup_reorg_data event =
      let from = event.new_block_number in
      let to = event.old_block_number in
      writing delete_blocks_failed (st.delete_blocks event.chain_id from to)
      >> writing delete_logs_failed (st.delete_logs event.chain_id from to)

  -- `markReorgEventAsProcessed`.
  unfoldable pub mark_reorg_event_as_processed : ReorgEvent → Action st.State ReorgError (Unit {0})
  mark_reorg_event_as_processed event =
      writing save_failed (st.save_reorg_event (record event { processed = true }))

  -- The steps of `HandleReorg`. `revertBusinessData` reads and logs, and changes nothing.
  unfoldable pub reorg_steps : ReorgEvent → Action st.State ReorgError (Unit {0})
  reorg_steps event =
      (λ s. (validate_reorg_event event s, s))
      >> mark_transactions_as_reverted event
      >> cleanup_reorg_data event
      >> mark_reorg_event_as_processed event

  -- `DefaultReorgHandler.HandleReorg`.
  unfoldable pub handle_reorg : ReorgEvent → Action (List EventKey × st.State) ReorgError (Unit {0})
  handle_reorg event (processing, s) =
      let k : EventKey = (event.chain_id, event.old_block_number, event.new_block_number) in
      let (r, s') = reorg_steps event s in
      if is_processing k processing
      then (err already_processed, (processing, s))
      else (r, (delete_key k (k ∷ processing), s'))
