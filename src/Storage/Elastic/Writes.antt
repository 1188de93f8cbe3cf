-- ===== src/Storage/Elastic/Writes.antt =====
-- The writes of internal/storage/elasticsearch.go.
use smart_scanner.Common.{ℕ, String, some, [], ◌∷◌, ok, ◌/◌, insert}
use smart_scanner.Common.Actions.{Action}
use smart_scanner.Types.{
  Block, Transaction, TransactionStatus, Log, ReorgEvent, Watermark, reverted,
}
use smart_scanner.Storage.Elastic.{
  Elastic, Document, Query, clause, range, blocks_index, transactions_index, logs_index,
  reorg_events_index, number_id, hash_id, log_id, event_id, status_text, request,
}
use smart_scanner.Storage.Elastic.Documents.{
  block_document, transaction_document, log_document, event_document,
}

-- The blocks from one number to another.
abbrev pub block_range : String → (from to : ℕ) → Query
block_range key from to = clause (range key (some from) (some to))

abbrev pub set_reverted : Document → Document
set_reverted d = insert "status" (status_text reverted) d

-- A time in nanoseconds has this many seconds.
abbrev pub unix : ℕ → ℕ
unix t = t / 1000000000

module _ (server : Elastic) where
  unfoldable pub save_block : Block → Action server.State String (Unit {0})
  save_block block =
      request "failed to index block: "
        (server.index (blocks_index block.chain_id) (number_id block.number) (block_document block))

  unfoldable pub delete_blocks : String → (from to : ℕ) → Action server.State String (Unit {0})
  delete_blocks chain_id from to =
      request "failed to delete blocks: "
        (server.delete_by_query (blocks_index chain_id) (block_range "block_number" from to))

  unfoldable pub save_transaction : Transaction → Action server.State String (Unit {0})
  save_transaction tx =
      request "failed to index transaction: "
        (server.index (transactions_index tx.chain_id) (hash_id tx.hash) (transaction_document tx))

  unfoldable pub update_transaction_status :
      String → String → TransactionStatus → Action server.State String (Unit {0})
  update_transaction_status chain_id hash status = request "failed to update transaction: " (
      server.update (transactions_index chain_id) (hash_id hash)
        (("status", status_text status) ∷ []))

  unfoldable pub mark_transactions_as_reverted :
      String → (from to : ℕ) → Action server.State String (Unit {0})
  mark_transactions_as_reverted chain_id from to = request "failed to update transactions: " (
      server.update_by_query (transactions_index chain_id) (block_range "block_number" from to)
        set_reverted)

  unfoldable pub save_log : Log → Action server.State String (Unit {0})
  save_log log =
      request "failed to index log: " (
        server.index (logs_index log.chain_id) (log_id log.tx_hash log.log_index)
          (log_document log))

  unfoldable pub delete_logs : String → (from to : ℕ) → Action server.State String (Unit {0})
  delete_logs chain_id from to =
      request "failed to delete logs: "
        (server.delete_by_query (logs_index chain_id) (block_range "block_number" from to))

  -- Watermarks are not kept, and that is a success.
  unfoldable pub save_watermark : Watermark → Action server.State String (Unit {0})
  save_watermark w s = (ok tt, s)

  unfoldable pub update_watermark : String → Watermark → Action server.State String (Unit {0})
  update_watermark chain_id w s = (ok tt, s)

  -- Two events of a chain in the same second have one identifier.
  unfoldable pub save_reorg_event : ReorgEvent → Action server.State String (Unit {0})
  save_reorg_event event = request "failed to index reorg event: " (
      server.index reorg_events_index (event_id event.chain_id (unix event.detected_at))
        (event_document event))
