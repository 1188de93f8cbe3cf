-- ===== src/Storage/Elastic/Implementation.antt =====
-- The storage in Elasticsearch as an implementation of the interface of internal/storage/storage.go.
use smart_scanner.Common.{ok}
use smart_scanner.Storage.{Storage}
use smart_scanner.Storage.Elastic.{Elastic}
use smart_scanner.Storage.Elastic.Writes
use smart_scanner.Storage.Elastic.Reads
use smart_scanner.Storage.Elastic.Batches

-- Closing does nothing.
abbrev pub elastic_storage : Elastic → Storage
elastic_storage server = record {
  State = server.State;
  save_block = Writes.save_block server;
  get_block = Reads.get_block server;
  get_block_by_hash = Reads.get_block_by_hash server;
  get_latest_block = Reads.get_latest_block server;
  delete_blocks = Writes.delete_blocks server;
  save_transaction = Writes.save_transaction server;
  batch_save_transactions = Batches.batch_save_transactions server;
  get_transaction = Reads.get_transaction server;
  get_transactions_by_block = Reads.get_transactions_by_block server;
  get_transactions_by_address = Reads.get_transactions_by_address server;
  update_transaction_status = Writes.update_transaction_status server;
  mark_transactions_as_reverted = Writes.mark_transactions_as_reverted server;
  save_log = Writes.save_log server;
  batch_save_logs = Batches.batch_save_logs server;
  get_logs = Reads.get_logs server;
  delete_logs = Writes.delete_logs server;
  save_watermark = Writes.save_watermark server;
  get_watermark = Reads.get_watermark server;
  update_watermark = Writes.update_watermark server;
  save_reorg_event = Writes.save_reorg_event server;
  get_reorg_events = Reads.get_reorg_events server;
  health_check = Reads.health_check server;
  close = λ s. (ok tt, s);
}
