-- ===== src/Storage/Database/Implementation.antt =====
-- The database storage of internal/storage/database.go behind the interface of its clients.
use smart_scanner.Storage.{Storage}
use smart_scanner.Storage.Database.Models.{Database, DatabaseState}
use smart_scanner.Storage.Database.Blocks
use smart_scanner.Storage.Database.Transactions
use smart_scanner.Storage.Database.Records

abbrev pub database_storage : Database → Storage
database_storage db = record {
  State = DatabaseState db;
  save_block = Blocks.save_block db;
  get_block = Blocks.get_block db;
  get_block_by_hash = Blocks.get_block_by_hash db;
  get_latest_block = Blocks.get_latest_block db;
  delete_blocks = Blocks.delete_blocks db;
  save_transaction = Transactions.save_transaction db;
  batch_save_transactions = Transactions.batch_save_transactions db;
  get_transaction = Transactions.get_transaction db;
  get_transactions_by_block = Transactions.get_transactions_by_block db;
  get_transactions_by_address = Transactions.get_transactions_by_address db;
  update_transaction_status = Transactions.update_transaction_status db;
  mark_transactions_as_reverted = Transactions.mark_transactions_as_reverted db;
  save_log = Records.save_log db;
  batch_save_logs = Records.batch_save_logs db;
  get_logs = Records.get_logs db;
  delete_logs = Records.delete_logs db;
  save_watermark = Records.save_watermark db;
  get_watermark = Records.get_watermark db;
  update_watermark = Records.update_watermark db;
  save_reorg_event = Records.save_reorg_event db;
  get_reorg_events = Records.get_reorg_events db;
  health_check = λ s. db.ping;
  close = λ s. (db.close_connection, s);
}
