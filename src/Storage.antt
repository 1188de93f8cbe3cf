-- ===== src/Storage.antt =====
-- The `Storage` interface of internal/storage/storage.go. The implementations reach MySQL, Redis and Elasticsearch through client libraries, so the
-- interface is a parameter of its clients. An error is its text. A write returns the new state also
-- where it fails.
pub mod Memory
pub mod Database
pub mod Manager
pub mod Redis
pub mod Elastic
use smart_scanner.Common.{ℕ, String, Outcome, List}
use smart_scanner.Common.Actions.{Action}
use smart_scanner.Types.{
  Block, Transaction, TransactionStatus, Log, LogFilter, Watermark, ReorgEvent,
}

pub record Storage : Type 1 where
  pub State : Type 0
  pub save_block : Block → Action State String (Unit {0})
  pub get_block : String → ℕ → State → Outcome String Block
  pub get_block_by_hash : String → String → State → Outcome String Block
  pub get_latest_block : String → State → Outcome String Block
  pub delete_blocks : String → (from to : ℕ) → Action State String (Unit {0})
  pub save_transaction : Transaction → Action State String (Unit {0})
  pub batch_save_transactions : List Transaction → Action State String (Unit {0})
  pub get_transaction : String → String → State → Outcome String Transaction
  pub get_transactions_by_block : String → ℕ → State → Outcome String (List Transaction)
  pub get_transactions_by_address :
      String → String → (limit offset : ℕ) → State → Outcome String (List Transaction)
  pub update_transaction_status :
      String → String → TransactionStatus → Action State String (Unit {0})
  pub mark_transactions_as_reverted : String → (from to : ℕ) → Action State String (Unit {0})
  pub save_log : Log → Action State String (Unit {0})
  pub batch_save_logs : List Log → Action State String (Unit {0})
  pub get_logs : String → LogFilter → State → Outcome String (List Log)
  pub delete_logs : String → (from to : ℕ) → Action State String (Unit {0})
  pub save_watermark : Watermark → Action State String (Unit {0})
  pub get_watermark : String → State → Outcome String Watermark
  pub update_watermark : String → Watermark → Action State String (Unit {0})
  pub save_reorg_event : ReorgEvent → Action State String (Unit {0})
  pub get_reorg_events : String → (limit offset : ℕ) → State → Outcome String (List ReorgEvent)
  pub health_check : State → Outcome String (Unit {0})
  pub close : Action State String (Unit {0})
