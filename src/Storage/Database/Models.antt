-- ===== src/Storage/Database/Models.antt =====
-- The rows of internal/storage/database.go, without the columns that no query and no reader uses, and
-- the database as its five tables. encoding/json enters as a codec.
use smart_scanner.Common.{ℕ, String, ◌≡◌, Outcome, ok}
use smart_scanner.Types.{Block, Transaction, TransactionStatus, Log, ReorgEvent}
use smart_scanner.Storage.Database.Table.{Table}

pub record BlockModel : Type 0 where
  pub chain_id : String
  pub block_number : ℕ
  pub block_hash : String
  pub data_text : String

pub record TransactionModel : Type 0 where
  pub chain_id : String
  pub tx_hash : String
  pub block_number : ℕ
  pub from_address : String
  pub to_address : String
  pub status : TransactionStatus
  pub data_text : String

pub record LogModel : Type 0 where
  pub chain_id : String
  pub tx_hash : String
  pub block_number : ℕ
  pub address : String
  pub data_text : String
  pub log_index : ℕ

pub record WatermarkModel : Type 0 where
  pub chain_id : String
  pub scanned_height : ℕ
  pub confirmed_height : ℕ
  pub finalized_height : ℕ
  pub reorg_boundary : ℕ
  pub last_update_time : ℕ

pub record ReorgEventModel : Type 0 where
  pub chain_id : String
  pub detected_at : ℕ
  pub data_text : String

-- `json.Marshal` and `json.Unmarshal` of one type.
pub record Codec (A : Type 0) : Type 0 where
  pub marshal : A → Outcome String String
  pub unmarshal : String → Outcome String A

-- The text of a value is read back as this value.
abbrev pub ReadBack : {A : Type 0} → Codec A → A → Type 0
ReadBack json a = (s : String) → json.marshal a ≡ ok s → json.unmarshal s ≡ ok a

pub record Database : Type 1 where
  pub blocks : Table BlockModel
  pub transactions : Table TransactionModel
  pub logs : Table LogModel
  pub watermarks : Table WatermarkModel
  pub events : Table ReorgEventModel
  pub block_json : Codec Block
  pub transaction_json : Codec Transaction
  pub log_json : Codec Log
  pub event_json : Codec ReorgEvent
  -- `DB()` with the ping, and its closing.
  pub ping : Outcome String (Unit {0})
  pub close_connection : Outcome String (Unit {0})

pub record DatabaseState (db : Database) : Type 0 where
  pub block_rows : db.blocks.State
  pub transaction_rows : db.transactions.State
  pub log_rows : db.logs.State
  pub watermark_rows : db.watermarks.State
  pub event_rows : db.events.State
