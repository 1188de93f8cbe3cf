-- ===== src/Types.antt =====
-- The shared data types of pkg/types/types.go. A `time.Time` is a number of nanoseconds; fields
-- that no modelled code reads (raw data, gas used, the time and the logs of a transaction) are left
-- out.
use smart_scanner.Common.{
  ℤ, Option, ℕ, String, Bool, List, true, false, str_eq, str_eq_iff, ◌≡◌, ◌↔◌, arith,
}

-- `TransactionStatus`: the four constants, and any other text.
pub data TransactionStatus : Type 0 where
  pending confirmed finalized reverted : TransactionStatus
  other_status : String → TransactionStatus

pub record Transaction : Type 0 where
  pub chain_id : String
  pub hash : String
  pub block_number : ℕ
  pub block_hash : String
  pub from : String
  pub to : String
  pub value : Option ℤ
  pub gas_price : Option ℤ
  pub status : TransactionStatus
  pub index : ℕ
  pub input_data : String

pub record Log : Type 0 where
  pub chain_id : String
  pub tx_hash : String
  pub block_number : ℕ
  pub address : String
  pub topics : List String
  pub data_text : String
  pub log_index : ℕ
  pub tx_index : ℕ

pub record Block : Type 0 where
  pub chain_id : String
  pub number : ℕ
  pub hash : String
  pub parent_hash : String
  pub timestamp : ℤ
  pub transactions : List Transaction

pub record Watermark : Type 0 where
  pub chain_id : String
  pub scanned_height : ℕ
  pub confirmed_height : ℕ
  pub finalized_height : ℕ
  pub reorg_boundary : ℕ
  pub last_update_time : ℕ

pub record ReorgEvent : Type 0 where
  pub chain_id : String
  pub detected_at : ℕ
  pub old_block_number : ℕ
  pub old_block_hash : String
  pub new_block_number : ℕ
  pub new_block_hash : String
  pub depth : ℕ
  pub affected_txs : List String
  pub processed : Bool

-- A nil slice and an empty one are the same here: the code asks for their lengths alone.
pub record FilterConfig : Type 0 where
  pub addresses : List String
  pub contracts : List String
  pub events : List String
  pub min_value : Option ℤ
  pub exclude_empty : Bool

-- `LogFilter` of internal/storage/storage.go, without its chain, which no storage reads.
pub record LogFilter : Type 0 where
  pub block_number : Option ℕ
  pub from_block : Option ℕ
  pub to_block : Option ℕ
  pub address : String
  pub topics : List String
  pub tx_hash : String
  pub limit : ℕ
  pub offset : ℕ

pub record ScanTask : Type 0 where
  pub chain_id : String
  pub start_block : ℕ
  pub end_block : ℕ
  pub shard_id : ℕ
  pub retry_count : ℕ
  pub priority : ℕ

-- Go's `==` on statuses.
unfoldable pub status_eq : TransactionStatus → TransactionStatus → Bool
status_eq pending pending = true
status_eq confirmed confirmed = true
status_eq finalized finalized = true
status_eq reverted reverted = true
status_eq (other_status s) (other_status t) = str_eq s t
status_eq _ _ = false

pub status_eq_iff : (a b : TransactionStatus) → (status_eq a b ≡ true) ↔ (a ≡ b)
unfolding status_eq
status_eq_iff (other_status s) (other_status t) = ground (arith, str_eq_iff s t)
status_eq_iff a b = ground arith
