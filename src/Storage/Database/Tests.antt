-- ===== src/Storage/Database/Tests.antt =====
-- A database of lists, which meets the assumptions about tables, and runs on it.
use smart_scanner.Common.{
  ap, String, ◌≡◌, refl, false, ◌&&◌, none, pos, [], ◌∷◌, Outcome, ok, err, if◌then◌else◌, str_eq,
  leb,
}
use smart_scanner.Types.{Block, Transaction, confirmed, reverted}
use smart_scanner.Storage.Database.Models.{
  BlockModel, TransactionModel, Codec, Database, DatabaseState,
}
use smart_scanner.Storage.Database.Blocks.{get_block, delete_blocks}
use smart_scanner.Storage.Database.Transactions.{
  get_transaction, save_transaction, save_each, batch_save_transactions,
  mark_transactions_as_reverted, transaction_model,
}
use smart_scanner.Storage.Database.Lists.{list_table, list_table-laws}
use smart_scanner.Storage.Database.Reads.{get_transaction-mark_transactions_as_reverted}
use smart_scanner.Storage.Database.Deletions.{get_block-delete_blocks}

abbrev transfer : String → Transaction
transfer hash = record {
  chain_id = "1";
  hash = hash;
  block_number = 7;
  block_hash = "";
  from = "";
  to = "";
  value = none;
  gas_price = none;
  status = confirmed;
  index = 0;
  input_data = "";
}

abbrev unknown {ℓ} : {A : Type ℓ} → A → Outcome String String
unknown a = err "unknown value"

abbrev no_json : {A : Type 0} → Codec A
no_json = record { marshal = unknown; unmarshal = λ s. err "unknown text" }

-- JSON of the transfer with the hash "0xa" alone.
abbrev transfer_json : Codec Transaction
transfer_json = record {
  marshal = λ tx. if str_eq tx.hash "0xa" then ok "{}" else err "unknown value";
  unmarshal = λ s. ok (transfer "0xa");
}

abbrev block : Block
block = record {
  chain_id = "1";
  number = 9;
  hash = "0x9";
  parent_hash = "0x8";
  timestamp = pos 0;
  transactions = [];
}

abbrev block_row : BlockModel
block_row = record { chain_id = "1"; block_number = 9; block_hash = "0x9"; data_text = "{}" }

abbrev block_json : Codec Block
block_json = record { marshal = unknown; unmarshal = λ s. ok block }

abbrev lists : Database
lists = record {
  blocks = list_table;
  transactions = list_table;
  logs = list_table;
  watermarks = list_table;
  events = list_table;
  block_json = block_json;
  transaction_json = transfer_json;
  log_json = no_json;
  event_json = no_json;
  ping = ok tt;
  close_connection = ok tt;
}

abbrev empty : DatabaseState lists
empty = record {
  block_rows = block_row ∷ [];
  transaction_rows = [];
  log_rows = [];
  watermark_rows = [];
  event_rows = [];
}

abbrev row : TransactionModel
row = transaction_model lists (transfer "0xa") "{}"

abbrev one_row : DatabaseState lists
one_row = record empty { transaction_rows = row ∷ [] }

reads : get_transaction lists "1" "0xa" one_row ≡ ok (transfer "0xa")
unfolding get_transaction transaction_model
reads = refl

marks :
    mark_transactions_as_reverted lists "1" 5 9 one_row
    ≡ (ok tt, record empty { transaction_rows = record row { status = reverted } ∷ [] })
unfolding mark_transactions_as_reverted transaction_model
marks = refl

reads_marked :
    get_transaction lists "1" "0xa" (mark_transactions_as_reverted lists "1" 5 9 one_row).1
    ≡ ok (transfer "0xa")
unfolding mark_transactions_as_reverted get_transaction transaction_model
reads_marked = refl

get_transaction-mark_transactions_as_reverted_example : transfer "0xa" ≡ transfer "0xa"
get_transaction-mark_transactions_as_reverted_example =
    get_transaction-mark_transactions_as_reverted lists list_table-laws "1" 5 9 "1" "0xa" one_row
      (transfer "0xa") (transfer "0xa") (ap (λ r. r.0) marks) reads reads_marked

deletes : (delete_blocks lists "1" 3 8 empty).0 ≡ ok tt
unfolding delete_blocks
deletes = refl

block_left : get_block lists "1" 9 (delete_blocks lists "1" 3 8 empty).1 ≡ ok block
unfolding delete_blocks get_block
block_left = refl

get_block-delete_blocks_example :
    ((str_eq "1" "1" && (leb 3 9 && leb 9 8)) ≡ false)
    × ((b : Block) → get_block lists "1" 9 empty ≡ ok b → block ≡ b)
get_block-delete_blocks_example =
    get_block-delete_blocks lists list_table-laws "1" 3 8 "1" 9 empty block deletes block_left

saved : (save_transaction lists (transfer "0xa") empty).0 ≡ ok tt
unfolding save_transaction transaction_model
saved = refl

read_saved :
    get_transaction lists "1" "0xa" (save_transaction lists (transfer "0xa") empty).1
    ≡ ok (transfer "0xa")
unfolding save_transaction get_transaction transaction_model
read_saved = refl

second_fails :
    (save_transaction lists
      (transfer "0xb")
      (batch_save_transactions lists (transfer "0xa" ∷ []) empty).1).0
    ≡ err "failed to marshal transaction: unknown value"
unfolding save_transaction save_each batch_save_transactions transaction_model
second_fails = refl

first_saved : (batch_save_transactions lists (transfer "0xa" ∷ []) empty).0 ≡ ok tt
unfolding save_transaction save_each batch_save_transactions transaction_model
first_saved = refl
