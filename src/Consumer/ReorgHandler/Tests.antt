-- ===== src/Consumer/ReorgHandler/Tests.antt =====
-- Runs of the reorg handlers on the storage in memory and on a database of lists.
use smart_scanner.Common.{pos, none, ℕ, String, ◌≡◌, refl, true, false, [], ◌∷◌, ok, err}
use smart_scanner.Types.{Block, Transaction, confirmed, ReorgEvent}
use smart_scanner.Storage.Memory.{memory, Tables}
use smart_scanner.Consumer.StateMachine.{force_set_state}
use smart_scanner.Consumer.ReorgHandler.{
  is_processing, delete_key, validate_reorg_event, revert_transactions, revert_blocks,
  mark_transactions_as_reverted, cleanup_reorg_data, mark_reorg_event_as_processed, reorg_steps,
  handle_reorg,
}
use smart_scanner.Consumer.ReorgHandler.Advanced.{
  ReorgHandlerConfig, depth_exceeds, validate_depth, advanced_steps, advanced_handle_reorg,
}
use smart_scanner.Consumer.ReorgHandler.Reverted.{AllMarked, AllDeleted, handle_reorg-reverts}
use smart_scanner.Storage.Database.Models.{TransactionModel, Codec, Database, DatabaseState}
use smart_scanner.Storage.Database.Lists.{list_table, list_table-laws}
use smart_scanner.Storage.Database.Implementation.{database_storage}
use smart_scanner.Storage.Database.Blocks
use smart_scanner.Storage.Database.Transactions
use smart_scanner.Storage.Database.Records

abbrev event : ReorgEvent
event = record {
  chain_id = "1";
  detected_at = 77;
  old_block_number = 9;
  old_block_hash = "stale";
  new_block_number = 5;
  new_block_hash = "new";
  depth = 4;
  affected_txs = [];
  processed = false;
}

abbrev block : ℕ → String → Block
block n h = record {
  chain_id = "1";
  number = n;
  hash = h;
  timestamp = pos 0;
  parent_hash = "";
  transactions = [];
}

abbrev transfer : ℕ → String → Transaction
transfer n h = record {
  chain_id = "1";
  hash = h;
  block_number = n;
  block_hash = "";
  from = "";
  to = "";
  value = none;
  gas_price = none;
  index = 0;
  input_data = "";
  status = confirmed;
}

abbrev tables : Tables
tables = record {
  blocks = block 9 "stale" ∷ block 5 "new" ∷ block 4 "common" ∷ [];
  transactions = transfer 9 "0xa" ∷ transfer 4 "0xb" ∷ [];
  events = [];
  logs = [];
  watermarks = [];
}

handles : (handle_reorg memory event ([], tables)).0 ≡ ok tt
unfolding handle_reorg reorg_steps is_processing validate_reorg_event mark_transactions_as_reverted
    revert_blocks revert_transactions force_set_state cleanup_reorg_data
    mark_reorg_event_as_processed
handles = refl

-- A database with the block at hand and two rows of transactions, whose JSON is not read.
abbrev unread : {A : Type 0} → Codec A
unread = record { marshal = λ a. ok "{}"; unmarshal = λ s. err "unknown text" }

abbrev lists : Database
lists = record {
  blocks = list_table;
  transactions = list_table;
  logs = list_table;
  watermarks = list_table;
  events = list_table;
  block_json = record { marshal = λ b. ok "{}"; unmarshal = λ s. ok (block 5 "new") };
  transaction_json = unread;
  log_json = unread;
  event_json = unread;
  ping = ok tt;
  close_connection = ok tt;
}

abbrev row : ℕ → String → TransactionModel
row n h = record {
  chain_id = "1";
  tx_hash = h;
  block_number = n;
  from_address = "";
  to_address = "";
  status = confirmed;
  data_text = "{}";
}

abbrev stored : DatabaseState lists
stored = record {
  block_rows =
      record { chain_id = "1"; block_number = 5; block_hash = "new"; data_text = "{}" } ∷ [];
  transaction_rows = row 9 "0xa" ∷ row 4 "0xb" ∷ [];
  log_rows = [];
  watermark_rows = [];
  event_rows = [];
}

handles_stored : (handle_reorg (database_storage lists) event ([], stored)).0 ≡ ok tt
unfolding handle_reorg reorg_steps is_processing validate_reorg_event mark_transactions_as_reverted
    revert_blocks revert_transactions force_set_state cleanup_reorg_data
    mark_reorg_event_as_processed Blocks.get_block_by_hash Blocks.delete_blocks
    Transactions.mark_transactions_as_reverted Transactions.get_transactions_by_block
    Transactions.decode_rows Records.delete_logs Records.save_reorg_event
handles_stored = refl

handle_reorg-reverts_example :
    let s = (handle_reorg (database_storage lists) event ([], stored)).1.1 in
    AllMarked lists list_table-laws list_table-laws event s
    × AllDeleted lists list_table-laws list_table-laws event s
handle_reorg-reverts_example =
    handle_reorg-reverts lists list_table-laws list_table-laws event [] stored handles_stored

abbrev strict : ReorgHandlerConfig
strict = record {
  max_allowed_depth = 4;
  enable_business_data_reversion = true;
  enable_data_cleanup = true;
}

refuses_deep :
    (advanced_handle_reorg memory (record strict { max_allowed_depth = 3 }) event ([], tables))
    ≡ (err (depth_exceeds 4 3), ([], tables))
unfolding advanced_handle_reorg advanced_steps validate_depth is_processing delete_key
refuses_deep = refl
