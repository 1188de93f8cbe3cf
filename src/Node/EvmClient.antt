-- ===== src/Node/EvmClient.antt =====
-- internal/node/evm_client.go: what the client of an EVM chain makes of the answers of its node
-- manager, which is a parameter. The same request gets the same answer.
pub mod Parsing
pub mod Ancestors
mod Tests
use smart_scanner.Common.{
  ℕ, zero, suc, String, Bool, true, false, not, none, some, List, [], ◌∷◌, map, Outcome, ok, err,
  ◌>>=◌, if◌then◌else◌, wrap, ltb, str_eq, ℤ, pos, ◌==◌, ◌+◌,
}
use smart_scanner.Types.{Block, Transaction, TransactionStatus, Log, pending, confirmed, reverted}
use smart_scanner.Util.{codes, parse_big_int, parse_block_number}
use smart_scanner.Parser.Json.{Json, Fields, get, as_text, as_object, as_array}
use smart_scanner.Parser.Base.{ParseError, required, text_or_empty, number_error}
use smart_scanner.Parser.EvmParser.{low_uint64, low_int64}
use smart_scanner.Parser.EvmParser.Logs.{topic_strings, parsed_items}

-- The calls, by method and arguments.
pub data Request : Type 0 where
  block_by_number : ℕ → Request
  block_by_tag : String → Request
  block_by_hash transaction_by_hash transaction_receipt : String → Request
  block_number : Request

pub data ClientError : Type 0 where
  call_failed : Request → String → ClientError
  batch_failed : String → ClientError
  unread : ParseError → ClientError
  no_common_ancestor : ClientError

pub record Receipt : Type 0 where
  pub transaction : Transaction
  pub gas_used : ℕ
  pub logs : List Log

module _ (chain_id : String) where
  unfoldable pub parse_transaction : Json → Outcome ParseError Transaction
  parse_transaction result = do
    fields ← required "transaction data" (as_object result)
    hash ← required "transaction hash" (as_text (get fields "hash"))
    from ← required "from address" (as_text (get fields "from"))
    let to : String = text_or_empty fields "to"
    value_hex ← required "value" (as_text (get fields "value"))
    value ← number_error "value" (parse_big_int (codes value_hex))
    gas_price_hex ← required "gas price" (as_text (get fields "gasPrice"))
    gas_price ← number_error "gas price" (parse_big_int (codes gas_price_hex))
    ok (record {
      chain_id = chain_id;
      hash = hash;
      block_number = 0;
      block_hash = "";
      from = from;
      to = to;
      value = some value;
      gas_price = some gas_price;
      status = pending;
      index = 0;
      input_data = text_or_empty fields "input";
    })

  -- The loop over the transactions of a block from index `i` on.
  unfoldable pub parse_transactions :
      (number : ℕ) (hash : String) (i : ℕ) → List Json → List Transaction
  parse_transactions number hash i [] = []
  parse_transactions number hash i (raw ∷ raws) =
      let rest = parse_transactions number hash (i + 1) raws in
      elim (parse_transaction raw) [
        | err e ↦ rest
        | ok tx ↦ record tx { block_number = number; block_hash = hash; index = i } ∷ rest
      ]

  unfoldable pub parse_block : Json → Outcome ParseError Block
  parse_block result = do
    fields ← required "block data" (as_object result)
    number_hex ← required "block number" (as_text (get fields "number"))
    number ← number_error "block number" (parse_block_number (codes number_hex))
    hash ← required "block hash" (as_text (get fields "hash"))
    parent_hash ← required "parent hash" (as_text (get fields "parentHash"))
    timestamp_hex ← required "timestamp" (as_text (get fields "timestamp"))
    timestamp ← number_error "timestamp" (parse_big_int (codes timestamp_hex))
    let raws : List Json = elim (as_array (get fields "transactions")) [ none ↦ [] | some l ↦ l ]
    ok (record {
      chain_id = chain_id;
      number = number;
      hash = hash;
      parent_hash = parent_hash;
      timestamp = low_int64 timestamp;
      transactions = parse_transactions number hash 0 raws;
    })

  unfoldable pub parse_log : Json → Outcome ParseError Log
  parse_log result = do
    fields ← required "log data" (as_object result)
    tx_hash ← required "transaction hash" (as_text (get fields "transactionHash"))
    number_hex ← required "block number" (as_text (get fields "blockNumber"))
    number ← number_error "block number" (parse_block_number (codes number_hex))
    address ← required "address" (as_text (get fields "address"))
    topics ← required "topics" (as_array (get fields "topics"))
    log_index_hex ← required "log index" (as_text (get fields "logIndex"))
    log_index ← number_error "log index" (parse_big_int (codes log_index_hex))
    tx_index_hex ← required "transaction index" (as_text (get fields "transactionIndex"))
    tx_index ← number_error "transaction index" (parse_big_int (codes tx_index_hex))
    ok (record {
      chain_id = chain_id;
      tx_hash = tx_hash;
      block_number = number;
      address = address;
      topics = topic_strings topics;
      data_text = text_or_empty fields "data";
      log_index = low_uint64 log_index;
      tx_index = low_uint64 tx_index;
    })

  abbrev pub is_one : ℤ → Bool
  is_one (pos n) = n == 1
  is_one _ = false

  unfoldable pub parse_transaction_receipt : Json → Outcome ParseError Receipt
  parse_transaction_receipt result = do
    fields ← required "receipt data" (as_object result)
    hash ← required "transaction hash" (as_text (get fields "transactionHash"))
    number_hex ← required "block number" (as_text (get fields "blockNumber"))
    number ← number_error "block number" (parse_block_number (codes number_hex))
    block_hash ← required "block hash" (as_text (get fields "blockHash"))
    status_hex ← required "status" (as_text (get fields "status"))
    status ← number_error "status" (parse_big_int (codes status_hex))
    gas_used_hex ← required "gas used" (as_text (get fields "gasUsed"))
    gas_used ← number_error "gas used" (parse_big_int (codes gas_used_hex))
    tx_index_hex ← required "transaction index" (as_text (get fields "transactionIndex"))
    tx_index ← number_error "transaction index" (parse_big_int (codes tx_index_hex))
    let raws : List Json = elim (as_array (get fields "logs")) [ none ↦ [] | some l ↦ l ]
    ok (record {
      transaction = record {
        chain_id = chain_id;
        hash = hash;
        block_number = number;
        block_hash = block_hash;
        from = "";
        to = "";
        value = none;
        gas_price = none;
        status = if is_one (low_int64 status) then confirmed else reverted;
        index = low_uint64 tx_index;
        input_data = "";
      };
      gas_used = low_uint64 gas_used;
      logs = parsed_items parse_log raws;
    })

  module _ (call : Request → Outcome String Json) where
    abbrev pub answer :
        {A : Type 0} → Request → (Json → Outcome ParseError A) → Outcome ClientError A
    answer request parse = do
      result ← wrap (call_failed request) (call request)
      wrap unread (parse result)

    abbrev pub get_block : ℕ → Outcome ClientError Block
    get_block number = answer (block_by_number number) parse_block

    abbrev pub get_block_by_hash : String → Outcome ClientError Block
    get_block_by_hash hash = answer (block_by_hash hash) parse_block

    abbrev pub get_latest_block : Outcome ClientError Block
    get_latest_block = answer (block_by_tag "latest") parse_block

    abbrev pub get_transaction : String → Outcome ClientError Transaction
    get_transaction hash = answer (transaction_by_hash hash) parse_transaction

    abbrev pub get_transaction_receipt : String → Outcome ClientError Receipt
    get_transaction_receipt hash = answer (transaction_receipt hash) parse_transaction_receipt

    abbrev pub tag_of : String → String
    tag_of finalization_type =
        if str_eq finalization_type "finalized"
        then "finalized"
        else if str_eq finalization_type "safe"
        then "safe"
        else "latest"

    abbrev pub read_number : Json → Outcome ParseError ℕ
    read_number result = do
      number_hex ← required "block number" (as_text result)
      number_error "block number" (parse_block_number (codes number_hex))

    unfoldable pub get_finalized_height : (finalization_type : String) → Outcome ClientError ℕ
    get_finalized_height finalization_type =
        answer (block_by_tag (tag_of finalization_type)) (λ result. do
          fields ← required "block data" (as_object result)
          read_number (get fields "number"))

    unfoldable pub get_current_height : Outcome ClientError ℕ
    get_current_height = answer block_number read_number

    -- `findCommonAncestor` from block `n` down: the first block that is answered.
    unfoldable pub find_common_ancestor : ℕ → Outcome ClientError ℕ
    find_common_ancestor zero = err no_common_ancestor
    find_common_ancestor (suc n) =
        let below = find_common_ancestor n in
        elim (get_block (suc n)) [ ok b ↦ ok (suc n) | err e ↦ below ]

    unfoldable pub detect_reorg :
        (old_number : ℕ) (old_hash : String) → Outcome ClientError (Bool × ℕ)
    detect_reorg old_number old_hash = do
      current ← get_block old_number
      if not (str_eq current.hash old_hash)
          then (do ancestor ← find_common_ancestor old_number; ok (true, ancestor))
          else ok (false, old_number)
