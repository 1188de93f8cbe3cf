-- ===== src/Plugin/Adapter/Raw.antt =====
-- The conversions of raw maps in internal/plugin/evm_adapter.go, which nothing calls. The decoders of
-- hexutil are parameters.
use Prim.Native.String.{◌++◌ as append}
use smart_scanner.Common.{
  ℕ, String, Option, none, some, List, [], Outcome, ok, err, ◌>>=◌, if◌then◌else◌, wrap, ℤ, pos,
  str_eq,
}
use smart_scanner.Types.{Block, Transaction, TransactionStatus, Log, pending, confirmed, reverted}
use smart_scanner.Parser.EvmParser.{low_int64}
use smart_scanner.Parser.EvmParser.Logs.{topic_strings}
use smart_scanner.Parser.Base.{text_or_empty}
use smart_scanner.Parser.Json.{Json, Fields, get, as_text, as_object, as_array}

-- A type assertion of the raw maps.
abbrev pub asserted : {A : Type 0} → (wrong : String) → Option A → Outcome String A
asserted wrong none = err wrong
asserted wrong (some a) = ok a

abbrev pub or_default : {A : Type 0} → A → Outcome String A → A
or_default a (ok b) = b
or_default a (err e) = a

module _ (decode_uint64 : String → Outcome String ℕ) (decode_big : String → Outcome String ℤ)
    (chain_id : String) where
  -- The raw data of the block is left out.
  unfoldable pub convert_evm_block : Json → Outcome String Block
  convert_evm_block raw = do
    fields ← asserted "invalid block data format" (as_object raw)
    number_hex ← asserted "invalid block number format" (as_text (get fields "number"))
    number ← wrap (append "failed to decode block number: ") (decode_uint64 number_hex)
    hash ← asserted "invalid block hash format" (as_text (get fields "hash"))
    parent_hash ← asserted "invalid parent hash format" (as_text (get fields "parentHash"))
    timestamp_hex ← asserted "invalid timestamp format" (as_text (get fields "timestamp"))
    timestamp ← wrap (append "failed to decode timestamp: ") (decode_big timestamp_hex)
    ok (record {
      chain_id = chain_id;
      number = number;
      hash = hash;
      parent_hash = parent_hash;
      timestamp = low_int64 timestamp;
      transactions = [];
    })

  abbrev pub raw_status : Option Fields → TransactionStatus
  raw_status none = pending
  raw_status (some receipt) = elim (as_text (get receipt "status")) [
    | none ↦ pending
    | some s ↦ if str_eq s "0x1" then confirmed else reverted
  ]

  abbrev pub number_or_zero : Option String → ℕ
  number_or_zero none = 0
  number_or_zero (some hex) = or_default 0 (decode_uint64 hex)

  abbrev pub big_or_zero : Option String → ℤ
  big_or_zero none = or_default (pos 0) (decode_big "0")
  big_or_zero (some hex) = or_default (pos 0) (decode_big hex)

  -- A nil map of the receipt is none.
  unfoldable pub convert_evm_transaction : Fields → Option Fields → Transaction
  convert_evm_transaction fields receipt = record {
    chain_id = chain_id;
    hash = text_or_empty fields "hash";
    block_number = number_or_zero (as_text (get fields "blockNumber"));
    block_hash = text_or_empty fields "blockHash";
    from = text_or_empty fields "from";
    to = text_or_empty fields "to";
    value = some (big_or_zero (as_text (get fields "value")));
    gas_price = some (big_or_zero (as_text (get fields "gasPrice")));
    status = raw_status receipt;
    index = 0;
    input_data = "";
  }

  abbrev pub raw_topics : Option (List Json) → List String
  raw_topics none = []
  raw_topics (some l) = topic_strings l

  unfoldable pub convert_evm_log : Fields → (tx_hash : String) (block_number : ℕ) → Log
  convert_evm_log fields tx_hash block_number = record {
    chain_id = chain_id;
    tx_hash = tx_hash;
    block_number = block_number;
    address = text_or_empty fields "address";
    topics = raw_topics (as_array (get fields "topics"));
    data_text = text_or_empty fields "data";
    log_index = number_or_zero (as_text (get fields "logIndex"));
    tx_index = 0;
  }
