-- ===== src/Parser/EvmParser.antt =====
-- internal/parser/evm_parser.go. The address, contract and event lists of the filter and the smallest
-- value are the parser's configuration; the metrics and the raw data are left out.
pub mod Logs
pub mod Validation
pub mod Filters
pub mod Blocks
mod Tests
use smart_scanner.Common.{
  ℕ, ◌+◌, ◌-◌, ◌%◌, String, Bool, true, false, not, ◌&&◌, ◌||◌, Option, none, some, List, [], ◌∷◌,
  Outcome, ok, err, ◌>>=◌, ◌>>◌, reject_if, if◌then◌else◌, ltb, ℤ, pos, negsuc, pos_part, neg_part,
  neg_ℕ, ltℤ, is_zero, str_eq, u64_mod, i64_min,
}
use smart_scanner.Types.{Block, Transaction, Log, FilterConfig, pending}
use smart_scanner.Util.{codes, parse_big_int, parse_block_number, contains_string}
use smart_scanner.Parser.Json.{Json, Fields, get, as_text, as_object, as_array}
use smart_scanner.Parser.Base.{ParseError, filtered_out, required, text_or_empty, number_error}

-- `Uint64` of a big integer: the low 64 bits of its magnitude.
abbrev pub low_uint64 : ℤ → ℕ
low_uint64 z = (pos_part z + neg_part z) % u64_mod

abbrev pub signed : ℕ → ℤ
signed n = if ltb n i64_min then pos n else neg_ℕ (u64_mod - n)

-- `Int64`: these bits as an int64, negated for a negative number.
abbrev pub low_int64 : ℤ → ℤ
low_int64 (pos n) = signed (low_uint64 (pos n))
low_int64 (negsuc n) = signed ((u64_mod - low_uint64 (negsuc n)) % u64_mod)

-- The test of a list that filters when it is not empty.
abbrev pub is_empty : List String → Bool
is_empty [] = true
is_empty (x ∷ xs) = false

unfoldable pub below_minimum : Option ℤ → Option ℤ → Bool
below_minimum (some least) (some value) = ltℤ value least
below_minimum none value = false
below_minimum (some least) none = false

unfoldable pub zero_value : Option ℤ → Bool
zero_value (some value) = is_zero value
zero_value none = false

unfoldable pub should_include_transaction : FilterConfig → Transaction → Bool
should_include_transaction config tx =
    if not (is_empty config.addresses)
      && (not (contains_string config.addresses tx.from)
          && not (not (str_eq tx.to "") && contains_string config.addresses tx.to))
    then false
    else if not (is_empty config.contracts)
        && not (str_eq tx.to "")
        && not (contains_string config.contracts tx.to)
    then false
    else if below_minimum config.min_value tx.value
    then false
    else if config.exclude_empty && (str_eq tx.to "" || zero_value tx.value)
    then false
    else true

unfoldable pub first_topic_filtered : List String → List String → Bool
first_topic_filtered events [] = false
first_topic_filtered events (t ∷ ts) = not (is_empty events) && not (contains_string events t)

unfoldable pub should_include_log : FilterConfig → Log → Bool
should_include_log config log =
    if not (is_empty config.addresses) && not (contains_string config.addresses log.address)
    then false
    else if not (is_empty config.contracts) && not (contains_string config.contracts log.address)
    then false
    else if first_topic_filtered config.events log.topics
    then false
    else true

-- `ParseTransaction` before the filter.
unfoldable pub read_transaction : Json → Outcome ParseError Transaction
read_transaction raw = do
  fields ← required "transaction data" (as_object raw)
  hash ← required "transaction hash" (as_text (get fields "hash"))
  from ← required "from address" (as_text (get fields "from"))
  let to : String = text_or_empty fields "to"
  value_hex ← required "value" (as_text (get fields "value"))
  value ← number_error "value" (parse_big_int (codes value_hex))
  gas_price_hex ← required "gas price" (as_text (get fields "gasPrice"))
  gas_price ← number_error "gas price" (parse_big_int (codes gas_price_hex))
  ok (record {
    chain_id = "";
    hash = hash;
    block_number = 0;
    block_hash = "";
    from = from;
    to = to;
    value = some value;
    gas_price = some gas_price;
    status = pending;
    index = 0;
    input_data = text_or_empty fields "input";
  })

unfoldable pub parse_transaction : FilterConfig → Json → Outcome ParseError Transaction
parse_transaction config raw = do
  tx ← read_transaction raw
  reject_if (not (should_include_transaction config tx)) filtered_out
  ok tx

-- The loop over the transactions of a block from index `i` on: one that is not parsed is skipped.
unfoldable pub block_transactions :
    FilterConfig → (number : ℕ) → (hash : String) → (i : ℕ) → List Json → List Transaction
block_transactions config number hash i [] = []
block_transactions config number hash i (raw ∷ raws) =
    let rest = block_transactions config number hash (i + 1) raws in
    elim (parse_transaction config raw) [
      | err e ↦ rest
      | ok tx ↦ record tx { block_number = number; block_hash = hash; index = i } ∷ rest
    ]

-- `ParseBlock` up to the transactions.
unfoldable pub read_header : Json → Outcome ParseError (Fields × Block)
read_header raw = do
  fields ← required "block data" (as_object raw)
  number_hex ← required "block number" (as_text (get fields "number"))
  number ← number_error "block number" (parse_block_number (codes number_hex))
  hash ← required "block hash" (as_text (get fields "hash"))
  parent_hash ← required "parent hash" (as_text (get fields "parentHash"))
  timestamp_hex ← required "timestamp" (as_text (get fields "timestamp"))
  timestamp ← number_error "timestamp" (parse_big_int (codes timestamp_hex))
  ok (
    fields,
    record {
      chain_id = "";
      number = number;
      hash = hash;
      parent_hash = parent_hash;
      timestamp = low_int64 timestamp;
      transactions = [];
    },
  )

unfoldable pub parse_block : FilterConfig → Json → Outcome ParseError Block
parse_block config raw = do
  (fields, block) ← read_header raw
  let raws : List Json = elim (as_array (get fields "transactions")) [ none ↦ [] | some l ↦ l ]
  ok (record block { transactions = block_transactions config block.number block.hash 0 raws })
