-- ===== src/Parser/EvmParser/Logs.antt =====
-- The logs of internal/parser/evm_parser.go, and the batches.
use smart_scanner.Common.{
  String, none, some, List, [], ◌∷◌, Outcome, ok, err, ◌>>=◌, ◌>>◌, reject_if, not,
}
use smart_scanner.Types.{Transaction, Log, FilterConfig}
use smart_scanner.Util.{codes, parse_big_int, parse_block_number}
use smart_scanner.Parser.Json.{Json, get, as_text, as_object, as_array}
use smart_scanner.Parser.Base.{ParseError, filtered_out, required, text_or_empty, number_error}
use smart_scanner.Parser.EvmParser.{low_uint64, should_include_log, parse_transaction}

-- Topics that are no texts are dropped.
unfoldable pub topic_strings : List Json → List String
topic_strings [] = []
topic_strings (topic ∷ topics) =
    let rest = topic_strings topics in elim (as_text topic) [ none ↦ rest | some s ↦ s ∷ rest ]

-- `ParseLog` before the filter.
unfoldable pub read_log : Json → Outcome ParseError Log
read_log raw = do
  fields ← required "log data" (as_object raw)
  tx_hash ← required "transaction hash" (as_text (get fields "transactionHash"))
  number_hex ← required "block number" (as_text (get fields "blockNumber"))
  number ← number_error "block number" (parse_block_number (codes number_hex))
  address ← required "address" (as_text (get fields "address"))
  topics ← required "topics" (as_array (get fields "topics"))
  log_index_hex ← required "log index" (as_text (get fields "logIndex"))
  log_index ← number_error "log index" (parse_big_int (codes log_index_hex))
  tx_index_hex ← required "transaction index" (as_text (get fields "transactionIndex"))
  tx_index ← number_error "transaction index" (parse_big_int (codes tx_index_hex))
  ok (record {
    chain_id = "";
    tx_hash = tx_hash;
    block_number = number;
    address = address;
    topics = topic_strings topics;
    data_text = text_or_empty fields "data";
    log_index = low_uint64 log_index;
    tx_index = low_uint64 tx_index;
  })

unfoldable pub parse_log : FilterConfig → Json → Outcome ParseError Log
parse_log config raw = do
  log ← read_log raw
  reject_if (not (should_include_log config log)) filtered_out
  ok log

-- The loops of the batches: an item that is not parsed is skipped.
unfoldable pub parsed_items : {A : Type 0} → (Json → Outcome ParseError A) → List Json → List A
parsed_items parse [] = []
parsed_items parse (raw ∷ raws) =
    let rest = parsed_items parse raws in elim (parse raw) [ err e ↦ rest | ok a ↦ a ∷ rest ]

unfoldable pub batch_parse_transactions :
    FilterConfig → List Json → Outcome ParseError (List Transaction)
batch_parse_transactions config raws = ok (parsed_items (parse_transaction config) raws)

unfoldable pub batch_parse_logs : FilterConfig → List Json → Outcome ParseError (List Log)
batch_parse_logs config raws = ok (parsed_items (parse_log config) raws)
