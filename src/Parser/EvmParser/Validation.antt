-- ===== src/Parser/EvmParser/Validation.antt =====
-- The checks of internal/parser/evm_parser.go on what was parsed, and the parser behind the
-- interface.
use smart_scanner.Common.{
  Bool, true, false, not, ◌&&◌, Option, none, some, Outcome, ◌>>◌, reject_if, ◌==◌, ℤ, pos, negsuc,
  str_eq,
}
use smart_scanner.Types.{Block, Transaction, Log, FilterConfig}
use smart_scanner.Util.{is_valid_address}
use smart_scanner.Parser.Base.{
  ValidationError, cannot_be_zero, cannot_be_empty, invalid_address, cannot_be_nil, Parser,
}
use smart_scanner.Parser.EvmParser.{is_empty, parse_block, parse_transaction}
use smart_scanner.Parser.EvmParser.Logs.{parse_log, batch_parse_transactions, batch_parse_logs}

-- `time.Unix(t, 0).IsZero()`: the first second of the year 1.
abbrev pub is_zero_time : ℤ → Bool
is_zero_time (pos n) = false
is_zero_time (negsuc n) = n == 62135596799

unfoldable pub validate_block : Block → Outcome ValidationError (Unit {0})
validate_block block = do
  reject_if (block.number == 0) (cannot_be_zero "block number")
  reject_if (str_eq block.hash "") (cannot_be_empty "block hash")
  reject_if (str_eq block.parent_hash "") (cannot_be_empty "parent hash")
  reject_if (is_zero_time block.timestamp) (cannot_be_zero "block timestamp")

abbrev pub is_nil : Option ℤ → Bool
is_nil none = true
is_nil (some z) = false

unfoldable pub validate_transaction : Transaction → Outcome ValidationError (Unit {0})
validate_transaction tx = do
  reject_if (str_eq tx.hash "") (cannot_be_empty "transaction hash")
  reject_if (str_eq tx.from "") (cannot_be_empty "from address")
  reject_if (not (is_valid_address tx.from)) (invalid_address tx.from)
  reject_if (not (str_eq tx.to "") && not (is_valid_address tx.to)) (invalid_address tx.to)
  reject_if (is_nil tx.value) (cannot_be_nil "value")

unfoldable pub validate_log : Log → Outcome ValidationError (Unit {0})
validate_log log = do
  reject_if (str_eq log.tx_hash "") (cannot_be_empty "transaction hash")
  reject_if (log.block_number == 0) (cannot_be_zero "block number")
  reject_if (str_eq log.address "") (cannot_be_empty "address")
  reject_if (not (is_valid_address log.address)) (invalid_address log.address)
  reject_if (is_empty log.topics) (cannot_be_empty "topics")

-- `NewEVMParser` and `SetFilterConfig`.
unfoldable pub evm_parser : FilterConfig → Parser
evm_parser config = record {
  parse_block = parse_block config;
  parse_transaction = parse_transaction config;
  parse_log = parse_log config;
  batch_parse_transactions = batch_parse_transactions config;
  batch_parse_logs = batch_parse_logs config;
  validate_block = validate_block;
  validate_transaction = validate_transaction;
  validate_log = validate_log;
}
