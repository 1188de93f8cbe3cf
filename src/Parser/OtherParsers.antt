-- ===== src/Parser/OtherParsers.antt =====
-- internal/parser/other_parsers.go: the parsers of Solana and of Tron parse nothing yet, and their
-- checks are the same.
use smart_scanner.Common.{Outcome, err, ◌>>◌, reject_if, ◌==◌, str_eq}
use smart_scanner.Types.{Block, Transaction, Log}
use smart_scanner.Parser.Base.{
  not_implemented, ValidationError, cannot_be_zero, cannot_be_empty, Parser,
}
use smart_scanner.Parser.EvmParser.Validation.{is_zero_time}

unfoldable pub validate_block : Block → Outcome ValidationError (Unit {0})
validate_block block = do
  reject_if (block.number == 0) (cannot_be_zero "block number")
  reject_if (str_eq block.hash "") (cannot_be_empty "block hash")
  reject_if (is_zero_time block.timestamp) (cannot_be_zero "block timestamp")

unfoldable pub validate_transaction : Transaction → Outcome ValidationError (Unit {0})
validate_transaction tx = do
  reject_if (str_eq tx.hash "") (cannot_be_empty "transaction hash")
  reject_if (str_eq tx.from "") (cannot_be_empty "from address")

unfoldable pub validate_log : Log → Outcome ValidationError (Unit {0})
validate_log log = do
  reject_if (str_eq log.tx_hash "") (cannot_be_empty "transaction hash")
  reject_if (log.block_number == 0) (cannot_be_zero "block number")
  reject_if (str_eq log.address "") (cannot_be_empty "address")

-- `SolanaParser` and `TronParser`.
unfoldable pub solana_parser : Parser
solana_parser = record {
  parse_block = λ raw. err not_implemented;
  parse_transaction = λ raw. err not_implemented;
  parse_log = λ raw. err not_implemented;
  batch_parse_transactions = λ raws. err not_implemented;
  batch_parse_logs = λ raws. err not_implemented;
  validate_block = validate_block;
  validate_transaction = validate_transaction;
  validate_log = validate_log;
}

unfoldable pub tron_parser : Parser
tron_parser = record {
  parse_block = λ raw. err not_implemented;
  parse_transaction = λ raw. err not_implemented;
  parse_log = λ raw. err not_implemented;
  batch_parse_transactions = λ raws. err not_implemented;
  batch_parse_logs = λ raws. err not_implemented;
  validate_block = validate_block;
  validate_transaction = validate_transaction;
  validate_log = validate_log;
}
