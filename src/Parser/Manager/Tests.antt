-- ===== src/Parser/Manager/Tests.antt =====
-- Runs of the parser manager on the genesis block and on the block after it.
use smart_scanner.Common.{◌≡◌, refl, String, [], ok, err, pos}
use smart_scanner.Types.{Block}
use smart_scanner.Util.{parse_block_number, parse_big_int, set_string, digits, scan, hex_value}
use smart_scanner.Parser.Json.{Json, text, object, end, field, get}
use smart_scanner.Parser.Base.{cannot_be_zero}
use smart_scanner.Parser.EvmParser
use smart_scanner.Parser.EvmParser.Validation
use smart_scanner.Parser.Manager.{
  find_parser, register_parser, default_factory, get_parser, create_parser, parse_block,
  validation_failed,
}
use smart_scanner.Parser.Manager.Served.{Coherent}

abbrev raw : String → Json
raw number = object (
    field "number" (text number) (
      field "hash" (text "0xh")
        (field "parentHash" (text "0xp") (field "timestamp" (text "0x5") end))))

abbrev first : Block
first = record {
  chain_id = "";
  number = 1;
  hash = "0xh";
  parent_hash = "0xp";
  timestamp = pos 5;
  transactions = [];
}

first_parses : (parse_block default_factory "evm" (raw "0x1") []).0 ≡ ok first
unfolding parse_block default_factory register_parser find_parser get_parser create_parser
    Validation.evm_parser Validation.validate_block EvmParser.parse_block EvmParser.read_header
    EvmParser.block_transactions get parse_block_number parse_big_int set_string digits scan
    hex_value
first_parses = refl

genesis_refused :
    (parse_block default_factory "evm" (raw "0x0") []).0
    ≡ err (validation_failed (cannot_be_zero "block number"))
unfolding parse_block default_factory register_parser find_parser get_parser create_parser
    Validation.evm_parser Validation.validate_block EvmParser.parse_block EvmParser.read_header
    EvmParser.block_transactions get parse_block_number parse_big_int set_string digits scan
    hex_value
genesis_refused = refl

empty-Coherent : Coherent default_factory []
unfolding find_parser
empty-Coherent t p h = cc
