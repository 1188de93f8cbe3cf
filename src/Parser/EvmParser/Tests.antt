-- ===== src/Parser/EvmParser/Tests.antt =====
-- A block as a node sends it, parsed with and without a filter.
use smart_scanner.Common.{◌≡◌, ◌↔◌, refl, String, true, some, [], ◌∷◌, arith, ok, pos}
use smart_scanner.Types.{Block, Transaction, FilterConfig, pending}
use smart_scanner.Util.{
  set_string, digits, scan, hex_value, format_block_number, parse_block_number, parse_big_int,
  contains_string,
}
use smart_scanner.Util.Hex.{parse_block_number-format_block_number}
use smart_scanner.Parser.Json.{Json, null, text, array, object, nil, cons, end, field, get}
use smart_scanner.Parser.EvmParser.{
  should_include_transaction, read_transaction, parse_transaction, read_header, block_transactions,
  parse_block, below_minimum, zero_value,
}
use smart_scanner.Parser.EvmParser.Filters.{Included, should_include_transaction_iff}
use smart_scanner.Parser.EvmParser.Blocks.{raw_transactions, ParsedBlock, parse_block-Belongs}

abbrev transfer : (hash value : String) → Json
transfer hash value = object (
    field "hash" (text hash) (
      field "from" (text "0xa")
        (field "to" (text "0xb") (field "value" (text value) (field "gasPrice" (text "0x1") end)))))

abbrev raw_block : Json
raw_block = object (
    field "number" (text "0x10") (
      field "hash" (text "0xh") (
        field "parentHash" (text "0xp") (
          field "timestamp" (text "0x5") (
            field "transactions"
              (array (cons (transfer "0x1" "0x2") (cons null (cons (transfer "0x3" "0xff") nil))))
              end)))))

abbrev large : FilterConfig
large = record {
  addresses = "0xb" ∷ [];
  contracts = [];
  events = [];
  min_value = some (pos 200);
  exclude_empty = true;
}

abbrev paid : Transaction
paid = record {
  chain_id = "";
  hash = "0x3";
  block_number = 16;
  block_hash = "0xh";
  from = "0xa";
  to = "0xb";
  value = some (pos 255);
  gas_price = some (pos 1);
  status = pending;
  index = 2;
  input_data = "";
}

abbrev parsed : Block
parsed = record {
  chain_id = "";
  number = 16;
  hash = "0xh";
  parent_hash = "0xp";
  timestamp = pos 5;
  transactions = paid ∷ [];
}

parses : parse_block large raw_block ≡ ok parsed
unfolding parse_block read_header block_transactions parse_transaction read_transaction
    should_include_transaction get parse_block_number parse_big_int set_string digits scan hex_value
    contains_string below_minimum zero_value
parses = refl

parse_block-Belongs_example : ParsedBlock large (raw_transactions raw_block) parsed
parse_block-Belongs_example = parse_block-Belongs large raw_block parsed parses

should_include_transaction_iff_example :
    (should_include_transaction large paid ≡ true) ↔ Included large paid
should_include_transaction_iff_example = should_include_transaction_iff large paid

parse_block_number-format_block_number_example :
    parse_block_number (format_block_number 18000000) ≡ ok 18000000
parse_block_number-format_block_number_example =
    parse_block_number-format_block_number 18000000 (omega arith)
