-- ===== src/Node/EvmClient/Tests.antt =====
-- Answers of a node, read by the client.
use smart_scanner.Common.{String, ◌≡◌, refl, not, [], pos, Outcome, ok, err, arith, str_eq}
use smart_scanner.Types.{Block}
use smart_scanner.Util.{set_string, digits, scan, hex_value, parse_block_number, parse_big_int}
use smart_scanner.Parser.Json.{Json, text, object, end, field, get}
use smart_scanner.Parser.EvmParser as EvmParser
use smart_scanner.Parser.Manager.{no_filter}
use smart_scanner.Node.EvmClient.{
  Request, block_by_number, block_number, get_block, parse_block, parse_transactions, detect_reorg,
  get_current_height,
}
use smart_scanner.Node.EvmClient.Ancestors.{detect_reorg-own_block}
use smart_scanner.Node.EvmClient.Parsing.{mapped, stamped_block, parse_block-stamped}

abbrev raw_block : Json
raw_block = object (
    field "number" (text "0x10") (
      field "hash" (text "0xh")
        (field "parentHash" (text "0xp") (field "timestamp" (text "0x5") end))))

abbrev block : Block
block = record {
  chain_id = "1";
  number = 16;
  hash = "0xh";
  parent_hash = "0xp";
  timestamp = pos 5;
  transactions = [];
}

-- A node that has every block, and always the same one.
abbrev node : Request → Outcome String Json
node (block_by_number n) = ok raw_block
node block_number = ok (text "0x10")
node _ = err "not available"

reads : get_block "1" node 16 ≡ ok block
unfolding parse_block parse_transactions parse_block_number parse_big_int set_string digits scan
    hex_value get
reads = refl

detect_reorg-own_block_example :
    detect_reorg "1" node 16 "0xstale" ≡ ok (not (str_eq block.hash "0xstale"), 16)
detect_reorg-own_block_example =
    detect_reorg-own_block "1" node 16 "0xstale" block (ground arith) reads

height : get_current_height "1" node ≡ ok 16
unfolding get_current_height parse_block_number set_string digits scan hex_value
height = refl

parse_block-stamped_example :
    parse_block "1" raw_block
    ≡ mapped (stamped_block "1") (EvmParser.parse_block no_filter raw_block)
parse_block-stamped_example = parse_block-stamped "1" raw_block
