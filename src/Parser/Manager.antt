-- ===== src/Parser/Manager.antt =====
-- internal/parser/parser.go: the factory and the manager with its cache of parsers. The maps are
-- association lists from a chain type to a parser.
pub mod Served
mod Tests
use smart_scanner.Common.{
  false, String, Option, none, some, List, [], ◌∷◌, Outcome, ok, err, if◌then◌else◌, str_eq, wrap,
}
use smart_scanner.Common.Actions.{Action, ◌>>=◌, ◌>>◌, lift, pure}
use smart_scanner.Types.{Block, Transaction, Log, FilterConfig}
use smart_scanner.Parser.Json.{Json}
use smart_scanner.Parser.Base.{Parser, ParseError, ValidationError}
use smart_scanner.Parser.EvmParser.Validation.{evm_parser}
use smart_scanner.Parser.OtherParsers.{solana_parser, tron_parser}

abbrev pub Parsers : Type 0
Parsers = List (String × Parser)

unfoldable pub find_parser : String → Parsers → Option Parser
find_parser key [] = none
find_parser key ((k, p) ∷ rest) =
    let later = find_parser key rest in if str_eq k key then some p else later

-- `parsers[chainType] = parser`: the entry in front hides an older one.
unfoldable pub register_parser : String → Parser → Parsers → Parsers
register_parser chain_type p parsers = (chain_type, p) ∷ parsers

abbrev pub no_filter : FilterConfig
no_filter = record {
  addresses = [];
  contracts = [];
  events = [];
  min_value = none;
  exclude_empty = false;
}

-- `NewDefaultParserFactory`, whose parsers filter nothing.
unfoldable pub default_factory : Parsers
default_factory =
    register_parser "tron" tron_parser
      (register_parser "solana" solana_parser (register_parser "evm" (evm_parser no_filter) []))

pub data ManagerError : Type 0 where
  unsupported_chain_type : String → ManagerError
  parse_failed : ParseError → ManagerError
  validation_failed : ValidationError → ManagerError

unfoldable pub create_parser : Parsers → String → Outcome ManagerError Parser
create_parser factory chain_type = elim (find_parser chain_type factory) [
  | none ↦ err (unsupported_chain_type chain_type)
  | some p ↦ ok p
]

-- The cache is the state.
unfoldable pub get_parser : Parsers → String → Action Parsers ManagerError Parser
get_parser factory chain_type cache = elim (find_parser chain_type cache) [
  | some p ↦ (ok p, cache)
  | none ↦ elim (create_parser factory chain_type) [
    | err e ↦ (err e, cache)
    | ok p ↦ (ok p, register_parser chain_type p cache)
  ]
]

-- A parse and the check of what it found.
abbrev pub checked :
    {A : Type 0}
    → Outcome ParseError A
    → (A → Outcome ValidationError (Unit {0}))
    → Action Parsers ManagerError A
checked parsed validate = do
  a ← lift (wrap parse_failed parsed)
  lift (wrap validation_failed (validate a))
  pure a

unfoldable pub parse_block : Parsers → String → Json → Action Parsers ManagerError Block
parse_block factory chain_type raw = do
  p ← get_parser factory chain_type
  checked (p.parse_block raw) p.validate_block

unfoldable pub parse_transaction : Parsers → String → Json → Action Parsers ManagerError Transaction
parse_transaction factory chain_type raw = do
  p ← get_parser factory chain_type
  checked (p.parse_transaction raw) p.validate_transaction

unfoldable pub parse_log : Parsers → String → Json → Action Parsers ManagerError Log
parse_log factory chain_type raw = do
  p ← get_parser factory chain_type
  checked (p.parse_log raw) p.validate_log

-- The loop over the parsed items: the first that is invalid ends it.
unfoldable pub validate_all :
    {A : Type 0}
    → (A → Outcome ValidationError (Unit {0}))
    → List A
    → Outcome ValidationError (Unit {0})
validate_all validate [] = ok tt
validate_all validate (a ∷ as_left) =
    let rest = validate_all validate as_left in elim (validate a) [ err e ↦ err e | ok u ↦ rest ]

unfoldable pub batch_parse_transactions :
    Parsers → String → List Json → Action Parsers ManagerError (List Transaction)
batch_parse_transactions factory chain_type raws = do
  p ← get_parser factory chain_type
  checked (p.batch_parse_transactions raws) (validate_all p.validate_transaction)

unfoldable pub batch_parse_logs :
    Parsers → String → List Json → Action Parsers ManagerError (List Log)
batch_parse_logs factory chain_type raws = do
  p ← get_parser factory chain_type
  checked (p.batch_parse_logs raws) (validate_all p.validate_log)
