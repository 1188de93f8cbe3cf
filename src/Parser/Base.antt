-- ===== src/Parser/Base.antt =====
-- internal/parser/parser.go: the interface of a parser, its errors, and small readers.
use smart_scanner.Common.{String, Option, none, some, List, Outcome, ok, err}
use smart_scanner.Types.{Block, Transaction, Log}
use smart_scanner.Util.{NumberError}
use smart_scanner.Parser.Json.{Json, Fields, get, as_text}

pub data ParseError : Type 0 where
  invalid_format : String → ParseError
  failed_number : String → NumberError → ParseError
  filtered_out : ParseError
  not_implemented : ParseError

pub data ValidationError : Type 0 where
  cannot_be_zero cannot_be_empty invalid_address cannot_be_nil : String → ValidationError

pub record Parser : Type 0 where
  pub parse_block : Json → Outcome ParseError Block
  pub parse_transaction : Json → Outcome ParseError Transaction
  pub parse_log : Json → Outcome ParseError Log
  pub batch_parse_transactions : List Json → Outcome ParseError (List Transaction)
  pub batch_parse_logs : List Json → Outcome ParseError (List Log)
  pub validate_block : Block → Outcome ValidationError (Unit {0})
  pub validate_transaction : Transaction → Outcome ValidationError (Unit {0})
  pub validate_log : Log → Outcome ValidationError (Unit {0})

-- `value, ok := …; if !ok { return … }`.
abbrev pub required {ℓ} : {A : Type ℓ} → String → Option A → Outcome ParseError A
required name none = err (invalid_format name)
required name (some a) = ok a

-- `value, _ := data[key].(string)`.
abbrev pub text_or_empty : Fields → String → String
text_or_empty fields key = elim (as_text (get fields key)) [ none ↦ "" | some s ↦ s ]

abbrev pub number_error {ℓ} : {A : Type ℓ} → String → Outcome NumberError A → Outcome ParseError A
number_error name (ok a) = ok a
number_error name (err e) = err (failed_number name e)
