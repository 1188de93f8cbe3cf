-- ===== src/Parser/Manager/Served.antt =====
-- What the manager of internal/parser/parser.go hands out.
use smart_scanner.Common.{
  is_ok, some-injective, ◌≡◌, ◌≢◌, ◌⊎◌, inl, inr, refl, sym, ap, ◌∙◌, String, some, [], ◌∷◌, arith,
  Outcome, ok, err, str_eq, str_eq_iff, Outcome-cases, Option-cases, Bool-cases,
}
use smart_scanner.Common.Actions.{◌>>=◌}
use smart_scanner.Types.{Block}
use smart_scanner.Parser.Json.{Json}
use smart_scanner.Parser.Base.{ParseError, Parser, ValidationError}
use smart_scanner.Parser.EvmParser.Validation
use smart_scanner.Parser.EvmParser.Validation.{evm_parser}
use smart_scanner.Parser.OtherParsers
use smart_scanner.Parser.OtherParsers.{solana_parser, tron_parser}
use mathlib.Core.Path.{subst}
use mathlib.Core.Bool.{true≢false}
use smart_scanner.Parser.Manager.{
  checked, no_filter, Parsers, find_parser, register_parser, ManagerError, unsupported_chain_type,
  create_parser, get_parser, parse_block, default_factory,
}

-- Every cached parser is the factory's.
abbrev pub Coherent : Parsers → Parsers → Type 0
Coherent factory cache =
    (t : String) (p : Parser) → find_parser t cache ≡ some p → find_parser t factory ≡ some p

-- With a coherent cache `GetParser` returns what the factory returns, and the cache stays coherent.
pub get_parser-Coherent :
    (factory cache : Parsers) (chain_type : String)
    → Coherent factory cache
    → ((get_parser factory chain_type cache).0 ≡ create_parser factory chain_type)
      × Coherent factory (get_parser factory chain_type cache).1
unfolding get_parser create_parser register_parser
get_parser-Coherent factory cache chain_type coherent =
    elim (Option-cases (find_parser chain_type cache)) [
      | inr (p, hit) ↦
          rw (hit, get_parser) (rw (coherent chain_type p hit, create_parser) refl, coherent)
      | inl miss ↦ elim (Option-cases (find_parser chain_type factory)) [
        | inl unknown ↦ rw (miss, get_parser, unknown) (rw (unknown, create_parser) refl, coherent)
        | inr (p, found) ↦
            rw (miss, get_parser, found)
              (rw (found, create_parser) refl, λ t q. registered t p q found)
      ]
    ]
  where
    registered :
        (t : String) (p q : Parser)
        → find_parser chain_type factory ≡ some p
        → find_parser t ((chain_type, p) ∷ cache) ≡ some q
        → find_parser t factory ≡ some q
    registered t p q found h =
        unfold find_parser in ground (arith, str_eq_iff chain_type t, coherent t q)

-- What a check of the manager lets through.
abbrev Checked : Block → Type 0
Checked b = (b.number ≢ 0) × (b.hash ≢ "")

Checks : Parser → Type 0
Checks p = (b : Block) → p.validate_block b ≡ ok tt → Checked b

evm-Checks : (b : Block) → Validation.validate_block b ≡ ok tt → Checked b
unfolding Validation.validate_block
evm-Checks b h = ground (arith, str_eq_iff b.hash "")

other-Checks : (b : Block) → OtherParsers.validate_block b ≡ ok tt → Checked b
unfolding OtherParsers.validate_block
other-Checks b h = ground (arith, str_eq_iff b.hash "")

find_parser-cons :
    (k t : String) (q : Parser) (rest : Parsers) (p : Parser)
    → find_parser t ((k, q) ∷ rest) ≡ some p
    → (q ≡ p) ⊎ (find_parser t rest ≡ some p)
unfolding find_parser
find_parser-cons k t q rest p h = elim (Bool-cases (str_eq k t)) [
  | inl e ↦ inl (some-injective (sym (rw (e, find_parser) refl) ∙ h))
  | inr e ↦ inr (sym (rw (e, find_parser) refl) ∙ h)
]

default_factory-Checks :
    (t : String) (p : Parser) → find_parser t default_factory ≡ some p → Checks p
unfolding default_factory register_parser Checks
default_factory-Checks t p h = elim (find_parser-cons "tron" t tron_parser _ p h) [
  | inl e ↦ subst Checks e (unfold tron_parser in other-Checks)
  | inr h1 ↦ elim (find_parser-cons "solana" t solana_parser _ p h1) [
    | inl e ↦ subst Checks e (unfold solana_parser in other-Checks)
    | inr h2 ↦ elim (find_parser-cons "evm" t (evm_parser no_filter) [] p h2) [
      | inl e ↦ subst Checks e (unfold evm_parser in evm-Checks)
      | inr h3 ↦ unfold find_parser in cc
    ]
  ]
]

checked-ok :
    {A : Type 0} (parsed : Outcome ParseError A) (validate : A → Outcome ValidationError (Unit {0}))
    (cache : Parsers) (a : A)
    → (checked parsed validate cache).0 ≡ ok a
    → validate a ≡ ok tt
checked-ok (err e) validate cache a h = cc
checked-ok (ok x) validate cache a h = elim (Outcome-cases (validate x)) [
  | inl (u, e) ↦ ground arith
  | inr (v, e) ↦ ground arith
]

module _ (factory cache : Parsers) (chain_type : String) (raw : Json) where
  parse_block-served :
      (p : Parser)
      → (get_parser factory chain_type cache).0 ≡ ok p
      → (parse_block factory chain_type raw cache).0
        ≡ (checked (p.parse_block raw) p.validate_block (get_parser factory chain_type cache).1).0
  parse_block-served p e = unfold parse_block in rw (e, ◌>>=◌) refl

  parse_block-unserved :
      (x : ManagerError)
      → (get_parser factory chain_type cache).0 ≡ err x
      → (parse_block factory chain_type raw cache).0 ≡ err x
  parse_block-unserved x e = unfold parse_block in rw (e, ◌>>=◌) refl

-- A block that a manager with the default factory returns has a number above 0 and a hash: block 0
-- of a chain is refused, whatever the node sends.
pub parse_block-Checked :
    (cache : Parsers) (chain_type : String) (raw : Json) (b : Block)
    → Coherent default_factory cache
    → (parse_block default_factory chain_type raw cache).0 ≡ ok b
    → (b.number ≢ 0) × (b.hash ≢ "")
unfolding create_parser
parse_block-Checked cache chain_type raw b coherent h =
    let served = (get_parser-Coherent default_factory cache chain_type coherent).0 in
    elim (Option-cases (find_parser chain_type default_factory)) [
      | inl unknown ↦
          let refused =
            parse_block-unserved default_factory cache chain_type raw
              (unsupported_chain_type chain_type) (served ∙ rw (unknown, create_parser) refl) in
          absurd (true≢false (ap is_ok (sym h ∙ refused)))
      | inr (p, found) ↦
          let reads =
            parse_block-served default_factory cache chain_type raw p
              (served ∙ rw (found, create_parser) refl) in
          unfold Checks in
          default_factory-Checks chain_type p found b (
            checked-ok (p.parse_block raw) p.validate_block
              (get_parser default_factory chain_type cache).1 b (sym reads ∙ h))
    ]
