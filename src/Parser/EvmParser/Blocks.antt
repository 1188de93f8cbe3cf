-- ===== src/Parser/EvmParser/Blocks.antt =====
-- The transactions of a block that internal/parser/evm_parser.go has parsed.
use smart_scanner.Common.{
  zero, Option, ◌⊎◌, some-injective, Option-cases, bind-ok, sym, ap, ◌∙◌, is_ok, ok-injective, ℕ,
  suc, ◌+◌, ◌≤◌, ◌≡◌, inl, inr, refl, String, true, none, some, List, [], ◌∷◌, arith, ok, err,
  Outcome-cases, All,
}
use mathlib.Core.Bool.{true≢false}
use mathlib.Core.Path.{subst}
use smart_scanner.Util.{codes, parse_big_int, parse_block_number}
use smart_scanner.Types.{Block, Transaction, FilterConfig}
use smart_scanner.Parser.Json.{Json, Fields, get, as_text, as_array, as_object}
use smart_scanner.Parser.Base.{ParseError, required, number_error}
use smart_scanner.Parser.EvmParser.{
  should_include_transaction, read_header, read_transaction, parse_transaction, block_transactions,
  parse_block,
}

-- In the block, and let through by the filter.
abbrev pub Belongs : FilterConfig → (number : ℕ) → (hash : String) → Transaction → Type 0
Belongs config number hash tx =
    (tx.block_number ≡ number)
    × (tx.block_hash ≡ hash)
    × (should_include_transaction config tx ≡ true)

-- The indices grow, the first being `i` at least.
abbrev pub Increasing : ℕ → List Transaction → Type 0
Increasing i [] = Unit
Increasing i (tx ∷ txs) = (i ≤ tx.index) × Increasing (suc tx.index) txs

Increasing-weaken : (i j : ℕ) (txs : List Transaction) → i ≤ j → Increasing j txs → Increasing i txs
Increasing-weaken i j [] h inc = tt
Increasing-weaken i j (tx ∷ txs) h inc = (omega arith, inc.1)

-- The item at a place of a raw list, if there is one.
abbrev pub raw_at : List Json → ℕ → Option Json
raw_at [] k = none
raw_at (raw ∷ raws) zero = some raw
raw_at (raw ∷ raws) (suc k) = raw_at raws k

-- A transaction with the block's number and hash, and with an index.
abbrev pub placed : (number : ℕ) (hash : String) (i : ℕ) → Transaction → Transaction
placed number hash i tx = record tx { block_number = number; block_hash = hash; index = i }

-- Parsed from the raw transaction at the place that its index says.
abbrev pub ParsedFrom :
    FilterConfig → List Json → (number : ℕ) (hash : String) → Transaction → Type 0
ParsedFrom config raws number hash tx =
    (raw : Json) × (t : Transaction) × (raw_at raws tx.index ≡ some raw)
    × (parse_transaction config raw ≡ ok t)
    × (tx ≡ placed number hash tx.index t)

abbrev pub Has : Transaction → List Transaction → Type 0
Has tx [] = ⊥
Has tx (x ∷ xs) = (x ≡ tx) ⊎ Has tx xs

-- Every raw transaction that is parsed is there.
abbrev pub HasAll :
    FilterConfig → List Json → (number : ℕ) (hash : String) (i : ℕ) → List Transaction → Type 0
HasAll config raws number hash i txs =
    (k : ℕ) (raw : Json) (t : Transaction)
    → raw_at raws k ≡ some raw
    → parse_transaction config raw ≡ ok t
    → Has (placed number hash (i + k) t) txs

-- The raw transactions of a raw block, none where there is no list of them.
abbrev pub listed : Option (List Json) → List Json
listed none = []
listed (some l) = l

abbrev pub raw_transactions_of : Option Fields → List Json
raw_transactions_of none = []
raw_transactions_of (some fields) = listed (as_array (get fields "transactions"))

abbrev pub raw_transactions : Json → List Json
raw_transactions raw = raw_transactions_of (as_object raw)

parse_transaction-included :
    (config : FilterConfig) (raw : Json) (tx : Transaction)
    → parse_transaction config raw ≡ ok tx
    → should_include_transaction config tx ≡ true
unfolding parse_transaction
parse_transaction-included config raw tx h = elim (Outcome-cases (read_transaction raw)) [
  | inl (t, e) ↦ ground arith
  | inr (x, e) ↦ ground arith
]

module _ (config : FilterConfig) (number : ℕ) (hash : String) where
  placed-Belongs :
      (i : ℕ) (tx : Transaction)
      → should_include_transaction config tx ≡ true
      → Belongs config number hash (placed number hash i tx)
  unfolding should_include_transaction
  placed-Belongs i tx h = (refl, refl, h)

  block_transactions-parsed :
      (i : ℕ) (raw : Json) (raws : List Json) (tx : Transaction)
      → parse_transaction config raw ≡ ok tx
      → block_transactions config number hash i (raw ∷ raws)
        ≡ placed number hash i tx ∷ block_transactions config number hash (i + 1) raws
  unfolding block_transactions
  block_transactions-parsed i raw raws tx e = rw (e, block_transactions) refl

  block_transactions-skipped :
      (i : ℕ) (raw : Json) (raws : List Json) (x : ParseError)
      → parse_transaction config raw ≡ err x
      → block_transactions config number hash i (raw ∷ raws)
        ≡ block_transactions config number hash (i + 1) raws
  unfolding block_transactions
  block_transactions-skipped i raw raws x e = rw (e, block_transactions) refl

  abbrev Fine : ℕ → List Transaction → Type 0
  Fine i txs = All (Belongs config number hash) txs × Increasing i txs

  block_transactions-Fine :
      (i : ℕ) (raws : List Json) → Fine i (block_transactions config number hash i raws)
  block_transactions-Fine i [] = unfold block_transactions in (tt, tt)
  block_transactions-Fine i (raw ∷ raws) =
      let rest = block_transactions-Fine (i + 1) raws in
      elim (Outcome-cases (parse_transaction config raw)) [
        | inl (tx, e) ↦ rw (block_transactions-parsed i raw raws tx e) (
          (placed-Belongs i tx (parse_transaction-included config raw tx e), rest.0),
          (
            omega arith,
            Increasing-weaken (suc (placed number hash i tx).index) (i + 1) _ (omega arith) rest.1,
          ),
        )
        | inr (x, e) ↦
            rw (block_transactions-skipped i raw raws x e)
              (rest.0, Increasing-weaken i (i + 1) _ (omega arith) rest.1)
      ]

  block_transactions-ParsedFrom :
      (all : List Json) (i : ℕ) (raws : List Json)
      → ((k : ℕ) → raw_at all (i + k) ≡ raw_at raws k)
      → All (ParsedFrom config all number hash) (block_transactions config number hash i raws)
  block_transactions-ParsedFrom all i [] here = unfold block_transactions in tt
  block_transactions-ParsedFrom all i (raw ∷ raws) here =
      let rest =
        block_transactions-ParsedFrom all (i + 1) raws
          (λ k. ap (raw_at all) (omega arith) ∙ here (suc k)) in
      let first : raw_at all i ≡ some raw = ap (raw_at all) (omega arith) ∙ here 0 in
      elim (Outcome-cases (parse_transaction config raw)) [
        | inl (tx, e) ↦
            rw (block_transactions-parsed i raw raws tx e) ((raw, tx, first, e, refl), rest)
        | inr (x, e) ↦ rw (block_transactions-skipped i raw raws x e) rest
      ]

  later-Has :
      (i : ℕ) (raw : Json) (raws : List Json) (tx : Transaction)
      → Has tx (block_transactions config number hash (i + 1) raws)
      → Has tx (block_transactions config number hash i (raw ∷ raws))
  later-Has i raw raws tx has = elim (Outcome-cases (parse_transaction config raw)) [
    | inl (t, e) ↦ rw (block_transactions-parsed i raw raws t e) (inr has)
    | inr (x, e) ↦ rw (block_transactions-skipped i raw raws x e) has
  ]

  block_transactions-HasAll :
      (i : ℕ) (raws : List Json)
      → HasAll config raws number hash i (block_transactions config number hash i raws)
  block_transactions-HasAll i [] k raw t found parsed = cc
  block_transactions-HasAll i (raw₀ ∷ raws) zero raw t found parsed =
      let same : raw₀ ≡ raw = some-injective found in
      rw (block_transactions-parsed i raw₀ raws t (ap (parse_transaction config) same ∙ parsed))
        (inl (ap (λ n. placed number hash n t) (omega arith)))
  block_transactions-HasAll i (raw₀ ∷ raws) (suc k) raw t found parsed =
      later-Has i raw₀ raws (placed number hash (i + suc k) t) (
        subst
          (λ n. Has (placed number hash n t) (block_transactions config number hash (i + 1) raws))
          (omega arith) (block_transactions-HasAll (i + 1) raws k raw t found parsed))

read_header-fields :
    (raw : Json) (fields : Fields) (b : Block)
    → read_header raw ≡ ok (fields, b)
    → as_object raw ≡ some fields
unfolding read_header
read_header-fields raw fields b h = elim (Option-cases (as_object raw)) [
  | inl e ↦ absurd (true≢false (sym (ap is_ok (rw e at h))))
  | inr (f, e) ↦
      let (number_hex, p1, h1) =
        bind-ok (required "block number" (as_text (get f "number"))) _ _ (rw e at h) in
      let (number, p2, h2) =
        bind-ok (number_error "block number" (parse_block_number (codes number_hex))) _ _ h1 in
      let (hash, p3, h3) = bind-ok (required "block hash" (as_text (get f "hash"))) _ _ h2 in
      let (parent, p4, h4) =
        bind-ok (required "parent hash" (as_text (get f "parentHash"))) _ _ h3 in
      let (time_hex, p5, h5) =
        bind-ok (required "timestamp" (as_text (get f "timestamp"))) _ _ h4 in
      let (time, p6, h6) =
        bind-ok (number_error "timestamp" (parse_big_int (codes time_hex))) _ _ h5 in
      e ∙ ap some (ap (λ p. p.0) (ok-injective h6))
]

-- The transactions of a block, as they are parsed from the raw ones.
abbrev pub ParsedBlock : FilterConfig → List Json → Block → Type 0
ParsedBlock config raws b =
    All (Belongs config b.number b.hash) b.transactions
    × Increasing 0 b.transactions
    × All (ParsedFrom config raws b.number b.hash) b.transactions
    × HasAll config raws b.number b.hash 0 b.transactions

-- Every transaction of a parsed block bears the block's number and hash and passes the filter;
-- their indices grow, and each is the place in the raw list of the item that the transaction is
-- parsed from; and every item that is parsed is there.
pub parse_block-Belongs :
    (config : FilterConfig) (raw : Json) (b : Block)
    → parse_block config raw ≡ ok b
    → ParsedBlock config (raw_transactions raw) b
unfolding parse_block
parse_block-Belongs config raw b h = elim (Outcome-cases (read_header raw)) [
  | inr (x, e) ↦
      let failed : parse_block config raw ≡ err x = rw (e, parse_block) refl in
      absurd (true≢false (ap is_ok (sym h ∙ failed)))
  | inl ((fields, block), e) ↦
      let raws = raw_transactions raw in
      let listed_there : raws ≡ raw_transactions_of (some fields) =
        ap raw_transactions_of (read_header-fields raw fields block e) in
      let made : Block = record block {
        transactions = block_transactions config block.number block.hash 0 raws;
      } in
      let found : parse_block config raw ≡ ok made =
        elim (Option-cases (as_array (get fields "transactions"))) [
          | inl missing ↦ rw (e, listed_there, missing, parse_block) refl
          | inr (l, there) ↦ rw (e, listed_there, there, parse_block) refl
        ] in
      let fine = block_transactions-Fine config block.number block.hash 0 raws in
      subst (ParsedBlock config raws) (ok-injective (sym found ∙ h)) (
        fine.0,
        fine.1,
        block_transactions-ParsedFrom config block.number block.hash raws 0 raws
            (λ k. ap (raw_at raws) (omega arith)),
        block_transactions-HasAll config block.number block.hash 0 raws,
      )
]
