-- ===== src/Node/EvmClient/Parsing.antt =====
-- The client of internal/node/evm_client.go reads a block as the parser of internal/parser/evm_parser.go
-- does, which it does not call.
use smart_scanner.Common.{
  ℕ, ◌+◌, String, ◌≡◌, refl, ap, inl, inr, List, [], ◌∷◌, map, Outcome, ok, err, ◌>>=◌,
  Outcome-cases,
}
use smart_scanner.Types.{Block, Transaction}
use smart_scanner.Parser.Json.{Json, get, as_text, as_object}
use smart_scanner.Parser.Base.{required, number_error}
use smart_scanner.Util.{codes, parse_big_int, parse_block_number}
use smart_scanner.Parser.EvmParser.{
  low_int64, should_include_transaction, read_transaction, read_header, block_transactions,
}
use smart_scanner.Parser.EvmParser as EvmParser
use smart_scanner.Parser.Manager.{no_filter}
use smart_scanner.Node.EvmClient.{parse_transaction, parse_transactions, parse_block}

-- An outcome whose value is changed.
abbrev pub mapped {ℓ κ ι} :
    {E : Type ℓ} {A : Type κ} {B : Type ι} → (A → B) → Outcome E A → Outcome E B
mapped f (ok a) = ok (f a)
mapped f (err e) = err e

bind-mapped :
    {E A B C : Type 0} (f : B → C) (m : Outcome E A) (k : A → Outcome E B) (l : A → Outcome E C)
    → ((a : A) → l a ≡ mapped f (k a))
    → (m >>= l) ≡ mapped f (m >>= k)
bind-mapped f (ok a) k l same = same a
bind-mapped f (err e) k l same = refl

bind-bind-mapped :
    {E A B C D : Type 0} (f : C → D) (m : Outcome E A) (k : A → Outcome E B) (l : A → Outcome E D)
    (g : B → Outcome E C)
    → ((a : A) → l a ≡ mapped f (k a >>= g))
    → (m >>= l) ≡ mapped f ((m >>= k) >>= g)
bind-bind-mapped f (ok a) k l g same = same a
bind-bind-mapped f (err e) k l g same = refl

module _ (c : String) where
  abbrev pub stamped_transaction : Transaction → Transaction
  stamped_transaction tx = record tx { chain_id = c }

  abbrev pub stamped_block : Block → Block
  stamped_block b = record b { chain_id = c; transactions = map stamped_transaction b.transactions }

  parse_transaction-read :
      (raw : Json) → parse_transaction c raw ≡ mapped stamped_transaction (read_transaction raw)
  unfolding parse_transaction read_transaction
  parse_transaction-read raw =
      bind-mapped stamped_transaction (required "transaction data" (as_object raw)) _ _ (λ fields.
        bind-mapped stamped_transaction (required "transaction hash" (as_text (get fields "hash")))
          _ _
          (λ hash.
            bind-mapped stamped_transaction (required "from address" (as_text (get fields "from")))
              _ _
              (λ from.
                bind-mapped stamped_transaction (required "value" (as_text (get fields "value"))) _
                  _
                  (λ value_hex.
                    bind-mapped stamped_transaction
                      (number_error "value" (parse_big_int (codes value_hex))) _ _
                      (λ value.
                        bind-mapped stamped_transaction
                          (required "gas price" (as_text (get fields "gasPrice"))) _ _
                          (λ gas_price_hex.
                            bind-mapped stamped_transaction
                              (number_error "gas price" (parse_big_int (codes gas_price_hex))) _ _
                              (λ gas_price. refl)))))))

  unfiltered : (raw : Json) → EvmParser.parse_transaction no_filter raw ≡ read_transaction raw
  unfolding EvmParser.parse_transaction EvmParser.should_include_transaction EvmParser.below_minimum
  unfiltered raw = elim (Outcome-cases (read_transaction raw)) [
    | inl (tx, e) ↦ rw (e, ◌>>=◌) refl
    | inr (x, e) ↦ rw (e, ◌>>=◌) refl
  ]

  parse_transactions-stamped :
      (number : ℕ) (hash : String) (i : ℕ) (raws : List Json)
      → parse_transactions c number hash i raws
        ≡ map stamped_transaction (block_transactions no_filter number hash i raws)
  unfolding parse_transactions EvmParser.block_transactions
  parse_transactions-stamped number hash i [] = refl
  parse_transactions-stamped number hash i (raw ∷ raws) =
      let rest = parse_transactions-stamped number hash (i + 1) raws in
      let plain = unfiltered raw in
      let read = parse_transaction-read raw in
      elim (Outcome-cases (read_transaction raw)) [
        | inl (tx, e) ↦ rw (parse_transactions, block_transactions, read, plain, e, rest) refl
        | inr (x, e) ↦ rw (parse_transactions, block_transactions, read, plain, e, rest) refl
      ]

  -- The client reads a block exactly where the parser without a filter does, and the same block, but for the
  -- chain, which the client writes into the block and its transactions.
  pub parse_block-stamped :
      (raw : Json) → parse_block c raw ≡ mapped stamped_block (EvmParser.parse_block no_filter raw)
  unfolding parse_block EvmParser.parse_block EvmParser.read_header
  parse_block-stamped raw =
      bind-bind-mapped stamped_block (required "block data" (as_object raw)) _ _ _ (λ fields.
        bind-bind-mapped stamped_block (required "block number" (as_text (get fields "number"))) _ _
          _
          (λ number_hex.
            bind-bind-mapped stamped_block
              (number_error "block number" (parse_block_number (codes number_hex))) _ _ _
              (λ number.
                bind-bind-mapped stamped_block (required "block hash" (as_text (get fields "hash")))
                  _ _ _
                  (λ hash.
                    bind-bind-mapped stamped_block
                      (required "parent hash" (as_text (get fields "parentHash"))) _ _ _
                      (λ parent_hash.
                        bind-bind-mapped stamped_block
                          (required "timestamp" (as_text (get fields "timestamp"))) _ _ _
                          (λ timestamp_hex.
                            bind-bind-mapped stamped_block
                              (number_error "timestamp" (parse_big_int (codes timestamp_hex))) _ _ _
                              (λ timestamp.
                                ap
                                  (λ txs. ok (record {
                                    chain_id = c;
                                    number = number;
                                    hash = hash;
                                    parent_hash = parent_hash;
                                    timestamp = low_int64 timestamp;
                                    transactions = txs;
                                  }))
                                  (parse_transactions-stamped number hash 0 _))))))))
