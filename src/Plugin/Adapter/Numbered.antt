-- ===== src/Plugin/Adapter/Numbered.antt =====
-- How GetBlockWithTransactions of internal/plugin/evm_adapter.go numbers transactions and logs.
use smart_scanner.Common.{
  ℕ, ◌+◌, ◌%◌, String, ◌≡◌, refl, ◌∙◌, List, [], ◌∷◌, ok, is_ok, sym, ap, inl, inr, Outcome-cases,
  bind-ok, wrap-ok, wrap, ok-injective, u64_mod,
}
use mathlib.Core.Bool.{true≢false}
use mathlib.Core.Path.{subst}
use Prim.Native.String.{◌++◌ as append}
use smart_scanner.Types.{Log}
use smart_scanner.Plugin.Adapter.{FullTransaction, FullBlock}
use smart_scanner.Plugin.Adapter.Evm.{
  EthTypes, EthClient, EthBlock, EthTransaction, EthLog, convert_block, convert_raw_log,
  convert_raw_logs, convert_raw_transaction, convert_all, get_block_with_transactions,
}

-- The logs of a transaction are numbered from `k` on, and bear its hash and its index.
abbrev pub LogsFrom : (tx_hash : String) (tx_index k : ℕ) → List Log → Type 0
LogsFrom h i k [] = Unit
LogsFrom h i k (log ∷ logs) =
    ((log.tx_hash ≡ h) × (log.tx_index ≡ i) × (log.log_index ≡ k)) × LogsFrom h i (k + 1) logs

module _ (eth : EthTypes) where
  -- The transactions of a block, in their order and numbered from `i` on, each with its logs from 0 on.
  abbrev pub Numbered : (number i : ℕ) → List (EthTransaction eth) → List FullTransaction → Type 0
  Numbered number i [] [] = Unit
  Numbered number i [] (t ∷ ts) = ⊥
  Numbered number i (tx ∷ txs) [] = ⊥
  Numbered number i (tx ∷ txs) (t ∷ ts) =
      ((t.transaction.hash ≡ eth.hash_hex tx.hash)
        × (t.transaction.block_number ≡ number)
        × (t.transaction.index ≡ i)
        × LogsFrom (eth.hash_hex tx.hash) i 0 t.logs)
      × Numbered number (i + 1) txs ts

  convert_raw_logs-LogsFrom :
      (c h : String) (number i k : ℕ) (logs : List (EthLog eth))
      → LogsFrom h i k (convert_raw_logs eth c h number i k logs)
  unfolding convert_raw_logs convert_raw_log
  convert_raw_logs-LogsFrom c h number i k [] = tt
  convert_raw_logs-LogsFrom c h number i k (log ∷ logs) =
      ((refl, refl, refl), convert_raw_logs-LogsFrom c h number i (k + 1) logs)

  module _ (client : EthClient eth) (c : String) where
    convert_all-Numbered :
        (number i : ℕ) (txs : List (EthTransaction eth)) (ts : List FullTransaction)
        → convert_all eth client c number i txs ≡ ok ts
        → Numbered number i txs ts
    unfolding convert_all convert_raw_transaction
    convert_all-Numbered number i [] ts done = subst (Numbered number i []) (ok-injective done) tt
    convert_all-Numbered number i (tx ∷ txs) ts done =
        elim (Outcome-cases (client.transaction_receipt tx.hash)) [
          | inr (e, failed) ↦
              absurd (true≢false (sym (ap is_ok done) ∙ rw (failed, convert_all) refl))
          | inl (r, e) ↦
              let (rest, converted, made) =
                bind-ok (convert_all eth client c number (i + 1) txs)
                  (λ (l : List FullTransaction).
                    ok (convert_raw_transaction eth c tx r number i ∷ l))
                  ts (rw (e, convert_all) at done) in
              subst (Numbered number i (tx ∷ txs)) (ok-injective made) (
                (
                  refl,
                  refl,
                  refl,
                  convert_raw_logs-LogsFrom c (eth.hash_hex tx.hash) number i 0 r.logs,
                ),
                convert_all-Numbered number (i + 1) txs rest converted,
              )
        ]

    -- A block that GetBlockWithTransactions answers with has the client's transactions in their order,
    -- with the block's number and the indices from 0 on; the logs of each one are numbered from 0 on
    -- again.
    pub get_block_with_transactions-Numbered :
        (n : ℕ) (b : EthBlock eth) (block : FullBlock)
        → client.block_by_number n ≡ ok b
        → get_block_with_transactions eth client c n ≡ ok block
        → Numbered block.number 0 b.transactions block.transactions
    unfolding get_block_with_transactions convert_block
    get_block_with_transactions-Numbered n b block answered done =
        let (b', found, rest) =
          bind-ok (wrap (append "failed to get block: ") (client.block_by_number n)) _ block done in
        let same : b' ≡ b =
          ok-injective (sym (wrap-ok (append "failed to get block: ") _ b' found) ∙ answered) in
        let (ts, converted, made) =
          bind-ok (convert_all eth client c (b'.number % u64_mod) 0 b'.transactions) _ block rest in
        let numbered = convert_all-Numbered (b'.number % u64_mod) 0 b'.transactions ts converted in
        subst (λ x. Numbered x.number 0 b.transactions x.transactions) (ok-injective made)
          (subst (λ x. Numbered (b'.number % u64_mod) 0 x.transactions ts) same numbered)
