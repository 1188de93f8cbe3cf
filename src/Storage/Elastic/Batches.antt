-- ===== src/Storage/Elastic/Batches.antt =====
-- BatchSaveTransactions and BatchSaveLogs of internal/storage/elasticsearch.go: one bulk request for
-- each chain. What the server answers for the single documents of a bulk is not read.
use smart_scanner.Common.{String, none, some, List, [], ◌∷◌, ◌++◌, ok, err, map, look_up, insert}
use smart_scanner.Common.Actions.{Action}
use smart_scanner.Types.{Transaction, Log}
use smart_scanner.Storage.Elastic.{
  Elastic, Document, Index, DocumentId, transactions_index, logs_index, hash_id, log_id, request,
}
use smart_scanner.Storage.Elastic.Documents.{transaction_document, log_document}

-- `groups[chain] = append(groups[chain], item)`.
abbrev pub add_to {ℓ} : {A : Type ℓ} → String → A → List (String × List A) → List (String × List A)
add_to chain_id a groups = elim (look_up chain_id groups) [
  | none ↦ insert chain_id (a ∷ []) groups
  | some l ↦ insert chain_id (l ++ (a ∷ [])) groups
]

-- The loop that groups the items, after the groups of those before them.
pub group_by {ℓ} :
    {A : Type ℓ} → (A → String) → List A → List (String × List A) → List (String × List A)
group_by chain_of [] groups = groups
group_by chain_of (a ∷ rest) groups = group_by chain_of rest (add_to (chain_of a) a groups)

module _ (server : Elastic) where
  -- One request for each group, up to the first that fails.
  unfoldable pub bulk_each {ℓ} :
      {A : Type ℓ}
      → (unsent : String) → (String → A → Index × DocumentId × Document)
      → List (String × List A)
      → Action server.State String (Unit {0})
  bulk_each unsent entry [] s = (ok tt, s)
  bulk_each unsent entry ((chain_id, items) ∷ rest) s =
      let (r, s') = request unsent (server.bulk (map (entry chain_id) items)) s in
      elim r [ ok u ↦ bulk_each unsent entry rest s' | err e ↦ (err e, s') ]

  unfoldable pub batch_save_transactions : List Transaction → Action server.State String (Unit {0})
  batch_save_transactions txs =
      bulk_each "failed to bulk index transactions: "
        (λ chain_id tx. (transactions_index chain_id, hash_id tx.hash, transaction_document tx))
        (group_by (λ tx. tx.chain_id) txs [])

  unfoldable pub batch_save_logs : List Log → Action server.State String (Unit {0})
  batch_save_logs logs =
      bulk_each "failed to bulk index logs: "
        (λ chain_id log. (logs_index chain_id, log_id log.tx_hash log.log_index, log_document log))
        (group_by (λ log. log.chain_id) logs [])
