-- ===== src/Storage/Elastic/Saved.antt =====
-- What the storage in Elasticsearch wrote is read back, with the status that was set last.
use smart_scanner.Common.{
  ℕ, String, ◌≡◌, refl, ◌∙◌, true, false, some, [], ◌∷◌, ok, is_ok, sym, ap, Bool-cases, inl, inr,
  ◌>>=◌, ok-injective, Outcome-cases, ◌≤◌, pos, ◌&&◌, leb, if◌then◌else◌,
}
use mathlib.Core.Bool.{true≢false}
use smart_scanner.Types.{Block, Transaction, TransactionStatus, reverted}
use smart_scanner.Storage.Elastic.{
  Elastic, Reply, unreachable, refused, answered, parsed, transactions_index, blocks_index, hash_id,
  number_id, settled, matches, status_text,
}
use smart_scanner.Storage.Elastic.Laws.{DocumentLaws, merge}
use smart_scanner.Storage.Elastic.Documents.{
  block_document, read_block-block_document, transaction_document,
  read_transaction-transaction_document, ExactTransaction, ExactBlock, read_transaction,
  read_transaction-large,
}
use smart_scanner.Storage.Elastic.Numbers.{exponent_from}
use smart_scanner.Storage.Elastic.Writes.{
  save_block, save_transaction, update_transaction_status, mark_transactions_as_reverted,
  block_range, set_reverted,
}
use smart_scanner.Storage.Elastic.Reads.{get_block, get_transaction}

-- A request that succeeded was answered.
pub settled-answered :
    {A : Type 0} (unsent : String) (r : Reply A) (a : A) → settled unsent r ≡ ok a → r ≡ answered a
settled-answered unsent (unreachable e) a bad = absurd (true≢false (sym (ap is_ok bad)))
settled-answered unsent (refused code status) a bad = absurd (true≢false (sym (ap is_ok bad)))
settled-answered unsent (answered b) a done = ap answered (ok-injective done)

merged_status :
    (tx : Transaction) (status : TransactionStatus)
    → merge (("status", status_text status) ∷ []) (transaction_document tx)
      ≡ transaction_document (record tx { status = status })
unfolding transaction_document
merged_status tx status = refl

scripted_status :
    (tx : Transaction) (from to : ℕ)
    → (elim (matches (block_range "block_number" from to) (transaction_document tx)) [
      | true ↦ set_reverted (transaction_document tx)
      | false ↦ transaction_document tx
    ])
      ≡ transaction_document (
          if leb from tx.block_number && leb tx.block_number to
          then record tx { status = reverted }
          else tx)
unfolding transaction_document
scripted_status tx from to =
    elim (Bool-cases (leb from tx.block_number && leb tx.block_number to)) [
      | inl e ↦ rw e refl
      | inr e ↦ rw e refl
    ]

scripted_exact :
    (tx : Transaction) (from to : ℕ)
    → ExactTransaction tx
    → ExactTransaction (
        if leb from tx.block_number && leb tx.block_number to
        then record tx { status = reverted }
        else tx)
scripted_exact tx from to exact =
    elim (Bool-cases (leb from tx.block_number && leb tx.block_number to)) [
      | inl e ↦ rw e exact
      | inr e ↦ rw e exact
    ]

module _ (server : Elastic) (laws : DocumentLaws server) where
  -- A block that was saved is read back under its chain and number, where its numbers are float64s.
  pub get_block-save_block :
      (b : Block) (s : server.State)
      → ExactBlock b
      → (save_block server b s).0 ≡ ok tt
      → get_block server b.chain_id b.number (save_block server b s).1 ≡ ok b
  unfolding save_block get_block
  get_block-save_block b s exact done =
      let sent = settled-answered "failed to index block: " _ tt done in
      let stored =
        laws.indexed (blocks_index b.chain_id) (number_id b.number) (block_document b) s sent in
      rw (stored, ◌>>=◌) (rw (read_block-block_document b exact) refl)

  read_stored :
      (c h : String) (tx : Transaction) (s : server.State)
      → ExactTransaction tx
      → server.get (transactions_index c) (hash_id h) s ≡ parsed (some (transaction_document tx))
      → get_transaction server c h s ≡ ok tx
  unfolding get_transaction
  read_stored c h tx s exact stored =
      rw (stored, ◌>>=◌) (rw (read_transaction-transaction_document tx exact) refl)

  -- A transaction that was saved, and whose status was then updated, is read back with the new status.
  pub get_transaction-update_transaction_status :
      (tx : Transaction) (status : TransactionStatus) (s : server.State)
      → ExactTransaction tx
      → (save_transaction server tx s).0 ≡ ok tt
      → (update_transaction_status server tx.chain_id tx.hash status
          (save_transaction server tx s).1).0
        ≡ ok tt
      → get_transaction server tx.chain_id tx.hash
          (update_transaction_status server tx.chain_id tx.hash status
            (save_transaction server tx s).1).1
        ≡ ok (record tx { status = status })
  unfolding save_transaction update_transaction_status
  get_transaction-update_transaction_status tx status s exact saved done =
      let ix = transactions_index tx.chain_id in
      let s' = (server.index ix (hash_id tx.hash) (transaction_document tx) s).1 in
      let stored =
        laws.indexed ix (hash_id tx.hash) (transaction_document tx) s
          (settled-answered "failed to index transaction: " _ tt saved) in
      let merged =
        laws.updated ix (hash_id tx.hash) (("status", status_text status) ∷ [])
          (transaction_document tx) s' stored
          (settled-answered "failed to update transaction: " _ tt done) in
      read_stored tx.chain_id tx.hash (record tx { status = status }) _ exact
        (merged ∙ ap (λ d. parsed (some d)) (merged_status tx status))

  -- Where the server meets the laws of documents, after MarkTransactionsAsReverted succeeded, a
  -- stored transaction that searches see, and whose numbers and amounts are at most 2^53, is read
  -- back as reverted exactly if its block lies in the range, and otherwise as it was.
  pub get_transaction-mark_transactions_as_reverted_elastic :
      (c h : String) (tx : Transaction) (from to : ℕ) (s : server.State)
      → ExactTransaction tx
      → server.get (transactions_index c) (hash_id h) s ≡ parsed (some (transaction_document tx))
      → laws.Searchable (transactions_index c) (hash_id h) s
      → (mark_transactions_as_reverted server c from to s).0 ≡ ok tt
      → get_transaction server c h (mark_transactions_as_reverted server c from to s).1
        ≡ ok (
            if leb from tx.block_number && leb tx.block_number to
            then record tx { status = reverted }
            else tx)
  unfolding mark_transactions_as_reverted
  get_transaction-mark_transactions_as_reverted_elastic c h tx from to s exact stored seen done =
      let changed =
        laws.scripted (transactions_index c) (block_range "block_number" from to) set_reverted
          (hash_id h) (transaction_document tx) s stored seen
          (settled-answered "failed to update transactions: " _ tt done) in
      read_stored c h _ _ (scripted_exact tx from to exact)
        (changed ∙ ap (λ d. parsed (some d)) (scripted_status tx from to))

-- A stored transaction of 10^21 wei at least, which is a thousand ether, is not read:
-- GetTransaction answers with an error, whatever the server holds besides.
pub get_transaction-large :
    (server : Elastic) (c h : String) (tx : Transaction) (n : ℕ) (s : server.State)
    → tx.value ≡ some (pos n)
    → exponent_from ≤ n
    → server.get (transactions_index c) (hash_id h) s ≡ parsed (some (transaction_document tx))
    → is_ok (get_transaction server c h s) ≡ false
unfolding get_transaction
get_transaction-large server c h tx n s value large stored =
    elim (Outcome-cases (read_transaction (transaction_document tx))) [
      | inl (a, e) ↦
          absurd (true≢false (sym (ap is_ok e) ∙ read_transaction-large tx n value large))
      | inr (e, failed) ↦ rw (stored, ◌>>=◌) (rw failed refl)
    ]
