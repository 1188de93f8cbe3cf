-- ===== src/Storage/Database/Reads.antt =====
-- What is read from the database of internal/storage/database.go after transactions were
-- written.
use smart_scanner.Common.{
  ℕ, String, ◌≡◌, inl, inr, refl, sym, ap, ◌∙◌, Bool, true, false, List, [], ◌∷◌, map, ok, is_ok,
  ok-injective, str_eq_refl, Outcome-cases, Bool-cases,
}
use mathlib.Core.Bool.{true≢false}
use smart_scanner.Types.{Transaction, TransactionStatus, reverted}
use smart_scanner.Storage.Memory.{keep}
use smart_scanner.Storage.Database.Table.{TableLaws, holds, assign_first}
use smart_scanner.Storage.Database.Models.{ReadBack, TransactionModel, Database, DatabaseState}
use smart_scanner.Storage.Database.Blocks.{failed}
use smart_scanner.Storage.Database.Transactions.{
  hashed, get_transaction, transaction_model, save_transaction, update_transaction_status,
  mark_transactions_as_reverted,
}
use smart_scanner.Storage.Database.Transactions
use smart_scanner.Storage.Database.Rows.{
  same_head, failed-ok, decoded-ok, keep-map, keep-assign_first,
}

module _ (db : Database) (laws : TableLaws db.transactions) where
  abbrev rows : DatabaseState db → List TransactionModel
  rows s = laws.rows s.transaction_rows

  -- The row that a read transaction stands in.
  read_row :
      (c h : String) (s : DatabaseState db) (t : Transaction)
      → get_transaction db c h s ≡ ok t
      → (r : TransactionModel) × (rest : List TransactionModel) × (keep (hashed c h) (rows s)
          ≡ r ∷ rest)
        × (db.transaction_json.unmarshal r.data_text ≡ ok t)
  unfolding get_transaction
  read_row c h s t read =
      let (r, found, text) =
        decoded-ok _ _ _ db.transaction_json.unmarshal (λ (m : TransactionModel). m.data_text)
          (db.transactions.first (hashed c h) [] s.transaction_rows) t read in
      let (rest, kept) = laws.first_found (hashed c h) s.transaction_rows r found in
      (r, rest, kept, text)

  -- A change of statuses keeps a row's chain, hash and JSON.
  module _ (p : TransactionModel → Bool) (status : TransactionStatus) (m : TransactionModel) where
    abbrev with_status : TransactionModel
    with_status = holds p (λ x. record x { status = status }) m

    hashed-with_status : (c h : String) → hashed c h with_status ≡ hashed c h m
    hashed-with_status c h = elim (Bool-cases (p m)) [ inl e ↦ rw e refl | inr e ↦ rw e refl ]

    data_text-with_status : with_status.data_text ≡ m.data_text
    data_text-with_status = elim (Bool-cases (p m)) [ inl e ↦ rw e refl | inr e ↦ rw e refl ]

  -- A change of the rows that keeps the chain, the hash and the JSON is not read.
  unread :
      (p : TransactionModel → Bool) (status : TransactionStatus) (c h : String)
      (s s' : DatabaseState db) (t t' : Transaction)
      → rows s' ≡ map (holds p (λ m. record m { status = status })) (rows s)
      → get_transaction db c h s ≡ ok t
      → get_transaction db c h s' ≡ ok t'
      → t' ≡ t
  unread p status c h s s' t t' changed before after =
      let change : TransactionModel → TransactionModel =
        holds p (λ m. record m { status = status }) in
      let (r, rest, kept, text) = read_row c h s t before in
      let (r', rest', kept', text') = read_row c h s' t' after in
      let moved : keep (hashed c h) (rows s') ≡ map change (r ∷ rest) = rw changed (
        keep-map (hashed c h) change (λ m. hashed-with_status p status m c h) (rows s)
        ∙ ap (map change) kept) in
      let same : r' ≡ change r = same_head kept' moved in
      let text_kept = ap (λ m. m.data_text) same ∙ data_text-with_status p status r in
      ok-injective (sym text' ∙ ap db.transaction_json.unmarshal text_kept ∙ text)

  -- Where the table meets its laws, once the database storage has marked a range of blocks as
  -- reverted, a stored transaction that is read before and after is the same: every read decodes
  -- the JSON, and only the status column has changed.
  pub get_transaction-mark_transactions_as_reverted :
      (chain_id : String) (from to : ℕ) (c h : String) (s : DatabaseState db) (t t' : Transaction)
      → (mark_transactions_as_reverted db chain_id from to s).0 ≡ ok tt
      → get_transaction db c h s ≡ ok t
      → get_transaction db c h (mark_transactions_as_reverted db chain_id from to s).1 ≡ ok t'
      → t' ≡ t
  unfolding mark_transactions_as_reverted
  get_transaction-mark_transactions_as_reverted chain_id from to c h s t t' done before after =
      let p = Transactions.in_range chain_id from to in
      unread p reverted c h s _ t t'
        (laws.updated p (λ m. record m { status = reverted }) s.transaction_rows
          (failed-ok _ _ tt done))
        before after

  -- The same after the status of one transaction was updated.
  pub get_transaction-update_transaction_status :
      (chain_id hash : String) (status : TransactionStatus) (c h : String) (s : DatabaseState db)
      (t t' : Transaction)
      → (update_transaction_status db chain_id hash status s).0 ≡ ok tt
      → get_transaction db c h s ≡ ok t
      → get_transaction db c h (update_transaction_status db chain_id hash status s).1 ≡ ok t'
      → t' ≡ t
  unfolding update_transaction_status
  get_transaction-update_transaction_status chain_id hash status c h s t t' done before after =
      let p = hashed chain_id hash in
      unread p status c h s _ t t'
        (laws.updated p (λ m. record m { status = status }) s.transaction_rows
          (failed-ok _ _ tt done))
        before after

  own_row :
      (tx : Transaction) (text : String)
      → hashed tx.chain_id tx.hash (transaction_model db tx text) ≡ true
  unfolding transaction_model
  own_row tx text = rw (str_eq_refl tx.chain_id, str_eq_refl tx.hash) refl

  save_transaction-ok :
      (tx : Transaction) (s : DatabaseState db)
      → (save_transaction db tx s).0 ≡ ok tt
      → (text : String) × (db.transaction_json.marshal tx ≡ ok text)
        × (rows (save_transaction db tx s).1
            ≡ assign_first laws.merged
                (hashed tx.chain_id tx.hash)
                (transaction_model db tx text)
                (rows s))
  unfolding save_transaction transaction_model
  save_transaction-ok tx s done = elim (Outcome-cases (db.transaction_json.marshal tx)) [
    | inl (text, e) ↦
        let p = hashed tx.chain_id tx.hash in
        let w =
          db.transactions.first_or_create p (transaction_model db tx text) s.transaction_rows in
        let step : save_transaction db tx s
            ≡ (failed "failed to save transaction: " w.0, record s { transaction_rows = w.1 }) =
          rw (e, save_transaction) refl in
        let written : w.0 ≡ ok tt = failed-ok _ w.0 tt (sym (ap (λ x. x.0) step) ∙ done) in
        (
          text,
          e,
          ap (λ x. laws.rows x.1.transaction_rows) step
              ∙ laws.assigned p (transaction_model db tx text) s.transaction_rows written,
        )
    | inr (x, e) ↦
        let unsaved : is_ok (save_transaction db tx s).0 ≡ false = rw (e, save_transaction) refl in
        absurd (true≢false (sym (ap is_ok done) ∙ unsaved))
  ]

  -- A transaction that was saved under a chain and a hash that had no row is read back as it was, where
  -- its JSON is.
  pub get_transaction-save_transaction :
      (tx t : Transaction) (s : DatabaseState db)
      → ReadBack db.transaction_json tx
      → keep (hashed tx.chain_id tx.hash) (rows s) ≡ []
      → (save_transaction db tx s).0 ≡ ok tt
      → get_transaction db tx.chain_id tx.hash (save_transaction db tx s).1 ≡ ok t
      → t ≡ tx
  unfolding transaction_model
  get_transaction-save_transaction tx t s read_back none_yet done after =
      let p = hashed tx.chain_id tx.hash in
      let (text, marshalled, written) = save_transaction-ok tx s done in
      let (r, rest, kept, read) = read_row tx.chain_id tx.hash _ t after in
      let model = transaction_model db tx text in
      let only : keep p (rows (save_transaction db tx s).1) ≡ model ∷ [] =
        rw written (keep-assign_first p laws.merged model (own_row tx text) (rows s) none_yet) in
      let same : model ≡ r = same_head only kept in
      let text_kept : text ≡ r.data_text = ap (λ m. m.data_text) same in
      ok-injective
        (sym read ∙ ap db.transaction_json.unmarshal (sym text_kept) ∙ read_back text marshalled)
