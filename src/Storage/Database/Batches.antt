-- ===== src/Storage/Database/Batches.antt =====
-- A batch of transactions of internal/storage/database.go that fails.
use smart_scanner.Common.{
  String, ◌≡◌, refl, sym, ap, ◌∙◌, false, List, [], ◌∷◌, ◌++◌, Outcome, ok, err, is_ok,
  Outcome-cases, inl, inr,
}
use mathlib.Core.Bool.{true≢false}
use mathlib.Core.Path.{subst}
use smart_scanner.Types.{Transaction}
use smart_scanner.Storage.Database.Models.{Database, DatabaseState}
use smart_scanner.Storage.Database.Transactions.{
  save_transaction, save_each, batch_save_transactions,
}

module _ (db : Database) where
  save_each-saved :
      (x : Transaction) (txs : List Transaction) (s : DatabaseState db) (u : Unit {0})
      → (save_transaction db x s).0 ≡ ok u
      → save_each db (x ∷ txs) s ≡ save_each db txs (save_transaction db x s).1
  unfolding save_each
  save_each-saved x txs s u saved = rw (saved, save_each) refl

  save_each-fails :
      (txs : List Transaction) (tx : Transaction) (later : List Transaction) (s : DatabaseState db)
      (e : String)
      → (save_each db txs s).0 ≡ ok tt
      → (save_transaction db tx (save_each db txs s).1).0 ≡ err e
      → save_each db (txs ++ (tx ∷ later)) s
        ≡ (err e, (save_transaction db tx (save_each db txs s).1).1)
  unfolding save_each
  save_each-fails [] tx later s e done fails =
      let first_fails : (save_transaction db tx s).0 ≡ err e = fails in
      rw (first_fails, save_each) refl
  save_each-fails (x ∷ txs) tx later s e done fails =
      elim (Outcome-cases (save_transaction db x s).0) [
        | inl (u, saved) ↦
            let st = save_each-saved x txs s u saved in
            save_each-saved x (txs ++ (tx ∷ later)) s u saved
            ∙ save_each-fails txs tx later (save_transaction db x s).1 e
                (subst (λ (z : Outcome String (Unit {0}) × DatabaseState db). z.0 ≡ ok tt) st done)
                (subst
                  (λ (z : Outcome String (Unit {0}) × DatabaseState db).
                    (save_transaction db tx z.1).0 ≡ err e)
                  st fails)
            ∙ ap
                (λ (z : Outcome String (Unit {0}) × DatabaseState db).
                  (err e, (save_transaction db tx z.1).1))
                (sym st)
        | inr (y, failed) ↦
            let stopped : is_ok (save_each db (x ∷ txs) s).0 ≡ false =
              rw (failed, save_each) refl in
            absurd (true≢false (sym (ap is_ok done) ∙ stopped))
      ]

  -- Where a transaction of a batch is not saved, the batch fails with its error, and those before it
  -- stay in the database: nothing is rolled back.
  pub batch_save_transactions-keeps :
      (txs : List Transaction) (tx : Transaction) (later : List Transaction) (s : DatabaseState db)
      (e : String)
      → (batch_save_transactions db txs s).0 ≡ ok tt
      → (save_transaction db tx (batch_save_transactions db txs s).1).0 ≡ err e
      → batch_save_transactions db (txs ++ (tx ∷ later)) s
        ≡ (err e, (save_transaction db tx (batch_save_transactions db txs s).1).1)
  unfolding batch_save_transactions save_each
  batch_save_transactions-keeps [] tx later s e done fails =
      save_each-fails [] tx later s e refl fails
  batch_save_transactions-keeps (x ∷ txs) tx later s e done fails =
      save_each-fails (x ∷ txs) tx later s e done fails
