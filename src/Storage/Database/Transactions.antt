-- ===== src/Storage/Database/Transactions.antt =====
-- The transactions of internal/storage/database.go.
use Prim.Native.String.{◌++◌ as append}
use smart_scanner.Common.{
  ℕ, String, Bool, none, some, List, [], ◌∷◌, Outcome, ok, err, ◌&&◌, ◌||◌, leb, ◌==◌, str_eq, map,
}
use smart_scanner.Common.Actions.{Action}
use smart_scanner.Types.{Transaction, TransactionStatus, reverted}
use smart_scanner.Storage.Database.Table.{desc}
use smart_scanner.Storage.Database.Models.{TransactionModel, Database, DatabaseState}
use smart_scanner.Storage.Database.Blocks.{failed, queried, decoded, mapped}

abbrev pub hashed : String → String → TransactionModel → Bool
hashed chain_id hash r = str_eq r.chain_id chain_id && str_eq r.tx_hash hash

abbrev pub in_range : String → (from to : ℕ) → TransactionModel → Bool
in_range chain_id from to r =
    str_eq r.chain_id chain_id && (leb from r.block_number && leb r.block_number to)

-- The loops over the rows found: a row whose JSON is not read goes to the log and is skipped.
unfoldable pub decode_rows : {A : Type 0} → (String → Outcome String A) → List String → List A
decode_rows unmarshal [] = []
decode_rows unmarshal (x ∷ xs) =
    let rest = decode_rows unmarshal xs in elim (unmarshal x) [ err e ↦ rest | ok a ↦ a ∷ rest ]

module _ (db : Database) where
  abbrev pub on_transactions :
      Action db.transactions.State String (Unit {0}) → Action (DatabaseState db) String (Unit {0})
  on_transactions write s =
      let (r, rows) = write s.transaction_rows in (r, record s { transaction_rows = rows })

  unfoldable pub transaction_model : Transaction → (data_text : String) → TransactionModel
  transaction_model tx data_text = record {
    chain_id = tx.chain_id;
    tx_hash = tx.hash;
    block_number = tx.block_number;
    from_address = tx.from;
    to_address = tx.to;
    status = tx.status;
    data_text = data_text;
  }

  unfoldable pub save_transaction : Transaction → Action (DatabaseState db) String (Unit {0})
  save_transaction tx s = elim (db.transaction_json.marshal tx) [
    | err e ↦ (err (append "failed to marshal transaction: " e), s)
    | ok data_text ↦
        let (r, s') =
          on_transactions
            (db.transactions.first_or_create (hashed tx.chain_id tx.hash)
              (transaction_model tx data_text))
            s in
        (failed "failed to save transaction: " r, s')
  ]

  -- The loop of `BatchSaveTransactions`. It saves through the storage's own connection and not through
  -- the transaction that gorm hands to it, so what gorm undoes after an error holds no row.
  unfoldable pub save_each : List Transaction → Action (DatabaseState db) String (Unit {0})
  save_each [] s = (ok tt, s)
  save_each (tx ∷ txs) s =
      let (r, s') = save_transaction tx s in
      elim r [ err e ↦ (err e, s') | ok u ↦ save_each txs s' ]

  unfoldable pub batch_save_transactions :
      List Transaction → Action (DatabaseState db) String (Unit {0})
  batch_save_transactions [] s = (ok tt, s)
  batch_save_transactions (tx ∷ txs) s = save_each (tx ∷ txs) s

  unfoldable pub get_transaction : String → String → DatabaseState db → Outcome String Transaction
  get_transaction chain_id hash s =
      decoded "failed to unmarshal transaction: " db.transaction_json.unmarshal (
        mapped (λ m. m.data_text)
          (queried "transaction not found" "failed to get transaction: "
            (db.transactions.first (hashed chain_id hash) [] s.transaction_rows)))

  unfoldable pub get_transactions_by_block :
      String → ℕ → DatabaseState db → Outcome String (List Transaction)
  get_transactions_by_block chain_id n s =
      mapped (λ rows. decode_rows db.transaction_json.unmarshal (map (λ m. m.data_text) rows))
        (failed "failed to get transactions by block: " (
          db.transactions.find
            (record {
              condition = λ r. str_eq r.chain_id chain_id && r.block_number == n;
              order = [];
              limit = none;
              offset = none;
            })
            s.transaction_rows))

  unfoldable pub get_transactions_by_address :
      String → String → (limit offset : ℕ) → DatabaseState db → Outcome String (List Transaction)
  get_transactions_by_address chain_id address limit offset s =
      mapped (λ rows. decode_rows db.transaction_json.unmarshal (map (λ m. m.data_text) rows))
        (failed "failed to get transactions by address: " (
          db.transactions.find
            (record {
              condition = λ r.
                  str_eq r.chain_id chain_id
                  && (str_eq r.from_address address || str_eq r.to_address address);
              order = (λ r. r.block_number, desc) ∷ [];
              limit = some limit;
              offset = some offset;
            })
            s.transaction_rows))

  unfoldable pub update_transaction_status :
      String → String → TransactionStatus → Action (DatabaseState db) String (Unit {0})
  update_transaction_status chain_id hash status s =
      let (r, s') =
        on_transactions
          (db.transactions.update_where (hashed chain_id hash) (λ m. record m { status = status }))
          s in
      (failed "failed to update transaction status: " r, s')

  unfoldable pub mark_transactions_as_reverted :
      String → (from to : ℕ) → Action (DatabaseState db) String (Unit {0})
  mark_transactions_as_reverted chain_id from to s =
      let (r, s') =
        on_transactions
          (db.transactions.update_where (in_range chain_id from to)
            (λ m. record m { status = reverted }))
          s in
      (failed "failed to mark transactions as reverted: " r, s')
