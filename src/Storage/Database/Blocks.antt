-- ===== src/Storage/Database/Blocks.antt =====
-- The blocks of internal/storage/database.go. An error is its text.
use Prim.Native.String.{◌++◌ as append}
use smart_scanner.Common.{ℕ, String, Bool, [], ◌∷◌, Outcome, ok, err, ◌&&◌, leb, ◌==◌, str_eq}
use smart_scanner.Common.Actions.{Action}
use smart_scanner.Types.{Block}
use smart_scanner.Storage.Database.Table.{QueryError, record_not_found, query_failed, desc}
use smart_scanner.Storage.Database.Models.{BlockModel, Database, DatabaseState}

-- `fmt.Errorf("…: %w", err)`.
abbrev pub failed {ℓ} : {A : Type ℓ} → String → Outcome String A → Outcome String A
failed prefix (ok a) = ok a
failed prefix (err e) = err (append prefix e)

-- `errors` of a query: a missing record has a text of its own.
abbrev pub queried {ℓ} :
    {A : Type ℓ} → (missing prefix : String) → Outcome QueryError A → Outcome String A
queried missing prefix (ok a) = ok a
queried missing prefix (err record_not_found) = err missing
queried missing prefix (err (query_failed e)) = err (append prefix e)

-- A row's JSON.
abbrev pub decoded {ℓ} :
    {A : Type ℓ}
    → (prefix : String) → (String → Outcome String A)
    → Outcome String String
    → Outcome String A
decoded prefix read (ok s) = failed prefix (read s)
decoded prefix read (err e) = err e

abbrev pub mapped {ℓ κ} : {A : Type ℓ} {B : Type κ} → (A → B) → Outcome String A → Outcome String B
mapped f (ok a) = ok (f a)
mapped f (err e) = err e

abbrev pub numbered : String → ℕ → BlockModel → Bool
numbered chain_id n r = str_eq r.chain_id chain_id && r.block_number == n

abbrev pub in_range : String → (from to : ℕ) → BlockModel → Bool
in_range chain_id from to r =
    str_eq r.chain_id chain_id && (leb from r.block_number && leb r.block_number to)

module _ (db : Database) where
  -- Writing to the table of blocks.
  abbrev pub on_blocks :
      Action db.blocks.State String (Unit {0}) → Action (DatabaseState db) String (Unit {0})
  on_blocks write s = let (r, rows) = write s.block_rows in (r, record s { block_rows = rows })

  abbrev pub read_block_row : Outcome String BlockModel → Outcome String Block
  read_block_row r =
      decoded "failed to unmarshal block: " db.block_json.unmarshal (mapped (λ m. m.data_text) r)

  unfoldable pub block_model : Block → (data_text : String) → BlockModel
  block_model block data_text = record {
    chain_id = block.chain_id;
    block_number = block.number;
    block_hash = block.hash;
    data_text = data_text;
  }

  unfoldable pub save_block : Block → Action (DatabaseState db) String (Unit {0})
  save_block block s = elim (db.block_json.marshal block) [
    | err e ↦ (err (append "failed to marshal block: " e), s)
    | ok data_text ↦
        let (r, s') =
          on_blocks
            (db.blocks.first_or_create (numbered block.chain_id block.number)
              (block_model block data_text))
            s in
        (failed "failed to save block: " r, s')
  ]

  unfoldable pub get_block : String → ℕ → DatabaseState db → Outcome String Block
  get_block chain_id n s = read_block_row (
      queried "block not found" "failed to get block: "
        (db.blocks.first (numbered chain_id n) [] s.block_rows))

  unfoldable pub get_block_by_hash : String → String → DatabaseState db → Outcome String Block
  get_block_by_hash chain_id hash s = read_block_row (
      queried "block not found" "failed to get block by hash: " (
        db.blocks.first (λ r. str_eq r.chain_id chain_id && str_eq r.block_hash hash) []
          s.block_rows))

  unfoldable pub get_latest_block : String → DatabaseState db → Outcome String Block
  get_latest_block chain_id s = read_block_row (
      queried (append "no blocks found for chain " chain_id) "failed to get latest block: " (
        db.blocks.first (λ r. str_eq r.chain_id chain_id) ((λ r. r.block_number, desc) ∷ [])
          s.block_rows))

  unfoldable pub delete_blocks :
      String → (from to : ℕ) → Action (DatabaseState db) String (Unit {0})
  delete_blocks chain_id from to s =
      let (r, s') = on_blocks (db.blocks.delete_where (in_range chain_id from to)) s in
      (failed "failed to delete blocks: " r, s')
