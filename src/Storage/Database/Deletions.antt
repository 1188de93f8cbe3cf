-- ===== src/Storage/Database/Deletions.antt =====
-- Which blocks are read from the database of internal/storage/database.go after a deletion.
use smart_scanner.Common.{
  ℕ, String, ◌≡◌, refl, sym, ap, ◌∙◌, true, false, not, ◌&&◌, List, [], ◌∷◌, arith, ok,
  ok-injective, leb, str_eq, str_eq_iff,
}
use smart_scanner.Types.{Block}
use smart_scanner.Storage.Memory.{keep}
use smart_scanner.Storage.Database.Table.{TableLaws}
use smart_scanner.Storage.Database.Models.{BlockModel, Database, DatabaseState}
use smart_scanner.Storage.Database.Blocks.{numbered, in_range, get_block, delete_blocks}
use smart_scanner.Storage.Database.Rows.{
  same_head, not-true, failed-ok, decoded-ok, keep-head, keep-implied,
}

read_block :
    (db : Database) (laws : TableLaws db.blocks) (c : String) (n : ℕ) (s : DatabaseState db)
    (b : Block)
    → get_block db c n s ≡ ok b
    → (r : BlockModel) × (rest : List BlockModel) × (keep (numbered c n) (laws.rows s.block_rows)
        ≡ r ∷ rest)
      × (db.block_json.unmarshal r.data_text ≡ ok b)
unfolding get_block
read_block db laws c n s b read =
    let (r, found, text) =
      decoded-ok _ _ _ db.block_json.unmarshal (λ (m : BlockModel). m.data_text)
        (db.blocks.first (numbered c n) [] s.block_rows) b read in
    let (rest, kept) = laws.first_found (numbered c n) s.block_rows r found in (r, rest, kept, text)

-- A row under a chain and a number is in the range exactly if these are.
numbered-in_range :
    (chain_id : String) (from to : ℕ) (c : String) (n : ℕ) (r : BlockModel)
    → numbered c n r ≡ true
    → in_range chain_id from to r ≡ (str_eq c chain_id && (leb from n && leb n to))
numbered-in_range chain_id from to c n r h =
    let same : r.chain_id ≡ c = ground (arith, str_eq_iff r.chain_id c) in
    let number : r.block_number ≡ n = ground (arith, str_eq_iff r.chain_id c) in
    rw (same, number) refl

-- Where the table meets its laws, after the database storage has deleted blocks, a block that is
-- read lies outside their range, and is the one that was read before, if one was.
pub get_block-delete_blocks :
    (db : Database) (laws : TableLaws db.blocks) (chain_id : String) (from to : ℕ) (c : String)
    (n : ℕ) (s : DatabaseState db) (b : Block)
    → (delete_blocks db chain_id from to s).0 ≡ ok tt
    → get_block db c n (delete_blocks db chain_id from to s).1 ≡ ok b
    → ((str_eq c chain_id && (leb from n && leb n to)) ≡ false)
      × ((b' : Block) → get_block db c n s ≡ ok b' → b ≡ b')
unfolding delete_blocks
get_block-delete_blocks db laws chain_id from to c n s b done after =
    let p = numbered c n in
    let q = λ (r : BlockModel). not (in_range chain_id from to r) in
    let gone = laws.deleted (in_range chain_id from to) s.block_rows (failed-ok _ _ tt done) in
    let (r, rest, kept, text) = read_block db laws c n _ b after in
    let (outside, mine) =
      keep-head p q (laws.rows s.block_rows) r rest (sym (ap (keep p) gone) ∙ kept) in
    let excluded = sym (numbered-in_range chain_id from to c n r mine) ∙ not-true outside in
    (
      excluded,
      λ b' before.
          let (r', rest', kept', text') = read_block db laws c n s b' before in
          let in_place : keep p (laws.rows (delete_blocks db chain_id from to s).1.block_rows)
              ≡ keep p (laws.rows s.block_rows) =
            ap (keep p) gone
            ∙ keep-implied p q
                (λ m h. rw (numbered-in_range chain_id from to c n m h, excluded) refl)
                (laws.rows s.block_rows) in
          let same : r ≡ r' = same_head kept (in_place ∙ kept') in
          ok-injective
            (sym text ∙ ap (λ (m : BlockModel). db.block_json.unmarshal m.data_text) same ∙ text'),
    )
