-- ===== src/Consumer/ReorgHandler/Reverted.antt =====
-- What a handled reorg event of internal/consumer/reorg_handler.go leaves in the database of
-- internal/storage/database.go.
use smart_scanner.Common.{
  ℕ, ◌≤◌, String, ◌≡◌, inl, inr, refl, sym, ◌∙◌, Bool, true, false, ◌&&◌, List, [], ◌∷◌, map, All,
  ok, is_ok, Outcome-cases, Bool-cases, leb, le→leb, str_eq_refl,
}
use mathlib.Core.Bool.{true≢false}
use mathlib.Core.Path.{subst}
use smart_scanner.Types.{ReorgEvent, reverted}
use smart_scanner.Storage.Database.Table.{TableLaws, holds}
use smart_scanner.Storage.Database.Models.{TransactionModel, Database, DatabaseState}
use smart_scanner.Storage.Database.Blocks.{get_block, delete_blocks}
use smart_scanner.Storage.Database.Transactions
use smart_scanner.Storage.Database.Transactions.{hashed}
use smart_scanner.Storage.Database.Records.{delete_logs, save_reorg_event}
use smart_scanner.Storage.Database.Rows.{failed-ok}
use smart_scanner.Storage.Database.Deletions.{get_block-delete_blocks}
use smart_scanner.Storage.Database.Implementation.{database_storage}
use smart_scanner.Consumer.ReorgHandler.{EventKey, handle_reorg}
use smart_scanner.Consumer.ReorgHandler.Effects.{Effects, handle_reorg-Both}

-- A row of a range bears the status.
abbrev pub MarkedRow : String → (from to : ℕ) → TransactionModel → Type 0
MarkedRow c from to r = Transactions.in_range c from to r ≡ true → r.status ≡ reverted

marked_range :
    (c : String) (from to : ℕ) (rows : List TransactionModel)
    → All
        (MarkedRow c from to)
        (map (holds (Transactions.in_range c from to) (λ m. record m { status = reverted })) rows)
marked_range c from to [] = tt
marked_range c from to (r ∷ rows) = elim (Bool-cases (Transactions.in_range c from to r)) [
  | inl e ↦ rw e (λ h. refl, marked_range c from to rows)
  | inr e ↦ rw e (λ h. absurd (true≢false (sym h ∙ e)), marked_range c from to rows)
]

marked_more :
    (c : String) (from to : ℕ) (p : TransactionModel → Bool) (rows : List TransactionModel)
    → All (MarkedRow c from to) rows
    → All (MarkedRow c from to) (map (holds p (λ m. record m { status = reverted })) rows)
marked_more c from to p [] all = tt
marked_more c from to p (r ∷ rows) (first, all) = elim (Bool-cases (p r)) [
  | inl e ↦ rw e (λ h. refl, marked_more c from to p rows all)
  | inr e ↦ rw e (first, marked_more c from to p rows all)
]

module _ (db : Database) (blocks : TableLaws db.blocks) (transactions : TableLaws db.transactions)
    (event : ReorgEvent) where
  -- Every row of a transaction in the event's blocks bears the status reverted.
  abbrev pub AllMarked : DatabaseState db → Type 0
  AllMarked s =
      All (MarkedRow event.chain_id event.new_block_number event.old_block_number)
        (transactions.rows s.transaction_rows)

  -- None of the event's blocks is read.
  abbrev pub AllDeleted : DatabaseState db → Type 0
  AllDeleted s =
      (n : ℕ)
      → event.new_block_number ≤ n
      → n ≤ event.old_block_number
      → is_ok (get_block db event.chain_id n s) ≡ false

  update-AllMarked :
      (h : String) (s : DatabaseState db)
      → AllMarked s
      → AllMarked (Transactions.update_transaction_status db event.chain_id h reverted s).1
  unfolding Transactions.update_transaction_status
  update-AllMarked h s all =
      let p = hashed event.chain_id h in
      let f = λ (m : TransactionModel). record m { status = reverted } in
      let P = MarkedRow event.chain_id event.new_block_number event.old_block_number in
      elim (Outcome-cases (db.transactions.update_where p f s.transaction_rows).0) [
        | inl (u, e) ↦ subst (All P) (sym (transactions.updated p f s.transaction_rows e)) (
            marked_more event.chain_id event.new_block_number event.old_block_number p
              (transactions.rows s.transaction_rows) all)
        | inr (x, e) ↦
            subst (All P) (sym (transactions.failed_update p f s.transaction_rows x e)) all
      ]

  mark-AllMarked :
      (s : DatabaseState db)
      → let m =
          Transactions.mark_transactions_as_reverted db event.chain_id event.new_block_number
            event.old_block_number s in
        m.0 ≡ ok tt → AllMarked m.1
  unfolding Transactions.mark_transactions_as_reverted
  mark-AllMarked s done =
      let p = Transactions.in_range event.chain_id event.new_block_number event.old_block_number in
      subst (All (MarkedRow event.chain_id event.new_block_number event.old_block_number))
        (sym (
          transactions.updated p (λ m. record m { status = reverted }) s.transaction_rows
            (failed-ok _ _ tt done)))
        (marked_range event.chain_id event.new_block_number event.old_block_number
          (transactions.rows s.transaction_rows))

  delete-AllDeleted :
      (s : DatabaseState db)
      → let m = delete_blocks db event.chain_id event.new_block_number event.old_block_number s in
        m.0 ≡ ok tt → AllDeleted m.1
  delete-AllDeleted s done = λ n above below.
      let s' =
        (delete_blocks db event.chain_id event.new_block_number event.old_block_number s).1 in
      elim (Outcome-cases (get_block db event.chain_id n s')) [
        | inr (x, e) ↦ rw e refl
        | inl (b, e) ↦
            let outside =
              (get_block-delete_blocks db blocks event.chain_id event.new_block_number
                event.old_block_number event.chain_id n s b done e).0 in
            let inside : (leb event.new_block_number n && leb n event.old_block_number) ≡ true =
              rw (le→leb event.new_block_number n above, le→leb n event.old_block_number below)
                refl in
            absurd (true≢false (sym inside ∙ rw (str_eq_refl event.chain_id) at outside))
      ]

  delete-transactions :
      (s : DatabaseState db)
      → let s' =
          (delete_blocks db event.chain_id event.new_block_number event.old_block_number s).1 in
        s'.transaction_rows ≡ s.transaction_rows
  unfolding delete_blocks
  delete-transactions s = refl

  -- Logs and events stand in tables of their own.
  delete_logs-apart :
      (s : DatabaseState db)
      → let s' =
          (delete_logs db event.chain_id event.new_block_number event.old_block_number s).1 in
        (s'.transaction_rows ≡ s.transaction_rows) × (s'.block_rows ≡ s.block_rows)
  unfolding delete_logs
  delete_logs-apart s = (refl, refl)

  save_reorg_event-apart :
      (e : ReorgEvent) (s : DatabaseState db)
      → let s' = (save_reorg_event db e s).1 in
        (s'.transaction_rows ≡ s.transaction_rows) × (s'.block_rows ≡ s.block_rows)
  unfolding save_reorg_event
  save_reorg_event-apart e s = elim (Outcome-cases (db.event_json.marshal e)) [
    | inl (text, p) ↦ rw (p, save_reorg_event) (refl, refl)
    | inr (x, p) ↦ rw (p, save_reorg_event) (refl, refl)
  ]

  apart-Both :
      (s s' : DatabaseState db)
      → (s'.transaction_rows ≡ s.transaction_rows) × (s'.block_rows ≡ s.block_rows)
      → AllMarked s × AllDeleted s
      → AllMarked s' × AllDeleted s'
  unfolding get_block
  apart-Both s s' (same, same_blocks) (marked, deleted) =
      (rw same marked, λ n above below. rw same_blocks (deleted n above below))

  database-Effects : Effects (database_storage db) event
  database-Effects = record {
    Marked = AllMarked;
    Deleted = AllDeleted;
    marks = mark-AllMarked;
    forced = update-AllMarked;
    deletes = delete-AllDeleted;
    deletes_Marked = λ s marked. rw (delete-transactions s) marked;
    cleans = λ s both. apart-Both s _ (delete_logs-apart s) both;
    saves = λ e s both. apart-Both s _ (save_reorg_event-apart e s) both;
  }

  -- Where the tables of blocks and of transactions meet their laws, once HandleReorg of the
  -- default handler has succeeded on the database storage, every row of a transaction in the
  -- event's blocks bears the status reverted, and none of these blocks is read any more.
  pub handle_reorg-reverts :
      (processing : List EventKey) (s : DatabaseState db)
      → (handle_reorg (database_storage db) event (processing, s)).0 ≡ ok tt
      → let s' = (handle_reorg (database_storage db) event (processing, s)).1.1 in
        AllMarked s' × AllDeleted s'
  unfolding database-Effects
  handle_reorg-reverts = handle_reorg-Both (database_storage db) event database-Effects
