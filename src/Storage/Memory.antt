-- ===== src/Storage/Memory.antt =====
-- A storage in memory: tables as lists, newest row first, and no failing write. It shows that the
-- assumptions about a storage can be met, and runs the clients in tests.
use smart_scanner.Common.{
  ◌||◌, ◌++◌, ℕ, String, Bool, List, [], ◌∷◌, Outcome, ok, err, if◌then◌else◌, ◌&&◌, ltb, leb, ◌==◌,
  str_eq, not, take, drop,
}
use smart_scanner.Types.{
  Block, Transaction, TransactionStatus, reverted, Log, Watermark, ReorgEvent,
}
use smart_scanner.Storage.{Storage}

pub record Tables : Type 0 where
  pub blocks : List Block
  pub transactions : List Transaction
  pub events : List ReorgEvent
  pub logs : List Log
  pub watermarks : List Watermark

-- `from ≤ n ≤ to`.
abbrev pub within : (from to n : ℕ) → Bool
within from to n = leb from n && leb n to

abbrev pub find_first {ℓ} : {A : Type ℓ} → (A → Bool) → String → List A → Outcome String A
find_first test e [] = err e
find_first test e (x ∷ xs) = if test x then ok x else find_first test e xs

abbrev pub keep {ℓ} : {A : Type ℓ} → (A → Bool) → List A → List A
keep test [] = []
keep test (x ∷ xs) = let rest = keep test xs in if test x then x ∷ rest else rest

abbrev latest : Outcome String Block → List Block → Outcome String Block
latest best [] = best
latest (err e) (b ∷ bs) = latest (ok b) bs
latest (ok a) (b ∷ bs) = latest (ok (if ltb a.number b.number then b else a)) bs

abbrev pub set_status :
    (Transaction → Bool) → TransactionStatus → List Transaction → List Transaction
set_status test status [] = []
set_status test status (t ∷ ts) =
    (if test t then record t { status = status } else t) ∷ set_status test status ts

abbrev pub put_transaction : Transaction → List Transaction → List Transaction
put_transaction t ts = t ∷ keep (λ x. not (str_eq x.chain_id t.chain_id && str_eq x.hash t.hash)) ts

abbrev put_transactions : List Transaction → List Transaction → List Transaction
put_transactions [] ts = ts
put_transactions (x ∷ xs) ts = put_transactions xs (put_transaction x ts)

abbrev put_watermark : Watermark → List Watermark → List Watermark
put_watermark w ws = w ∷ keep (λ x. not (str_eq x.chain_id w.chain_id)) ws

abbrev pub memory : Storage
memory = record {
  State = Tables;
  save_block = λ b s. (
    ok tt,
    record s {
      blocks = b ∷ keep (λ x. not (str_eq x.chain_id b.chain_id && x.number == b.number)) s.blocks;
    },
  );
  save_transaction = λ t s. (ok tt, record s { transactions = put_transaction t s.transactions });
  batch_save_transactions =
      λ ts s. (ok tt, record s { transactions = put_transactions ts s.transactions });
  get_transactions_by_address = λ c a limit offset s. ok (
      take limit (
        drop offset
          (keep (λ t. str_eq t.chain_id c && (str_eq t.from a || str_eq t.to a)) s.transactions)));
  save_log = λ log s. (ok tt, record s { logs = log ∷ s.logs });
  batch_save_logs = λ logs s. (ok tt, record s { logs = logs ++ s.logs });
  get_logs = λ c filter s.
      ok (take filter.limit (drop filter.offset (keep (λ l. str_eq l.chain_id c) s.logs)));
  save_watermark = λ w s. (ok tt, record s { watermarks = put_watermark w s.watermarks });
  get_watermark = λ c s. find_first (λ w. str_eq w.chain_id c) "watermark not found" s.watermarks;
  update_watermark = λ c w s. (ok tt, record s { watermarks = put_watermark w s.watermarks });
  health_check = λ s. ok tt;
  close = λ s. (ok tt, s);
  get_block =
      λ c n s. find_first (λ b. str_eq b.chain_id c && b.number == n) "block not found" s.blocks;
  get_block_by_hash =
      λ c h s. find_first (λ b. str_eq b.chain_id c && str_eq b.hash h) "block not found" s.blocks;
  get_latest_block =
      λ c s. latest (err "no blocks found") (keep (λ b. str_eq b.chain_id c) s.blocks);
  delete_blocks = λ c from to s. (
    ok tt,
    record s { blocks = keep (λ b. not (str_eq b.chain_id c && within from to b.number)) s.blocks },
  );
  get_transaction = λ c h s.
      find_first (λ t. str_eq t.chain_id c && str_eq t.hash h) "transaction not found"
        s.transactions;
  get_transactions_by_block =
      λ c n s. ok (keep (λ t. str_eq t.chain_id c && t.block_number == n) s.transactions);
  update_transaction_status = λ c h status s. (
    ok tt,
    record s {
      transactions = set_status (λ t. str_eq t.chain_id c && str_eq t.hash h) status s.transactions;
    },
  );
  mark_transactions_as_reverted = λ c from to s. (
    ok tt,
    record s {
      transactions =
          set_status (λ t. str_eq t.chain_id c && within from to t.block_number) reverted
            s.transactions;
    },
  );
  delete_logs = λ c from to s. (
    ok tt,
    record s {
      logs = keep (λ l. not (str_eq l.chain_id c && within from to l.block_number)) s.logs;
    },
  );
  save_reorg_event = λ e s. (ok tt, record s { events = e ∷ s.events });
  get_reorg_events =
      λ c limit offset s. ok (take limit (drop offset (keep (λ e. str_eq e.chain_id c) s.events)));
}
