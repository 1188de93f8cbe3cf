-- ===== src/Storage/Redis/Tests.antt =====
-- A Redis server of lists without expiry, which meets the assumptions about it, and runs on it.
use smart_scanner.Common.{
  ap, ok-injective, str_eq_refl, arith, ℕ, String, ◌≡◌, refl, sym, Bool, true, false, ◌&&◌, none,
  List, [], ◌∷◌, Outcome, ok, err, if◌then◌else◌, str_eq, ◌==◌,
}
use smart_scanner.Types.{
  Transaction, TransactionStatus, pending, confirmed, finalized, reverted, other_status,
}
use smart_scanner.Storage.Database.Table.{QueryError, record_not_found}
use smart_scanner.Storage.Database.Models.{Codec, ReadBack}
use smart_scanner.Storage.Redis.{
  Redis, RedisKey, block_key, transaction_key, watermark_key, save_transaction, get_transaction,
  update_transaction_status, batch_save_transactions, pipeline,
}
use smart_scanner.Storage.Redis.Statuses.{RedisLaws}

abbrev same_key : RedisKey → RedisKey → Bool
same_key (block_key c n) (block_key d m) = str_eq c d && (n == m)
same_key (transaction_key c h) (transaction_key d g) = str_eq c d && str_eq h g
same_key (watermark_key c) (watermark_key d) = str_eq c d
same_key _ _ = false

abbrev look_up : RedisKey → List (RedisKey × String) → Outcome QueryError String
look_up k [] = err record_not_found
look_up k ((l, v) ∷ s) = if same_key k l then ok v else look_up k s

abbrev remove : RedisKey → List (RedisKey × String) → List (RedisKey × String)
remove k [] = []
remove k ((l, v) ∷ s) = let rest = remove k s in if same_key k l then rest else (l, v) ∷ rest

abbrev put_all : List (RedisKey × String × ℕ) → List (RedisKey × String) → List (RedisKey × String)
put_all [] s = s
put_all ((k, v, ttl) ∷ kvs) s = put_all kvs ((k, v) ∷ s)

abbrev pub entries : Redis
entries = record {
  State = List (RedisKey × String);
  get = look_up;
  set = λ k v ttl s. (ok tt, (k, v) ∷ s);
  del = λ k s. (ok tt, remove k s);
  exec = λ kvs s. (ok tt, put_all kvs s);
  ping = λ s. ok tt;
  close_client = λ s. (ok tt, s);
}

same_key_refl : (k : RedisKey) → same_key k k ≡ true
same_key_refl (block_key c n) =
    let same_number : (n == n) ≡ true = ground arith in rw (str_eq_refl c, same_number) refl
same_key_refl (transaction_key c h) = rw (str_eq_refl c, str_eq_refl h) refl
same_key_refl (watermark_key c) = str_eq_refl c

pub entries-RedisLaws : RedisLaws entries
entries-RedisLaws = record { get_set = λ k v ttl s done. rw (same_key_refl k) refl }

abbrev pub transfer : TransactionStatus → Transaction
transfer status = record {
  chain_id = "1";
  hash = "0xa";
  block_number = 7;
  block_hash = "";
  from = "";
  to = "";
  value = none;
  gas_price = none;
  status = status;
  index = 0;
  input_data = "";
}

abbrev status_text : TransactionStatus → String
status_text pending = "pending"
status_text confirmed = "confirmed"
status_text finalized = "finalized"
status_text reverted = "reverted"
status_text (other_status s) = s

-- JSON of the transfer, whose status is the text.
abbrev pub transfer_json : Codec Transaction
transfer_json = record {
  marshal = λ tx. ok (status_text tx.status);
  unmarshal = λ s. ok (transfer (if str_eq s "reverted" then reverted else confirmed));
}

abbrev pub no_json : {A : Type 0} → Codec A
no_json = record { marshal = λ a. err "unknown value"; unmarshal = λ s. err "unknown text" }

pub transfer-ReadBack : ReadBack transfer_json (transfer reverted)
transfer-ReadBack s h =
    ap (λ x. ok (transfer (if str_eq x "reverted" then reverted else confirmed)))
      (sym (ok-injective h))

abbrev pub cached : entries.State
cached = (save_transaction entries no_json transfer_json no_json (transfer confirmed) []).1

reads :
    get_transaction entries no_json transfer_json no_json "1" "0xa" cached ≡ ok (transfer confirmed)
unfolding save_transaction get_transaction
reads = refl

updates :
    (update_transaction_status entries no_json transfer_json no_json "1" "0xa" reverted cached).0
    ≡ ok tt
unfolding save_transaction get_transaction update_transaction_status
updates = refl

batches :
    (batch_save_transactions entries no_json transfer_json no_json
      (transfer confirmed ∷ transfer reverted ∷ [])
      []).1
    ≡ (transaction_key "1" "0xa", "reverted") ∷ (transaction_key "1" "0xa", "confirmed") ∷ []
unfolding batch_save_transactions pipeline
batches = refl
