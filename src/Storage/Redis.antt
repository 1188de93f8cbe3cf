-- ===== src/Storage/Redis.antt =====
-- internal/storage/redis.go over a Redis server, which is a parameter. A key is the parts that its
-- text is made of. What Redis cannot answer is an error, and what it does not keep a success.
pub mod Statuses
pub mod Tests
use Prim.Native.String.{◌++◌ as append}
use smart_scanner.Common.{
  ℕ, zero, suc, ◌+◌, ◌-◌, String, Bool, List, [], ◌∷◌, Outcome, ok, err, ◌&&◌, ◌==◌, str_eq, false,
}
use smart_scanner.Common.Actions.{Action}
use smart_scanner.Types.{Block, Transaction, TransactionStatus, Watermark, Log, ReorgEvent}
use smart_scanner.Storage.{Storage}
use smart_scanner.Storage.Database.Table.{QueryError, record_not_found, query_failed}
use smart_scanner.Storage.Database.Models.{Codec}
use smart_scanner.Storage.Database.Blocks.{failed, queried, decoded, mapped}

pub data RedisKey : Type 0 where
  block_key : String → ℕ → RedisKey
  transaction_key : String → String → RedisKey
  watermark_key : String → RedisKey

-- A day in nanoseconds.
abbrev pub day : ℕ
day = 86400000000000

-- The commands that the storage calls; `record_not_found` stands for `redis.Nil`. `exec` sets the keys
-- of a pipeline. A time to live of 0 is none.
pub record Redis : Type 1 where
  pub State : Type 0
  pub get : RedisKey → State → Outcome QueryError String
  pub set : RedisKey → String → (ttl : ℕ) → Action State String (Unit {0})
  pub del : RedisKey → Action State String (Unit {0})
  pub exec : List (RedisKey × String × ℕ) → Action State String (Unit {0})
  pub ping : State → Outcome String (Unit {0})
  pub close_client : Action State String (Unit {0})

module _ (rd : Redis) where
  -- Marshal a value and set its key.
  abbrev pub save_value :
      {A : Type 0}
      → Codec A
      → (unmarshalled unsaved : String) → RedisKey
      → A
      → (ttl : ℕ) → Action rd.State String (Unit {0})
  save_value json unmarshalled unsaved key a ttl s = elim (json.marshal a) [
    | err e ↦ (err (append unmarshalled e), s)
    | ok text ↦ let (r, s') = rd.set key text ttl s in (failed unsaved r, s')
  ]

  abbrev pub read_value :
      {A : Type 0}
      → Codec A
      → (missing ungot unread : String) → RedisKey
      → rd.State
      → Outcome String A
  read_value json missing ungot unread key s =
      decoded unread json.unmarshal (queried missing ungot (rd.get key s))

module _ (rd : Redis) (block_json : Codec Block) (transaction_json : Codec Transaction)
    (watermark_json : Codec Watermark) where
  unfoldable pub save_block : Block → Action rd.State String (Unit {0})
  save_block block =
      save_value rd block_json "failed to marshal block: " "failed to save block to Redis: "
        (block_key block.chain_id block.number) block day

  unfoldable pub get_block : String → ℕ → rd.State → Outcome String Block
  get_block chain_id n =
      read_value rd block_json "block not found in cache" "failed to get block from Redis: "
        "failed to unmarshal block: " (block_key chain_id n)

  -- The loop of `DeleteBlocks` from block `n` on with `left` blocks to go.
  unfoldable pub delete_keys : String → (n left : ℕ) → rd.State → rd.State
  delete_keys chain_id n zero s = s
  delete_keys chain_id n (suc left) s =
      delete_keys chain_id (suc n) left (rd.del (block_key chain_id n) s).1

  -- `to` is below 2^64 - 1, else the loop does not end.
  unfoldable pub delete_blocks : String → (from to : ℕ) → Action rd.State String (Unit {0})
  delete_blocks chain_id from to s = (ok tt, delete_keys chain_id from (suc to - from) s)

  unfoldable pub save_transaction : Transaction → Action rd.State String (Unit {0})
  save_transaction tx =
      save_value rd transaction_json "failed to marshal transaction: "
        "failed to save transaction to Redis: " (transaction_key tx.chain_id tx.hash) tx day

  -- The pipeline: a transaction that is not marshalled is skipped.
  unfoldable pub pipeline : List Transaction → List (RedisKey × String × ℕ)
  pipeline [] = []
  pipeline (tx ∷ txs) =
      let rest = pipeline txs in
      elim (transaction_json.marshal tx) [
        | err e ↦ rest
        | ok text ↦ (transaction_key tx.chain_id tx.hash, text, day) ∷ rest
      ]

  unfoldable pub batch_save_transactions : List Transaction → Action rd.State String (Unit {0})
  batch_save_transactions txs s =
      let (r, s') = rd.exec (pipeline txs) s in (failed "failed to batch save transactions: " r, s')

  unfoldable pub get_transaction : String → String → rd.State → Outcome String Transaction
  get_transaction chain_id hash =
      read_value rd transaction_json "transaction not found in cache"
        "failed to get transaction from Redis: " "failed to unmarshal transaction: "
        (transaction_key chain_id hash)

  unfoldable pub update_transaction_status :
      String → String → TransactionStatus → Action rd.State String (Unit {0})
  update_transaction_status chain_id hash status s = elim (get_transaction chain_id hash s) [
    | err e ↦ (err e, s)
    | ok tx ↦
        save_value rd transaction_json "failed to marshal transaction: "
          "failed to update transaction in Redis: " (transaction_key chain_id hash)
          (record tx { status = status }) day s
  ]

  unfoldable pub save_watermark : Watermark → Action rd.State String (Unit {0})
  save_watermark w =
      save_value rd watermark_json "failed to marshal watermark: "
        "failed to save watermark to Redis: " (watermark_key w.chain_id) w 0

  unfoldable pub get_watermark : String → rd.State → Outcome String Watermark
  get_watermark chain_id =
      read_value rd watermark_json "watermark not found in cache"
        "failed to get watermark from Redis: " "failed to unmarshal watermark: "
        (watermark_key chain_id)

  unfoldable pub redis_storage : Storage
  redis_storage = record {
    State = rd.State;
    save_block = save_block;
    get_block = get_block;
    get_block_by_hash = λ c h s. err "get block by hash not supported in Redis";
    get_latest_block = λ c s. err "get latest block not supported in Redis";
    delete_blocks = delete_blocks;
    save_transaction = save_transaction;
    batch_save_transactions = batch_save_transactions;
    get_transaction = get_transaction;
    get_transactions_by_block = λ c n s. err "get transactions by block not supported in Redis";
    get_transactions_by_address =
        λ c a limit offset s. err "get transactions by address not supported in Redis";
    update_transaction_status = update_transaction_status;
    mark_transactions_as_reverted = λ c from to s. (ok tt, s);
    save_log = λ log s. (ok tt, s);
    batch_save_logs = λ logs s. (ok tt, s);
    get_logs = λ c filter s. err "get logs not supported in Redis";
    delete_logs = λ c from to s. (ok tt, s);
    save_watermark = save_watermark;
    get_watermark = get_watermark;
    update_watermark = λ c w. save_watermark w;
    save_reorg_event = λ event s. (ok tt, s);
    get_reorg_events = λ c limit offset s. err "get reorg events not supported in Redis";
    health_check = rd.ping;
    close = rd.close_client;
  }
