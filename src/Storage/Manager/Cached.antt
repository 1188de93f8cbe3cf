-- ===== src/Storage/Manager/Cached.antt =====
-- The storage manager of internal/storage/storage.go with a cache.
use smart_scanner.Common.{
  ℕ, String, ◌≡◌, inl, inr, refl, sym, ap, ◌∙◌, true, false, ok, is_ok, Outcome-cases,
}
use mathlib.Core.Bool.{true≢false}
use smart_scanner.Types.{Block, Transaction, Watermark}
use smart_scanner.Storage.{Storage}
use smart_scanner.Storage.Database.Models.{Codec, ReadBack}
use smart_scanner.Storage.Redis.{Redis, redis_storage}
use smart_scanner.Storage.Redis.Statuses.{RedisLaws, get_transaction-saved}
use smart_scanner.Storage.Manager.{
  Slave, StorageConfig, Stores, caches, write_through, get_transaction,
  mark_transactions_as_reverted, save_transaction,
}

module _ (config : StorageConfig) (master redis elasticsearch : Storage)
    (slave : Slave master) where
  get_transaction-hit :
      (c h : String) (s : Stores config master redis elasticsearch slave) (t : Transaction)
      → caches config master redis elasticsearch slave ≡ true
      → redis.get_transaction c h s.in_redis ≡ ok t
      → get_transaction config master redis elasticsearch slave c h s ≡ ok t
  unfolding get_transaction
  get_transaction-hit c h s t used hit = rw (used, hit) refl

  -- While a transaction is cached, it is read as it was cached, whatever blocks the manager has
  -- marked as reverted since, and whether or not the master did.
  pub get_transaction-stale :
      (chain_id : String) (from to : ℕ) (c h : String)
      (s : Stores config master redis elasticsearch slave) (t : Transaction)
      → caches config master redis elasticsearch slave ≡ true
      → redis.get_transaction c h s.in_redis ≡ ok t
      → get_transaction config master redis elasticsearch slave c h
          (mark_transactions_as_reverted config master redis elasticsearch slave chain_id from to
            s).1
        ≡ ok t
  unfolding mark_transactions_as_reverted
  get_transaction-stale chain_id from to c h s = get_transaction-hit c h _

-- A transaction that was saved through the manager is read back from it, where the cache is Redis
-- and meets its laws, the writes to the master and to the cache succeeded, and the transaction's
-- JSON is read back.
pub get_transaction-through :
    (config : StorageConfig) (master elasticsearch : Storage) (slave : Slave master) (rd : Redis)
    (laws : RedisLaws rd) (block_json : Codec Block) (json : Codec Transaction)
    (watermark_json : Codec Watermark)
    → let redis = redis_storage rd block_json json watermark_json in
      (tx : Transaction) (s : Stores config master redis elasticsearch slave)
      → caches config master redis elasticsearch slave ≡ true
      → ReadBack json tx
      → (redis.save_transaction tx s.in_redis).0 ≡ ok tt
      → (save_transaction config master redis elasticsearch slave tx s).0 ≡ ok tt
      → get_transaction config master redis elasticsearch slave tx.chain_id tx.hash
          (save_transaction config master redis elasticsearch slave tx s).1
        ≡ ok tx
unfolding save_transaction redis_storage
get_transaction-through config master elasticsearch slave rd laws block_json json watermark_json tx
      s used back cached done =
    let redis = redis_storage rd block_json json watermark_json in
    let w = master.save_transaction tx s.in_master in
    let saved = save_transaction config master redis elasticsearch slave tx s in
    elim (Outcome-cases w.0) [
      | inl (u, m) ↦
          let cache : saved.1.in_redis ≡ (redis.save_transaction tx s.in_redis).1 =
            rw (m, write_through, used) refl in
          get_transaction-hit config master redis elasticsearch slave tx.chain_id tx.hash saved.1 tx
            used
            (ap (redis.get_transaction tx.chain_id tx.hash) cache
              ∙ get_transaction-saved rd laws json block_json watermark_json tx s.in_redis back
                  cached)
      | inr (e, m) ↦
          let unsaved : is_ok saved.0 ≡ false = rw (m, write_through) refl in
          absurd (true≢false (sym (ap is_ok done) ∙ unsaved))
    ]
