-- ===== src/Storage/Manager.antt =====
-- The storage manager of internal/storage/storage.go: writes to the master first, then to the cache
-- and the index, whose failures are only logged; reads from the cache first, then from the slave. A
-- cache or an index that is not configured has a flag that is off. A cache comes with its settings.
pub mod Cached
mod Tests
use Prim.Native.String.{◌++◌ as append}
use smart_scanner.Common.{
  ℕ, String, Bool, ◌&&◌, List, [], ◌∷◌, Outcome, ok, err, if◌then◌else◌, ◌>>=◌, ◌>>◌,
}
use smart_scanner.Common.Actions.{Action}
use smart_scanner.Types.{Block, Transaction}
use smart_scanner.Storage.{Storage}
use smart_scanner.Storage.Database.Blocks.{failed}

-- Without a slave the master is read. A slave is read as it stands, however far behind it is.
pub data Slave (master : Storage) : Type 1 where
  same : Slave master
  replica : (st : Storage) → st.State → Slave master

pub record StorageConfig : Type 0 where
  pub has_redis : Bool
  pub cache_enabled : Bool
  pub has_elasticsearch : Bool

module _ (config : StorageConfig) (master redis elasticsearch : Storage)
    (slave : Slave master) where
  pub record Stores : Type 0 where
    pub in_master : master.State
    pub in_redis : redis.State
    pub in_elasticsearch : elasticsearch.State

  abbrev pub caches : Bool
  caches = config.has_redis && config.cache_enabled

  -- The state behind a write whose error is only logged.
  abbrev pub behind : {S : Type 0} → Bool → Action S String (Unit {0}) → S → S
  behind used write s = if used then (write s).1 else s

  -- `SaveBlock` and `SaveTransaction`: one write to each store, the master's first.
  abbrev pub write_through :
      (prefix : String)
      → Action master.State String (Unit {0})
      → (redis.State → redis.State)
      → (elasticsearch.State → elasticsearch.State)
      → Action Stores String (Unit {0})
  write_through prefix to_master to_redis to_elasticsearch s =
      let (r, m) = to_master s.in_master in
      elim r [
        | err e ↦ (err (append prefix e), record s { in_master = m })
        | ok u ↦ (
          ok tt,
          record {
            in_master = m;
            in_redis = to_redis s.in_redis;
            in_elasticsearch = to_elasticsearch s.in_elasticsearch;
          },
        )
      ]

  unfoldable pub save_block : Block → Action Stores String (Unit {0})
  save_block block =
      write_through "failed to save block to master: " (master.save_block block)
        (behind caches (redis.save_block block))
        (behind config.has_elasticsearch (elasticsearch.save_block block))

  unfoldable pub save_transaction : Transaction → Action Stores String (Unit {0})
  save_transaction tx =
      write_through "failed to save transaction to master: " (master.save_transaction tx)
        (behind caches (redis.save_transaction tx))
        (behind config.has_elasticsearch (elasticsearch.save_transaction tx))

  -- The loops over a batch, whose errors are only logged.
  unfoldable pub save_all : (st : Storage) → List Transaction → st.State → st.State
  save_all st [] s = s
  save_all st (tx ∷ txs) s = save_all st txs (st.save_transaction tx s).1

  unfoldable pub batch_save_transactions : List Transaction → Action Stores String (Unit {0})
  batch_save_transactions txs =
      write_through "failed to batch save transactions to master: "
        (master.batch_save_transactions txs) (λ s. if caches then save_all redis txs s else s)
        (λ s. if config.has_elasticsearch then save_all elasticsearch txs s else s)

  abbrev pub read_slave :
      {A : Type 0}
      → ((st : Storage) → st.State → Outcome String A)
      → Slave master
      → Stores
      → Outcome String A
  read_slave read same s = read master s.in_master
  read_slave read (replica st shown) s = read st shown

  -- A read from the cache that succeeds is the result.
  abbrev pub cache_first :
      {A : Type 0}
      → (prefix : String) → ((st : Storage) → st.State → Outcome String A)
      → Stores
      → Outcome String A
  cache_first prefix read s =
      let from_slave = failed prefix (read_slave read slave s) in
      if caches
      then elim (read redis s.in_redis) [ ok a ↦ ok a | err e ↦ from_slave ]
      else from_slave

  unfoldable pub get_block : String → ℕ → Stores → Outcome String Block
  get_block chain_id n =
      cache_first "failed to get block from slave: " (λ st. st.get_block chain_id n)

  unfoldable pub get_transaction : String → String → Stores → Outcome String Transaction
  get_transaction chain_id hash =
      cache_first "failed to get transaction from slave: " (λ st. st.get_transaction chain_id hash)

  -- The cache and the index are left alone.
  unfoldable pub mark_transactions_as_reverted :
      String → (from to : ℕ) → Action Stores String (Unit {0})
  mark_transactions_as_reverted chain_id from to s =
      let (r, m) = master.mark_transactions_as_reverted chain_id from to s.in_master in
      (failed "failed to mark transactions as reverted: " r, record s { in_master = m })

  abbrev pub slave_health : Slave master → Outcome String (Unit {0})
  slave_health same = ok tt
  slave_health (replica st shown) = st.health_check shown

  unfoldable pub health_check : Stores → Outcome String (Unit {0})
  health_check s = do
    failed "master database health check failed: " (master.health_check s.in_master)
    failed "slave database health check failed: " (slave_health slave)
    if config.has_redis
        then failed "redis health check failed: " (redis.health_check s.in_redis)
        else ok tt
    if config.has_elasticsearch
        then failed "elasticsearch health check failed: "
            (elasticsearch.health_check s.in_elasticsearch)
        else ok tt

  -- The last error of the closed stores.
  abbrev pub last_error :
      Outcome String (Unit {0}) → Outcome String (Unit {0}) → Outcome String (Unit {0})
  last_error before (ok u) = before
  last_error before (err e) = err e

  abbrev pub close_slave : Slave master → Outcome String (Unit {0})
  close_slave same = ok tt
  close_slave (replica st shown) = (st.close shown).0

  unfoldable pub close : Action Stores String (Unit {0})
  close s =
      let (m, in_master) = master.close s.in_master in
      let (r, in_redis) =
        (if config.has_redis then redis.close s.in_redis else (ok tt, s.in_redis)) in
      let (e, in_elasticsearch) =
        (if config.has_elasticsearch
          then elasticsearch.close s.in_elasticsearch
          else (ok tt, s.in_elasticsearch)) in
      (
        last_error (last_error (last_error m (close_slave slave)) r) e,
        record { in_master = in_master; in_redis = in_redis; in_elasticsearch = in_elasticsearch },
      )
