-- ===== src/Storage/Manager/Tests.antt =====
-- A manager of a storage in memory and a cache of lists, and runs on it.
use smart_scanner.Common.{◌≡◌, refl, true, false, [], ok}
use smart_scanner.Types.{confirmed, reverted}
use smart_scanner.Storage.{Storage}
use smart_scanner.Storage.Memory.{memory}
use smart_scanner.Storage.Redis.{redis_storage}
use smart_scanner.Storage.Redis.Tests.{
  entries, entries-RedisLaws, transfer, transfer_json, no_json, transfer-ReadBack,
}
use smart_scanner.Storage.Manager.{same, StorageConfig, Stores, get_transaction, save_transaction}
use smart_scanner.Storage.Manager.Cached.{get_transaction-through}

abbrev config : StorageConfig
config = record { has_redis = true; cache_enabled = true; has_elasticsearch = false }

abbrev cache : Storage
cache = redis_storage entries no_json transfer_json no_json

abbrev empty : Stores config memory cache memory same
unfolding redis_storage
empty = record {
  in_master = record { blocks = []; transactions = []; events = []; logs = []; watermarks = [] };
  in_redis = [];
  in_elasticsearch = record {
    blocks = [];
    transactions = [];
    events = [];
    logs = [];
    watermarks = [];
  };
}

cached : (cache.save_transaction (transfer reverted) empty.in_redis).0 ≡ ok tt
unfolding redis_storage smart_scanner.Storage.Redis.save_transaction
cached = refl

saved : (save_transaction config memory cache memory same (transfer reverted) empty).0 ≡ ok tt
unfolding save_transaction
saved = refl

get_transaction-through_example :
    get_transaction config memory cache memory same "1" "0xa"
      (save_transaction config memory cache memory same (transfer reverted) empty).1
    ≡ ok (transfer reverted)
unfolding redis_storage
get_transaction-through_example =
    get_transaction-through config memory memory same entries entries-RedisLaws no_json
      transfer_json no_json (transfer reverted) empty refl transfer-ReadBack cached saved

reads :
    cache.get_transaction "1" "0xa"
      (save_transaction config memory cache memory same (transfer confirmed) empty).1.in_redis
    ≡ ok (transfer confirmed)
unfolding redis_storage save_transaction smart_scanner.Storage.Redis.save_transaction
    smart_scanner.Storage.Redis.get_transaction
reads = refl
