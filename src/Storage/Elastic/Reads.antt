-- ===== src/Storage/Elastic/Reads.antt =====
-- The reads of internal/storage/elasticsearch.go.
use Prim.Native.String.{◌++◌ as append}
use smart_scanner.Common.{
  ℕ, String, Option, none, some, List, [], ◌∷◌, Outcome, ok, err, ◌>>=◌, ◌==◌, wrap, if◌then◌else◌,
}
use smart_scanner.Types.{Block, Transaction, Log, LogFilter, ReorgEvent, Watermark}
use smart_scanner.Storage.Elastic.{
  Elastic, Document, Hit, Hits, Reply, no_map, no_source, source, match_all, clause, must, should,
  term, term_number, asc, desc, unreachable, refused, answered, blocks_index, transactions_index,
  logs_index, reorg_events_index, number_id, hash_id, settled,
}
use smart_scanner.Storage.Elastic.Documents.{read_block, read_transaction, read_log, read_event}

abbrev pub missing_or : (missing unsent : String) → {A : Type 0} → Reply A → Outcome String A
missing_or missing unsent (unreachable e) = err (append unsent e)
missing_or missing unsent (refused code status) =
    if code == 404 then err missing else err (append "Elasticsearch returned error: " status)
missing_or missing unsent (answered a) = ok a

abbrev pub parse : {A : Type 0} → Outcome String A → Outcome String A
parse answer = wrap (append "failed to parse response: ") answer

abbrev pub present : {A : Type 0} → (absent : String) → Option A → Outcome String A
present absent none = err absent
present absent (some a) = ok a

-- The source of the first hit, as `GetBlockByHash` and `GetLatestBlock` look for it.
abbrev pub hit_source : Hit → Outcome String Document
hit_source no_map = err "invalid hit format"
hit_source no_source = err "invalid source data format"
hit_source (source d) = ok d

abbrev pub first_of : List Hit → Outcome String Document
first_of [] = err "no hits found"
first_of (h ∷ hs) = hit_source h

abbrev pub counted : (missing : String) → Option ℕ → Outcome String (Unit {0})
counted missing none = err missing
counted missing (some n) = if n == 0 then err missing else ok tt

abbrev pub listed : Option (List Hit) → List Hit
listed none = []
listed (some l) = l

unfoldable pub first_hit : (missing : String) → Option Hits → Outcome String Document
first_hit missing body = do
  hits ← present "invalid hits format" body
  total ← present "invalid total format" hits.total
  u ← counted missing total
  first_of (listed hits.hits)

-- The loop over the hits: one that is not read is skipped.
abbrev pub read_hit : {A : Type 0} → (Document → Outcome String A) → Hit → List A → List A
read_hit read no_map rest = rest
read_hit read no_source rest = rest
read_hit read (source d) rest = elim (read d) [ ok a ↦ a ∷ rest | err e ↦ rest ]

abbrev pub read_hits : {A : Type 0} → (Document → Outcome String A) → List Hit → List A
read_hits read [] = []
read_hits read (h ∷ hs) = read_hit read h (read_hits read hs)

abbrev pub all_hits :
    {A : Type 0} → (Document → Outcome String A) → Option Hits → Outcome String (List A)
all_hits read body = do
  hits ← present "invalid hits format" body
  list ← present "invalid hits list format" hits.hits
  ok (read_hits read list)

module _ (server : Elastic) where
  unfoldable pub get_block : String → ℕ → server.State → Outcome String Block
  get_block chain_id n s = do
    answer ←
        missing_or "block not found" "failed to get block: "
          (server.get (blocks_index chain_id) (number_id n) s)
    body ← parse answer
    d ← present "invalid source data format" body
    wrap (append "failed to unmarshal block: ") (read_block d)

  unfoldable pub get_block_by_hash : String → String → server.State → Outcome String Block
  get_block_by_hash chain_id hash s = do
    answer ← settled "failed to search block: " (
        server.search (blocks_index chain_id)
          (record { query = clause (term "block_hash" hash); sort = []; from = 0; size = none }) s)
    body ← parse answer
    d ← first_hit "block not found" body
    wrap (append "failed to unmarshal block: ") (read_block d)

  unfoldable pub get_latest_block : String → server.State → Outcome String Block
  get_latest_block chain_id s = do
    answer ← settled "failed to search latest block: " (
        server.search (blocks_index chain_id)
          (record { query = match_all; sort = desc "block_number" ∷ []; from = 0; size = some 1 })
          s)
    body ← parse answer
    d ← first_hit "no blocks found" body
    wrap (append "failed to unmarshal block: ") (read_block d)

  unfoldable pub get_transaction : String → String → server.State → Outcome String Transaction
  get_transaction chain_id hash s = do
    answer ←
        missing_or "transaction not found" "failed to get transaction: "
          (server.get (transactions_index chain_id) (hash_id hash) s)
    body ← parse answer
    d ← present "invalid source data format" body
    wrap (append "failed to unmarshal transaction: ") (read_transaction d)

  unfoldable pub get_transactions_by_block :
      String → ℕ → server.State → Outcome String (List Transaction)
  get_transactions_by_block chain_id n s = do
    answer ← settled "failed to search transactions: " (
        server.search (transactions_index chain_id)
          (record {
            query = clause (term_number "block_number" n);
            sort = asc "index" ∷ [];
            from = 0;
            size = some 10000;
          })
          s)
    body ← parse answer
    all_hits read_transaction body

  unfoldable pub get_transactions_by_address :
      String → String → (limit offset : ℕ) → server.State → Outcome String (List Transaction)
  get_transactions_by_address chain_id address limit offset s = do
    answer ← settled "failed to search transactions by address: " (
        server.search (transactions_index chain_id)
          (record {
            query = should (term "from" address ∷ term "to" address ∷ []);
            sort = desc "block_number" ∷ [];
            from = offset;
            size = some limit;
          })
          s)
    body ← parse answer
    all_hits read_transaction body

  -- The code appends the filter's conditions to a copy of the query's empty list `must` and does not put
  -- the longer list back, so the query that is sent has none of them.
  unfoldable pub get_logs : String → LogFilter → server.State → Outcome String (List Log)
  get_logs chain_id filter s = do
    answer ← settled "failed to search logs: " (
        server.search (logs_index chain_id)
          (record {
            query = must [];
            sort = asc "block_number" ∷ asc "log_index" ∷ [];
            from = filter.offset;
            size = some filter.limit;
          })
          s)
    body ← parse answer
    all_hits read_log body

  unfoldable pub get_watermark : String → server.State → Outcome String Watermark
  get_watermark chain_id s = err "get watermark not supported in Elasticsearch"

  unfoldable pub get_reorg_events :
      String → (limit offset : ℕ) → server.State → Outcome String (List ReorgEvent)
  get_reorg_events chain_id limit offset s = do
    answer ← settled "failed to search reorg events: " (
        server.search reorg_events_index
          (record {
            query = clause (term "chain_id" chain_id);
            sort = desc "detected_at" ∷ [];
            from = offset;
            size = some limit;
          })
          s)
    body ← parse answer
    all_hits read_event body

  unfoldable pub health_check : server.State → Outcome String (Unit {0})
  health_check s = settled "failed to check Elasticsearch health: " (server.cluster_health s)
