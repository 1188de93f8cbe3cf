-- ===== src/Plugin/Adapter/Tron.antt =====
-- internal/plugin/tron_adapter.go. The HTTP client is the stub that the code has; the time is an
-- argument, in seconds.
use Prim.Native.String.{◌++◌ as append}
use smart_scanner.Common.{
  ℕ, suc, String, Bool, true, Option, none, some, List, [], ◌∷◌, Outcome, ok, err, ◌>>=◌, ◌+◌, ◌*◌,
  ◌/◌, if◌then◌else◌, wrap, ℤ, pos, negsuc, neg_ℕ, str_eq,
}
use smart_scanner.Types.{Log, ReorgEvent, confirmed, reverted}
use smart_scanner.Plugin.Adapter.{
  FullTransaction, FullBlock, ChainAdapter, BaseAdapter, AdapterConfig, behind, detected,
}

pub record TronLog : Type 0 where
  pub address : String
  pub topics : List String
  pub data_text : String

pub record TronTransaction : Type 0 where
  pub tx_id : String
  pub block_number : ℕ
  pub block_hash : String
  pub from_address : String
  pub to_address : String
  pub value : Option ℤ
  pub gas_price : Option ℤ
  pub gas_used : ℕ
  pub succeeded : Bool
  pub contract_data : String
  pub logs : List TronLog

-- A nil transaction in the list is none.
pub record TronBlock : Type 0 where
  pub block_id : String
  pub block_number : ℕ
  pub parent_hash : String
  pub timestamp : ℤ
  pub transactions : List (Option TronTransaction)

-- A nil block or transaction without an error is none.
pub record TronClient : Type 0 where
  pub get_block : ℕ → Outcome String (Option TronBlock)
  pub get_block_by_hash : String → Outcome String (Option TronBlock)
  pub get_transaction : String → Outcome String (Option TronTransaction)
  pub get_latest_height : Outcome String ℕ
  pub get_now_block : Outcome String (Option TronBlock)

-- Milliseconds as seconds, towards zero.
abbrev pub seconds : ℤ → ℤ
seconds (pos n) = pos (n / 1000)
seconds (negsuc n) = neg_ℕ (suc n / 1000)

unfoldable pub convert_log :
    (chain_id : String) → TronLog → (tx_hash : String) (block_number log_index : ℕ) → Log
convert_log chain_id log tx_hash block_number log_index = record {
  chain_id = chain_id;
  tx_hash = tx_hash;
  block_number = block_number;
  address = log.address;
  topics = log.topics;
  data_text = log.data_text;
  log_index = log_index;
  tx_index = 0;
}

-- The loop over the logs of a transaction from log `i` on.
unfoldable pub convert_logs :
    (chain_id tx_hash : String) (block_number i : ℕ) → List TronLog → List Log
convert_logs chain_id tx_hash block_number i [] = []
convert_logs chain_id tx_hash block_number i (log ∷ logs) =
    convert_log chain_id log tx_hash block_number i
    ∷ convert_logs chain_id tx_hash block_number (i + 1) logs

unfoldable pub convert_transaction :
    (chain_id : String) → Option TronTransaction → Outcome String FullTransaction
convert_transaction chain_id none = err "transaction is nil"
convert_transaction chain_id (some tx) = ok (record {
  transaction = record {
    chain_id = chain_id;
    hash = tx.tx_id;
    block_number = tx.block_number;
    block_hash = tx.block_hash;
    from = tx.from_address;
    to = tx.to_address;
    value = tx.value;
    gas_price = tx.gas_price;
    status = if tx.succeeded then confirmed else reverted;
    index = 0;
    input_data = tx.contract_data;
  };
  gas_used = tx.gas_used;
  logs = convert_logs chain_id tx.tx_id tx.block_number 0 tx.logs;
})

-- The loop over the transactions of a block, up to the first that is nil.
unfoldable pub convert_all :
    (chain_id : String) → List (Option TronTransaction) → Outcome String (List FullTransaction)
convert_all chain_id [] = ok []
convert_all chain_id (tx ∷ txs) = do
  t ← wrap (append "failed to convert transaction: ") (convert_transaction chain_id tx)
  rest ← convert_all chain_id txs
  ok (t ∷ rest)

unfoldable pub convert_block : (chain_id : String) → Option TronBlock → Outcome String FullBlock
convert_block chain_id none = err "block is nil"
convert_block chain_id (some b) = do
  txs ← convert_all chain_id b.transactions
  ok (record {
    chain_id = chain_id;
    number = b.block_number;
    hash = b.block_id;
    parent_hash = b.parent_hash;
    timestamp = seconds b.timestamp;
    transactions = txs;
  })

module _ (client : TronClient) where
  unfoldable pub get_block : (chain_id : String) → ℕ → Outcome String FullBlock
  get_block chain_id n = do
    b ← wrap (append "failed to get block: ") (client.get_block n)
    convert_block chain_id b

  unfoldable pub get_block_by_hash : (chain_id : String) → String → Outcome String FullBlock
  get_block_by_hash chain_id h = do
    b ← wrap (append "failed to get block by hash: ") (client.get_block_by_hash h)
    convert_block chain_id b

  unfoldable pub get_transaction : (chain_id : String) → String → Outcome String FullTransaction
  get_transaction chain_id h = do
    tx ← wrap (append "failed to get transaction: ") (client.get_transaction h)
    convert_transaction chain_id tx

  unfoldable pub get_finalized_height : AdapterConfig → Outcome String ℕ
  get_finalized_height config = do
    latest ← client.get_latest_height
    ok (behind config.finality latest)

  unfoldable pub detect_reorg :
      (chain_id : String) (now number : ℕ) (hash : String)
      → Outcome String (Bool × Option ReorgEvent)
  detect_reorg chain_id = detected chain_id (get_block chain_id)

unfoldable pub health_check : Option TronClient → Outcome String (Unit {0})
health_check none = err "client not initialized"
health_check (some client) = do
  n ← wrap (append "health check failed: ") client.get_latest_height
  ok tt

unfoldable pub tron_adapter : BaseAdapter → AdapterConfig → TronClient → ChainAdapter
tron_adapter base config client = record {
  get_chain_id = base.chain_id;
  get_chain_name = base.chain_name;
  get_block = get_block client base.chain_id;
  get_block_by_hash = get_block_by_hash client base.chain_id;
  get_transaction = get_transaction client base.chain_id;
  get_latest_height = client.get_latest_height;
  get_finalized_height = get_finalized_height client config;
  detect_reorg = detect_reorg client base.chain_id;
  health_check = health_check (some client);
}

-- The blocks of the HTTP client have no hash.
abbrev pub empty_block : (block_id : String) (block_number now : ℕ) → TronBlock
empty_block block_id block_number now = record {
  block_id = block_id;
  block_number = block_number;
  parent_hash = "";
  timestamp = pos (now * 1000);
  transactions = [];
}

abbrev pub empty_transaction : String → TronTransaction
empty_transaction h = record {
  tx_id = h;
  block_number = 0;
  block_hash = "";
  from_address = "";
  to_address = "";
  value = some (pos 0);
  gas_price = some (pos 0);
  gas_used = 0;
  succeeded = true;
  contract_data = "";
  logs = [];
}

unfoldable pub new_tron_http_client : (now : ℕ) → (rpc_url : String) → Outcome String TronClient
new_tron_http_client now rpc_url =
    if str_eq rpc_url ""
    then err "RPC URL cannot be empty"
    else ok (record {
      get_block = λ n. ok (some (empty_block "" n now));
      get_block_by_hash = λ h. ok (some (empty_block h 0 now));
      get_transaction = λ h. ok (some (empty_transaction h));
      get_latest_height = ok 0;
      get_now_block = ok (some (empty_block "" 0 now));
    })
