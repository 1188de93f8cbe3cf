-- ===== src/Plugin/Adapter/Evm.antt =====
-- internal/plugin/evm_adapter.go. The client of go-ethereum is a parameter, with its types of hashes,
-- addresses and bytes and their texts.
use Prim.Native.String.{◌++◌ as append}
use smart_scanner.Common.{
  ℕ, String, Bool, Option, none, some, List, [], ◌∷◌, map, Outcome, ok, err, ◌>>=◌, ◌+◌, ◌%◌, ◌==◌,
  if◌then◌else◌, wrap, u64_mod, ℤ, pos,
}
use smart_scanner.Types.{TransactionStatus, Log, ReorgEvent, confirmed, reverted}
use smart_scanner.Parser.EvmParser.{low_int64}
use smart_scanner.Plugin.Adapter.{
  FullTransaction, FullBlock, ChainAdapter, BaseAdapter, AdapterConfig, behind, detected,
}

pub record EthTypes : Type 1 where
  pub Hash : Type 0
  pub Address : Type 0
  pub Bytes : Type 0
  pub hash_hex : Hash → String
  pub address_hex : Address → String
  pub hex_to_hash : String → Hash
  pub encode : Bytes → String
  pub decode_uint64 : String → Outcome String ℕ
  pub decode_big : String → Outcome String ℤ

module _ (eth : EthTypes) where
  open eth use {
    Hash, Address, Bytes, hash_hex, address_hex, hex_to_hash, encode, decode_uint64, decode_big,
  }

  pub record EthLog : Type 0 where
    pub address : Address
    pub topics : List Hash
    pub log_data : Bytes

  pub record EthTransaction : Type 0 where
    pub hash : Hash
    pub to : Option Address
    pub value : ℤ
    pub gas_price : ℤ
    pub input : Bytes

  -- Numbers are big integers, which are not negative.
  pub record EthReceipt : Type 0 where
    pub status : ℕ
    pub block_hash : Hash
    pub block_number : ℕ
    pub gas_used : ℕ
    pub transaction_index : ℕ
    pub logs : List EthLog

  pub record EthBlock : Type 0 where
    pub number : ℕ
    pub hash : Hash
    pub parent_hash : Hash
    pub time : ℕ
    pub transactions : List EthTransaction

  -- The client. A receipt that comes without an error is not nil.
  pub record EthClient : Type 0 where
    pub chain_id : Outcome String ℕ
    pub block_by_number : ℕ → Outcome String EthBlock
    pub block_by_hash : Hash → Outcome String EthBlock
    pub transaction_by_hash : Hash → Outcome String EthTransaction
    pub transaction_receipt : Hash → Outcome String EthReceipt
    pub latest_header : Outcome String ℕ

  -- `BaseAdapter`, the configuration, and the client once there is one.
  pub record EvmAdapter : Type 0 where
    pub base : BaseAdapter
    pub config : AdapterConfig
    pub client : Option EthClient

  abbrev pub receipt_status : EthReceipt → TransactionStatus
  receipt_status r = if r.status == 1 then confirmed else reverted

  unfoldable pub convert_block : (chain_id : String) → EthBlock → FullBlock
  convert_block chain_id b = record {
    chain_id = chain_id;
    number = b.number % u64_mod;
    hash = hash_hex b.hash;
    parent_hash = hash_hex b.parent_hash;
    timestamp = low_int64 (pos b.time);
    transactions = [];
  }

  unfoldable pub convert_transaction :
      (chain_id : String) → EthTransaction → EthReceipt → FullTransaction
  convert_transaction chain_id tx r = record {
    transaction = record {
      chain_id = chain_id;
      hash = hash_hex tx.hash;
      block_number = r.block_number % u64_mod;
      block_hash = hash_hex r.block_hash;
      from = "";
      to = "";
      value = some tx.value;
      gas_price = some tx.gas_price;
      status = receipt_status r;
      index = r.transaction_index;
      input_data = "";
    };
    gas_used = r.gas_used;
    logs = [];
  }

  unfoldable pub convert_raw_log :
      (chain_id : String) → EthLog → (tx_hash : String) (block_number log_index tx_index : ℕ) → Log
  convert_raw_log chain_id log tx_hash block_number log_index tx_index = record {
    chain_id = chain_id;
    tx_hash = tx_hash;
    block_number = block_number;
    address = address_hex log.address;
    topics = map hash_hex log.topics;
    data_text = encode log.log_data;
    log_index = log_index;
    tx_index = tx_index;
  }

  -- The loop over the logs of a receipt from log `i` on.
  unfoldable pub convert_raw_logs :
      (chain_id tx_hash : String) (block_number tx_index i : ℕ) → List EthLog → List Log
  convert_raw_logs chain_id tx_hash block_number tx_index i [] = []
  convert_raw_logs chain_id tx_hash block_number tx_index i (log ∷ logs) =
      convert_raw_log chain_id log tx_hash block_number i tx_index
      ∷ convert_raw_logs chain_id tx_hash block_number tx_index (i + 1) logs

  abbrev pub to_text : Option Address → String
  to_text none = ""
  to_text (some a) = address_hex a

  unfoldable pub convert_raw_transaction :
      (chain_id : String)
      → EthTransaction
      → EthReceipt
      → (block_number tx_index : ℕ) → FullTransaction
  convert_raw_transaction chain_id tx r block_number tx_index = record {
    transaction = record {
      chain_id = chain_id;
      hash = hash_hex tx.hash;
      block_number = block_number;
      block_hash = "";
      from = "";
      to = to_text tx.to;
      value = some tx.value;
      gas_price = some tx.gas_price;
      status = receipt_status r;
      index = tx_index;
      input_data = encode tx.input;
    };
    gas_used = r.gas_used;
    logs = convert_raw_logs chain_id (hash_hex tx.hash) block_number tx_index 0 r.logs;
  }

  module _ (client : EthClient) where
    unfoldable pub get_block : (chain_id : String) → ℕ → Outcome String FullBlock
    get_block chain_id n = do
      b ← wrap (append "failed to get block: ") (client.block_by_number n)
      ok (convert_block chain_id b)

    unfoldable pub get_block_by_hash : (chain_id : String) → String → Outcome String FullBlock
    get_block_by_hash chain_id h = do
      b ← wrap (append "failed to get block by hash: ") (client.block_by_hash (hex_to_hash h))
      ok (convert_block chain_id b)

    unfoldable pub get_transaction : (chain_id : String) → String → Outcome String FullTransaction
    get_transaction chain_id h = do
      tx ← wrap (append "failed to get transaction: ") (client.transaction_by_hash (hex_to_hash h))
      r ←
          wrap (append "failed to get transaction receipt: ")
            (client.transaction_receipt (hex_to_hash h))
      ok (convert_transaction chain_id tx r)

    unfoldable pub get_latest_height : Outcome String ℕ
    get_latest_height = do
      n ← wrap (append "failed to get latest header: ") client.latest_header
      ok (n % u64_mod)

    unfoldable pub get_finalized_height : AdapterConfig → Outcome String ℕ
    get_finalized_height config = do latest ← get_latest_height; ok (behind config.finality latest)

    unfoldable pub detect_reorg :
        (chain_id : String) (now number : ℕ) (hash : String)
        → Outcome String (Bool × Option ReorgEvent)
    detect_reorg chain_id = detected chain_id (get_block chain_id)

    -- The loop over the transactions of a block from transaction `i` on, up to the first receipt that
    -- is not there.
    unfoldable pub convert_all :
        (chain_id : String) (number i : ℕ)
        → List EthTransaction
        → Outcome String (List FullTransaction)
    convert_all chain_id number i [] = ok []
    convert_all chain_id number i (tx ∷ txs) =
        let more = convert_all chain_id number (i + 1) txs in
        elim (client.transaction_receipt tx.hash) [
          | err e ↦
              err
                (append "failed to get receipt for tx " (append (hash_hex tx.hash) (append ": " e)))
          | ok r ↦ more >>= λ rest. ok (convert_raw_transaction chain_id tx r number i ∷ rest)
        ]

    unfoldable pub get_block_with_transactions : (chain_id : String) → ℕ → Outcome String FullBlock
    get_block_with_transactions chain_id n = do
      b ← wrap (append "failed to get block: ") (client.block_by_number n)
      txs ← convert_all chain_id (b.number % u64_mod) 0 b.transactions
      ok (record (convert_block chain_id b) { transactions = txs })

  unfoldable pub health_check : Option EthClient → Outcome String (Unit {0})
  health_check none = err "client not initialized"
  health_check (some client) = do
    n ← wrap (append "health check failed: ") client.latest_header
    ok tt

  -- The adapter that a client was connected to; without one, its methods panic.
  unfoldable pub evm_adapter : BaseAdapter → AdapterConfig → EthClient → ChainAdapter
  evm_adapter base config client = record {
    get_chain_id = base.chain_id;
    get_chain_name = base.chain_name;
    get_block = get_block client base.chain_id;
    get_block_by_hash = get_block_by_hash client base.chain_id;
    get_transaction = get_transaction client base.chain_id;
    get_latest_height = get_latest_height client;
    get_finalized_height = get_finalized_height client config;
    detect_reorg = detect_reorg client base.chain_id;
    health_check = health_check (some client);
  }
