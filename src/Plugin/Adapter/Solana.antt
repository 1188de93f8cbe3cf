-- ===== src/Plugin/Adapter/Solana.antt =====
-- internal/plugin/solana_adapter.go. The client of solana-go is a parameter, and so is the decimal
-- text of a number. A nil block time is a panic, which is an error here.
use Prim.Native.String.{◌++◌ as append}
use smart_scanner.Common.{
  ℕ, zero, suc, String, Bool, Option, none, some, List, [], ◌∷◌, Outcome, ok, err, ◌>>=◌, ◌+◌,
  if◌then◌else◌, wrap, ℤ, pos, str_eq, reject_if, not,
}
use smart_scanner.Types.{Log, ReorgEvent, pending, confirmed, reverted}
use smart_scanner.Plugin.Adapter.{FullTransaction, FullBlock, ChainAdapter, BaseAdapter, detected}

-- What the code reads of a block: its transactions are counted alone.
pub record SolanaBlock : Type 0 where
  pub parent_slot : ℕ
  pub block_hash : String
  pub block_time : Option ℤ
  pub transactions : ℕ

pub record SolanaMeta : Type 0 where
  pub failed : Bool
  pub fee : ℕ
  pub log_messages : List String

pub record SolanaTransaction : Type 0 where
  pub slot : ℕ
  pub meta : Option SolanaMeta

-- A signature is a list of bytes.
abbrev pub Signature : Type 0
Signature = List ℕ

-- The client of the library, and its reader of signatures.
pub record SolanaClient : Type 0 where
  pub signature_from_base58 : String → Outcome String Signature
  pub decimal : ℕ → String
  pub get_block : (slot : ℕ) → Outcome String (Option SolanaBlock)
  pub get_transaction : Signature → Outcome String (Option SolanaTransaction)
  pub get_slot : Outcome String ℕ
  pub get_health : Outcome String String

-- Every transaction of a block becomes an empty one.
unfoldable pub convert_raw_transaction : (chain_id : String) → FullTransaction
convert_raw_transaction chain_id = record {
  transaction = record {
    chain_id = chain_id;
    hash = "";
    block_number = 0;
    block_hash = "";
    from = "";
    to = "";
    value = none;
    gas_price = none;
    status = pending;
    index = 0;
    input_data = "";
  };
  gas_used = 0;
  logs = [];
}

unfoldable pub convert_all : (chain_id : String) → ℕ → List FullTransaction
convert_all chain_id zero = []
convert_all chain_id (suc n) = convert_raw_transaction chain_id ∷ convert_all chain_id n

-- The loop over the messages of a transaction from message `i` on.
unfoldable pub convert_messages : (chain_id tx_hash : String) (slot i : ℕ) → List String → List Log
convert_messages chain_id tx_hash slot i [] = []
convert_messages chain_id tx_hash slot i (message ∷ messages) =
    record {
      chain_id = chain_id;
      tx_hash = tx_hash;
      block_number = slot;
      address = "";
      topics = message ∷ [];
      data_text = "";
      log_index = i;
      tx_index = 0;
    }
    ∷ convert_messages chain_id tx_hash slot (i + 1) messages

module _ (client : SolanaClient) where
  unfoldable pub convert_block : (chain_id : String) → Option SolanaBlock → Outcome String FullBlock
  convert_block chain_id none = err "block is nil"
  convert_block chain_id (some b) = elim b.block_time [
    | none ↦ err "panic: nil block time"
    | some t ↦ ok (record {
      chain_id = chain_id;
      number = b.parent_slot;
      hash = b.block_hash;
      parent_hash = client.decimal b.parent_slot;
      timestamp = t;
      transactions = convert_all chain_id b.transactions;
    })
  ]

  -- The hash of a transaction is made of its slot alone.
  unfoldable pub convert_meta : (chain_id : String) (slot : ℕ) → SolanaMeta → FullTransaction
  convert_meta chain_id slot meta =
      let tx_hash : String = append "solana-tx-" (client.decimal slot) in
      record {
        transaction = record {
          chain_id = chain_id;
          hash = tx_hash;
          block_number = slot;
          block_hash = "";
          from = "";
          to = "";
          value = some (pos 0);
          gas_price = some (pos 0);
          status = if meta.failed then reverted else confirmed;
          index = 0;
          input_data = "";
        };
        gas_used = meta.fee;
        logs = convert_messages chain_id tx_hash slot 0 meta.log_messages;
      }

  unfoldable pub convert_transaction :
      (chain_id : String) → Option SolanaTransaction → Outcome String FullTransaction
  convert_transaction chain_id none = err "transaction or meta is nil"
  convert_transaction chain_id (some tx) = elim tx.meta [
    | none ↦ err "transaction or meta is nil"
    | some meta ↦ ok (convert_meta chain_id tx.slot meta)
  ]

  unfoldable pub get_block : (chain_id : String) → ℕ → Outcome String FullBlock
  get_block chain_id n = do
    b ← wrap (append "failed to get block: ") (client.get_block n)
    convert_block chain_id b

  unfoldable pub get_block_by_hash : String → Outcome String FullBlock
  get_block_by_hash h = do
    signature ← wrap (append "invalid signature: ") (client.signature_from_base58 h)
    tx ← wrap (append "failed to get transaction: ") (client.get_transaction signature)
    err "GetBlockByHash not supported for Solana, use slot number"

  unfoldable pub get_transaction : (chain_id : String) → String → Outcome String FullTransaction
  get_transaction chain_id h = do
    signature ← wrap (append "invalid signature: ") (client.signature_from_base58 h)
    tx ← wrap (append "failed to get transaction: ") (client.get_transaction signature)
    convert_transaction chain_id tx

  unfoldable pub get_latest_height : Outcome String ℕ
  get_latest_height = wrap (append "failed to get latest slot: ") client.get_slot

  unfoldable pub get_finalized_height : Outcome String ℕ
  get_finalized_height = wrap (append "failed to get finalized slot: ") client.get_slot

  unfoldable pub detect_reorg :
      (chain_id : String) (now number : ℕ) (hash : String)
      → Outcome String (Bool × Option ReorgEvent)
  detect_reorg chain_id = detected chain_id (get_block chain_id)

  -- The check of an adapter that has a client.
  unfoldable pub health_check : Outcome String (Unit {0})
  health_check = do
    health ← wrap (append "health check failed: ") client.get_health
    reject_if (not (str_eq health "ok")) (append "node health status: " health)

  unfoldable pub solana_adapter : BaseAdapter → ChainAdapter
  solana_adapter base = record {
    get_chain_id = base.chain_id;
    get_chain_name = base.chain_name;
    get_block = get_block base.chain_id;
    get_block_by_hash = get_block_by_hash;
    get_transaction = get_transaction base.chain_id;
    get_latest_height = get_latest_height;
    get_finalized_height = get_finalized_height;
    detect_reorg = detect_reorg base.chain_id;
    health_check = health_check;
  }
