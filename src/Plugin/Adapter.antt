-- ===== src/Plugin/Adapter.antt =====
-- internal/plugin/adapter.go: the interface of the chain adapters, and what the adapters of the three
-- chains share. An error is its text. The client of a chain's library is a parameter, and the same
-- request gets the same answer.
pub mod Evm
pub mod Raw
pub mod Tron
pub mod Solana
pub mod Factories
pub mod Reorgs
pub mod Numbered
pub mod Created
mod Tests
use Prim.Native.String.{◌++◌ as append}
use smart_scanner.Common.{
  ℕ, String, Bool, true, false, not, Option, none, some, List, [], ◌∷◌, Outcome, ok, err, ◌>>=◌,
  ◌>>◌, ◌-◌, ◌==◌, reject_if, if◌then◌else◌, wrap, ltb, str_eq, ℤ,
}
use smart_scanner.Types.{Transaction, Log, ReorgEvent}

-- `types.Transaction` with the gas and the logs, and `types.Block` with such transactions.
pub record FullTransaction : Type 0 where
  pub transaction : Transaction
  pub gas_used : ℕ
  pub logs : List Log

pub record FullBlock : Type 0 where
  pub chain_id : String
  pub number : ℕ
  pub hash : String
  pub parent_hash : String
  pub timestamp : ℤ
  pub transactions : List FullTransaction

-- The methods of `ChainAdapter` that ask the chain.
pub record ChainAdapter : Type 0 where
  pub get_chain_id : String
  pub get_chain_name : String
  pub get_block : ℕ → Outcome String FullBlock
  pub get_block_by_hash : String → Outcome String FullBlock
  pub get_transaction : String → Outcome String FullTransaction
  pub get_latest_height : Outcome String ℕ
  pub get_finalized_height : Outcome String ℕ
  pub detect_reorg :
      (now : ℕ) → (number : ℕ) → (hash : String) → Outcome String (Bool × Option ReorgEvent)
  pub health_check : Outcome String (Unit {0})

-- `BaseAdapter`, whose methods the chains replace.
pub record BaseAdapter : Type 0 where
  pub chain_id : String
  pub chain_name : String

unfoldable pub base_adapter : BaseAdapter → ChainAdapter
base_adapter a = record {
  get_chain_id = a.chain_id;
  get_chain_name = a.chain_name;
  get_block = λ n. err "GetBlock not implemented";
  get_block_by_hash = λ h. err "GetBlockByHash not implemented";
  get_transaction = λ h. err "GetTransaction not implemented";
  get_latest_height = err "GetLatestHeight not implemented";
  get_finalized_height = err "GetFinalizedHeight not implemented";
  detect_reorg = λ now n h. err "DetectReorg not implemented";
  health_check = ok tt;
}

-- The configuration of a chain. `second_url` is the `WSURL` of EVM and Solana and the `GRPCURL` of Tron;
-- `finality` is in blocks or slots, and `time` is that of one.
pub record AdapterConfig : Type 0 where
  pub chain_id : String
  pub chain_name : String
  pub rpc_url : String
  pub second_url : String
  pub finality : ℕ
  pub time : ℤ

abbrev pub is_zero_time : ℤ → Bool
is_zero_time (ℤ.pos n) = n == 0
is_zero_time (ℤ.negsuc n) = false

-- The checks that the three factories make; two of their texts differ.
abbrev pub check_fields : (no_finality no_time : String) → AdapterConfig → Outcome String (Unit {0})
check_fields no_finality no_time c = do
  reject_if (str_eq c.chain_id "") "chain_id cannot be empty"
  reject_if (str_eq c.chain_name "") "chain_name cannot be empty"
  reject_if (str_eq c.rpc_url "") "rpc_url cannot be empty"
  reject_if (c.finality == 0) no_finality
  reject_if (is_zero_time c.time) no_time

-- The height that lies `finality` blocks below the latest one, or 0.
abbrev pub behind : (finality : ℕ) → (latest : ℕ) → ℕ
behind finality latest = if ltb finality latest then latest - finality else 0

-- Compares a stored block with the chain's block of its number.
abbrev pub compare_blocks :
    (chain_id : String) (now number : ℕ) (hash : String) → FullBlock → Bool × Option ReorgEvent
compare_blocks chain_id now number hash b =
    if not (str_eq b.hash hash)
    then (
      true,
      some (record {
        chain_id = chain_id;
        detected_at = now;
        old_block_number = number;
        old_block_hash = hash;
        new_block_number = b.number;
        new_block_hash = b.hash;
        depth = 1;
        affected_txs = [];
        processed = false;
      }),
    )
    else (false, none)

abbrev pub detected :
    (chain_id : String)
    → (ℕ → Outcome String FullBlock)
    → (now number : ℕ) → (hash : String) → Outcome String (Bool × Option ReorgEvent)
detected chain_id get_block now number hash = do
  b ← wrap (append "failed to get chain block: ") (get_block number)
  ok (compare_blocks chain_id now number hash b)
