-- ===== src/Plugin/Adapter/Factories.antt =====
-- The factories of the three chains, as internal/plugin/manager.go uses them, and Initialize, Close and
-- HealthCheck of the adapters. Dialling, and the client that rpc.New makes, are parameters.
use Prim.Native.String.{◌++◌ as append}
use smart_scanner.Common.{ℕ, String, Option, none, some, Outcome, ok, err, ◌>>=◌, wrap}
use smart_scanner.Plugin.{Plugins, PluginManager, register_factory, new_plugin_manager}
use smart_scanner.Plugin.Adapter.{BaseAdapter, AdapterConfig, check_fields}
use smart_scanner.Plugin.Adapter.Evm.{EthTypes, EthClient}
use smart_scanner.Plugin.Adapter.Evm
use smart_scanner.Plugin.Adapter.Tron.{TronClient, new_tron_http_client}
use smart_scanner.Plugin.Adapter.Tron
use smart_scanner.Plugin.Adapter.Solana.{SolanaClient}
use smart_scanner.Plugin.Adapter.Solana

-- What may stand behind an `interface{}` that is a configuration.
pub data AnyConfig : Type 0 where
  evm_config tron_config solana_config : AdapterConfig → AnyConfig
  other_config : AnyConfig

pub data Factory : Type 0 where
  evm_factory tron_factory solana_factory : Factory

abbrev pub get_chain_type : Factory → String
get_chain_type evm_factory = "evm"
get_chain_type tron_factory = "tron"
get_chain_type solana_factory = "solana"

abbrev pub as_evm : AnyConfig → Outcome String AdapterConfig
as_evm (evm_config c) = ok c
as_evm _ = err "invalid config type, expected *EVMConfig"

abbrev pub as_tron : AnyConfig → Outcome String AdapterConfig
as_tron (tron_config c) = ok c
as_tron _ = err "invalid config type, expected *TronConfig"

abbrev pub as_solana : AnyConfig → Outcome String AdapterConfig
as_solana (solana_config c) = ok c
as_solana _ = err "invalid config type, expected *SolanaConfig"

unfoldable pub validate_evm : AnyConfig → Outcome String (Unit {0})
validate_evm config = do
  c ← as_evm config
  check_fields "finality_blocks cannot be zero" "block_time cannot be zero" c

unfoldable pub validate_tron : AnyConfig → Outcome String (Unit {0})
validate_tron config = do
  c ← as_tron config
  check_fields "finality_blocks cannot be zero" "block_time cannot be zero" c

unfoldable pub validate_solana : AnyConfig → Outcome String (Unit {0})
validate_solana config = do
  c ← as_solana config
  check_fields "finality_slots cannot be zero" "slot_time cannot be zero" c

abbrev pub new_base_adapter : AdapterConfig → BaseAdapter
new_base_adapter c = record { chain_id = c.chain_id; chain_name = c.chain_name }

module _ (eth : EthTypes) where
  pub data Adapter : Type 0 where
    evm : BaseAdapter → AdapterConfig → Option (EthClient eth) → Adapter
    tron : BaseAdapter → AdapterConfig → Option TronClient → Adapter
    solana : BaseAdapter → AdapterConfig → Option SolanaClient → Adapter

  unfoldable pub create_evm : AnyConfig → Outcome String Adapter
  create_evm config = do c ← as_evm config; ok (evm (new_base_adapter c) c none)

  unfoldable pub create_tron : AnyConfig → Outcome String Adapter
  create_tron config = do c ← as_tron config; ok (tron (new_base_adapter c) c none)

  unfoldable pub create_solana : AnyConfig → Outcome String Adapter
  create_solana config = do c ← as_solana config; ok (solana (new_base_adapter c) c none)

  abbrev pub validate : Factory → AnyConfig → Outcome String (Unit {0})
  validate evm_factory config = validate_evm config
  validate tron_factory config = validate_tron config
  validate solana_factory config = validate_solana config

  abbrev pub create : Factory → AnyConfig → Outcome String Adapter
  create evm_factory config = create_evm config
  create tron_factory config = create_tron config
  create solana_factory config = create_solana config

  -- The client that an adapter has.
  abbrev evm_client : Adapter → Option (EthClient eth)
  evm_client (evm base c client) = client
  evm_client _ = none

  abbrev tron_client : Adapter → Option TronClient
  tron_client (tron base c client) = client
  tron_client _ = none

  -- The new client stays also where the connection cannot be verified, and the old one where there is
  -- no new one.
  unfoldable pub initialize_evm :
      (dial : String → Outcome String (EthClient eth))
      → BaseAdapter
      → AnyConfig
      → Adapter
      → Outcome String (Unit {0}) × Adapter
  initialize_evm dial base config a = elim (as_evm config) [
    | err e ↦ (err e, a)
    | ok c ↦ elim (dial c.rpc_url) [
      | err e ↦ (err (append "failed to connect to RPC: " e), evm base c (evm_client a))
      | ok client ↦ (
        wrap (append "failed to verify connection: ") (client.chain_id >>= λ n. ok tt),
        evm base c (some client),
      )
    ]
  ]

  unfoldable pub initialize_tron :
      (now : ℕ) → BaseAdapter → AnyConfig → Adapter → Outcome String (Unit {0}) × Adapter
  initialize_tron now base config a = elim (as_tron config) [
    | err e ↦ (err e, a)
    | ok c ↦ elim (new_tron_http_client now c.rpc_url) [
      | err e ↦ (err (append "failed to create Tron client: " e), tron base c (tron_client a))
      | ok client ↦ (
        wrap (append "failed to verify connection: ") (client.get_latest_height >>= λ n. ok tt),
        tron base c (some client),
      )
    ]
  ]

  unfoldable pub initialize_solana :
      (new_client : String → SolanaClient)
      → BaseAdapter
      → AnyConfig
      → Adapter
      → Outcome String (Unit {0}) × Adapter
  initialize_solana new_client base config a = elim (as_solana config) [
    | err e ↦ (err e, a)
    | ok c ↦
        let client = new_client c.rpc_url in
        (
          wrap (append "failed to verify connection: ") (client.get_health >>= λ h. ok tt),
          solana base c (some client),
        )
  ]

  unfoldable pub health_check : Adapter → Outcome String (Unit {0})
  health_check (evm base c client) = Evm.health_check eth client
  health_check (tron base c client) = Tron.health_check client
  health_check (solana base c none) = err "client not initialized"
  health_check (solana base c (some client)) = Solana.health_check client

  -- The adapters as the manager sees them; each of them closes without an error.
  abbrev pub chains : Plugins
  chains = record {
    Factory = Factory;
    Adapter = Adapter;
    Config = AnyConfig;
    World = Unit {0};
    get_chain_type = get_chain_type;
    validate_config = validate;
    create = λ f config w. (create f config, w);
    close_adapter = λ a w. (ok tt, w);
    check = λ a w. health_check a;
  }

  -- A manager with the three factories.
  abbrev pub registered : PluginManager chains
  registered =
      (register_factory chains solana_factory
        (register_factory chains tron_factory
          (register_factory chains evm_factory (new_plugin_manager chains)).1).1).1
