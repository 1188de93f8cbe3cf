-- ===== src/Config/Tests.antt =====
-- A configuration with a chain that is served and one that is disabled.
use smart_scanner.Common.{◌≡◌, refl, true, false, [], ◌∷◌, ok, err, pos}
use smart_scanner.Config.{
  ChainConfig, Config, chain_disabled, validate_nodes, validate_chain, validate_chains,
  validate_config, enabled_of, get_enabled_chains, get_chain_config,
}
use smart_scanner.Config.Checked.{Served, get_chain_config-Served}

abbrev eth : ChainConfig
eth = record {
  enabled = true;
  chain_id = "1";
  rpc_nodes = record { url = "http://a"; weight = pos 3 } ∷ [];
}

abbrev bsc : ChainConfig
bsc = record { enabled = false; chain_id = ""; rpc_nodes = [] }

abbrev config : Config
config = record { app_name = "scanner"; chains = ("eth", eth) ∷ ("bsc", bsc) ∷ [] }

validates : validate_config config ≡ ok tt
unfolding validate_config validate_chains validate_chain validate_nodes
validates = refl

finds : get_chain_config config "eth" ≡ ok eth
unfolding get_chain_config
finds = refl

disabled : get_chain_config config "bsc" ≡ err (chain_disabled "bsc")
unfolding get_chain_config
disabled = refl

enables : get_enabled_chains config ≡ "eth" ∷ []
unfolding get_enabled_chains enabled_of
enables = refl

get_chain_config-Served_example : Served eth
get_chain_config-Served_example = get_chain_config-Served config "eth" eth validates finds
