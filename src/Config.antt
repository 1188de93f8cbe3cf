-- ===== src/Config.antt =====
-- pkg/config/config.go: the check of a loaded configuration, and the chains that it enables. What viper
-- reads from the file is a parameter; the fields that no check reads are left out.
pub mod Checked
mod Tests
use smart_scanner.Common.{
  ℕ, zero, suc, String, Bool, true, false, not, none, some, List, [], ◌∷◌, Outcome, ok, err, ◌>>=◌,
  ◌>>◌, reject_if, if◌then◌else◌, str_eq, ℤ, pos, negsuc, look_up,
}

pub record RpcNodeConfig : Type 0 where
  pub url : String
  pub weight : ℤ

pub record ChainConfig : Type 0 where
  pub enabled : Bool
  pub chain_id : String
  pub rpc_nodes : List RpcNodeConfig

pub record Config : Type 0 where
  pub app_name : String
  pub chains : List (String × ChainConfig)

pub data ConfigError : Type 0 where
  name_required no_chains : ConfigError
  id_required no_nodes chain_missing chain_disabled : String → ConfigError
  url_required weight_not_positive : String → ℕ → ConfigError

abbrev pub not_positive : ℤ → Bool
not_positive (pos zero) = true
not_positive (pos (suc n)) = false
not_positive (negsuc n) = true

-- The loop over the nodes of a chain from node `i` on.
unfoldable pub validate_nodes :
    String → (i : ℕ) → List RpcNodeConfig → Outcome ConfigError (Unit {0})
validate_nodes chain_id i [] = ok tt
validate_nodes chain_id i (node ∷ nodes) =
    reject_if (str_eq node.url "") (url_required chain_id i)
    >> reject_if (not_positive node.weight) (weight_not_positive chain_id i)
    >> validate_nodes chain_id (suc i) nodes

abbrev pub is_empty {ℓ} : {A : Type ℓ} → List A → Bool
is_empty [] = true
is_empty (x ∷ xs) = false

unfoldable pub validate_chain : String → ChainConfig → Outcome ConfigError (Unit {0})
validate_chain chain_id chain =
    reject_if (str_eq chain.chain_id "") (id_required chain_id)
    >> reject_if (is_empty chain.rpc_nodes) (no_nodes chain_id)
    >> validate_nodes chain_id 0 chain.rpc_nodes

-- The loop over the chains: one that is not enabled is passed over.
unfoldable pub validate_chains : List (String × ChainConfig) → Outcome ConfigError (Unit {0})
validate_chains [] = ok tt
validate_chains ((chain_id, chain) ∷ chains) =
    let rest = validate_chains chains in
    if chain.enabled then validate_chain chain_id chain >> rest else rest

unfoldable pub validate_config : Config → Outcome ConfigError (Unit {0})
validate_config config =
    reject_if (str_eq config.app_name "") name_required
    >> reject_if (is_empty config.chains) no_chains
    >> validate_chains config.chains

unfoldable pub enabled_of : List (String × ChainConfig) → List String
enabled_of [] = []
enabled_of ((chain_id, chain) ∷ chains) =
    let rest = enabled_of chains in if chain.enabled then chain_id ∷ rest else rest

unfoldable pub get_enabled_chains : Config → List String
get_enabled_chains config = enabled_of config.chains

unfoldable pub get_chain_config : Config → String → Outcome ConfigError ChainConfig
get_chain_config config chain_id = elim (look_up chain_id config.chains) [
  | none ↦ err (chain_missing chain_id)
  | some chain ↦ if not chain.enabled then err (chain_disabled chain_id) else ok chain
]
