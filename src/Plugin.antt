-- ===== src/Plugin.antt =====
-- internal/plugin/manager.go: the manager of the chain adapters. Factories and adapters are
-- parameters, and so is what a call of an adapter does to the world. A nil argument is left out.
pub mod Registry
pub mod Health
pub mod Adapter
mod Tests
use smart_scanner.Common.{
  String, ◌≡◌, Bool, Option, none, some, List, [], ◌∷◌, map, Outcome, ok, err, if◌then◌else◌, ◌>>=◌,
  wrap, str_eq, look_up, insert, remove, values,
}
use smart_scanner.Common.Actions.{Action}

pub data ManagerError : Type 0 where
  empty_type empty_chain : ManagerError
  factory_exists factory_missing adapter_exists adapter_missing : String → ManagerError
  get_factory_failed : ManagerError → ManagerError
  invalid_config create_failed : String → ManagerError
  close_failed : List (String × String) → ManagerError
  unhealthy : (chain_id error : String) → ManagerError

pub record Plugins : Type 1 where
  pub Factory : Type 0
  pub Adapter : Type 0
  pub Config : Type 0
  pub World : Type 0
  pub get_chain_type : Factory → String
  pub validate_config : Factory → Config → Outcome String (Unit {0})
  pub create : Factory → Config → World → Outcome String Adapter × World
  pub close_adapter : Adapter → Action World String (Unit {0})
  pub check : Adapter → World → Outcome String (Unit {0})

module _ (plugins : Plugins) where
  open plugins use {Factory, Adapter, Config, World, get_chain_type, close_adapter, check}

  -- The third map, of the chains' types, is never written and is left out.
  pub record PluginManager : Type 0 where
    pub factories : List (String × Factory)
    pub adapters : List (String × Adapter)

  abbrev pub new_plugin_manager : PluginManager
  new_plugin_manager = record { factories = []; adapters = [] }

  unfoldable pub register_factory : Factory → Action PluginManager ManagerError (Unit {0})
  register_factory factory pm =
      let chain_type = get_chain_type factory in
      if str_eq chain_type ""
      then (err empty_type, pm)
      else elim (look_up chain_type pm.factories) [
        | some f ↦ (err (factory_exists chain_type), pm)
        | none ↦ (ok tt, record pm { factories = insert chain_type factory pm.factories })
      ]

  unfoldable pub unregister_factory : String → Action PluginManager ManagerError (Unit {0})
  unregister_factory chain_type pm = elim (look_up chain_type pm.factories) [
    | none ↦ (err (factory_missing chain_type), pm)
    | some f ↦ (ok tt, record pm { factories = remove chain_type pm.factories })
  ]

  unfoldable pub get_factory : String → PluginManager → Outcome ManagerError Factory
  get_factory chain_type pm = elim (look_up chain_type pm.factories) [
    | none ↦ err (factory_missing chain_type)
    | some f ↦ ok f
  ]

  unfoldable pub create_adapter :
      String → Config → PluginManager → World → Outcome ManagerError Adapter × World
  create_adapter chain_type config pm w = elim (get_factory chain_type pm) [
    | err e ↦ (err (get_factory_failed e), w)
    | ok f ↦ elim (plugins.validate_config f config) [
      | err e ↦ (err (invalid_config e), w)
      | ok u ↦ let (r, w') = plugins.create f config w in (wrap create_failed r, w')
    ]
  ]

  unfoldable pub register_adapter : String → Adapter → Action PluginManager ManagerError (Unit {0})
  register_adapter chain_id adapter pm =
      if str_eq chain_id "" then (err empty_chain, pm) else elim (look_up chain_id pm.adapters) [
        | some a ↦ (err (adapter_exists chain_id), pm)
        | none ↦ (ok tt, record pm { adapters = insert chain_id adapter pm.adapters })
      ]

  -- The adapter goes whether or not it could be closed.
  unfoldable pub unregister_adapter :
      String → Action (PluginManager × World) ManagerError (Unit {0})
  unregister_adapter chain_id (pm, w) = elim (look_up chain_id pm.adapters) [
    | none ↦ (err (adapter_missing chain_id), (pm, w))
    | some a ↦
        (ok tt, (record pm { adapters = remove chain_id pm.adapters }, (close_adapter a w).1))
  ]

  unfoldable pub get_adapter : String → PluginManager → Outcome ManagerError Adapter
  get_adapter chain_id pm = elim (look_up chain_id pm.adapters) [
    | none ↦ err (adapter_missing chain_id)
    | some a ↦ ok a
  ]

  -- The loop of `Close`, and the errors that it collects.
  unfoldable pub close_all : List (String × Adapter) → World → List (String × String) × World
  close_all [] w = ([], w)
  close_all ((chain_id, a) ∷ rest) w =
      let (r, w') = close_adapter a w in
      let (errors, w'') = close_all rest w' in
      (elim r [ ok u ↦ errors | err e ↦ (chain_id, e) ∷ errors ], w'')

  unfoldable pub close : Action (PluginManager × World) ManagerError (Unit {0})
  close (pm, w) =
      let (errors, w') = close_all pm.adapters w in
      (elim errors [ [] ↦ ok tt | e ∷ es ↦ err (close_failed (e ∷ es)) ], (new_plugin_manager, w'))

  -- The loop of `HealthCheck`: the first adapter that fails.
  unfoldable pub check_all : List (String × Adapter) → World → Outcome ManagerError (Unit {0})
  check_all [] w = ok tt
  check_all ((chain_id, a) ∷ rest) w =
      let more = check_all rest w in
      elim (check a w) [ ok u ↦ more | err e ↦ err (unhealthy chain_id e) ]

  unfoldable pub health_check : PluginManager → World → Outcome ManagerError (Unit {0})
  health_check pm w = check_all pm.adapters w
