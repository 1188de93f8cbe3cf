-- ===== src/Plugin/Tests.antt =====
-- Runs of the manager over factories and adapters that are texts.
use smart_scanner.Common.{
  String, ◌≡◌, refl, none, List, [], ◌∷◌, ok, err, if◌then◌else◌, str_eq, look_up,
}
use smart_scanner.Plugin.{
  Plugins, PluginManager, new_plugin_manager, close, close_all, close_failed,
}
use smart_scanner.Plugin.Registry.{
  Call, factory_registered, factory_unregistered, adapter_registered, adapter_unregistered, run,
  spec_run, run-look_up,
}

-- A factory is its chain type and an adapter its chain; the adapter "tron" is ill and does not close.
abbrev texts : Plugins
texts = record {
  Factory = String;
  Adapter = String;
  Config = String;
  World = List String;
  get_chain_type = λ f. f;
  validate_config = λ f c. if str_eq c "" then err "no chain" else ok tt;
  create = λ f c w. (ok c, w);
  close_adapter = λ a w. (if str_eq a "tron" then err "busy" else ok tt, a ∷ w);
  check = λ a w. if str_eq a "tron" then err "ill" else ok tt;
}

abbrev calls : List (Call texts)
calls =
    factory_registered "evm"
    ∷ adapter_registered "1" "eth"
    ∷ adapter_registered "1" "tron"
    ∷ adapter_registered "728" "tron"
    ∷ factory_unregistered "evm"
    ∷ adapter_unregistered "1"
    ∷ []

run-look_up_example :
    ((t : String)
      → look_up t (run texts calls (new_plugin_manager texts, [])).0.factories
        ≡ (spec_run texts calls (λ t. none, λ c. none)).0 t)
    × ((c : String)
        → look_up c (run texts calls (new_plugin_manager texts, [])).0.adapters
          ≡ (spec_run texts calls (λ t. none, λ c. none)).1 c)
run-look_up_example = run-look_up texts calls []

abbrev two : PluginManager texts
two = record { factories = []; adapters = ("1", "eth") ∷ ("728", "tron") ∷ [] }

closes :
    close texts (two, [])
    ≡ (err (close_failed (("728", "busy") ∷ [])), (new_plugin_manager texts, "tron" ∷ "eth" ∷ []))
unfolding close close_all
closes = refl
