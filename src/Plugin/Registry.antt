-- ===== src/Plugin/Registry.antt =====
-- The manager's maps over any sequence of calls, against two partial functions.
use smart_scanner.Common.{
  String, ◌≡◌, refl, Option, none, some, List, [], ◌∷◌, if◌then◌else◌, str_eq, look_up,
  look_up-insert, look_up-remove, arith, str_eq_iff,
}
use smart_scanner.Plugin.{
  Plugins, PluginManager, new_plugin_manager, register_factory, unregister_factory,
  register_adapter, unregister_adapter, close,
}

abbrev pub update {ℓ} : {A : Type ℓ} → String → Option A → (String → Option A) → String → Option A
update k x f j = if str_eq j k then x else f j

-- A registration where there is none, under a key that is not empty.
abbrev pub claim {ℓ} : {A : Type ℓ} → String → A → (String → Option A) → String → Option A
claim k a f j =
    if str_eq k "" then f j else elim (f k) [ some b ↦ f j | none ↦ update k (some a) f j ]

module _ (plugins : Plugins) where
  open plugins use {Factory, Adapter, World, get_chain_type}

  pub data Call : Type 0 where
    factory_registered : Factory → Call
    factory_unregistered : String → Call
    adapter_registered : String → Adapter → Call
    adapter_unregistered : String → Call
    closed : Call

  abbrev pub step : Call → PluginManager plugins × World → PluginManager plugins × World
  step (factory_registered f) (pm, w) = ((register_factory plugins f pm).1, w)
  step (factory_unregistered t) (pm, w) = ((unregister_factory plugins t pm).1, w)
  step (adapter_registered c a) (pm, w) = ((register_adapter plugins c a pm).1, w)
  step (adapter_unregistered c) s = (unregister_adapter plugins c s).1
  step closed s = (close plugins s).1

  pub run : List Call → PluginManager plugins × World → PluginManager plugins × World
  run [] s = s
  run (c ∷ cs) s = run cs (step c s)

  abbrev pub View : Type 0
  View = (String → Option Factory) × (String → Option Adapter)

  abbrev pub spec_step : Call → View → View
  spec_step (factory_registered f) (fs, as_now) = (claim (get_chain_type f) f fs, as_now)
  spec_step (factory_unregistered t) (fs, as_now) = (update t none fs, as_now)
  spec_step (adapter_registered c a) (fs, as_now) = (fs, claim c a as_now)
  spec_step (adapter_unregistered c) (fs, as_now) = (fs, update c none as_now)
  spec_step closed v = (λ t. none, λ c. none)

  pub spec_run : List Call → View → View
  spec_run [] v = v
  spec_run (c ∷ cs) v = spec_run cs (spec_step c v)

  abbrev Shows : PluginManager plugins → View → Type 0
  Shows pm v =
      ((t : String) → look_up t pm.factories ≡ v.0 t)
      × ((c : String) → look_up c pm.adapters ≡ v.1 c)

  step-Shows :
      (c : Call) (s : PluginManager plugins × World) (v : View)
      → Shows s.0 v
      → Shows (step c s).0 (spec_step c v)
  unfolding register_factory unregister_factory register_adapter unregister_adapter close
  step-Shows (factory_registered f) (pm, w) (fs, now) (showf, showa) = (
    λ t. ground (
      arith,
      look_up-insert t (get_chain_type f) f pm.factories,
      showf t,
      showf (get_chain_type f),
    ),
    λ c. ground (arith, showa c),
  )
  step-Shows (factory_unregistered t) (pm, w) (fs, now) (showf, showa) = (
    λ j. ground (arith, look_up-remove j t pm.factories, showf j, showf t, str_eq_iff j t),
    λ c. ground (arith, showa c),
  )
  step-Shows (adapter_registered c a) (pm, w) (fs, now) (showf, showa) = (
    λ t. ground (arith, showf t),
    λ j. ground (arith, look_up-insert j c a pm.adapters, showa j, showa c),
  )
  step-Shows (adapter_unregistered c) (pm, w) (fs, now) (showf, showa) = (
    λ t. ground (arith, showf t),
    λ j. ground (arith, look_up-remove j c pm.adapters, showa j, showa c, str_eq_iff j c),
  )
  step-Shows closed (pm, w) v s = (λ t. refl, λ c. refl)

  run-Shows :
      (cs : List Call) (s : PluginManager plugins × World) (v : View)
      → Shows s.0 v
      → Shows (run cs s).0 (spec_run cs v)
  unfolding run spec_run
  run-Shows [] s v shown = shown
  run-Shows (c ∷ cs) s v shown = run-Shows cs (step c s) (spec_step c v) (step-Shows c s v shown)

  -- Whatever calls are made of a new manager, the factory of a chain type and the adapter of a chain are
  -- those of two partial functions: a registration takes a key that is free and not empty, the end of a
  -- registration frees its key, and Close frees all.
  pub run-look_up :
      (cs : List Call) (w : World)
      → ((t : String)
          → look_up t (run cs (new_plugin_manager plugins, w)).0.factories
            ≡ (spec_run cs (λ t. none, λ c. none)).0 t)
        × ((c : String)
            → look_up c (run cs (new_plugin_manager plugins, w)).0.adapters
              ≡ (spec_run cs (λ t. none, λ c. none)).1 c)
  run-look_up cs w =
      run-Shows cs (new_plugin_manager plugins, w) (λ t. none, λ c. none) (λ t. refl, λ c. refl)
