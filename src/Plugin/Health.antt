-- ===== src/Plugin/Health.antt =====
-- When the manager is healthy, and what Close reports.
use smart_scanner.Common.{
  String, ◌≡◌, ◌↔◌, refl, sym, ap, ◌∙◌, inl, inr, List, [], ◌∷◌, ok, is_ok, All, false,
  Outcome-cases,
}
use mathlib.Core.Bool.{true≢false}
use smart_scanner.Plugin.{Plugins, PluginManager, check_all, health_check}

module _ (plugins : Plugins) where
  open plugins use {Adapter, World, check, close_adapter}

  abbrev pub Healthy : World → String × Adapter → Type 0
  Healthy w (c, a) = check a w ≡ ok tt

  check_all_iff :
      (as_now : List (String × Adapter)) (w : World)
      → (check_all plugins as_now w ≡ ok tt) ↔ All (Healthy w) as_now
  unfolding check_all
  check_all_iff [] w = (λ e. tt, λ e. refl)
  check_all_iff ((c, a) ∷ rest) w = elim (Outcome-cases (check a w)) [
    | inl (u, e) ↦
        let opened : check_all plugins ((c, a) ∷ rest) w ≡ check_all plugins rest w =
          rw (e, check_all) refl in
        let both = check_all_iff rest w in
        (λ done. (e, both.0 (sym opened ∙ done)), λ healthy. opened ∙ both.1 (healthy.1))
    | inr (x, e) ↦
        let opened : is_ok (check_all plugins ((c, a) ∷ rest) w) ≡ false = rw (e, check_all) refl in
        (
          λ done. absurd (true≢false (sym (ap is_ok done) ∙ opened)),
          λ healthy. absurd (true≢false (sym (ap is_ok healthy.0) ∙ ap is_ok e)),
        )
  ]

  -- The health check succeeds exactly if every registered adapter is healthy.
  pub health_check_iff :
      (pm : PluginManager plugins) (w : World)
      → (health_check plugins pm w ≡ ok tt) ↔ All (Healthy w) pm.adapters
  unfolding health_check
  health_check_iff pm w = check_all_iff pm.adapters w
