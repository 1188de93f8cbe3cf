-- ===== src/Plugin/Adapter/Created.antt =====
-- Which configurations become adapters.
use smart_scanner.Common.{
  zero, suc, String, ◌≡◌, ◌≢◌, ◌↔◌, refl, ◌∙◌, Bool, false, none, Outcome, ok, err, is_ok, sym, ap,
  inl, inr, Outcome-cases, bind-ok, reject_if-ok, ◌>>◌, ◌==◌, ==_iff, reject_if, ℤ, pos, negsuc,
  str_eq, str_eq_iff, str_ne, str_eq_ne, ne→==_false, arith, ok-injective, wrap,
}
use mathlib.Core.Bool.{true≢false}
use smart_scanner.Plugin.{
  ManagerError, invalid_config, create_failed, create_adapter, get_factory, register_factory,
}
use smart_scanner.Plugin.Adapter.{AdapterConfig, check_fields, is_zero_time}
use smart_scanner.Plugin.Adapter.Evm.{EthTypes}
use smart_scanner.Plugin.Adapter.Factories.{
  AnyConfig, Factory, Adapter, evm_config, tron_config, solana_config, other_config, evm_factory,
  tron_factory, solana_factory, evm, tron, solana, get_chain_type, validate_evm, validate_tron,
  validate_solana, create_evm, create_tron, create_solana, chains, registered, new_base_adapter,
  validate, create,
}

-- No text of the configuration is empty, but for its second URL, and no number is zero.
abbrev pub Complete : AdapterConfig → Type 0
Complete c =
    (c.chain_id ≢ "") × (c.chain_name ≢ "") × (c.rpc_url ≢ "") × (c.finality ≢ 0) × (c.time ≢ pos 0)

is_zero_time-ne : (t : ℤ) → is_zero_time t ≡ false → t ≢ pos 0
is_zero_time-ne t e = λ same. absurd (true≢false (sym (ap is_zero_time same) ∙ e))

is_zero_time-false : (t : ℤ) → t ≢ pos 0 → is_zero_time t ≡ false
is_zero_time-false (pos zero) ne = absurd (ne refl)
is_zero_time-false (pos (suc n)) ne = ground arith
is_zero_time-false (negsuc n) ne = refl

guarded :
    (b : Bool) (e : String) (k : Outcome String (Unit {0}))
    → (reject_if b e >> k) ≡ ok tt
    → (b ≡ false) × (k ≡ ok tt)
guarded b e k done =
    let (u, first, rest) = bind-ok (reject_if b e) (λ _. k) tt done in
    (reject_if-ok b e first, rest)

check_fields-Complete : (a b : String) (c : AdapterConfig) → check_fields a b c ≡ ok tt → Complete c
check_fields-Complete a b c done =
    let (id, rest) = guarded (str_eq c.chain_id "") "chain_id cannot be empty" _ done in
    let (name, rest') = guarded (str_eq c.chain_name "") "chain_name cannot be empty" _ rest in
    let (url, rest'') = guarded (str_eq c.rpc_url "") "rpc_url cannot be empty" _ rest' in
    let (finality, last) = guarded (c.finality == 0) a _ rest'' in
    (
      str_ne c.chain_id "" id,
      str_ne c.chain_name "" name,
      str_ne c.rpc_url "" url,
      λ zero_finality. absurd (true≢false (sym ((==_iff c.finality 0).1 zero_finality) ∙ finality)),
      is_zero_time-ne c.time (reject_if-ok (is_zero_time c.time) b last),
    )

Complete-check_fields : (a b : String) (c : AdapterConfig) → Complete c → check_fields a b c ≡ ok tt
Complete-check_fields a b c (id, name, url, finality, time) =
    rw
      (
        str_eq_ne c.chain_id "" id,
        str_eq_ne c.chain_name "" name,
        str_eq_ne c.rpc_url "" url,
        ne→==_false c.finality 0 finality,
        is_zero_time-false c.time time,
      )
      refl

abbrev pub config_of : Factory → AdapterConfig → AnyConfig
config_of evm_factory c = evm_config c
config_of tron_factory c = tron_config c
config_of solana_factory c = solana_config c

module _ (eth : EthTypes) where
  -- The adapter of a configuration, with no client yet.
  abbrev pub created : Factory → AdapterConfig → Adapter eth
  created evm_factory c = evm (new_base_adapter c) c none
  created tron_factory c = tron (new_base_adapter c) c none
  created solana_factory c = solana (new_base_adapter c) c none

  -- What CreateAdapter does with the factory that it finds.
  abbrev built : Factory → AnyConfig → Outcome ManagerError (Adapter eth)
  built f config = elim (validate eth f config) [
    | err e ↦ err (invalid_config e)
    | ok u ↦ wrap create_failed (create eth f config)
  ]

  built-config_of :
      (f : Factory) (c : AdapterConfig) → Complete c → built f (config_of f c) ≡ ok (created f c)
  unfolding validate_evm validate_tron validate_solana create_evm create_tron create_solana
  built-config_of evm_factory c whole =
      rw
        (
          Complete-check_fields "finality_blocks cannot be zero" "block_time cannot be zero" c
              whole,
          built,
        )
        refl
  built-config_of tron_factory c whole =
      rw
        (
          Complete-check_fields "finality_blocks cannot be zero" "block_time cannot be zero" c
              whole,
          built,
        )
        refl
  built-config_of solana_factory c whole =
      rw
        (
          Complete-check_fields "finality_slots cannot be zero" "slot_time cannot be zero" c whole,
          built,
        )
        refl

  -- The built adapter's configuration.
  abbrev pub Fits : Factory → AnyConfig → Adapter eth → Type 0
  Fits f config a = (c : AdapterConfig) × (config ≡ config_of f c) × Complete c × (a ≡ created f c)

  checked_build :
      (f : Factory) (c : AdapterConfig) (no_finality no_time : String) (a : Adapter eth)
      → (elim (check_fields no_finality no_time c) [
        | err e ↦ err (invalid_config e)
        | ok u ↦ ok (created f c)
      ])
        ≡ ok a
      → Fits f (config_of f c) a
  checked_build f c x y a done = elim (Outcome-cases (check_fields x y c)) [
    | inl (u, e) ↦ (c, refl, check_fields-Complete x y c e, sym (ok-injective (rw e at done)))
    | inr (e, bad) ↦ absurd (true≢false (sym (ap is_ok (rw bad at done))))
  ]

  built-Fits :
      (f : Factory) (config : AnyConfig) (a : Adapter eth) → built f config ≡ ok a → Fits f config a
  unfolding validate_evm validate_tron validate_solana create_evm create_tron create_solana
  built-Fits evm_factory (evm_config c) a done = checked_build evm_factory c _ _ a done
  built-Fits tron_factory (tron_config c) a done = checked_build tron_factory c _ _ a done
  built-Fits solana_factory (solana_config c) a done = checked_build solana_factory c _ _ a done
  built-Fits evm_factory (tron_config c) a done = absurd (true≢false (sym (ap is_ok done)))
  built-Fits evm_factory (solana_config c) a done = absurd (true≢false (sym (ap is_ok done)))
  built-Fits evm_factory other_config a done = absurd (true≢false (sym (ap is_ok done)))
  built-Fits tron_factory (evm_config c) a done = absurd (true≢false (sym (ap is_ok done)))
  built-Fits tron_factory (solana_config c) a done = absurd (true≢false (sym (ap is_ok done)))
  built-Fits tron_factory other_config a done = absurd (true≢false (sym (ap is_ok done)))
  built-Fits solana_factory (evm_config c) a done = absurd (true≢false (sym (ap is_ok done)))
  built-Fits solana_factory (tron_config c) a done = absurd (true≢false (sym (ap is_ok done)))
  built-Fits solana_factory other_config a done = absurd (true≢false (sym (ap is_ok done)))

  -- The factories that the manager knows.
  known : (f : Factory) → get_factory (chains eth) (get_chain_type f) (registered eth) ≡ ok f
  unfolding get_factory register_factory
  known evm_factory = refl
  known tron_factory = refl
  known solana_factory = refl

  known_only :
      (t : String) (f : Factory)
      → get_factory (chains eth) t (registered eth) ≡ ok f
      → t ≡ get_chain_type f
  unfolding get_factory register_factory
  known_only t f found =
      ground (arith, str_eq_iff t "evm", str_eq_iff t "tron", str_eq_iff t "solana")

  create_adapter-built :
      (t : String) (config : AnyConfig) (f : Factory)
      → get_factory (chains eth) t (registered eth) ≡ ok f
      → (create_adapter (chains eth) t config (registered eth) tt).0 ≡ built f config
  unfolding create_adapter
  create_adapter-built t config f e = elim (Outcome-cases (validate eth f config)) [
    | inl (u, valid) ↦ rw (e, create_adapter) (rw (valid, built) refl)
    | inr (x, bad) ↦ rw (e, create_adapter) (rw (bad, built) refl)
  ]

  unknown :
      (t : String) (config : AnyConfig) (x : ManagerError)
      → get_factory (chains eth) t (registered eth) ≡ err x
      → is_ok (create_adapter (chains eth) t config (registered eth) tt).0 ≡ false
  unfolding create_adapter
  unknown t config x e = rw (e, create_adapter) refl

  -- With the three factories registered, CreateAdapter answers with an adapter exactly for a
  -- configuration of the chain type that is asked for in which no text but the second URL is empty
  -- and no number is zero, and with the one that bears this configuration, its identifier and its
  -- name, and that has no client yet.
  pub create_adapter_iff :
      (t : String) (config : AnyConfig) (a : Adapter eth)
      → ((create_adapter (chains eth) t config (registered eth) tt).0 ≡ ok a)
        ↔ ((f : Factory) × (t ≡ get_chain_type f) × Fits f config a)
  create_adapter_iff t config a = (
    λ done. elim (Outcome-cases (get_factory (chains eth) t (registered eth))) [
      | inl (f, e) ↦ (
        f,
        known_only t f e,
        built-Fits f config a (sym (create_adapter-built t config f e) ∙ done),
      )
      | inr (x, e) ↦ absurd (true≢false (sym (ap is_ok done) ∙ unknown t config x e))
    ],
    λ (f, asked, (c, same, whole, made)).
        let found : get_factory (chains eth) t (registered eth) ≡ ok f = rw asked (known f) in
        create_adapter-built t config f found ∙ rw (same, made) (built-config_of f c whole),
  )
