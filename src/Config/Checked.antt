-- ===== src/Config/Checked.antt =====
-- What a configuration that was checked promises to the scanners.
use smart_scanner.Common.{
  ◌≢◌, str_ne, ℤ, pos, negsuc, suc, zero, ℕ, suc, String, ◌≡◌, refl, sym, ap, ◌∙◌, inl, inr, Bool,
  true, false, some, List, [], ◌∷◌, All, Outcome, ok, err, is_ok, ◌>>◌, reject_if, if◌then◌else◌,
  str_eq, look_up, Bool-cases, Option-cases, some-injective, ok-injective, reject_if-ok,
}
use mathlib.Core.Bool.{true≢false}
use mathlib.Core.Path.{subst}
use smart_scanner.Config.{
  RpcNodeConfig, ChainConfig, Config, ConfigError, name_required, no_chains, id_required, no_nodes,
  url_required, weight_not_positive, not_positive, is_empty, validate_nodes, validate_chain,
  validate_chains, validate_config, get_chain_config,
}

-- A node that can be called and chosen.
abbrev pub Usable : RpcNodeConfig → Type 0
Usable node = (node.url ≢ "") × ((n : ℕ) × (node.weight ≡ pos (suc n)))

abbrev pub Served : ChainConfig → Type 0
Served chain =
    (chain.chain_id ≢ "")
    × ((node : RpcNodeConfig) × (nodes : List RpcNodeConfig) × (chain.rpc_nodes ≡ node ∷ nodes))
    × All Usable chain.rpc_nodes

positive : (w : ℤ) → not_positive w ≡ false → (n : ℕ) × (w ≡ pos (suc n))
positive (pos zero) bad = absurd (true≢false bad)
positive (pos (suc n)) e = (n, refl)
positive (negsuc n) bad = absurd (true≢false bad)

has_first :
    (nodes : List RpcNodeConfig)
    → is_empty nodes ≡ false
    → (node : RpcNodeConfig) × (rest : List RpcNodeConfig) × (nodes ≡ node ∷ rest)
has_first [] bad = absurd (true≢false bad)
has_first (x ∷ xs) e = (x, xs, refl)

-- A guard that passes.
passed :
    (b : Bool) (e : ConfigError) (k : Outcome ConfigError (Unit {0}))
    → (reject_if b e >> k) ≡ ok tt
    → (b ≡ false) × (k ≡ ok tt)
passed true e k bad = absurd (true≢false (sym (ap is_ok bad)))
passed false e k done = (refl, done)

both : (m k : Outcome ConfigError (Unit {0})) → (m >> k) ≡ ok tt → (m ≡ ok tt) × (k ≡ ok tt)
both (ok u) k done = (refl, done)
both (err e) k bad = absurd (true≢false (sym (ap is_ok bad)))

-- Two guards in front of a check.
guarded :
    (a b : Bool) (d e : ConfigError) (k : Outcome ConfigError (Unit {0}))
    → (reject_if a d >> reject_if b e >> k) ≡ ok tt
    → (a ≡ false) × (b ≡ false) × (k ≡ ok tt)
guarded a b d e k done =
    let (guards, rest) = both (reject_if a d >> reject_if b e) k done in
    let (first, second) = passed a d (reject_if b e) guards in
    (first, reject_if-ok b e second, rest)

nodes-Usable :
    (c : String) (i : ℕ) (nodes : List RpcNodeConfig)
    → validate_nodes c i nodes ≡ ok tt
    → All Usable nodes
unfolding validate_nodes
nodes-Usable c i [] done = tt
nodes-Usable c i (n ∷ ns) done =
    let (addressed, weighted, rest) =
      guarded (str_eq n.url "") (not_positive n.weight) (url_required c i) (weight_not_positive c i)
        (validate_nodes c (suc i) ns) done in
    ((str_ne n.url "" addressed, positive n.weight weighted), nodes-Usable c (suc i) ns rest)

chain-Served : (c : String) (chain : ChainConfig) → validate_chain c chain ≡ ok tt → Served chain
unfolding validate_chain
chain-Served c chain done =
    let (named, some_node, rest) =
      guarded (str_eq chain.chain_id "") (is_empty chain.rpc_nodes) (id_required c) (no_nodes c)
        (validate_nodes c 0 chain.rpc_nodes) done in
    (
      str_ne chain.chain_id "" named,
      has_first chain.rpc_nodes some_node,
      nodes-Usable c 0 chain.rpc_nodes rest,
    )

chains-Served :
    (chains : List (String × ChainConfig)) (c : String) (chain : ChainConfig)
    → validate_chains chains ≡ ok tt
    → look_up c chains ≡ some chain
    → chain.enabled ≡ true
    → Served chain
unfolding validate_chains
chains-Served [] c chain done found on = cc
chains-Served ((d, x) ∷ chains) c chain done found on =
    let test = λ (b : Bool).
      if b then validate_chain d x >> validate_chains chains else validate_chains chains in
    elim (Bool-cases (str_eq c d)) [
      | inl same ↦
          let here : x ≡ chain =
            some-injective
              (sym (ap (λ (b : Bool). if b then some x else look_up c chains) same) ∙ found) in
          let checked =
            both (validate_chain d x) (validate_chains chains)
              (sym (ap test (ap (λ y. y.enabled) here ∙ on)) ∙ done) in
          subst Served here (chain-Served d x checked.0)
      | inr other ↦
          let later : look_up c chains ≡ some chain =
            sym (ap (λ (b : Bool). if b then some x else look_up c chains) other) ∙ found in
          let rest : validate_chains chains ≡ ok tt = elim (Bool-cases x.enabled) [
            | inl e ↦
                (both (validate_chain d x) (validate_chains chains) (sym (ap test e) ∙ done)).1
            | inr e ↦ sym (ap test e) ∙ done
          ] in
          chains-Served chains c chain rest later on
    ]

handed :
    (config : Config) (c : String) (chain : ChainConfig)
    → get_chain_config config c ≡ ok chain
    → (look_up c config.chains ≡ some chain) × (chain.enabled ≡ true)
unfolding get_chain_config
handed config c chain = elim (Option-cases (look_up c config.chains)) [
  | inl e ↦ rw (get_chain_config, e) (λ bad. absurd (true≢false (sym (ap is_ok bad))))
  | inr (x, e) ↦ elim (Bool-cases x.enabled) [
    | inr off ↦ rw (get_chain_config, e, off) (λ bad. absurd (true≢false (sym (ap is_ok bad))))
    | inl on ↦
        rw (get_chain_config, e, on)
          (λ found. let same = ok-injective found in (ap some same, sym (ap (λ y. y.enabled) same)))
  ]
]

-- Every chain that a checked configuration hands to a scanner has an identifier and a node, and each of
-- its nodes has an address and a positive weight.
pub get_chain_config-Served :
    (config : Config) (c : String) (chain : ChainConfig)
    → validate_config config ≡ ok tt
    → get_chain_config config c ≡ ok chain
    → Served chain
unfolding validate_config get_chain_config
get_chain_config-Served config c chain done found =
    let (named, some_chain, rest) =
      guarded (str_eq config.app_name "") (is_empty config.chains) name_required no_chains
        (validate_chains config.chains) done in
    let (there, on) = handed config c chain found in
    chains-Served config.chains c chain rest there on
