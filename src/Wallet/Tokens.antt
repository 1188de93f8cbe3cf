-- ===== src/Wallet/Tokens.antt =====
-- Which token getTokenByContract of internal/wallet/service.go finds.
use smart_scanner.Common.{
  ◌≡◌, refl, inl, inr, String, List, [], ◌∷◌, All, str_eq, str_eq_iff, Bool-cases,
}
use smart_scanner.Wallet.{Token, get_default_tokens, find_token, get_token_by_contract}

default_tokens-chain : (c : String) → All (λ t. t.chain_id ≡ c) (get_default_tokens c)
unfolding get_default_tokens
default_tokens-chain c = elim (Bool-cases (str_eq c "1")) [
  | inl e ↦ rw e (refl, (refl, (refl, tt)))
  | inr a ↦ elim (Bool-cases (str_eq c "56")) [
    | inl e ↦ rw (a, e) (refl, (refl, tt))
    | inr b ↦ elim (Bool-cases (str_eq c "137")) [
      | inl e ↦ rw (a, b, e) (refl, (refl, tt))
      | inr d ↦ rw (a, b, d) tt
    ]
  ]
]

found :
    (c k : String) (ts : List Token)
    → All (λ t. t.chain_id ≡ c) ts
    → ((find_token c k ts).contract ≡ k) × ((find_token c k ts).chain_id ≡ c)
unfolding find_token
found c k [] all = (refl, refl)
found c k (t ∷ ts) (here, all) =
    let rest = found c k ts all in
    elim (Bool-cases (str_eq t.contract k)) [
      | inl e ↦ rw e ((str_eq_iff t.contract k).0 e, here)
      | inr e ↦ rw e rest
    ]

-- The token that is found for a contract is one of this contract and of this chain, known or not.
pub get_token_by_contract-found :
    (c k : String)
    → ((get_token_by_contract c k).contract ≡ k) × ((get_token_by_contract c k).chain_id ≡ c)
unfolding get_token_by_contract
get_token_by_contract-found c k = elim (Bool-cases (str_eq k "")) [
  | inl e ↦ let empty : k ≡ "" = (str_eq_iff k "").0 e in rw (e, empty) (refl, refl)
  | inr e ↦ rw e (found c k (get_default_tokens c) (default_tokens-chain c))
]
