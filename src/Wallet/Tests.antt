-- ===== src/Wallet/Tests.antt =====
-- Runs of the wallet.
use smart_scanner.Common.{◌≡◌, refl, String, [], ◌∷◌, Outcome, ok, err, if◌then◌else◌, str_eq}
use smart_scanner.Wallet.{
  get_balances, balances_of, get_default_tokens, from_block, get_transactions, transactions_of,
  panics,
}
use smart_scanner.Parser.Json.{null, array, cons, nil}

abbrev known : String → Outcome String String
known c = if str_eq c "0x55d398326f99059fF775485246999027B3197955" then err "no answer" else ok c

reads : get_balances known "56" [] ≡ "" ∷ "0x8AC76a51cc950d9822D68b83fE1Ad97B32Cd580d" ∷ []
unfolding get_balances balances_of get_default_tokens
reads = refl

no_object :
    get_transactions "1" (λ h. err "missing") (ok 7) (λ n a. ok (array (cons null nil))) "0xa" ""
    ≡ err panics
unfolding get_transactions transactions_of from_block
no_object = refl
