-- ===== src/Wallet.antt =====
-- internal/wallet/service.go: the tokens of a chain, the balances of an address, and its transactions.
-- The node's answers are parameters. Displayed texts, fees, times and the request that transfers a
-- value are left out.
pub mod Tokens
pub mod Requests
mod Tests
use smart_scanner.Common.{
  ℕ, ◌+◌, ◌%◌, sub64, ltb, String, Bool, true, false, none, some, List, [], ◌∷◌, Outcome, ok, err,
  ◌>>=◌, wrap, if◌then◌else◌, str_eq,
}
use smart_scanner.Types.{Transaction}
use smart_scanner.Parser.Json.{Json, get, as_object, as_array, as_text}
use smart_scanner.Parser.Base.{text_or_empty}

pub data TokenType : Type 0 where
  native erc20 : TokenType

pub record Token : Type 0 where
  pub chain_id : String
  pub contract : String
  pub symbol : String
  pub name : String
  pub decimals : ℕ
  pub kind : TokenType

unfoldable pub get_native_symbol : String → String
get_native_symbol chain_id =
    if str_eq chain_id "1"
    then "ETH"
    else if str_eq chain_id "56"
    then "BNB"
    else if str_eq chain_id "137"
    then "MATIC"
    else "ETH"

unfoldable pub get_native_name : String → String
get_native_name chain_id =
    if str_eq chain_id "1"
    then "Ethereum"
    else if str_eq chain_id "56"
    then "Binance Coin"
    else if str_eq chain_id "137"
    then "Polygon"
    else "Native Token"

abbrev pub token : (chain_id contract symbol name : String) → ℕ → TokenType → Token
token chain_id contract symbol name decimals kind = record {
  chain_id = chain_id;
  contract = contract;
  symbol = symbol;
  name = name;
  decimals = decimals;
  kind = kind;
}

unfoldable pub get_default_tokens : String → List Token
get_default_tokens chain_id =
    if str_eq chain_id "1"
    then (token chain_id "0xdAC17F958D2ee523a2206206994597C13D831ec7" "USDT" "Tether" 6 erc20
        ∷ token chain_id "0xA0b86991c6218b36c1d19D4a2e9Eb0cE3606eB48" "USDC" "USD Coin" 6 erc20
        ∷ token chain_id "0x2260FAC5E5542a773Aa44fBCfeDf7C193bc2C599" "WBTC" "Wrapped BTC" 8 erc20
        ∷ [])
    else if str_eq chain_id "56"
    then (token chain_id "0x55d398326f99059fF775485246999027B3197955" "USDT" "Tether" 18 erc20
        ∷ token chain_id "0x8AC76a51cc950d9822D68b83fE1Ad97B32Cd580d" "USDC" "USD Coin" 18 erc20
        ∷ [])
    else if str_eq chain_id "137"
    then (token chain_id "0xc2132D05D31c914a87C6611C10748AEb04B58e8F" "USDT" "Tether" 6 erc20
        ∷ token chain_id "0x2791Bca1f2de4661ED88A30C99A7a9449Aa84174" "USDC" "USD Coin" 6 erc20
        ∷ [])
    else []

-- The loop of `getTokenByContract`, and the token without a known contract.
unfoldable pub find_token : String → String → List Token → Token
find_token chain_id contract [] = token chain_id contract "Unknown" "Unknown Token" 18 erc20
find_token chain_id contract (t ∷ ts) =
    let rest = find_token chain_id contract ts in if str_eq t.contract contract then t else rest

unfoldable pub get_token_by_contract : String → String → Token
get_token_by_contract chain_id contract =
    if str_eq contract ""
    then token chain_id "" (get_native_symbol chain_id) (get_native_name chain_id) 18 native
    else find_token chain_id contract (get_default_tokens chain_id)

-- The loops of `GetBalances`: a balance that cannot be read is left out.
unfoldable pub balances_of :
    {A : Type 0} → (get_balance : String → Outcome String A) → List String → List A
balances_of get_balance [] = []
balances_of get_balance (contract ∷ contracts) =
    let rest = balances_of get_balance contracts in
    elim (get_balance contract) [ err e ↦ rest | ok b ↦ b ∷ rest ]

abbrev pub contracts_of : List Token → List String
contracts_of [] = []
contracts_of (t ∷ ts) = t.contract ∷ contracts_of ts

-- Without tokens in the request, the native token, which has no contract, and the default tokens.
unfoldable pub get_balances :
    {A : Type 0}
    → (get_balance : String → Outcome String A) → String
    → (tokens : List String) → List A
get_balances get_balance chain_id [] =
    balances_of get_balance ("" ∷ contracts_of (get_default_tokens chain_id))
get_balances get_balance chain_id (t ∷ ts) = balances_of get_balance (t ∷ ts)

-- The first block of the logs, as a uint64: it is never below 0.
unfoldable pub from_block : (current_height : ℕ) → ℕ
from_block current_height = let n = sub64 current_height 1000 in if ltb n 0 then 0 else n

pub data WalletError : Type 0 where
  height_failed logs_failed : String → WalletError
  panics : WalletError

pub record WalletTransaction : Type 0 where
  pub id : String
  pub transaction : Transaction
  pub token_info : Token

module _ (chain_id : String) (get_transaction : String → Outcome String Transaction) where
  -- The loop over the logs. A log that is no object panics.
  unfoldable pub transactions_of :
      (token : String) → List Json → Outcome WalletError (List WalletTransaction)
  transactions_of token [] = ok []
  transactions_of token (raw ∷ raws) =
      let rest = transactions_of token raws in
      elim (as_object raw) [
        | none ↦ err panics
        | some fields ↦
            let hash = text_or_empty fields "transactionHash" in
            if str_eq hash "" then rest else elim (get_transaction hash) [
              | err e ↦ rest
              | ok tx ↦ (do
                more ← rest
                ok (
                    record {
                      id = hash;
                      transaction = tx;
                      token_info = get_token_by_contract chain_id token;
                    }
                    ∷ more))
            ]
      ]

  -- `get_logs` answers to the first block and the address.
  unfoldable pub get_transactions :
      (current_height : Outcome String ℕ) (get_logs : ℕ → String → Outcome String Json)
      (address token : String)
      → Outcome WalletError (List WalletTransaction)
  get_transactions current_height get_logs address token = do
    height ← wrap height_failed current_height
    result ←
        wrap logs_failed (get_logs (from_block height) (if str_eq token "" then address else token))
    elim (as_array result) [ none ↦ ok [] | some logs ↦ transactions_of token logs ]
