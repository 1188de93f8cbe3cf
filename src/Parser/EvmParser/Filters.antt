-- ===== src/Parser/EvmParser/Filters.antt =====
-- Which transactions pass the filter of internal/parser/evm_parser.go.
use smart_scanner.Common.{
  zero, suc, ◌≡◌, ◌≢◌, ◌⊎◌, ◌↔◌, String, true, false, Option, none, some, List, [], ◌∷◌, arith,
  str_eq_iff, ℤ, pos, negsuc, ◌≤ℤ◌,
}
use smart_scanner.Types.{Transaction, FilterConfig}
use smart_scanner.Util.{contains_string}
use smart_scanner.Parser.EvmParser.{is_empty, below_minimum, zero_value, should_include_transaction}

abbrev Among : String → List String → Type 0
Among s [] = ⊥
Among s (x ∷ xs) = (x ≡ s) ⊎ Among s xs

contains_string_iff : (xs : List String) (s : String) → (contains_string xs s ≡ true) ↔ Among s xs
unfolding contains_string
contains_string_iff [] s = ground arith
contains_string_iff (x ∷ xs) s = ground (arith, str_eq_iff x s, contains_string_iff xs s)

-- A value that is known reaches a minimum that is set.
abbrev AtLeast : Option ℤ → Option ℤ → Type 0
AtLeast (some least) (some value) = least ≤ℤ value
AtLeast none value = Unit
AtLeast (some least) none = Unit

below_minimum_iff : (m v : Option ℤ) → (below_minimum m v ≡ false) ↔ AtLeast m v
unfolding below_minimum
below_minimum_iff (some least) (some value) = ground arith
below_minimum_iff none value = ground arith
below_minimum_iff (some least) none = ground arith

abbrev pub Included : FilterConfig → Transaction → Type 0
Included config tx =
    ((config.addresses ≡ [])
      ⊎ Among tx.from config.addresses
      ⊎ ((tx.to ≢ "") × Among tx.to config.addresses))
    × ((config.contracts ≡ []) ⊎ (tx.to ≡ "") ⊎ Among tx.to config.contracts)
    × AtLeast config.min_value tx.value
    × ((config.exclude_empty ≡ false) ⊎ ((tx.to ≢ "") × (tx.value ≢ some (pos 0))))

is_empty_iff : (xs : List String) → (is_empty xs ≡ true) ↔ (xs ≡ [])
is_empty_iff [] = ground arith
is_empty_iff (x ∷ xs) = ground arith

zero_value_iff : (v : Option ℤ) → (zero_value v ≡ true) ↔ (v ≡ some (pos 0))
unfolding zero_value
zero_value_iff none = ground arith
zero_value_iff (some (pos zero)) = ground arith
zero_value_iff (some (pos (suc n))) = ground arith
zero_value_iff (some (negsuc n)) = ground arith

-- A transaction passes exactly if its sender or its receiver is among the addresses, its receiver is
-- among the contracts, its value reaches the minimum, and it is not empty, each where the filter
-- asks for it; a transaction without receiver passes the contracts.
pub should_include_transaction_iff :
    (config : FilterConfig) (tx : Transaction)
    → (should_include_transaction config tx ≡ true) ↔ Included config tx
unfolding should_include_transaction
should_include_transaction_iff config tx = ground (
  arith,
  is_empty_iff config.addresses,
  is_empty_iff config.contracts,
  contains_string_iff config.addresses tx.from,
  contains_string_iff config.addresses tx.to,
  contains_string_iff config.contracts tx.to,
  below_minimum_iff config.min_value tx.value,
  zero_value_iff tx.value,
  str_eq_iff tx.to "",
)
