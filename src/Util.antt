-- ===== src/Util.antt =====
-- pkg/util/util.go: numbers and addresses as text. A text is walked as the list of its code points.
-- `SetString` of math/big and `ParseUint` of strconv are written out as far as the callers see them.
pub mod Hex
pub mod Slices
mod Tests
use Prim.Native.Char.{code}
use Prim.Native.String
use Prim.Native.String.{len}
use smart_scanner.Common.{
  ℕ, zero, suc, ◌+◌, ◌-◌, ◌*◌, ◌/◌, ◌%◌, String, Bool, true, false, ◌&&◌, Option, none, some, List,
  [], ◌∷◌, Outcome, ok, err, if◌then◌else◌, ltb, leb, ◌==◌, u64_mod, ℤ, pos, negsuc, neg_ℕ, str_eq,
}

abbrev pub codes : String → List ℕ
codes String.[] = []
codes (String.◌∷◌ c s) = code c ∷ codes s

-- A digit of base 16, in either case.
unfoldable pub hex_value : ℕ → Option ℕ
hex_value c =
    if leb 48 c && leb c 57
    then some (c - 48)
    else if leb 97 c && leb c 102
    then some (c - 87)
    else if leb 65 c && leb c 70
    then some (c - 55)
    else none

unfoldable pub decimal_value : ℕ → Option ℕ
decimal_value c = if leb 48 c && leb c 57 then some (c - 48) else none

-- The digits after the value `acc` of those before them.
unfoldable pub scan : (value : ℕ → Option ℕ) (base : ℕ) → List ℕ → ℕ → Option ℕ
scan value base [] acc = some acc
scan value base (c ∷ cs) acc = elim (value c) [
  | none ↦ none
  | some d ↦ scan value base cs (acc * base + d)
]

-- At least one digit, and nothing else.
unfoldable pub digits : (value : ℕ → Option ℕ) (base : ℕ) → List ℕ → Option ℕ
digits value base [] = none
digits value base (c ∷ cs) = scan value base (c ∷ cs) 0

-- `SetString(s, 16)`: a sign may stand before the digits.
unfoldable pub set_string : List ℕ → Option ℤ
set_string [] = none
set_string (c ∷ cs) =
    if c == b'-'
    then elim (digits hex_value 16 cs) [ none ↦ none | some n ↦ some (neg_ℕ n) ]
    else if c == b'+'
    then elim (digits hex_value 16 cs) [ none ↦ none | some n ↦ some (pos n) ]
    else elim (digits hex_value 16 (c ∷ cs)) [ none ↦ none | some n ↦ some (pos n) ]

-- `strings.HasPrefix(s, "0x")` and the text behind the prefix.
abbrev pub behind_0x : List ℕ → Option (List ℕ)
behind_0x [] = none
behind_0x (c ∷ []) = none
behind_0x (c ∷ x ∷ cs) = if c == b'0' && x == b'x' then some cs else none

pub data NumberError : Type 0 where
  invalid_big_int invalid_hex_number number_too_large invalid_decimal_number : NumberError

unfoldable pub parse_big_int : List ℕ → Outcome NumberError ℤ
parse_big_int cs =
    let hex : List ℕ = elim (behind_0x cs) [ none ↦ cs | some rest ↦ rest ] in
    elim (set_string hex) [ none ↦ err invalid_big_int | some z ↦ ok z ]

-- `IsUint64` and `Uint64`.
abbrev pub uint64_of : ℤ → Outcome NumberError ℕ
uint64_of (pos n) = if ltb n u64_mod then ok n else err number_too_large
uint64_of (negsuc n) = err number_too_large

unfoldable pub parse_block_number : List ℕ → Outcome NumberError ℕ
parse_block_number cs = elim (behind_0x cs) [
  | some hex ↦ elim (set_string hex) [ none ↦ err invalid_hex_number | some z ↦ uint64_of z ]
  | none ↦ elim (digits decimal_value 10 cs) [
    | none ↦ err invalid_decimal_number
    | some n ↦ if ltb n u64_mod then ok n else err invalid_decimal_number
  ]
]

-- A digit of `%x`.
unfoldable pub hex_digit : ℕ → ℕ
hex_digit d = if ltb d 10 then 48 + d else 87 + d

-- The digits of `n` in front of `out`, as many as `fuel` at most.
unfoldable pub hex_digits : (fuel n : ℕ) → List ℕ → List ℕ
hex_digits zero n out = out
hex_digits (suc fuel) n out =
    let rest = hex_digits fuel (n / 16) (hex_digit (n % 16) ∷ out) in if n == 0 then out else rest

-- `fmt.Sprintf("0x%x", n)`: a uint64 has 16 digits at most.
unfoldable pub format_block_number : ℕ → List ℕ
format_block_number n = b'0' ∷ b'x' ∷ (if n == 0 then b'0' ∷ [] else hex_digits 16 n [])

unfoldable pub all_hex : List ℕ → Bool
all_hex [] = true
all_hex (c ∷ cs) = let rest = all_hex cs in elim (hex_value c) [ none ↦ false | some d ↦ rest ]

-- Addresses with the prefix "0x" have 40 digits; any other text of two bytes passes.
unfoldable pub is_valid_address : String → Bool
is_valid_address address = if ltb (len address) 2 then false else elim (behind_0x (codes address)) [
  | some hex ↦ len address == 42 && all_hex hex
  | none ↦ true
]

unfoldable pub contains_string : List String → String → Bool
contains_string [] item = false
contains_string (s ∷ slice) item =
    let rest = contains_string slice item in if str_eq s item then true else rest
