-- ===== src/Storage/Elastic/Numbers.antt =====
-- Numbers that pass through a float64: the reads decode the source of a document to
-- `map[string]interface{}` and marshal it again before it is unmarshalled. encoding/json decodes a
-- number to the nearest float64 there, and writes that with the fewest digits that are read as the same
-- float64, from 10^21 on with an exponent, which no integer type of Go accepts.
use smart_scanner.Common.{
  ℕ, zero, suc, ◌+◌, ◌*◌, ◌/◌, ◌%◌, ◌≤◌, ◌≡◌, refl, Option, none, some, ℤ, pos, negsuc,
  if◌then◌else◌, ◌==◌, ltb, leb, le→leb, lt→leb_false, u64_mod, arith,
}

-- 2 ^ 53: up to here every integer is a float64.
abbrev pub max_exact : ℕ
max_exact = 9007199254740992

-- The distance of neighbouring floats at a number below 2^73.
abbrev pub spacing_from : (fuel n : ℕ) → ℕ
spacing_from zero n = 1
spacing_from (suc fuel) n =
    let rest = spacing_from fuel (n / 2) in if ltb n max_exact then 1 else 2 * rest

abbrev pub spacing : ℕ → ℕ
spacing n = spacing_from 20 n

-- The nearest multiple, and of two the even one.
abbrev pub nearest : (n unit : ℕ) → ℕ
nearest n unit =
    let below = n / unit in
    let left = 2 * (n % unit) in
    (if ltb left unit then below else if ltb unit left then below + 1 else below + below % 2) * unit

abbrev pub to_float : ℕ → ℕ
to_float n = nearest n (spacing n)

abbrev pub power_of_ten : ℕ → ℕ
power_of_ten zero = 1
power_of_ten (suc k) = 10 * power_of_ten k

-- The multiples of a power of ten on both sides of a float, where they are read as this float.
abbrev pub rounded : (f power : ℕ) → Option ℕ
rounded f power =
    let below = f / power * power in
    let above = if f % power == 0 then below else below + power in
    if to_float below == f
    then some (if to_float above == f then nearest f power else below)
    else if to_float above == f
    then some above
    else none

abbrev pub or_else : {A : Type 0} → Option A → A → A
or_else (some a) b = a
or_else none b = b

abbrev pub shortest : (digits f : ℕ) → ℕ
shortest zero f = f
shortest (suc k) f = let rest = shortest k f in or_else (rounded f (power_of_ten (suc k))) rest

-- 10 ^ 21.
abbrev pub exponent_from : ℕ
exponent_from = 1000000000000000000000

abbrev pub written : ℕ → Option ℕ
written f = if leb exponent_from f then none else some (shortest 20 f)

unfoldable pub reread_large : ℕ → Option ℕ
reread_large n = if leb exponent_from n then none else written (to_float n)

abbrev pub fits : Option ℕ → Option ℕ
fits none = none
fits (some n) = if ltb n u64_mod then some n else none

-- A natural number, and a uint64.
unfoldable pub reread : ℕ → Option ℕ
reread n = if leb n max_exact then some n else reread_large n

unfoldable pub reread64 : ℕ → Option ℕ
reread64 n = if leb n max_exact then some n else fits (reread_large n)

abbrev pub negated : ℕ → ℤ
negated zero = pos 0
negated (suc n) = negsuc n

abbrev pub signed : (ℕ → ℤ) → Option ℕ → Option ℤ
signed sign none = none
signed sign (some n) = some (sign n)

abbrev pub reread_integer : ℤ → Option ℤ
reread_integer (pos n) = signed pos (reread n)
reread_integer (negsuc n) = signed negated (reread (suc n))

pub reread-exact : (n : ℕ) → n ≤ max_exact → reread n ≡ some n
unfolding reread
reread-exact n h = rw (le→leb n max_exact h) refl

pub reread64-exact : (n : ℕ) → n ≤ max_exact → reread64 n ≡ some n
unfolding reread64
reread64-exact n h = rw (le→leb n max_exact h) refl

-- An integer that is a float64, and an amount that is one or is missing.
abbrev pub ExactInteger : ℤ → Type 0
ExactInteger (pos n) = n ≤ max_exact
ExactInteger (negsuc n) = suc n ≤ max_exact

abbrev pub ExactAmount : Option ℤ → Type 0
ExactAmount none = Unit
ExactAmount (some z) = ExactInteger z

pub reread_integer-exact : (z : ℤ) → ExactInteger z → reread_integer z ≡ some z
reread_integer-exact (pos n) h = rw (reread-exact n h) refl
reread_integer-exact (negsuc n) h = rw (reread-exact (suc n) h) refl

-- A number of 10^21 at least is not read.
pub reread-large : (n : ℕ) → exponent_from ≤ n → reread n ≡ none
unfolding reread reread_large
reread-large n h = rw (lt→leb_false n max_exact (omega arith), le→leb exponent_from n h) refl
