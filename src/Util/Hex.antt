-- ===== src/Util/Hex.antt =====
-- A block number is read back from the text that it is formatted to.
use smart_scanner.Common.{
  ℕ, ◌≢◌, if◌then◌else◌, lt→ltb, ne→==_false, ◌⊎◌, zero, suc, ◌+◌, ◌*◌, ◌/◌, ◌%◌, ◌<◌, ◌≡◌, refl,
  ◌∙◌, some, none, List, [], ◌∷◌, arith, ok, ◌==◌, u64_mod, pos, inl, inr, Bool-cases,
}
use smart_scanner.Util.{
  hex_value, scan, digits, set_string, parse_block_number, hex_digit, hex_digits,
  format_block_number,
}

-- 16 to the power of `fuel`.
below : ℕ → ℕ
below zero = 1
below (suc fuel) = 16 * below fuel

hex_value-hex_digit : (d : ℕ) → d < 16 → hex_value (hex_digit d) ≡ some d
unfolding hex_value hex_digit
hex_value-hex_digit d h = ground arith

scan-hex_digit :
    (n : ℕ) (out : List ℕ)
    → scan hex_value 16 (hex_digit (n % 16) ∷ out) (n / 16) ≡ scan hex_value 16 out n
unfolding scan
scan-hex_digit n out =
    let whole : n / 16 * 16 + n % 16 ≡ n = omega arith in
    rw (hex_value-hex_digit (n % 16) (omega arith), scan) (rw whole refl)

-- Reading the digits of `n` from 0 on gives `n`.
scan-hex_digits :
    (fuel n : ℕ) (out : List ℕ)
    → n < below fuel
    → scan hex_value 16 (hex_digits fuel n out) 0 ≡ scan hex_value 16 out n
unfolding hex_digits below
scan-hex_digits zero n out h = let e : n ≡ 0 = omega arith in rw e refl
scan-hex_digits (suc fuel) n out h = elim (Bool-cases (n == 0)) [
  | inl e ↦ let none_left : n ≡ 0 = ground arith in rw (none_left) refl
  | inr e ↦ rw e (
      scan-hex_digits fuel (n / 16) (hex_digit (n % 16) ∷ out) (omega arith) ∙ scan-hex_digit n out)
]

-- The first digit is no sign.
NoSign : List ℕ → Type 0
NoSign [] = ⊥
NoSign (c ∷ cs) = (c ≢ b'-') × (c ≢ b'+')

hex_digit-ne : (d : ℕ) → d < 16 → (hex_digit d ≢ b'-') × (hex_digit d ≢ b'+')
unfolding hex_digit
hex_digit-ne d h = ground arith

NoSign-hex_digits :
    (fuel n : ℕ) (out : List ℕ)
    → NoSign out ⊎ (0 < n)
    → n < below fuel
    → NoSign (hex_digits fuel n out)
unfolding hex_digits below NoSign
NoSign-hex_digits zero n out (inl h) b = h
NoSign-hex_digits zero n out (inr h) b = absurd (omega arith)
NoSign-hex_digits (suc fuel) n out h b = elim (Bool-cases (n == 0)) [
  | inl e ↦ rw e (elim h [ inl some_out ↦ some_out | inr positive ↦ absurd (ground arith) ])
  | inr e ↦ rw e (
      NoSign-hex_digits fuel (n / 16) (hex_digit (n % 16) ∷ out)
        (inl (hex_digit-ne (n % 16) (omega arith))) (omega arith))
]

set_string-NoSign :
    (cs : List ℕ)
    → NoSign cs
    → set_string cs ≡ (elim (digits hex_value 16 cs) [ none ↦ none | some n ↦ some (pos n) ])
unfolding set_string NoSign digits
set_string-NoSign [] h = elim h [ ]
set_string-NoSign (c ∷ cs) h = rw (ne→==_false c b'-' h.0, ne→==_false c b'+' h.1) refl

-- The digits that stand behind "0x".
behind : ℕ → List ℕ
behind n = if n == 0 then b'0' ∷ [] else hex_digits 16 n []

behind-NoSign : (n : ℕ) → n < u64_mod → NoSign (behind n)
unfolding behind NoSign below
behind-NoSign n h = elim (Bool-cases (n == 0)) [
  | inl e ↦ rw e (omega arith, omega arith)
  | inr e ↦ rw e (NoSign-hex_digits 16 n [] (inr (ground arith)) h)
]

digits-NoSign : (cs : List ℕ) → NoSign cs → digits hex_value 16 cs ≡ scan hex_value 16 cs 0
unfolding digits NoSign
digits-NoSign [] h = elim h [ ]
digits-NoSign (c ∷ cs) h = refl

digits-behind : (n : ℕ) → n < u64_mod → digits hex_value 16 (behind n) ≡ some n
unfolding behind below
digits-behind n h = digits-NoSign (behind n) (behind-NoSign n h) ∙ elim (Bool-cases (n == 0)) [
  | inl e ↦ let none_left : n ≡ 0 = ground arith in rw none_left (unfold scan hex_value in refl)
  | inr e ↦ rw e (scan-hex_digits 16 n [] h ∙ unfold scan in refl)
]

-- The text that a uint64 is formatted to is read back as this number.
pub parse_block_number-format_block_number :
    (n : ℕ) → n < u64_mod → parse_block_number (format_block_number n) ≡ ok n
unfolding parse_block_number format_block_number behind
parse_block_number-format_block_number n h =
    let read : set_string (behind n) ≡ some (pos n) =
      set_string-NoSign (behind n) (behind-NoSign n h) ∙ rw (digits-behind n h) refl in
    rw (read, parse_block_number) (rw (lt→ltb n u64_mod h) refl)
