-- ===== src/Util/Tests.antt =====
-- Texts and numbers of pkg/util/util.go.
use smart_scanner.Common.{◌≡◌, refl, ok, err, true, false, negsuc, [], ◌∷◌}
use smart_scanner.Util.{
  set_string, digits, scan, hex_value, decimal_value, hex_digits, hex_digit, all_hex, codes,
  parse_big_int, parse_block_number, invalid_hex_number, number_too_large, format_block_number,
  is_valid_address, contains_string,
}
use smart_scanner.Util.Slices.{
  remove_from, remove_duplicate_strings, chunks_from, chunk_string_slice,
}

format-255 : format_block_number 255 ≡ codes "0xff"
unfolding format_block_number hex_digits hex_digit
format-255 = refl

parse_mixed : parse_block_number (codes "0xAf0") ≡ ok 2800
unfolding parse_block_number set_string digits scan hex_value decimal_value
parse_mixed = refl

parse_bare : parse_block_number (codes "0x") ≡ err invalid_hex_number
unfolding parse_block_number set_string digits scan hex_value decimal_value
parse_bare = refl

parse_large : parse_block_number (codes "0x10000000000000000") ≡ err number_too_large
unfolding parse_block_number set_string digits scan hex_value decimal_value
parse_large = refl

parse_negative : parse_big_int (codes "-0a") ≡ ok (negsuc 9)
unfolding parse_big_int set_string digits scan hex_value
parse_negative = refl

short_address : is_valid_address "0x12" ≡ false
unfolding is_valid_address all_hex hex_value
short_address = refl

long_address : is_valid_address "0xdAC17F958D2ee523a2206206994597C13D831ec7" ≡ true
unfolding is_valid_address all_hex hex_value
long_address = refl

removes : remove_duplicate_strings ("a" ∷ "b" ∷ "a" ∷ []) ≡ "a" ∷ "b" ∷ []
unfolding remove_duplicate_strings remove_from contains_string
removes = refl

chunks : chunk_string_slice 2 ("a" ∷ "b" ∷ "c" ∷ []) ≡ ("a" ∷ "b" ∷ []) ∷ ("c" ∷ []) ∷ []
unfolding chunk_string_slice chunks_from
chunks = refl
