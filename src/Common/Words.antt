-- ===== src/Common/Words.antt =====
-- Go's uint64 as a native number below 2^64: arithmetic wraps.
use Prim.Native.Nat.{ℕ, ◌+◌, ◌-◌, ◌*◌, ◌%◌}

-- 2 ^ 64 and 2 ^ 63.
abbrev pub u64_mod : ℕ
u64_mod = 18446744073709551616

abbrev pub i64_min : ℕ
i64_min = 9223372036854775808

abbrev pub add64 : ℕ → ℕ → ℕ
add64 a b = (a + b) % u64_mod

abbrev pub sub64 : ℕ → ℕ → ℕ
sub64 a b = (a + u64_mod - b) % u64_mod

abbrev pub mul64 : ℕ → ℕ → ℕ
mul64 a b = a * b % u64_mod
