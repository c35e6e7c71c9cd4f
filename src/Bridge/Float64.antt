-- ===== src/Bridge/Float64.antt =====
-- `f64` as its 64 bits (IEEE 754 binary64), with the tests that the bridge makes.
use deno_director.Prelude.{ℕ, ◌/◌, ◌%◌, Bool, not, ◌&&◌, nat_beq}

abbrev pub F64 : Type 0
F64 = ℕ

abbrev pub zero_bits : F64
zero_bits = 0

abbrev pub nan : F64
nan = 0x7FF8_0000_0000_0000

abbrev pub infinity : F64
infinity = 0x7FF0_0000_0000_0000

abbrev pub neg_infinity : F64
neg_infinity = 0xFFF0_0000_0000_0000

abbrev pub neg_zero : F64
neg_zero = 0x8000_0000_0000_0000

-- The exponent of an infinity or a NaN.
abbrev pub is_special : F64 → Bool
is_special x = nat_beq (x / 0x10_0000_0000_0000 % 0x800) 0x7FF

unfoldable pub is_finite : F64 → Bool
is_finite x = not (is_special x)

unfoldable pub is_nan : F64 → Bool
is_nan x = is_special x && not (nat_beq (x % 0x10_0000_0000_0000) 0)
