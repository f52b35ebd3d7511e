-- ===== src/Core/Float.antt =====
-- The literals of expressions. A Python float is its IEEE 754 bit pattern; what arithmetic does
-- with one is NumPy's business, and a parameter where it is used.
use cpuattn.Prelude.{ℕ, ◌/◌, ◌%◌, ◌^◌, ◌≡◌, refl, Bool, true, false, not, ◌&&◌, ◌||◌, nat_beq}

abbrev pub Float : Type 0
Float = ℕ

abbrev pub zero_float : Float
zero_float = 0

abbrev pub one : Float
one = 0x3ff0000000000000

abbrev pub minus_infinity : Float
minus_infinity = 0xfff0000000000000

-- All ones in the exponent, and a mantissa.
unfoldable pub is_nan : Float → Bool
is_nan x = nat_beq (x / 2 ^ 52 % 2048) 2047 && not (nat_beq (x % 2 ^ 52) 0)

is_zero : Float → Bool
is_zero x = nat_beq (x % 2 ^ 63) 0

-- Python's `==` on floats: a nan differs from everything, and the two zeros are equal.
unfoldable pub float_eq : Float → Float → Bool
unfolding is_nan is_zero
float_eq x y = not (is_nan x) && not (is_nan y) && (nat_beq x y || (is_zero x && is_zero y))

zeros_equal : float_eq 0 (2 ^ 63) ≡ true
unfolding float_eq
zeros_equal = refl

nan_differs : float_eq 0x7ff8000000000000 0x7ff8000000000000 ≡ false
unfolding float_eq
nan_differs = refl
