-- ===== src/Schedule/Align.antt =====
-- src/cpuattn/schedule/planning.py: _align, and the power-of-two test of its callers.
use Prim.Native.Nat.{bit_and}
use cpuattn.Prelude.{
  ℕ, ◌+◌, ◌-◌, ◌*◌, ◌/◌, ◌%◌, ◌^◌, ◌≤◌, ◌<◌, ◌≡◌, ◌∙◌, Bool, true, arith, leb, nat_beq, not, ◌||◌,
}
use native.Mathlib.Nat.{div-add-mod, mul-mod_right, mod-lt, mod_self}
use cpuattn.Prelude.Bits.{IsPowerOfTwo, bit_and_mask, power_of_bit_and, pow-pos}

-- (value + alignment - 1) & -alignment. In two's complement x & -a is x without its bits in a - 1.
unfoldable pub align : ℕ → ℕ → ℕ
align value alignment = let x = value + alignment - 1 in x - bit_and x (alignment - 1)

round_down : (x m : ℕ) → 0 < m → (x - x % m) % m ≡ 0
round_down x m h =
    let e : x - x % m ≡ m * (x / m) = omega (arith, div-add-mod x m) in
    rw e (mul-mod_right m (x / m))

round_up_bounds :
    (value m : ℕ)
    → 0 < m
    → (value ≤ (value + m - 1) - (value + m - 1) % m)
      × ((value + m - 1) - (value + m - 1) % m < value + m)
round_up_bounds value m h = omega (arith, mod-lt (value + m - 1) h)

pub align-eq :
    (value k : ℕ) → align value (2 ^ k) ≡ (value + 2 ^ k - 1) - (value + 2 ^ k - 1) % 2 ^ k
unfolding align
align-eq value k = rw (bit_and_mask k (value + 2 ^ k - 1))

-- At a power of two, the result is the least multiple that is not below the value.
pub align_bounds :
    (value alignment : ℕ)
    → IsPowerOfTwo alignment
    → (value ≤ align value alignment)
      × (align value alignment < value + alignment)
      × (align value alignment % alignment ≡ 0)
align_bounds value alignment (k, e) =
    let (low, high) = round_up_bounds value (2 ^ k) (pow-pos k) in
    rw (e, align-eq value k) (low, high, round_down (value + 2 ^ k - 1) (2 ^ k) (pow-pos k))

-- What passes the test of the constructors, and only that, is a power of two.
abbrev pub is_aligned : ℕ → Bool
is_aligned p = not (leb p 0 || not (nat_beq (bit_and p (p - 1)) 0))

pub power_of_test : (p : ℕ) → is_aligned p ≡ true → IsPowerOfTwo p
power_of_test p h = power_of_bit_and p (ground arith) (ground arith)

pub test_of_power : (p : ℕ) → IsPowerOfTwo p → (0 < p) × (bit_and p (p - 1) ≡ 0)
test_of_power p (k, e) = rw e (pow-pos k, bit_and_mask k (2 ^ k) ∙ mod_self (2 ^ k))
