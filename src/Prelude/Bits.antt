-- ===== src/Prelude/Bits.antt =====
-- Facts on `&` of Python's integers: masks of ones, and the test for a power of two.
use Prim.Native.Nat.{ℕ, zero, suc, ◌+◌, ◌-◌, ◌*◌, ◌/◌, ◌%◌, ◌^◌, ◌≤◌, ◌<◌, min}
use Prim.Native.Nat.{bit_and, digits, bit_and-bitwise}
use mathlib.Core.Path.{◌≡◌, refl, sym, ◌∙◌}
use mathlib.Core.Logic.{◌⊎◌, inl, inr}
use native.Mathlib.Nat.{pow-succ'}
use native.Mathlib.Omega.{arith}

-- `a & b`, reading at most `n` digits of `a`.
abbrev low_and : ℕ → ℕ → ℕ → ℕ
low_and n a b = digits (λ _. 0) min n a b

low_and-zero : (n a : ℕ) → low_and n a 0 ≡ 0
low_and-zero zero a = refl
low_and-zero (suc n) zero = refl
low_and-zero (suc n) (suc a) = omega (arith, low_and-zero n (suc a / 2))

low_and_self : (n a : ℕ) → a ≤ n → low_and n a a ≡ a
low_and_self zero a h = omega arith
low_and_self (suc n) zero h = refl
low_and_self (suc n) (suc a) h = omega (arith, low_and_self n (suc a / 2))

-- The lowest digit split off a remainder.
mod_double : (a m : ℕ) → 0 < m → a % (2 * m) ≡ (a / 2) % m * 2 + a % 2
mod_double a m h = grind arith

pub pow-pos : (k : ℕ) → 0 < 2 ^ k
pow-pos zero = omega arith
pow-pos (suc k) = omega (arith, pow-succ' 2 k, pow-pos k)

low_and_mask : (n k a : ℕ) → a ≤ n → low_and n a (2 ^ k - 1) ≡ a % 2 ^ k
low_and_mask n zero a h = omega (arith, low_and-zero n a)
low_and_mask zero (suc k) zero h = omega (arith, pow-succ' 2 k, pow-pos k)
low_and_mask zero (suc k) (suc a) h = absurd (omega arith)
low_and_mask (suc n) (suc k) zero h = omega (arith, pow-succ' 2 k, pow-pos k)
low_and_mask (suc n) (suc k) (suc a) h =
    let m = 2 ^ k in
    let b = suc a in
    let half : (2 * m - 1) / 2 ≡ m - 1 = omega (arith, pow-pos k) in
    let odd : (2 * m - 1) % 2 ≡ 1 = omega (arith, pow-pos k) in
    let ih : low_and n (b / 2) (m - 1) ≡ (b / 2) % m = low_and_mask n k (b / 2) (omega arith) in
    rw (pow-succ' 2 k, mod_double b m (pow-pos k), half, odd, ih) (omega arith)

-- x & (2 ** k - 1) is the remainder.
pub bit_and_mask : (k a : ℕ) → bit_and a (2 ^ k - 1) ≡ a % 2 ^ k
bit_and_mask k a = bit_and-bitwise a (2 ^ k - 1) ∙ low_and_mask a k a (omega arith)

abbrev pub IsPowerOfTwo : ℕ → Type 0
IsPowerOfTwo p = (k : ℕ) × (p ≡ 2 ^ k)

parity : (n : ℕ) → (n % 2 ≡ 0) ⊎ (n % 2 ≡ 1)
parity n = grind arith

power_of_low_and : (n p : ℕ) → p ≤ n → 0 < p → low_and n p (p - 1) ≡ 0 → IsPowerOfTwo p
power_of_low_and zero p h pos z = absurd (omega arith)
power_of_low_and (suc n) zero h pos z = absurd (omega arith)
power_of_low_and (suc n) (suc zero) h pos z = (0, refl)
power_of_low_and (suc n) (suc (suc q)) h pos z = elim (parity p) [
  | inl even ↦
      let below : (p - 1) / 2 ≡ p / 2 - 1 = omega arith in
      let (k, e) =
        power_of_low_and n (p / 2) (omega arith) (omega arith)
          (let top : low_and n (p / 2) ((p - 1) / 2) ≡ 0 = omega (arith, z) in rw below at top) in
      (suc k, omega (arith, e, pow-succ' 2 k))
  | inr odd ↦
      let same : (p - 1) / 2 ≡ p / 2 = omega arith in
      let top : low_and n (p / 2) ((p - 1) / 2) ≡ 0 = omega (arith, z) in
      let again : low_and n (p / 2) (p / 2) ≡ 0 = rw same at top in
      absurd (omega (arith, low_and_self n (p / 2) (omega arith), again))
]
  where
    p : ℕ
    p = suc (suc q)

-- The source's test: a positive number with p & (p - 1) == 0 is a power of two.
pub power_of_bit_and : (p : ℕ) → 0 < p → bit_and p (p - 1) ≡ 0 → IsPowerOfTwo p
power_of_bit_and p pos z =
    power_of_low_and p p (omega arith) pos (sym (bit_and-bitwise p (p - 1)) ∙ z)
