-- ===== src/Runtime/Lengths.antt =====
-- src/cpuattn/runtime.py: the padded key length and the tuning bucket of a key length.
use cpuattn.Prelude.{
  ℕ, zero, suc, ◌+◌, ◌-◌, ◌*◌, ◌/◌, ◌^◌, ◌≤◌, ◌<◌, ◌≡◌, refl, ap, arith, leb, if◌then◌else◌, false,
  Bool-cases, inl, inr,
}
use native.Mathlib.Nat.{div-add-mod, mul_comm, pow-succ'}
use cpuattn.Prelude.Bits.{IsPowerOfTwo, pow-pos}
use cpuattn.Schedule.Align.{align, align-eq}

-- _packed_skv: -(-key_length // tile_k) * tile_k, the quotient rounded up.
unfoldable pub packed_skv : ℕ → ℕ → ℕ
packed_skv key_length tile_k = (key_length + tile_k - 1) / tile_k * tile_k

-- int.bit_length
bit_length_fuel : ℕ → ℕ → ℕ
bit_length_fuel zero n = 0
bit_length_fuel (suc f) zero = 0
bit_length_fuel (suc f) (suc n) = suc (bit_length_fuel f (suc n / 2))

unfoldable pub bit_length : ℕ → ℕ
unfolding bit_length_fuel
bit_length n = bit_length_fuel n n

abbrev pub bucket_unit : ℕ
bucket_unit = 64

-- _kv_bucket: _KV_BUCKET_UNIT << ((key_length - 1) // _KV_BUCKET_UNIT).bit_length()
unfoldable pub kv_bucket : ℕ → ℕ
unfolding bit_length
kv_bucket key_length =
    if leb key_length bucket_unit
    then bucket_unit
    else bucket_unit * 2 ^ bit_length ((key_length - 1) / bucket_unit)

bit_length_fuel_zero : (f : ℕ) → bit_length_fuel f 0 ≡ 0
unfolding bit_length_fuel
bit_length_fuel_zero zero = refl
bit_length_fuel_zero (suc f) = refl

bit_length_mask : (f j : ℕ) → 2 ^ j - 1 ≤ f → bit_length_fuel f (2 ^ j - 1) ≡ j
unfolding bit_length_fuel
bit_length_mask f zero h = bit_length_fuel_zero f
bit_length_mask zero (suc j) h = absurd (omega (arith, pow-succ' 2 j, pow-pos j))
bit_length_mask (suc f) (suc j) h =
    let m = 2 ^ j in
    let shape : 2 ^ suc j - 1 ≡ suc (2 * m - 2) = omega (arith, pow-succ' 2 j, pow-pos j) in
    let half : suc (2 * m - 2) / 2 ≡ m - 1 = omega (arith, pow-pos j) in
    rw (shape, bit_length_fuel, half) (ap suc (bit_length_mask f j (omega (arith, shape))))

two_pow : (j : ℕ) → 0 < j → 2 ≤ 2 ^ j
two_pow zero pos = absurd (omega arith)
two_pow (suc j) pos = omega (arith, pow-succ' 2 j, pow-pos j)

bit_length-pos : (m : ℕ) → 0 < m → 0 < bit_length m
unfolding bit_length bit_length_fuel
bit_length-pos zero pos = pos
bit_length-pos (suc m) pos = omega arith

edge : (j : ℕ) → 0 < j → kv_bucket (bucket_unit * 2 ^ j) ≡ bucket_unit * 2 ^ j
unfolding kv_bucket
edge j pos =
    let big : leb (bucket_unit * 2 ^ j) bucket_unit ≡ false = ground (arith, two_pow j pos) in
    let below : (bucket_unit * 2 ^ j - 1) / bucket_unit ≡ 2 ^ j - 1 = omega (arith, pow-pos j) in
    rw (big, below, bit_length_mask (2 ^ j - 1) j (omega arith)) refl

-- The edge of a bucket is in the bucket.
pub kv_bucket_idem : (key_length : ℕ) → kv_bucket (kv_bucket key_length) ≡ kv_bucket key_length
unfolding kv_bucket
kv_bucket_idem key_length = elim (Bool-cases (leb key_length bucket_unit)) [
  | inl small ↦ rw small refl
  | inr large ↦
      let j = bit_length ((key_length - 1) / bucket_unit) in
      rw large (edge j (bit_length-pos _ (ground arith)))
]

-- At a power of two, the planner's padding of K is the padding that the packed layout is read with.
pub align-eq-packed_skv :
    (key_length tile_k : ℕ)
    → IsPowerOfTwo tile_k
    → align key_length tile_k ≡ packed_skv key_length tile_k
unfolding packed_skv
align-eq-packed_skv key_length tile_k (k, e) =
    rw (e, align-eq key_length k)
      (omega (
        arith,
        div-add-mod (key_length + 2 ^ k - 1) (2 ^ k),
        mul_comm (2 ^ k) ((key_length + 2 ^ k - 1) / 2 ^ k),
      ))
