-- ===== src/Native/Backend/Accepted.antt =====
-- src/cpuattn/native/backends/base.py: what the constructors accept of what a backend builds.
use Prim.Native.String.{◌++◌ as append_text, count}
use text.Mathlib.TextLemmas.{length-append as count-append_text}
use native.Mathlib.Nat.{pow-succ'}
use cpuattn.Prelude.{
  ℕ, zero, suc, ◌+◌, ◌*◌, ◌/◌, ◌^◌, ◌<◌, String, ◌≡◌, refl, sym, ap, Bool, true, false, not, ◌&&◌,
  List, [], ◌∷◌, ◌++◌, ◌==◌, string_eq, leb, length, length-append, contains, All, All-append,
  Result, ok, arith, Bool-cases, inl, inr,
}
use cpuattn.Prelude.Bits.{IsPowerOfTwo, pow-pos}
use cpuattn.Schedule.Plan.{
  ScheduleKind, DecompositionKind, PackingKind, make_tile, make_microkernel, make_workspace_abi,
  CodePlan, code_post_init, is_packed, is_blocked, is_split, merges, is_parallel, is_dynamic,
  differ,
}
use cpuattn.Schedule.Memory.Layout.{expected_names}
use cpuattn.Native.Backend.{Backend}
use cpuattn.Native.Backend.Enumerate.{for_each, abi_names}

-- A loop whose every step returns.
pub for_each-keeps {ℓ κ u v} :
    {A : Type ℓ} {B : Type κ} (Q : A → Type u) (P : B → Type v) (f : A → Result (List B))
    → ((x : A) → Q x → (ys : List B) × (f x ≡ ok ys) × (0 < length ys) × All P ys)
    → (x : A) (xs : List A) → All Q (x ∷ xs)
    → (ys : List B) × (for_each f (x ∷ xs) ≡ ok ys) × (0 < length ys) × All P ys
unfolding for_each
for_each-keeps Q P f step x [] q =
    let (ys, here, filled, p) = step x q.0 in
    (ys ++ [], rw here, omega (arith, length-append ys [], filled), All-append P ys [] p tt)
for_each-keeps Q P f step x (y ∷ xs) q =
    let (ys, here, filled, p) = step x q.0 in
    let (zs, rest, _, p') = for_each-keeps Q P f step y xs q.1 in
    (ys ++ zs, rw (here, rest), omega (arith, length-append ys zs, filled), All-append P ys zs p p')

-- The decompositions of Parallel calls.
abbrev pub cuts_parallel : DecompositionKind → Bool
cuts_parallel DecompositionKind.query_blocks = true
cuts_parallel DecompositionKind.split_key = true
cuts_parallel DecompositionKind.query_groups_key_parts = true
cuts_parallel _ = false

-- A code plan that its constructor accepts, with the regions and the tile that a memory plan needs.
pub record IsKernel (code : CodePlan) : Type 0 where
  pub accepted : code_post_init code ≡ ok tt
  pub names : code.region_names ≡ expected_names code
  pub tile_q : 0 < code.tile.q
  pub tile_k : IsPowerOfTwo code.tile.k
  pub cuts : cuts_parallel code.decomposition ≡ true

pub named : (p s : String) → 0 < count p → (append_text p s == "") ≡ false
named p s h = elim (Bool-cases (append_text p s == "")) [
  | inr filled ↦ filled
  | inl empty ↦
      let none_left = ap count ((string_eq.beq_iff (append_text p s) "").0 empty) in
      absurd (omega (arith, none_left, count-append_text p s, h))
]

pub make_tile-returns :
    (q k d dv : ℕ)
    → 0 < q
    → 0 < k
    → 0 < d
    → 0 < dv
    → make_tile q k d dv ≡ ok (record { q = q; k = k; d = d; dv = dv })
unfolding make_tile
make_tile-returns q k d dv a b c e = ground arith

pub make_microkernel-returns :
    (name : String) (n : ℕ)
    → (name == "") ≡ false
    → 0 < n
    → make_microkernel name n ≡ ok (record { name = name; qk_vectors = n })
unfolding make_microkernel
make_microkernel-returns name n a b = ground arith

pub abi_names-returns :
    (private : String) (packing : PackingKind)
    → (private == "") ≡ false
    → ("packed_k" == private) ≡ false
    → (make_workspace_abi (abi_names private packing) ≡ ok (abi_names private packing))
      × (contains (abi_names private packing) "packed_k" ≡ is_packed packing)
unfolding make_workspace_abi
abi_names-returns private PackingKind.unpacked h k = (ground arith, ground arith)
abi_names-returns private PackingKind.k_transposed h k = (ground arith, ground arith)

pub differ_self : (x y : Bool) → x ≡ y → differ x y ≡ false
differ_self true y h = rw (sym h)
differ_self false y h = sym h

pub dynamic_blocked : (s : ScheduleKind) → (is_dynamic s && false) ≡ false
dynamic_blocked ScheduleKind.static = refl
dynamic_blocked ScheduleKind.dynamic = refl

pub code_accepted :
    (c : CodePlan)
    → (c.backend_id == "") ≡ false
    → leb c.vector_bytes 0 ≡ false
    → (not (is_parallel c.lowering) && is_packed c.packing) ≡ false
    → (is_dynamic c.schedule && not (is_blocked c.lowering)) ≡ false
    → contains c.region_names "packed_k" ≡ is_packed c.packing
    → (is_split c.lowering && not (merges c.merge)) ≡ false
    → (not (is_split c.lowering) && merges c.merge) ≡ false
    → code_post_init c ≡ ok tt
unfolding code_post_init
code_accepted c id vectors linear dynamic packs split whole =
    rw (id, vectors, linear, dynamic, differ_self _ _ packs, split, whole)

-- What a backend has of its own.
pub record IsBackend (b : Backend) : Type 0 where
  pub has_id : (b.backend_id == "") ≡ false
  pub vectors : leb b.vector_bytes 0 ≡ false
  pub power : IsPowerOfTwo (b.vector_bytes / 4)

pub pow_sum : (i j : ℕ) → 2 ^ i * 2 ^ j ≡ 2 ^ (i + j)
pow_sum zero j = let same : zero + j ≡ j = omega arith in rw same (omega arith)
pow_sum (suc i) j =
    let same : suc i + j ≡ suc (i + j) = omega arith in
    let once = pow-succ' 2 i in
    let more = pow-succ' 2 (i + j) in let ih = pow_sum i j in rw (same, once, more) (grind arith)

pub power-times : (a b : ℕ) → IsPowerOfTwo a → IsPowerOfTwo b → IsPowerOfTwo (a * b)
power-times a b (i, p) (j, q) = (i + j, (rw (p, q) (pow_sum i j)))

pub power-pos : (a : ℕ) → IsPowerOfTwo a → 0 < a
power-pos a (i, p) = omega (arith, pow-pos i)

pub product-pos : (a c : ℕ) → 0 < a → 0 < c → 0 < a * c
product-pos a c p q = grind arith
