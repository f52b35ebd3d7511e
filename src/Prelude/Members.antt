-- ===== src/Prelude/Members.antt =====
-- Membership, uniqueness and counting by `==`: what Python's sets are used for.
use Prim.Native.Nat.{ℕ, zero, suc, ◌+◌, ◌≤◌, ◌<◌}
use mathlib.Core.Path.{◌≡◌, refl}
use mathlib.Core.Bool.{Bool, true, false, not, ◌&&◌, ◌||◌}
use mathlib.Core.List.{List, [], ◌∷◌, ◌++◌}
use native.Mathlib.Omega.{arith}
use cpuattn.Prelude.Tests.{Eq, ◌==◌, if◌then◌else◌}
use cpuattn.Prelude.Lists.{all, take}

module _ {ℓ} {A : Type ℓ} ⦃e : Eq A⦄ where
  -- x in xs
  abbrev pub contains : List A → A → Bool
  contains [] a = false
  contains (x ∷ xs) a = a == x || contains xs a

  -- len(xs) == len(set(xs))
  abbrev pub distinct : List A → Bool
  distinct [] = true
  distinct (x ∷ xs) = not (contains xs x) && distinct xs

  -- list(set(xs)), in some order
  abbrev pub set_of : List A → List A
  set_of [] = []
  set_of (x ∷ xs) = let rest = set_of xs in if contains xs x then rest else x ∷ rest

  pub contains-set_of : (xs : List A) (a : A) → contains (set_of xs) a ≡ contains xs a
  contains-set_of [] a = refl
  contains-set_of (x ∷ xs) a = ground (arith, contains-set_of xs a, e.beq_iff a x)

  pub distinct-set_of : (xs : List A) → distinct (set_of xs) ≡ true
  distinct-set_of [] = refl
  distinct-set_of (x ∷ xs) = ground (arith, contains-set_of xs x, distinct-set_of xs)

  -- set(xs) <= set(ys)
  abbrev pub subset : List A → List A → Bool
  subset xs ys = all (contains ys) xs

  -- set(xs) == set(ys)
  abbrev pub same_set : List A → List A → Bool
  same_set xs ys = subset xs ys && subset ys xs

  abbrev pub count : A → List A → ℕ
  count a [] = 0
  count a (x ∷ xs) = (if a == x then 1 else 0) + count a xs

  pub count-append : (a : A) (xs ys : List A) → count a (xs ++ ys) ≡ count a xs + count a ys
  count-append a [] ys = omega arith
  count-append a (x ∷ xs) ys = omega (arith, count-append a xs ys)

  pub count-take-le : (a : A) (n : ℕ) (xs : List A) → count a (take n xs) ≤ count a xs
  count-take-le a zero xs = omega arith
  count-take-le a (suc n) [] = omega arith
  count-take-le a (suc n) (x ∷ xs) = omega (arith, count-take-le a n xs)

  pub contains_of_count : (a : A) (xs : List A) → 0 < count a xs → contains xs a ≡ true
  contains_of_count a [] h = absurd (omega arith)
  contains_of_count a (x ∷ xs) h = ground (arith, contains_of_count a xs)

  pub count_of_contains : (a : A) (xs : List A) → contains xs a ≡ true → 0 < count a xs
  count_of_contains a (x ∷ xs) h = ground (arith, count_of_contains a xs)
  count_of_contains a [] h = ground arith

  pub distinct_of_count : (xs : List A) → ((a : A) → count a xs ≤ 1) → distinct xs ≡ true
  distinct_of_count [] h = refl
  distinct_of_count (x ∷ xs) h = ground (
    arith,
    h x,
    e.beq_iff x x,
    count_of_contains x xs,
    distinct_of_count xs (λ a. omega (arith, h a)),
  )

  pub count_of_distinct : (a : A) (xs : List A) → distinct xs ≡ true → count a xs ≤ 1
  count_of_distinct a [] h = omega arith
  count_of_distinct a (x ∷ xs) h =
      ground (arith, e.beq_iff a x, count_of_distinct a xs, contains_of_count a xs)

  pub subset_of_count :
      (xs ys : List A) → ((a : A) → 0 < count a xs → 0 < count a ys) → subset xs ys ≡ true
  subset_of_count [] ys h = refl
  subset_of_count (x ∷ xs) ys h = ground (
    arith,
    h x,
    e.beq_iff x x,
    contains_of_count x ys,
    subset_of_count xs ys (λ a p. h a (omega arith)),
  )

  pub contains_of_subset :
      (xs ys : List A) (a : A) → subset xs ys ≡ true → contains xs a ≡ true → contains ys a ≡ true
  contains_of_subset [] ys a h p = ground arith
  contains_of_subset (x ∷ xs) ys a h p = ground (arith, e.beq_iff a x, contains_of_subset xs ys a)

  pub contains-append :
      (xs ys : List A) (a : A) → contains (xs ++ ys) a ≡ (contains xs a || contains ys a)
  contains-append [] ys a = refl
  contains-append (x ∷ xs) ys a = ground (arith, contains-append xs ys a)

  pub subset_of_contains :
      (xs ys : List A)
      → ((a : A) → contains xs a ≡ true → contains ys a ≡ true)
      → subset xs ys ≡ true
  subset_of_contains [] ys h = refl
  subset_of_contains (x ∷ xs) ys h =
      ground (arith, h x, e.beq_iff x x, subset_of_contains xs ys (λ a p. h a (ground arith)))

  -- Inclusion of a list in another, by membership.
  abbrev pub Covers : List A → List A → Type ℓ
  Covers xs ys = (a : A) → contains xs a ≡ true → contains ys a ≡ true

  pub subset_trans : (xs ys zs : List A) → subset xs ys ≡ true → Covers ys zs → subset xs zs ≡ true
  subset_trans xs ys zs h k = subset_of_contains xs zs (λ a p. k a (contains_of_subset xs ys a h p))
