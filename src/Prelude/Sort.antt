-- ===== src/Prelude/Sort.antt =====
-- Python's sorted(xs, key=...): a stable insertion sort by a Boolean order.
use cpuattn.Prelude.Tests.{Eq, ◌==◌, if◌then◌else◌, Bool-cases}
use cpuattn.Prelude.Lists.{length, All, all}
use cpuattn.Prelude.Members.{count}
use Prim.Native.Nat.{suc, ◌+◌}
use mathlib.Core.Path.{◌≡◌, refl}
use mathlib.Core.Bool.{Bool, true, false}
use mathlib.Core.Logic.{inl, inr}
use mathlib.Core.List.{List, [], ◌∷◌}
use native.Mathlib.Omega.{arith}

module _ {ℓ} {A : Type ℓ} (le : A → A → Bool) where
  unfoldable pub insert_sorted : A → List A → List A
  insert_sorted x [] = x ∷ []
  insert_sorted x (y ∷ ys) =
      let rest = insert_sorted x ys in if le x y then x ∷ y ∷ ys else y ∷ rest

  unfoldable pub sort : List A → List A
  unfolding insert_sorted
  sort [] = []
  sort (x ∷ xs) = insert_sorted x (sort xs)

  length-insert_sorted : (x : A) (xs : List A) → length (insert_sorted x xs) ≡ suc (length xs)
  unfolding insert_sorted
  length-insert_sorted x [] = refl
  length-insert_sorted x (y ∷ ys) = ground (arith, length-insert_sorted x ys)

  pub length-sort : (xs : List A) → length (sort xs) ≡ length xs
  unfolding sort
  length-sort [] = refl
  length-sort (x ∷ xs) = omega (arith, length-sort xs, length-insert_sorted x (sort xs))

  module _ ⦃e : Eq A⦄ where
    count-insert_sorted :
        (a x : A) (xs : List A)
        → count a (insert_sorted x xs) ≡ (if a == x then 1 else 0) + count a xs
    unfolding insert_sorted
    count-insert_sorted a x [] = refl
    count-insert_sorted a x (y ∷ ys) = ground (arith, count-insert_sorted a x ys)

    pub count-sort : (a : A) (xs : List A) → count a (sort xs) ≡ count a xs
    unfolding sort
    count-sort a [] = refl
    count-sort a (x ∷ xs) = omega (arith, count-sort a xs, count-insert_sorted a x (sort xs))

  module _ {κ} (P : A → Type κ) where
    All-insert_sorted : (x : A) (xs : List A) → P x → All P xs → All P (insert_sorted x xs)
    unfolding insert_sorted
    All-insert_sorted x [] p h = (p, tt)
    All-insert_sorted x (y ∷ ys) p h = elim (Bool-cases (le x y)) [
      | inl below ↦ rw below (p, h)
      | inr above ↦ rw above (h.0, All-insert_sorted x ys p h.1)
    ]

    pub All-sort : (xs : List A) → All P xs → All P (sort xs)
    unfolding sort
    All-sort [] h = tt
    All-sort (x ∷ xs) h = All-insert_sorted x (sort xs) h.0 (All-sort xs h.1)

  -- Every element is at most those behind it.
  abbrev pub IsSorted : List A → Type 0
  IsSorted [] = Unit
  IsSorted (x ∷ xs) = (all (le x) xs ≡ true) × IsSorted xs

  module _ (total : (x y : A) → le x y ≡ false → le y x ≡ true)
      (trans : (x y z : A) → le x y ≡ true → le y z ≡ true → le x z ≡ true) where
    all-insert_sorted :
        (z x : A) (xs : List A)
        → le z x ≡ true
        → all (le z) xs ≡ true
        → all (le z) (insert_sorted x xs) ≡ true
    unfolding insert_sorted
    all-insert_sorted z x [] p h = ground arith
    all-insert_sorted z x (y ∷ ys) p h = ground (arith, all-insert_sorted z x ys p)

    all_trans :
        (z x : A) (xs : List A) → le z x ≡ true → all (le x) xs ≡ true → all (le z) xs ≡ true
    all_trans z x [] p h = refl
    all_trans z x (y ∷ ys) p h = ground (arith, trans z x y, all_trans z x ys p)

    insert_sorted-IsSorted : (x : A) (xs : List A) → IsSorted xs → IsSorted (insert_sorted x xs)
    unfolding insert_sorted
    insert_sorted-IsSorted x [] h = (refl, tt)
    insert_sorted-IsSorted x (y ∷ ys) h = elim (Bool-cases (le x y)) [
      | inl below ↦ rw below (ground (arith, all_trans x y ys below h.0), h)
      | inr above ↦
          rw above (all-insert_sorted y x ys (total x y above) h.0, insert_sorted-IsSorted x ys h.1)
    ]

    pub sort-IsSorted : (xs : List A) → IsSorted (sort xs)
    unfolding sort
    sort-IsSorted [] = tt
    sort-IsSorted (x ∷ xs) = insert_sorted-IsSorted x (sort xs) (sort-IsSorted xs)
