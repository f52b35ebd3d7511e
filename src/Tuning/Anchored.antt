-- ===== src/Tuning/Anchored.antt =====
-- src/cpuattn/tuning/worker_count.py: the measured numbers of workers are legal ones, as many as
-- allowed, with the largest among them.
use cpuattn.Prelude.{
  ℕ, zero, suc, ◌+◌, ◌<◌, ◌≤◌, ◌≡◌, refl, sym, ap, ◌∙◌, max, min, Bool, true, false, not, ◌&&◌,
  Option, none, some, List, [], ◌∷◌, ◌++◌, nat_eq, ◌==◌, leb, length, length-take, take, contains,
  count, count-append, count-take-le, contains_of_count, count_of_contains, keep, all, arith,
  if◌then◌else◌, Bool-cases, inl, inr,
}
use cpuattn.Prelude.Sort.{sort, count-sort, length-sort, IsSorted, sort-IsSorted}
use cpuattn.Schedule.Host.{LogicalCpu}
use cpuattn.Tuning.Anchors.{
  is_power_of_two, largest, not_below, descending, topology, priorities, worker_anchors,
}

keep_yes : (p : ℕ → Bool) (x : ℕ) (xs : List ℕ) → p x ≡ true → keep p (x ∷ xs) ≡ x ∷ keep p xs
keep_yes p x xs h = rw (h, keep)

keep_no : (p : ℕ → Bool) (x : ℕ) (xs : List ℕ) → p x ≡ false → keep p (x ∷ xs) ≡ keep p xs
keep_no p x xs h = rw (h, keep)

count-keep :
    (p : ℕ → Bool) (a : ℕ) (xs : List ℕ) → count a (keep p xs) ≡ (if p a then count a xs else 0)
count-keep p a [] = ground arith
count-keep p a (x ∷ xs) =
    let ih = count-keep p a xs in
    let same : (a == x) ≡ true → p a ≡ p x = λ h. ap p ((nat_eq.beq_iff a x).0 h) in
    elim (Bool-cases (p x)) [
      | inl kept ↦ rw (keep_yes p x xs kept) (ground (arith, ih, same))
      | inr dropped ↦ rw (keep_no p x xs dropped) (ground (arith, ih, same))
    ]

unfoldable remove : ℕ → List ℕ → List ℕ
remove x [] = []
remove x (y ∷ ys) = let rest = remove x ys in if x == y then ys else y ∷ rest

remove_facts :
    (a x : ℕ) (ys : List ℕ)
    → 0 < count x ys
    → (count a (remove x ys) + (if a == x then 1 else 0) ≡ count a ys)
      × (suc (length (remove x ys)) ≡ length ys)
unfolding remove
remove_facts a x [] h = absurd (omega arith)
remove_facts a x (y ∷ ys) h = elim (Bool-cases (x == y)) [
  | inl here ↦
      let same : (if a == x then 1 else 0) ≡ (if a == y then 1 else 0) =
        ap {B = ℕ} (λ z. if a == z then 1 else 0) ((nat_eq.beq_iff x y).0 here) in
      (rw here (omega (arith, same)), rw here refl)
  | inr there ↦
      let later : 0 < count x ys = ground (arith, h, there) in
      let (counts, lengths) = remove_facts a x ys later in
      (rw there (omega (arith, counts)), rw there (omega (arith, lengths)))
]

length_of_count : (xs ys : List ℕ) → ((a : ℕ) → count a xs ≡ count a ys) → length xs ≡ length ys
length_of_count [] [] h = refl
length_of_count [] (y ∷ ys) h = absurd (ground (arith, h y, nat_eq.beq_iff y y))
length_of_count (x ∷ xs) ys h =
    let there : 0 < count x ys = ground (arith, h x, nat_eq.beq_iff x x) in
    omega (
      arith,
      length_of_count xs (remove x ys) (λ a. omega (arith, h a, (remove_facts a x ys there).0)),
      (remove_facts x x ys there).1,
    )

-- Three parts that are told apart by tests, the last by whether the first two hold anything.
split_total :
    (c f p t : ℕ) (named power known : Bool)
    → f ≡ (if named then c else 0)
    → p ≡ (if power && not named then c else 0)
    → t ≡ (if not known then c else 0)
    → (known ≡ true → 0 < f + p)
    → (known ≡ false → f + p ≡ 0)
    → (f + p) + t ≡ c
split_total c f p t true power true a b d h k = ground (arith, h refl)
split_total c f p t true power false a b d h k = ground (arith, k refl)
split_total c f p t false true true a b d h k = ground (arith, h refl)
split_total c f p t false true false a b d h k = ground (arith, k refl)
split_total c f p t false false true a b d h k = ground (arith, h refl)
split_total c f p t false false false a b d h k = ground (arith, k refl)

count_of_absent : (a : ℕ) (xs : List ℕ) → contains xs a ≡ false → count a xs ≡ 0
count_of_absent a xs h = ground (arith, contains_of_count a xs)

-- The order of wishes lists the legal numbers, each as often as it is legal.
count-priorities :
    (cpus : List LogicalCpu) (legal : List ℕ) (a : ℕ)
    → count a (priorities cpus legal) ≡ count a legal
unfolding priorities descending
count-priorities cpus legal a =
    let named = topology cpus legal in
    let sorted = count-sort not_below a legal in
    let first = sort not_below (keep (contains named) legal) in
    let power : ℕ → Bool = λ w. is_power_of_two w && not (contains named w) in
    let powers = keep power (sort not_below legal) in
    let priority = first ++ powers in
    let c1 : count a first ≡ (if contains named a then count a legal else 0) =
      count-sort not_below a (keep (contains named) legal) ∙ count-keep (contains named) a legal in
    let c2 = count-keep power a (sort not_below legal) in
    let c3 = count-keep (λ w. not (contains priority w)) a (sort not_below legal) in
    let both = count-append a first powers in
    let all_three =
      count-append a priority (keep (λ w. not (contains priority w)) (sort not_below legal)) in
    let total =
      split_total (count a legal) (count a first) (count a powers)
        (count a (keep (λ w. not (contains priority w)) (sort not_below legal))) (contains named a)
        (is_power_of_two a) (contains priority a) c1 (rw sorted at c2) (rw sorted at c3)
        (λ h. omega (arith, both, count_of_contains a priority h))
        (λ h. omega (arith, both, count_of_absent a priority h)) in
    omega (arith, all_three, both, total)

below-largest : (a : ℕ) (xs : List ℕ) → contains xs a ≡ true → a ≤ largest xs
below-largest a [] h = ground arith
below-largest a (x ∷ xs) h = ground (arith, below-largest a xs, nat_eq.beq_iff a x)

contains-largest : (x : ℕ) (xs : List ℕ) → contains (x ∷ xs) (largest (x ∷ xs)) ≡ true
contains-largest x [] = ground (arith, nat_eq.beq_iff (max x 0) x)
contains-largest x (y ∷ ys) =
    ground (arith, contains-largest y ys, nat_eq.beq_iff (largest (x ∷ y ∷ ys)) x)

-- In a list that falls, an element that none exceeds comes first.
head_of_sorted :
    (m : ℕ) (xs : List ℕ)
    → IsSorted not_below xs
    → contains xs m ≡ true
    → ((a : ℕ) → contains xs a ≡ true → a ≤ m)
    → (rest : List ℕ) × (xs ≡ m ∷ rest)
head_of_sorted m [] sorted h bound = absurd (ground arith)
head_of_sorted m (y ∷ ys) sorted h bound =
    let top : y ≤ m = bound y (ground (arith, nat_eq.beq_iff y y)) in
    let low : m ≤ y = elim (Bool-cases (m == y)) [
      | inl here ↦ omega (arith, (nat_eq.beq_iff m y).0 here)
      | inr there ↦ all_below y ys m sorted.0 (ground (arith, h, there))
    ] in
    let same : y ≡ m = omega (arith, top, low) in (ys, ap (λ z. z ∷ ys) same)
  where
    all_below :
        (y : ℕ) (ys : List ℕ) (m : ℕ) → all (not_below y) ys ≡ true → contains ys m ≡ true → m ≤ y
    all_below y [] m h k = ground arith
    all_below y (z ∷ zs) m h k = ground (arith, all_below y zs m, nat_eq.beq_iff m z)

-- The largest legal number comes first in the order of wishes.
priorities-head :
    (cpus : List LogicalCpu) (x : ℕ) (legal : List ℕ)
    → (rest : List ℕ) × (priorities cpus (x ∷ legal) ≡ largest (x ∷ legal) ∷ rest)
unfolding priorities descending topology
priorities-head cpus x legal =
    let all_legal = x ∷ legal in
    let m = largest all_legal in
    let named = topology cpus all_legal in
    let kept = keep (contains named) all_legal in
    let first = sort not_below kept in
    let counted : (a : ℕ) → count a first ≡ (if contains named a then count a all_legal else 0) =
      λ a. count-sort not_below a kept ∙ count-keep (contains named) a all_legal in
    let is_named : contains named m ≡ true = ground (arith, nat_eq.beq_iff m m) in
    let legal_too = count_of_contains m all_legal (contains-largest x legal) in
    let there : contains first m ≡ true =
      contains_of_count m first (ground (arith, counted m, is_named, legal_too)) in
    let bound : (a : ℕ) → contains first a ≡ true → a ≤ m = λ a h.
      below-largest a all_legal
        (contains_of_count a all_legal (ground (arith, counted a, count_of_contains a first h))) in
    let sorted : IsSorted not_below first =
      sort-IsSorted not_below (λ a b h. ground (arith, h)) (λ a b c h k. ground (arith, h, k))
        kept in
    let (rest, same) = head_of_sorted m first sorted there bound in
    let power : ℕ → Bool = λ w. is_power_of_two w && not (contains named w) in
    let powers = keep power (sort not_below all_legal) in
    let priority = first ++ powers in
    let others = keep (λ w. not (contains priority w)) (sort not_below all_legal) in
    ((rest ++ powers) ++ others, ap (λ f. (f ++ powers) ++ others) same)

contains-take : (m : ℕ) (rest : List ℕ) (n : ℕ) → 0 < n → contains (take n (m ∷ rest)) m ≡ true
contains-take m rest zero h = absurd (omega (arith, h))
contains-take m rest (suc n) h = ground (arith, nat_eq.beq_iff m m)

-- The numbers of workers that may be chosen.
abbrev pub allowed : Option ℕ → ℕ → ℕ
allowed none n = n
allowed (some limit) n = min limit n

abbrev pub IsLimit : Option ℕ → Type 0
IsLimit none = Unit
IsLimit (some limit) = 0 < limit

pub record IsAnchors (legal : List ℕ) (limit : Option ℕ) (anchors : List ℕ) : Type 0 where
  pub part : (a : ℕ) → count a anchors ≤ count a legal
  pub size : length anchors ≡ allowed limit (length legal)
  pub top : contains anchors (largest legal) ≡ true

descending-IsAnchors :
    (x : ℕ) (legal : List ℕ) (limit : Option ℕ)
    → allowed limit (length (x ∷ legal)) ≡ length (x ∷ legal)
    → IsAnchors (x ∷ legal) limit (descending (x ∷ legal))
unfolding descending
descending-IsAnchors x legal limit same =
    let counted : (a : ℕ) → count a (sort not_below (x ∷ legal)) ≡ count a (x ∷ legal) =
      λ a. count-sort not_below a (x ∷ legal) in
    let m = largest (x ∷ legal) in
    record {
      part = λ a. omega (arith, counted a);
      size = length-sort not_below (x ∷ legal) ∙ sym same;
      top =
          contains_of_count m _
            (omega (arith, counted m, count_of_contains m (x ∷ legal) (contains-largest x legal)));
    }

-- For legal numbers of workers of which there is one at least, and no limit or one above zero: the
-- anchors are legal numbers, none more often than it is legal, as many as the limit allows, and the
-- largest legal number is among them.
pub worker_anchors-IsAnchors :
    (cpus : List LogicalCpu) (limit : Option ℕ) (x : ℕ) (legal : List ℕ)
    → IsLimit limit
    → IsAnchors (x ∷ legal) limit (worker_anchors cpus limit (x ∷ legal))
unfolding worker_anchors
worker_anchors-IsAnchors cpus none x legal h = descending-IsAnchors x legal none refl
worker_anchors-IsAnchors cpus (some n) x legal h = elim (Bool-cases (leb (length (x ∷ legal)) n)) [
  | inl few ↦ rw few (descending-IsAnchors x legal (some n) (ground (arith, few)))
  | inr many ↦
      let wishes = priorities cpus (x ∷ legal) in
      let counted = count-priorities cpus (x ∷ legal) in
      let (rest, same) = priorities-head cpus x legal in
      let sized = length_of_count wishes (x ∷ legal) counted in
      rw many record {
        part = λ a. omega (arith, counted a, count-take-le a n wishes);
        size = omega (arith, length-take n wishes, sized);
        top = rw same (contains-take (largest (x ∷ legal)) rest n h);
      }
]
