-- ===== src/Schedule/Launch/Balance.antt =====
-- src/cpuattn/schedule/planning.py: the round-robin choice of processors takes each at most once, and
-- the loops over sizes have fuel enough.
use cpuattn.Prelude.{
  ℕ, zero, suc, ◌+◌, ◌*◌, ◌<◌, ◌≤◌, ◌≡◌, refl, Option, none, some, List, [], ◌∷◌, ◌++◌, ◌==◌,
  nat_eq, nat_beq, get_elem?, take, count, count-append, count-take-le, concat, length,
  length-append, arith, Bool-cases, Option-cases, inl, inr, if◌then◌else◌,
}
use cpuattn.Prelude.Dict.{Dict, values}
use cpuattn.Prelude.Groups.{spread, count-spread-sort}
use cpuattn.Schedule.Launch.{one_round, rounds, balanced_cpus, sorted_items, by_key, doublings}

-- What the first `offset` rounds may have taken.
abbrev taken : ℕ → ℕ → List (List ℕ) → ℕ
taken a offset [] = 0
taken a offset (cpus ∷ nodes) = count a (take offset cpus) + taken a offset nodes

-- The number of `a` in the list's element at `i`.
abbrev count_at : ℕ → Option ℕ → ℕ
count_at a none = 0
count_at a (some x) = if a == x then 1 else 0

count-take-suc :
    (a offset : ℕ) (cpus : List ℕ)
    → count a (take (suc offset) cpus)
      ≡ count a (take offset cpus) + count_at a (get_elem? cpus offset)
count-take-suc a zero [] = refl
count-take-suc a (suc offset) [] = refl
count-take-suc a zero (x ∷ cpus) = omega arith
count-take-suc a (suc offset) (x ∷ cpus) = omega (arith, count-take-suc a offset cpus)

taken-le :
    (a offset : ℕ) (nodes : List (List ℕ)) → taken a offset nodes ≤ taken a (suc offset) nodes
taken-le a offset [] = omega arith
taken-le a offset (cpus ∷ nodes) =
    omega (arith, taken-le a offset nodes, count-take-suc a offset cpus)

one_round_past :
    (offset enough : ℕ) (result cpus : List ℕ) (nodes : List (List ℕ))
    → get_elem? cpus offset ≡ none
    → one_round offset enough result (cpus ∷ nodes) ≡ one_round offset enough result nodes
unfolding one_round
one_round_past offset enough result cpus nodes h = rw (h, one_round)

one_round_taken :
    (offset enough : ℕ) (result cpus : List ℕ) (nodes : List (List ℕ)) (cpu : ℕ)
    → get_elem? cpus offset ≡ some cpu
    → one_round offset enough result (cpus ∷ nodes) ≡ (
        if nat_beq (length (result ++ cpu ∷ [])) enough
        then result ++ cpu ∷ []
        else one_round offset enough (result ++ cpu ∷ []) nodes)
unfolding one_round
one_round_taken offset enough result cpus nodes cpu h = rw (h, one_round)

count-one_round :
    (a offset enough : ℕ) (result : List ℕ) (nodes : List (List ℕ))
    → count a (one_round offset enough result nodes) + taken a offset nodes
      ≤ count a result + taken a (suc offset) nodes
unfolding one_round
count-one_round a offset enough result [] = omega arith
count-one_round a offset enough result (cpus ∷ nodes) =
    elim (Option-cases (get_elem? cpus offset)) [
      | inl past ↦ rw (one_round_past offset enough result cpus nodes past) (
          omega (arith, count-one_round a offset enough result nodes, count-take-suc a offset cpus))
      | inr (x, here) ↦
          let grown = count-take-suc a offset cpus in
          let one : count_at a (get_elem? cpus offset) ≡ (if a == x then 1 else 0) = rw here in
          let more = count-append a result (x ∷ []) in
          rw (one_round_taken offset enough result cpus nodes x here)
            (elim (Bool-cases (nat_beq (length (result ++ x ∷ [])) enough)) [
              | inl full ↦ rw full (omega (arith, grown, one, more, taken-le a offset nodes))
              | inr room ↦ rw room (
                  omega (
                    arith,
                    grown,
                    one,
                    more,
                    count-one_round a offset enough (result ++ x ∷ []) nodes,
                  ))
            ])
    ]

length-take-all : (n : ℕ) (a : ℕ) (nodes : List (List ℕ)) → taken a n nodes ≤ count a (concat nodes)
length-take-all n a [] = omega arith
length-take-all n a (cpus ∷ nodes) =
    omega
      (arith, length-take-all n a nodes, count-take-le a n cpus, count-append a cpus (concat nodes))

count-rounds :
    (fuel a offset enough : ℕ) (result : List ℕ) (nodes : List (List ℕ))
    → count a result ≤ taken a offset nodes
    → count a (rounds fuel offset enough result nodes) ≤ count a (concat nodes)
unfolding rounds
count-rounds zero a offset enough result nodes h = omega (arith, length-take-all offset a nodes)
count-rounds (suc fuel) a offset enough result nodes h =
    let more = one_round offset enough result nodes in
    let here = length-take-all offset a nodes in
    let step : count a more ≤ taken a (suc offset) nodes =
      omega (arith, count-one_round a offset enough result nodes) in
    let successor : offset + 1 ≡ suc offset = omega arith in
    let next : count a (rounds fuel (offset + 1) enough more nodes) ≤ count a (concat nodes) =
      count-rounds fuel a (offset + 1) enough more nodes (rw successor step) in
    ground (arith, here, next)

pub count-balanced_cpus-le :
    (a : ℕ) (by_node : Dict ℕ (List ℕ)) (workers : ℕ)
    → count a (balanced_cpus by_node workers) ≤ count a (spread by_node)
unfolding balanced_cpus
count-balanced_cpus-le a by_node workers = omega (
  arith,
  count-rounds workers a 0 workers [] (values (sorted_items by_node)) (omega arith),
  count-spread-sort by_key a by_node,
)

length-one_round :
    (offset enough : ℕ) (result : List ℕ) (nodes : List (List ℕ))
    → (length result ≤ length (one_round offset enough result nodes))
      × (length result < enough → length (one_round offset enough result nodes) ≤ enough)
unfolding one_round
length-one_round offset enough result [] = (omega arith, λ h. omega arith)
length-one_round offset enough result (cpus ∷ nodes) = elim (Option-cases (get_elem? cpus offset)) [
  | inl past ↦
      rw (one_round_past offset enough result cpus nodes past)
        (length-one_round offset enough result nodes)
  | inr (x, here) ↦
      let grown = length-append result (x ∷ []) in
      let (longer, bounded) = length-one_round offset enough (result ++ x ∷ []) nodes in
      rw (one_round_taken offset enough result cpus nodes x here)
        (ground (arith, grown, longer), λ h. ground (arith, grown, bounded))
]

length-rounds :
    (fuel offset enough : ℕ) (result : List ℕ) (nodes : List (List ℕ))
    → length result ≤ enough
    → length (rounds fuel offset enough result nodes) ≤ enough
unfolding rounds
length-rounds zero offset enough result nodes h = h
length-rounds (suc fuel) offset enough result nodes h =
    let more = one_round offset enough result nodes in
    ground (
      arith,
      (length-one_round offset enough result nodes).1,
      length-rounds fuel (offset + 1) enough more nodes,
    )

pub length-balanced_cpus :
    (by_node : Dict ℕ (List ℕ)) (workers : ℕ) → length (balanced_cpus by_node workers) ≤ workers
unfolding balanced_cpus
length-balanced_cpus by_node workers =
    length-rounds workers 0 workers [] (values (sorted_items by_node)) (omega arith)

-- The loop has rounds enough when they are as many as the processors that are missing.
pub rounds_enough :
    (fuel offset enough : ℕ) (result : List ℕ) (nodes : List (List ℕ))
    → enough ≤ length result + fuel
    → rounds (suc fuel) offset enough result nodes ≡ rounds fuel offset enough result nodes
unfolding rounds
rounds_enough zero offset enough result nodes h = ground arith
rounds_enough (suc fuel) offset enough result nodes h =
    let more = one_round offset enough result nodes in
    ground (
      arith,
      (length-one_round offset enough result nodes).0,
      rounds_enough fuel (offset + 1) enough more nodes,
    )

pub doublings_enough :
    (fuel size limit : ℕ)
    → 0 < size
    → limit < size + fuel
    → doublings (suc fuel) size limit ≡ doublings fuel size limit
unfolding doublings
doublings_enough zero size limit pos h = ground arith
doublings_enough (suc fuel) size limit pos h =
    ground (arith, doublings_enough fuel (size * 2) limit)
