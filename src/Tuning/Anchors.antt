-- ===== src/Tuning/Anchors.antt =====
-- src/cpuattn/tuning/worker_count.py: which numbers of workers are measured.
use Prim.Native.Nat.{bit_and}
use cpuattn.Prelude.{
  ℕ, ◌-◌, max, Bool, not, ◌&&◌, Option, none, some, List, [], ◌∷◌, ◌++◌, map, nat_eq, pair_eq,
  nat_beq, ltb, leb, length, take, contains, set_of, keep, if◌then◌else◌,
}
use cpuattn.Prelude.Sort.{sort}
use cpuattn.Prelude.Dict.{Dict, values}
use cpuattn.Prelude.Groups.{append_to}
use cpuattn.Schedule.Host.{LogicalCpu, core_of}

-- _is_power_of_two
unfoldable pub is_power_of_two : ℕ → Bool
is_power_of_two value = ltb 0 value && nat_beq (bit_and value (value - 1)) 0

-- The cores of each node, as lists that may repeat one.
unfoldable pub cores_by_node : List LogicalCpu → Dict ℕ (List (ℕ × ℕ)) → Dict ℕ (List (ℕ × ℕ))
unfolding append_to
cores_by_node [] d = d
cores_by_node (c ∷ cpus) d = cores_by_node cpus (append_to c.numa_node (core_of c) d)

-- max(legal), of a list that is not empty
abbrev pub largest : List ℕ → ℕ
largest [] = 0
largest (x ∷ xs) = max x (largest xs)

-- sorted(numbers, reverse=True)
abbrev pub not_below : ℕ → ℕ → Bool
not_below a b = leb b a

unfoldable pub descending : List ℕ → List ℕ
unfolding sort
descending numbers = sort not_below numbers

-- The numbers that the topology names: the largest, and the cores of a node.
unfoldable pub topology : List LogicalCpu → List ℕ → List ℕ
unfolding cores_by_node
topology cpus legal =
    largest legal ∷ map (λ cores. length (set_of cores)) (values (cores_by_node cpus []))

-- The legal numbers in the order in which they are wanted.
unfoldable pub priorities : List LogicalCpu → List ℕ → List ℕ
unfolding topology descending is_power_of_two
priorities cpus legal =
    let named = topology cpus legal in
    let first = descending (keep (contains named) legal) in
    let powers = keep (λ w. is_power_of_two w && not (contains named w)) (descending legal) in
    let priority = first ++ powers in
    priority ++ keep (λ w. not (contains priority w)) (descending legal)

-- _worker_anchors, on the set of the legal numbers.
unfoldable pub worker_anchors : List LogicalCpu → Option ℕ → List ℕ → List ℕ
unfolding descending priorities
worker_anchors cpus limit [] = []
worker_anchors cpus none (x ∷ legal) = descending (x ∷ legal)
worker_anchors cpus (some n) (x ∷ legal) =
    if leb (length (x ∷ legal)) n
    then descending (x ∷ legal)
    else take n (priorities cpus (x ∷ legal))
