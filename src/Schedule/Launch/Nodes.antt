-- ===== src/Schedule/Launch/Nodes.antt =====
-- src/cpuattn/schedule/planning.py: the physical processors of each node, one for each core, and the
-- worker groups of a launch.
use mathlib.Core.Path.{subst}
use cpuattn.Prelude.{
  ℕ, ◌+◌, ◌<◌, ◌≤◌, ◌≡◌, refl, sym, ◌∙◌, ap, true, false, List, [], ◌∷◌, map, ◌==◌, nat_eq, pair_eq,
  contains, distinct, count, contains_of_count, ok, arith, All, Bool-cases, inl, inr, if◌then◌else◌,
  traverse,
}
use cpuattn.Prelude.Dict.{Dict}
use cpuattn.Prelude.Groups.{append_to, spread, count-append_to}
use cpuattn.Schedule.Host.{LogicalCpu, Host, cpu_ids, core_of}
use cpuattn.Schedule.Launch.{cpu_of, physical_loop}
use cpuattn.Schedule.Launch.Grouping.{IsFound, In, In-of_contains}

-- The first processor of each core.
unfoldable pub physical : List (ℕ × ℕ) → List LogicalCpu → List LogicalCpu
physical seen [] = []
physical seen (c ∷ cpus) =
    let rest = physical (core_of c ∷ seen) cpus in
    let skipped = physical seen cpus in if contains seen (core_of c) then skipped else c ∷ rest

pub count-physical_loop :
    (a : ℕ) (seen : List (ℕ × ℕ)) (d : Dict ℕ (List ℕ)) (cpus : List LogicalCpu)
    → count a (spread (physical_loop seen d cpus))
      ≡ count a (spread d) + count a (cpu_ids (physical seen cpus))
unfolding physical_loop physical
count-physical_loop a seen d [] = omega arith
count-physical_loop a seen d (c ∷ cpus) = elim (Bool-cases (contains seen (core_of c))) [
  | inl known ↦ rw known (count-physical_loop a seen d cpus)
  | inr new ↦ rw new (
      omega (
        arith,
        count-physical_loop a (core_of c ∷ seen) (append_to c.numa_node c.cpu_id d) cpus,
        count-append_to a c.numa_node c.cpu_id d,
      ))
]

pub count-physical-le :
    (a : ℕ) (seen : List (ℕ × ℕ)) (cpus : List LogicalCpu)
    → count a (cpu_ids (physical seen cpus)) ≤ count a (cpu_ids cpus)
unfolding physical
count-physical-le a seen [] = omega arith
count-physical-le a seen (c ∷ cpus) = elim (Bool-cases (contains seen (core_of c))) [
  | inl known ↦ rw known (omega (arith, count-physical-le a seen cpus))
  | inr new ↦ rw new (omega (arith, count-physical-le a (core_of c ∷ seen) cpus))
]

pub All-physical :
    (P : LogicalCpu → Type 0) (seen : List (ℕ × ℕ)) (cpus : List LogicalCpu)
    → All P cpus
    → All P (physical seen cpus)
unfolding physical
All-physical P seen [] h = tt
All-physical P seen (c ∷ cpus) h = elim (Bool-cases (contains seen (core_of c))) [
  | inl known ↦ rw known (All-physical P seen cpus h.1)
  | inr new ↦ rw new (h.0, All-physical P (core_of c ∷ seen) cpus h.1)
]

-- A core that was seen has no processor among those that follow.
physical_fresh :
    (k : ℕ × ℕ) (seen : List (ℕ × ℕ)) (cpus : List LogicalCpu)
    → contains seen k ≡ true
    → contains (map core_of (physical seen cpus)) k ≡ false
unfolding physical
physical_fresh k seen [] h = refl
physical_fresh k seen (c ∷ cpus) h = elim (Bool-cases (contains seen (core_of c))) [
  | inl known ↦ rw known (physical_fresh k seen cpus h)
  | inr new ↦
      let apart : (k == core_of c) ≡ false = elim (Bool-cases (k == core_of c)) [
        | inl same ↦
            let seen_too : contains seen (core_of c) ≡ true =
              subst (λ x. contains seen x ≡ true) ((pair_eq.beq_iff k (core_of c)).0 same) h in
            absurd (ground arith)
        | inr different ↦ different
      ] in
      rw new (ground (arith, apart, physical_fresh k (core_of c ∷ seen) cpus (ground arith)))
]

pub physical_cores :
    (seen : List (ℕ × ℕ)) (cpus : List LogicalCpu)
    → distinct (map core_of (physical seen cpus)) ≡ true
unfolding physical
physical_cores seen [] = refl
physical_cores seen (c ∷ cpus) = elim (Bool-cases (contains seen (core_of c))) [
  | inl known ↦ rw known (physical_cores seen cpus)
  | inr new ↦ rw new (
      ground (
        arith,
        physical_fresh (core_of c) (core_of c ∷ seen) cpus
            (ground (arith, pair_eq.beq_iff (core_of c) (core_of c))),
        physical_cores (core_of c ∷ seen) cpus,
      ))
]

-- Processors are found under their numbers, all of them among `ps`.
pub record IsLocated (host : Host) (ps : List LogicalCpu) (ids : List ℕ) : Type 0 where
  pub cpus : List LogicalCpu
  pub found : traverse (cpu_of host) ids ≡ ok cpus
  pub same : cpu_ids cpus ≡ ids
  pub among : All (λ c. In c ps) cpus

module _ (host : Host) (ps : List LogicalCpu) (known : All (IsFound host) ps) where
  IsFound-In :
      (c : LogicalCpu) (qs : List LogicalCpu) → All (IsFound host) qs → In c qs → IsFound host c
  IsFound-In c [] h i = elim i [ ]
  IsFound-In c (q ∷ qs) h (inl s) = subst (IsFound host) (sym s) h.0
  IsFound-In c (q ∷ qs) h (inr i) = IsFound-In c qs h.1 i

  pub ids-IsLocated :
      (ids : List ℕ)
      → ((a : ℕ) → 0 < count a ids → 0 < count a (cpu_ids ps))
      → IsLocated host ps ids
  ids-IsLocated [] h = record { cpus = []; found = refl; same = refl; among = tt }
  ids-IsLocated (id ∷ ids) h =
      let own : 0 < count id (id ∷ ids) = ground (arith, nat_eq.beq_iff id id) in
      let (c, i, q) =
        In-of_contains (λ x. x.cpu_id) id ps (contains_of_count id (cpu_ids ps) (h id own)) in
      let rest = ids-IsLocated ids (λ a p. h a (omega arith)) in
      let here : cpu_of host id ≡ ok c =
        subst (λ n. cpu_of host n ≡ ok c) q (IsFound-In c ps known i) in
      record {
        cpus = c ∷ rest.cpus;
        found = rw (here, rest.found);
        same = ap (λ n. n ∷ cpu_ids rest.cpus) q ∙ ap (λ ns. id ∷ ns) rest.same;
        among = (i, rest.among);
      }
