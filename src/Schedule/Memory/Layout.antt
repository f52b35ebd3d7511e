-- ===== src/Schedule/Memory/Layout.antt =====
-- src/cpuattn/schedule/planning.py: every memory plan of a legal code and launch plan is built, and
-- its regions hold what the workers write.
use cpuattn.Prelude.{
  ℕ, zero, suc, ◌+◌, ◌*◌, ◌%◌, ◌≤◌, ◌<◌, String, ◌≡◌, refl, Bool, true, false, not, List, [], ◌∷◌,
  ◌++◌, map, ◌==◌, nat_eq, string_eq, list_eq, list_beq_iff, leb, nat_beq, length,
  length-range_from, any, All, All-append, range_from, distinct, ok, arith, if◌then◌else◌, traverse,
  Bool-cases, inl, inr,
}
use cpuattn.Prelude.Bits.{IsPowerOfTwo}
use cpuattn.Schedule.Plan.{
  CodePlan, LaunchPlan, MemoryRegion, MemoryPlan, workers, crosses_numa, is_packed, is_blocked,
}
use cpuattn.Schedule.Memory.{
  validate_memory, all_owners, private_region, private_name, packed_owners, parallel_memory,
}
use cpuattn.Schedule.Memory.Regions.{
  range-distinct, range_below, multiple_times, private_region_accepted, packed_region,
  packed_region_accepted, single_memory_accepted, double_memory_accepted,
}

-- Owners that a code and launch plan allow: existing groups, each once, and some exactly where K
-- is packed.
abbrev pub Suits : CodePlan → LaunchPlan → List ℕ → Type 0
Suits code launch owners =
    (distinct owners ≡ true)
    × (any (λ o. leb (length launch.groups) o) owners ≡ false)
    × (nat_beq (length owners) 0 ≡ not (is_packed code.packing))

singles_suit :
    (code : CodePlan) (launch : LaunchPlan) (start n : ℕ)
    → is_packed code.packing ≡ true
    → start + n ≤ length launch.groups
    → All (Suits code launch) (map (λ g. g ∷ []) (range_from start n))
singles_suit code launch start zero p h = tt
singles_suit code launch start (suc n) p h =
    ((refl, ground arith, rw p), singles_suit code launch (start + 1) n p (omega arith))

all_owners_suit :
    (code : CodePlan) (launch : LaunchPlan)
    → is_packed code.packing ≡ true
    → 0 < length launch.groups
    → Suits code launch (all_owners launch)
all_owners_suit code launch p h = (
  range-distinct 0 (length launch.groups),
  range_below 0 (length launch.groups) (length launch.groups) (omega arith),
  ground (arith, length-range_from 0 (length launch.groups)),
)

pub packed_owners_suit :
    (code : CodePlan) (launch : LaunchPlan)
    → 0 < length launch.groups
    → All (Suits code launch) (packed_owners code launch)
unfolding packed_owners
packed_owners_suit code launch h = elim (Bool-cases (is_packed code.packing)) [
  | inr unpacked ↦ rw unpacked ((refl, refl, rw unpacked), tt)
  | inl packed ↦ rw packed (
      All-append (Suits code launch) (map (λ g. g ∷ []) (all_owners launch)) _
        (singles_suit code launch 0 (length launch.groups) packed (omega arith))
        (elim (Bool-cases (crosses_numa launch)) [
          | inl crosses ↦ rw crosses (all_owners_suit code launch packed h, tt)
          | inr local ↦ rw local tt
        ]))
]

-- The regions that a code plan's workspace ABI must name.
abbrev pub expected_names : CodePlan → List String
expected_names code =
    (if is_packed code.packing then "packed_k" ∷ [] else []) ++ private_name code ∷ []

-- The plan for given owners of the packed K.
abbrev pub laid_out : ℕ → CodePlan → LaunchPlan → ℕ → ℕ → List ℕ → MemoryPlan
laid_out page code launch size copy [] = record {
  regions = private_region page launch (private_name code) 0 size ∷ [];
  total_bytes = size;
}
laid_out page code launch size copy (g ∷ gs) = record {
  regions =
      packed_region page copy (g ∷ gs)
      ∷ private_region page launch (private_name code) (copy * length (g ∷ gs)) size
      ∷ [];
  total_bytes = copy * length (g ∷ gs) + size;
}

module _ (page : ℕ) (code : CodePlan) (launch : LaunchPlan) (size copy : ℕ)
    (page_power : IsPowerOfTwo page) (names : code.region_names ≡ expected_names code)
    (groups : 0 < length launch.groups) (size_pos : 0 < size) (copy_pos : 0 < copy)
    (copy_aligned : copy % page ≡ 0) where
  private_named : ((private_name code == "") ≡ false) × (("packed_k" == private_name code) ≡ false)
  private_named = elim (Bool-cases (is_blocked code.lowering)) [
    | inl blocked ↦ rw blocked (refl, refl)
    | inr split ↦ rw split (refl, refl)
  ]

  laid_out_valid :
      (owners : List ℕ)
      → Suits code launch owners
      → validate_memory code launch (laid_out page code launch size copy owners) ≡ ok tt
  unfolding validate_memory
  laid_out_valid [] (d, b, e) = ground (
    arith,
    names,
    list_beq_iff (private_name code ∷ []) code.region_names,
    range_below 0 (length launch.groups) (length launch.groups),
  )
  laid_out_valid (g ∷ gs) (d, b, e) = ground (
    arith,
    names,
    list_beq_iff ("packed_k" ∷ private_name code ∷ []) code.region_names,
    range_below 0 (length launch.groups) (length launch.groups),
  )

  parallel_memory-eq :
      (owners : List ℕ)
      → Suits code launch owners
      → parallel_memory page code launch (private_name code) size copy owners
        ≡ ok (laid_out page code launch size copy owners)
  unfolding parallel_memory
  parallel_memory-eq [] suits =
      let name = private_name code in
      let region = private_region page launch name 0 size in
      let sum : 0 + size ≡ size = omega arith in
      let start : 0 % page ≡ 0 = grind arith in
      rw (
        sum,
        private_region_accepted page launch name 0 size page_power private_named.0 size_pos start
            groups,
        single_memory_accepted region refl size_pos,
        laid_out_valid [] suits,
      )
  parallel_memory-eq (g ∷ gs) suits =
      let name = private_name code in
      let offset = copy * length (g ∷ gs) in
      let packed = packed_region page copy (g ∷ gs) in
      let private = private_region page launch name offset size in
      rw (
        packed_region_accepted page copy g gs page_power copy_pos suits.0,
        private_region_accepted page launch name offset size page_power private_named.0 size_pos
            (multiple_times copy page (length (g ∷ gs)) copy_aligned) groups,
        double_memory_accepted packed private private_named.1 refl refl size_pos,
        laid_out_valid (g ∷ gs) suits,
      )

  pub All-laid_out :
      (owners : List (List ℕ))
      → All (Suits code launch) owners
      → traverse (parallel_memory page code launch (private_name code) size copy) owners
        ≡ ok (map (laid_out page code launch size copy) owners)
  All-laid_out [] suits = refl
  All-laid_out (o ∷ os) suits = rw (parallel_memory-eq o suits.0, All-laid_out os suits.1)

-- What a plan for the workers holds: a private region, aligned to pages, of at least the bytes that
-- the workers use, and before it, where K is packed, a region of at least the bytes of each owner's
-- copy. Nothing overlaps, and nothing lies behind.
pub record Holds (page worker_bytes packed_bytes : ℕ) (launch : LaunchPlan) (packed : Bool)
    (m : MemoryPlan) : Type 0 where
  pub private : MemoryRegion
  pub before : List MemoryRegion
  pub regions : m.regions ≡ before ++ private ∷ []
  pub unpacked_alone : packed ≡ false → before ≡ []
  pub private_aligned : private.offset % page ≡ 0
  pub private_room : workers launch * worker_bytes ≤ private.size_bytes
  pub total : m.total_bytes ≡ private.offset + private.size_bytes
  pub packed_before :
      All
        (λ r.
          (r.offset ≡ 0)
          × (r.offset + r.size_bytes ≡ private.offset)
          × (length r.owner_groups * packed_bytes ≤ r.size_bytes)
          × (0 < length r.owner_groups))
        before
  pub packed_there : packed ≡ true → length before ≡ 1

pub laid_out-Holds :
    (page : ℕ) (code : CodePlan) (launch : LaunchPlan) (worker_bytes packed_bytes copy stride : ℕ)
    → copy % page ≡ 0
    → packed_bytes ≤ copy
    → worker_bytes ≤ stride
    → (owners : List ℕ) → Suits code launch owners
    → Holds page worker_bytes packed_bytes launch
        (is_packed code.packing)
        (laid_out page code launch (workers launch * stride) copy owners)
laid_out-Holds page code launch wb pb copy stride aligned room wroom [] suits = record {
  private = private_region page launch (private_name code) 0 (workers launch * stride);
  before = [];
  regions = refl;
  unpacked_alone = λ _. refl;
  private_aligned = grind arith;
  private_room = grind arith;
  total = omega arith;
  packed_before = tt;
  packed_there = ground arith;
}
laid_out-Holds page code launch wb pb copy stride aligned room wroom (g ∷ gs) suits = record {
  private =
      private_region page launch (private_name code) (copy * length (g ∷ gs))
        (workers launch * stride);
  before = packed_region page copy (g ∷ gs) ∷ [];
  regions = refl;
  unpacked_alone = ground arith;
  private_aligned = multiple_times copy page (length (g ∷ gs)) aligned;
  private_room = grind arith;
  total = refl;
  packed_before = ((refl, omega arith, grind arith, omega arith), tt);
  packed_there = λ _. refl;
}
