-- ===== src/Schedule/Memory.antt =====
-- src/cpuattn/schedule/planning.py: the workspace regions of a plan.
pub mod Regions
pub mod Layout
pub mod Kernels
pub mod Plans
pub mod Scratch
use cpuattn.Prelude.{
  ℕ, zero, suc, ◌+◌, ◌*◌, String, ◌≡◌, refl, Bool, true, false, not, ◌&&◌, ◌||◌, List, [], ◌∷◌,
  ◌++◌, map, ◌==◌, string_eq, list_eq, leb, length, any, range_from, Result, ok, err, value_error,
  assertion_error, ◌>>=◌, ◌>>◌, raise_if, if◌then◌else◌, traverse,
}
use cpuattn.Core.Operator.{Operator, Parallel, Linear}
use cpuattn.Core.Validate.{Shape4, shape4, ParallelCall, LinearCall, ValidatedCall}
use cpuattn.Schedule.Plan.{
  LoweringKind, PackingKind, PlacementKind, CodePlan, LaunchPlan, workers, crosses_numa, is_blocked,
  is_packed, MemoryRegion, MemoryPlan, region_post_init, memory_post_init,
}
use cpuattn.Schedule.Align.{align}

-- The symbols of a scratch term: D, DV, and "1" for a constant.
pub data Symbol : Type 0 where
  d dv one : Symbol

-- _linear_scratch_terms
unfoldable pub linear_scratch_terms : LoweringKind → ℕ → List (ℕ × Symbol)
linear_scratch_terms LoweringKind.linear_scan block = (5, Symbol.d) ∷ (2, Symbol.dv) ∷ []
linear_scratch_terms LoweringKind.linear_chunked block =
    (2 * block, Symbol.d) ∷ (2 * block, Symbol.dv) ∷ (block * block + 3 * block, Symbol.one) ∷ []
linear_scratch_terms LoweringKind.linear_delta block =
    (2 * block, Symbol.d) ∷ (3 * block, Symbol.dv) ∷ (block * block + 5 * block, Symbol.one) ∷ []
linear_scratch_terms _ block = (2, Symbol.d) ∷ (2, Symbol.dv) ∷ []

abbrev pub symbol_value : ℕ → ℕ → Symbol → ℕ
symbol_value d_size dv_size Symbol.d = d_size
symbol_value d_size dv_size Symbol.dv = dv_size
symbol_value d_size dv_size Symbol.one = 1

unfoldable pub sum_terms : ℕ → ℕ → List (ℕ × Symbol) → ℕ
sum_terms d_size dv_size [] = 0
sum_terms d_size dv_size ((c, s) ∷ terms) =
    c * symbol_value d_size dv_size s + sum_terms d_size dv_size terms

-- linear_scratch_floats
unfoldable pub linear_scratch_floats : CodePlan → ℕ → ℕ → ℕ
unfolding linear_scratch_terms sum_terms
linear_scratch_floats code d_size dv_size =
    sum_terms d_size dv_size (linear_scratch_terms code.lowering code.tile.q)

unfoldable pub make_region : MemoryRegion → Result MemoryRegion
unfolding region_post_init
make_region r = do region_post_init r; ok r

unfoldable pub make_memory : List MemoryRegion → ℕ → Result MemoryPlan
unfolding memory_post_init
make_memory regions total = do
  memory_post_init (record { regions = regions; total_bytes = total })
  ok (record { regions = regions; total_bytes = total })

-- PlanBuilder._validate_memory
unfoldable pub validate_memory : CodePlan → LaunchPlan → MemoryPlan → Result (Unit {0})
validate_memory code launch memory = do
  raise_if (not (map (λ r. r.name) memory.regions == code.region_names))
      (value_error "memory plan does not satisfy the code workspace ABI")
  raise_if
      (any (λ r. any (λ owner. leb (length launch.groups) owner) r.owner_groups) memory.regions)
      (value_error "memory plan refers to an unknown worker group")

-- tuple(range(len(launch.groups)))
abbrev pub all_owners : LaunchPlan → List ℕ
all_owners launch = range_from 0 (length launch.groups)

-- The floats of one worker: its score tile and output rows, or its partial rows.
abbrev pub worker_floats : CodePlan → Parallel → Shape4 → Shape4 → ℕ
worker_floats code operator q v =
    if is_blocked code.lowering
    then code.tile.q * code.tile.k * 2 + code.tile.q * v.n3
    else q.n0 * q.n1 * q.n2 * (v.n3 + length operator.row_norm.states)

abbrev pub private_name : CodePlan → String
private_name code = if is_blocked code.lowering then "scratch" else "partials"

-- The bytes of one copy of the packed K.
abbrev pub packed_copy_bytes : ℕ → CodePlan → Shape4 → Shape4 → ℕ
packed_copy_bytes page code q k = align (q.n0 * k.n1 * q.n3 * align k.n2 code.tile.k * 4) page

-- Who owns copies of the packed K, for each plan: nobody, one group, or all of several.
unfoldable pub packed_owners : CodePlan → LaunchPlan → List (List ℕ)
packed_owners code launch =
    if is_packed code.packing
    then map (λ g. g ∷ []) (all_owners launch)
      ++ (if crosses_numa launch then all_owners launch ∷ [] else [])
    else [] ∷ []

-- The region of the packed K, if anyone owns a copy, with the offset behind it.
unfoldable pub packed_regions : ℕ → ℕ → List ℕ → Result (List MemoryRegion × ℕ)
unfolding make_region
packed_regions page copy [] = ok ([], 0)
packed_regions page copy (g ∷ gs) = do
  region ← make_region (record {
    name = "packed_k";
    offset = 0;
    size_bytes = copy * length (g ∷ gs);
    alignment = page;
    placement = PlacementKind.numa_local;
    owner_groups = g ∷ gs;
  })
  ok (region ∷ [], copy * length (g ∷ gs))

abbrev pub private_region : ℕ → LaunchPlan → String → ℕ → ℕ → MemoryRegion
private_region page launch name offset size = record {
  name = name;
  offset = offset;
  size_bytes = size;
  alignment = page;
  placement = PlacementKind.worker_local;
  owner_groups = all_owners launch;
}

-- The body of the loop over the owners of the packed K.
unfoldable pub parallel_memory :
    ℕ → CodePlan → LaunchPlan → String → ℕ → ℕ → List ℕ → Result MemoryPlan
unfolding packed_regions make_region make_memory validate_memory
parallel_memory page code launch name size copy owners = do
  packed ← packed_regions page copy owners
  private ← make_region (private_region page launch name packed.1 size)
  memory ← make_memory (packed.0 ++ private ∷ []) (packed.1 + size)
  validate_memory code launch memory
  ok memory

unfoldable pub linear_memory : ℕ → CodePlan → LaunchPlan → ℕ → Result (List MemoryPlan)
unfolding make_region make_memory validate_memory
linear_memory page code launch size = do
  scratch ← make_region (private_region page launch "scratch" 0 size)
  memory ← make_memory (scratch ∷ []) size
  validate_memory code launch memory
  ok (memory ∷ [])

-- PlanBuilder._memory_plans
unfoldable pub memory_plans :
    ℕ → CodePlan → LaunchPlan → Operator → ValidatedCall → Result (List MemoryPlan)
unfolding parallel_memory linear_memory packed_owners
memory_plans page code launch (Operator.parallel operator) (ValidatedCall.parallel call) = do
  q ← shape4 call.q
  k ← shape4 call.k
  v ← shape4 call.v
  let size = workers launch * align (worker_floats code operator q v * 4) page
  traverse
      (parallel_memory page code launch (private_name code) size (packed_copy_bytes page code q k))
      (packed_owners code launch)
memory_plans page code launch (Operator.linear operator) (ValidatedCall.linear call) = do
  q ← shape4 call.q
  v ← shape4 call.v
  linear_memory page code launch
      (workers launch * align (linear_scratch_floats code q.n3 v.n3 * 4) page)
memory_plans page code launch operator call = err assertion_error
