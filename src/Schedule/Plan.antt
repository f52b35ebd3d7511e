-- ===== src/Schedule/Plan.antt =====
-- src/cpuattn/schedule/plan.py: the plans and the checks of their constructors. Sizes, offsets and
-- identifiers are natural numbers.
use Prim.Native.Nat.{bit_and}
use cpuattn.Prelude.{
  ℕ, ◌+◌, ◌-◌, ◌%◌, min, String, Bool, true, false, not, ◌&&◌, ◌||◌, List, [], ◌∷◌, map, ◌==◌,
  string_eq, nat_eq, nat_beq, ltb, leb, length, contains, distinct, same_set, concat, any, Result,
  ok, value_error, ◌>>=◌, ◌>>◌, raise_if,
}
use cpuattn.Prelude.Sort.{sort}

pub data LoweringKind : Type 0 where
  parallel_blocked parallel_split_k parallel_2d : LoweringKind
  linear_scan linear_chunked linear_delta linear_2d : LoweringKind

pub data ScheduleKind : Type 0 where
  static dynamic : ScheduleKind

pub data DecompositionKind : Type 0 where
  query_blocks split_key query_groups_key_parts state_heads state_heads_dv_blocks :
      DecompositionKind

pub data PackingKind : Type 0 where
  unpacked k_transposed : PackingKind

pub data MergeKind : Type 0 where
  unmerged row_norm : MergeKind

pub data PlacementKind : Type 0 where
  numa_local worker_local : PlacementKind

pub record TileShape : Type 0 where
  pub q : ℕ
  pub k : ℕ
  pub d : ℕ
  pub dv : ℕ

unfoldable pub make_tile : ℕ → ℕ → ℕ → ℕ → Result TileShape
make_tile q k d dv = do
  raise_if (leb (min (min q k) (min d dv)) 0) (value_error "tile dimensions must be positive")
  ok (record { q = q; k = k; d = d; dv = dv })

pub record MicrokernelSpec : Type 0 where
  pub name : String
  pub qk_vectors : ℕ

unfoldable pub make_microkernel : String → ℕ → Result MicrokernelSpec
make_microkernel name qk_vectors = do
  raise_if (name == "" || leb qk_vectors 0)
      (value_error "microkernel name and qk_vectors must be valid")
  ok (record { name = name; qk_vectors = qk_vectors })

-- WorkspaceABI: its region_names.
unfoldable pub make_workspace_abi : List String → Result (List String)
make_workspace_abi region_names = do
  raise_if (nat_beq (length region_names) 0 || any (λ n. n == "") region_names)
      (value_error "workspace ABI must declare named regions")
  raise_if (not (distinct region_names)) (value_error "workspace ABI region names must be unique")
  ok region_names

pub record CodePlan : Type 0 where
  pub backend_id : String
  pub lowering : LoweringKind
  pub microkernel : MicrokernelSpec
  pub tile : TileShape
  pub vector_bytes : ℕ
  pub decomposition : DecompositionKind
  pub packing : PackingKind
  pub merge : MergeKind
  pub region_names : List String
  pub schedule : ScheduleKind

abbrev pub is_parallel : LoweringKind → Bool
is_parallel LoweringKind.parallel_blocked = true
is_parallel LoweringKind.parallel_split_k = true
is_parallel LoweringKind.parallel_2d = true
is_parallel _ = false

abbrev pub is_blocked : LoweringKind → Bool
is_blocked LoweringKind.parallel_blocked = true
is_blocked _ = false

abbrev pub is_split : LoweringKind → Bool
is_split LoweringKind.parallel_split_k = true
is_split LoweringKind.parallel_2d = true
is_split _ = false

abbrev pub is_packed : PackingKind → Bool
is_packed PackingKind.k_transposed = true
is_packed PackingKind.unpacked = false

abbrev pub is_dynamic : ScheduleKind → Bool
is_dynamic ScheduleKind.dynamic = true
is_dynamic ScheduleKind.static = false

abbrev pub merges : MergeKind → Bool
merges MergeKind.row_norm = true
merges MergeKind.unmerged = false

abbrev pub differ : Bool → Bool → Bool
differ true b = not b
differ false b = b

-- CodePlan.__post_init__
unfoldable pub code_post_init : CodePlan → Result (Unit {0})
code_post_init c = do
  raise_if (c.backend_id == "" || leb c.vector_bytes 0)
      (value_error "code plan backend and vector width must be valid")
  raise_if (not (is_parallel c.lowering) && is_packed c.packing)
      (value_error "Linear code plans cannot pack K")
  raise_if (is_dynamic c.schedule && not (is_blocked c.lowering))
      (value_error "only parallel_blocked code plans carry a work-sharing schedule")
  raise_if (differ (contains c.region_names "packed_k") (is_packed c.packing))
      (value_error "workspace ABI must match the code plan packing")
  raise_if (is_split c.lowering && not (merges c.merge))
      (value_error "split-key code plans require a RowNorm merge")
  raise_if (not (is_split c.lowering) && merges c.merge)
      (value_error "non-split code plans cannot declare a merge")

pub record WorkerGroup : Type 0 where
  pub numa_node : ℕ
  pub cpu_ids : List ℕ

unfoldable pub make_worker_group : ℕ → List ℕ → Result WorkerGroup
make_worker_group numa_node cpu_ids = do
  raise_if (nat_beq (length cpu_ids) 0) (value_error "worker group must name a NUMA node and CPUs")
  raise_if (not (distinct cpu_ids)) (value_error "worker group CPU IDs must be unique")
  ok (record { numa_node = numa_node; cpu_ids = cpu_ids })

pub record LaunchPlan : Type 0 where
  pub cpu_ids : List ℕ
  pub groups : List WorkerGroup

abbrev pub grouped : List WorkerGroup → List ℕ
grouped groups = concat (map (λ g. g.cpu_ids) groups)

unfoldable pub make_launch : List ℕ → List WorkerGroup → Result LaunchPlan
make_launch cpu_ids groups = do
  raise_if (nat_beq (length cpu_ids) 0 || not (distinct cpu_ids))
      (value_error "launch CPU IDs must be non-empty and unique")
  raise_if (not (distinct (grouped groups)) || not (same_set (grouped groups) cpu_ids))
      (value_error "every launch CPU must belong to exactly one worker group")
  ok (record { cpu_ids = cpu_ids; groups = groups })

-- LaunchPlan.workers and LaunchPlan.crosses_numa
abbrev pub workers : LaunchPlan → ℕ
workers launch = length launch.cpu_ids

abbrev pub crosses_numa : LaunchPlan → Bool
crosses_numa launch = ltb 1 (length launch.groups)

pub record MemoryRegion : Type 0 where
  pub name : String
  pub offset : ℕ
  pub size_bytes : ℕ
  pub alignment : ℕ
  pub placement : PlacementKind
  pub owner_groups : List ℕ

abbrev is_numa_local : PlacementKind → Bool
is_numa_local PlacementKind.numa_local = true
is_numa_local PlacementKind.worker_local = false

-- MemoryRegion.__post_init__
unfoldable pub region_post_init : MemoryRegion → Result (Unit {0})
region_post_init r = do
  raise_if (r.name == "" || leb r.size_bytes 0)
      (value_error "memory region name, offset, and size must be valid")
  raise_if (leb r.alignment 0 || not (nat_beq (bit_and r.alignment (r.alignment - 1)) 0))
      (value_error "memory region alignment must be a power of two")
  raise_if (not (nat_beq (r.offset % r.alignment) 0))
      (value_error "memory region offset violates alignment")
  raise_if (nat_beq (length r.owner_groups) 0)
      (value_error "memory regions must declare owner groups")
  raise_if (not (distinct r.owner_groups)) (value_error "memory region owners must be unique")
  raise_if (is_numa_local r.placement && not (nat_beq (r.size_bytes % length r.owner_groups) 0))
      (value_error "NUMA-local region size must divide evenly across owners")

pub record MemoryPlan : Type 0 where
  pub regions : List MemoryRegion
  pub total_bytes : ℕ

-- The loop over the regions in the order of their offsets: the end of the last one.
unfoldable pub end_of_regions : ℕ → List MemoryRegion → Result ℕ
end_of_regions end [] = ok end
end_of_regions end (r ∷ rs) = do
  raise_if (ltb r.offset end) (value_error "memory regions overlap")
  end_of_regions (r.offset + r.size_bytes) rs

abbrev pub by_offset : MemoryRegion → MemoryRegion → Bool
by_offset r s = leb r.offset s.offset

-- MemoryPlan.__post_init__
unfoldable pub memory_post_init : MemoryPlan → Result (Unit {0})
unfolding end_of_regions sort
memory_post_init m = do
  raise_if (nat_beq (length m.regions) 0 || leb m.total_bytes 0)
      (value_error "memory plan must contain storage")
  raise_if (not (distinct (map (λ r. r.name) m.regions)))
      (value_error "memory region names must be unique")
  end ← end_of_regions 0 (sort by_offset m.regions)
  raise_if (not (nat_beq end m.total_bytes))
      (value_error "memory plan total must end at the final region")

pub record ExecutionPlan : Type 0 where
  pub code : CodePlan
  pub launch : LaunchPlan
  pub memory : MemoryPlan
