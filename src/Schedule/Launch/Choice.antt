-- ===== src/Schedule/Launch/Choice.antt =====
-- src/cpuattn/schedule/planning.py: how much work a call can be cut into, the launch plans of a code
-- plan, and all the execution plans of a call.
use cpuattn.Prelude.{
  string_eq, ℕ, ◌+◌, ◌-◌, ◌*◌, ◌/◌, min, Bool, ◌&&◌, List, [], map, nat_beq, ltb, leb, length,
  concat, keep, Result, ok, err, assertion_error, ◌>>=◌, if◌then◌else◌, traverse, fold, String,
}
use cpuattn.Prelude.Sort.{sort}
use cpuattn.Prelude.Dict.{Dict, index_by, values}
use cpuattn.Core.Operator.{Operator}
use cpuattn.Core.Validate.{Shape4, shape4, ValidatedCall}
use cpuattn.Schedule.Host.{Host}
use cpuattn.Schedule.Plan.{DecompositionKind, CodePlan, LaunchPlan, ExecutionPlan, workers}
use cpuattn.Schedule.Memory.{memory_plans}
use cpuattn.Schedule.Launch.{
  PlanBuilder, physical_cpus_by_node, sizes, size_launches, in_launch_order,
  has_nontrivial_factorization,
}

-- (a + b - 1) // b, for a positive b
abbrev pub ceil_div : ℕ → ℕ → ℕ
ceil_div a b = (a + b - 1) / b

-- PlanBuilder._parallel_grid
unfoldable pub parallel_grid : CodePlan → ValidatedCall → Result (ℕ × ℕ)
parallel_grid code (ValidatedCall.parallel call) = do
  q ← shape4 call.q
  k ← shape4 call.k
  ok (q.n0 * q.n1 * ceil_div q.n2 code.tile.q, ceil_div k.n2 code.tile.k)
parallel_grid code (ValidatedCall.linear call) = err assertion_error

-- The tasks of a Parallel plan with that many query rows and key tiles.
unfoldable pub parallel_tasks : DecompositionKind → ℕ × ℕ → ℕ
parallel_tasks DecompositionKind.query_blocks (rows, key_tiles) = rows
parallel_tasks DecompositionKind.split_key (rows, key_tiles) = key_tiles
parallel_tasks _ (rows, key_tiles) = rows * key_tiles

unfoldable pub linear_tasks : CodePlan → Shape4 → ℕ
linear_tasks code v = elim code.decomposition [
  | DecompositionKind.state_heads ↦ v.n0 * v.n1
  | _ ↦ v.n0 * v.n1 * ceil_div v.n3 code.tile.dv
]

-- PlanBuilder.maximum_parallelism
unfoldable pub maximum_parallelism : CodePlan → Operator → ValidatedCall → Result ℕ
unfolding parallel_grid parallel_tasks linear_tasks
maximum_parallelism code (Operator.parallel _) call = do
  grid ← parallel_grid code call
  ok (parallel_tasks code.decomposition grid)
maximum_parallelism code (Operator.linear _) (ValidatedCall.linear call) = do
  v ← shape4 call.v
  ok (linear_tasks code v)
maximum_parallelism code (Operator.linear _) (ValidatedCall.parallel call) = err assertion_error

-- sum(len(cpus) for cpus in by_node.values())
abbrev pub cpu_count : Dict ℕ (List ℕ) → ℕ
cpu_count by_node = length (concat (values by_node))

-- The launches for every number of workers, in the order of their keys.
unfoldable pub all_launches : Host → ℕ → Result (List LaunchPlan)
unfolding sizes size_launches sort in_launch_order
all_launches host limit = do
  let by_node = physical_cpus_by_node host
  launches ← fold (size_launches host by_node) [] (sizes by_node limit)
  ok (values (sort in_launch_order launches))

abbrev pub takes_keys : LaunchPlan → Bool
takes_keys launch = ltb 1 (workers launch)

abbrev pub takes_grid : ℕ × ℕ → LaunchPlan → Bool
takes_grid grid launch =
    leb 4 (workers launch)
    && has_nontrivial_factorization (workers launch)
    && leb 2 grid.0
    && leb 2 grid.1

abbrev pub takes_values : CodePlan → Shape4 → ℕ → LaunchPlan → Bool
takes_values code v maximum launch =
    ltb 1 (workers launch)
    && ltb 1 (ceil_div v.n3 code.tile.dv)
    && leb (workers launch) maximum
    && ltb (v.n0 * v.n1) maximum

-- What a decomposition asks of a launch.
unfoldable pub suitable :
    DecompositionKind → CodePlan → ValidatedCall → ℕ → List LaunchPlan → Result (List LaunchPlan)
unfolding parallel_grid has_nontrivial_factorization
suitable DecompositionKind.split_key code call maximum launches = ok (keep takes_keys launches)
suitable DecompositionKind.query_groups_key_parts code call maximum launches = do
  grid ← parallel_grid code call
  ok (keep (takes_grid grid) launches)
suitable DecompositionKind.state_heads_dv_blocks code (ValidatedCall.linear call) maximum launches =
    do v ← shape4 call.v; ok (keep (takes_values code v maximum) launches)
suitable DecompositionKind.state_heads_dv_blocks code (ValidatedCall.parallel call) maximum
      launches =
    err assertion_error
suitable _ code call maximum launches = ok launches

-- PlanBuilder.launch_plans
unfoldable pub launch_plans : Host → CodePlan → Operator → ValidatedCall → Result (List LaunchPlan)
unfolding maximum_parallelism all_launches suitable
launch_plans host code operator call = do
  maximum ← maximum_parallelism code operator call
  let limit = min maximum (cpu_count (physical_cpus_by_node host))
  if nat_beq maximum 0
      then ok []
      else all_launches host limit >>= suitable code.decomposition code call maximum

-- The loops of build_all: the plans of one launch, of one code plan, and of them all.
unfoldable pub plans_of_launch :
    ℕ → CodePlan → Operator → ValidatedCall → LaunchPlan → Result (List ExecutionPlan)
unfolding memory_plans
plans_of_launch page code operator call launch = do
  memories ← memory_plans page code launch operator call
  ok (map (λ memory. record { code = code; launch = launch; memory = memory }) memories)

unfoldable pub plans_of_code :
    PlanBuilder → Operator → ValidatedCall → CodePlan → Result (List ExecutionPlan)
unfolding launch_plans plans_of_launch
plans_of_code builder operator call code = do
  launches ← launch_plans builder.host code operator call
  plans ← traverse (plans_of_launch builder.page_size code operator call) launches
  ok (concat plans)

-- PlanBuilder.build_all. A plan's identity, a SHA-256 digest, and the order of texts are parameters.
unfoldable pub build_all :
    (ExecutionPlan → String)
    → (String → String → Bool)
    → PlanBuilder
    → List CodePlan
    → Operator
    → ValidatedCall
    → Result (List ExecutionPlan)
unfolding plans_of_code index_by sort
build_all identity text_le builder codes operator call = do
  plans ← traverse (plans_of_code builder operator call) codes
  ok (values (sort (λ p r. text_le p.0 r.0) (index_by identity [] (concat plans))))
