-- ===== src/Native/Planning.antt =====
-- src/cpuattn/runtime.py: the plans of a call, from the backend's code plans and the planner.
pub mod Ready
use Prim.Native.Nat.{bit_and}
use mathlib.Core.Path.{subst}
use cpuattn.Prelude.{
  string_eq, sym, ap, raise_if, count, nat_eq, ℕ, ◌*◌, ◌-◌, ◌<◌, ◌≡◌, refl, String, Bool, true, not,
  ◌||◌, Option, List, [], ◌∷◌, map, concat, nat_beq, leb, length, All, All-append, Result, ok,
  arith, ◌>>=◌, >>=-eq-ok, traverse-keeps, ok-injective,
}
use cpuattn.Prelude.Bits.{IsPowerOfTwo, power_of_bit_and}
use cpuattn.Prelude.Sort.{sort, All-sort}
use cpuattn.Prelude.Dict.{index_by, values, All-values, All-index_by}
use cpuattn.Core.Operator.{Operator, Parallel}
use cpuattn.Core.Validate.{Shape4, ParallelCall, ValidatedCall}
use cpuattn.Core.Validate.Contract.{ParallelContract}
use cpuattn.Schedule.Host.{Host, host_post_init}
use cpuattn.Schedule.Plan.{
  DecompositionKind, WorkerGroup, CodePlan, LaunchPlan, MemoryPlan, ExecutionPlan, is_packed,
  grouped,
}
use cpuattn.Schedule.Memory.{worker_floats}
use cpuattn.Schedule.Memory.Kernels.{kernel_stride, kernel_copy}
use cpuattn.Schedule.Memory.Layout.{Holds}
use cpuattn.Schedule.Memory.Plans.{IsPlannable, parallel_memory_plans_hold}
use cpuattn.Schedule.Launch.{PlanBuilder, make_builder, chosen_page}
use cpuattn.Schedule.Launch.Choice.{
  ceil_div, parallel_grid, parallel_tasks, maximum_parallelism, plans_of_launch, plans_of_code,
  build_all,
}
use cpuattn.Schedule.Launch.Groups.{IsPlaced}
use cpuattn.Schedule.Launch.Chosen.{IsChosen, Cuts, launch_plans-IsChosen}
use cpuattn.Native.Backend.{Backend, supports}
use cpuattn.Native.Backend.Enumerate.{enumerate_code_plans}
use cpuattn.Native.Backend.Accepted.{IsKernel, IsBackend, cuts_parallel}
use cpuattn.Native.Backend.Offers.{enumerate_code_plans-IsKernel}

-- Runtime._plans on a miss: the code plans of the backend, then all their execution plans.
unfoldable pub plan_call :
    (ℕ → String)
    → (CodePlan → String)
    → (ExecutionPlan → String)
    → (String → String → Bool)
    → Backend
    → PlanBuilder
    → Operator
    → ValidatedCall
    → Result (List ExecutionPlan)
unfolding enumerate_code_plans build_all
plan_call decimal code_identity identity text_le b builder operator call = do
  codes ← enumerate_code_plans decimal b code_identity text_le operator call builder.host
  build_all identity text_le builder codes operator call

-- The tasks of a Parallel call under a code plan.
abbrev pub tasks : CodePlan → Shape4 → Shape4 → ℕ
tasks code q k =
    parallel_tasks code.decomposition
      (q.n0 * q.n1 * ceil_div q.n2 code.tile.q, ceil_div k.n2 code.tile.k)

-- A plan that can run: its code plan passed its constructor, its workers stand on different physical
-- cores, and its memory plan has room for the strides that the kernel walks.
pub record IsReady (host : Host) (page : ℕ) (operator : Parallel) (q k v : Shape4)
    (plan : ExecutionPlan) : Type 0 where
  pub kernel : IsKernel plan.code
  pub launch : IsChosen host plan.code.decomposition (tasks plan.code q k) plan.launch
  pub memory :
      Holds page
        (kernel_stride page plan.code operator q v)
        (kernel_copy page plan.code q k)
        plan.launch
        (is_packed plan.code.packing)
        plan.memory
