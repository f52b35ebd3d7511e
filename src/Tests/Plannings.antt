-- ===== src/Tests/Plannings.antt =====
-- src/cpuattn/schedule/planning.py, the backends and the built-in row norms at a small host.
use cpuattn.Prelude.{ℕ, ◌<◌, ◌≡◌, refl, String, Bool, true, none, List, [], ◌∷◌, length, All, ok}
use cpuattn.Prelude.Dict.{get}
use cpuattn.Core.Float.{one}
use cpuattn.Core.RowNorm.{RowNorm}
use cpuattn.Core.RowNorm.Online.{online_weights}
use cpuattn.Core.RowNorm.BuiltIns.{BuiltIn, build, build-online_weights}
use cpuattn.Core.Operator.{Operator}
use cpuattn.Core.Validate.{ValidatedCall}
use cpuattn.Schedule.Host.{Host, host_post_init}
use cpuattn.Schedule.Plan.{DecompositionKind, CodePlan, LaunchPlan, ExecutionPlan}
use cpuattn.Schedule.Launch.{PlanBuilder, make_builder, physical_loop}
use cpuattn.Schedule.Launch.Choice.{maximum_parallelism, launch_plans, all_launches, parallel_grid}
use cpuattn.Schedule.Launch.Chosen.{IsChosen, launch_plans-IsChosen}
use cpuattn.Native.Backend.{x86_avx2, supports, select_backend}
use cpuattn.Native.Backend.Enumerate.{enumerate_code_plans}
use cpuattn.Native.Backend.Accepted.{IsKernel, IsBackend}
use cpuattn.Native.Backend.Offers.{enumerate_code_plans-IsKernel}
use cpuattn.Native.Planning.{IsReady, plan_call}
use cpuattn.Native.Planning.Ready.{plan_call-IsReady}
use cpuattn.Tests.Calls.{call, score_operator}
use cpuattn.Tests.Expressions.{Number, numbers, numbers_documented}
use cpuattn.Tests.Memories.{code, shapes}

-- Two nodes. The first has two cores, one of them with two threads.
abbrev host : Host
host = record {
  architecture = "x86_64";
  features = "fma" ∷ "avx2" ∷ [];
  cpus =
      record { cpu_id = 0; core_id = 0; socket_id = 0; numa_node = 0 }
      ∷ record { cpu_id = 1; core_id = 0; socket_id = 0; numa_node = 0 }
      ∷ record { cpu_id = 2; core_id = 1; socket_id = 0; numa_node = 0 }
      ∷ record { cpu_id = 8; core_id = 0; socket_id = 1; numa_node = 1 }
      ∷ [];
  sve_vector_bytes = none;
}

host_accepted : host_post_init host ≡ ok tt
unfolding host_post_init
host_accepted = refl

backend_supports : supports x86_avx2 host ≡ true
unfolding supports
backend_supports = refl

selected : select_backend host ≡ ok x86_avx2
unfolding select_backend
selected = refl

x86_avx2-IsBackend : IsBackend x86_avx2
x86_avx2-IsBackend = record { has_id = refl; vectors = refl; power = (3, refl) }

abbrev builder : PlanBuilder
builder = record { host = host; page_size = 4096 }

builder_made : make_builder host none 4096 ≡ ok builder
unfolding make_builder
builder_made = refl

-- What a run of the planner chooses: threads of a core are never used together.
launched :
    (launches : List LaunchPlan) × (all_launches host 3 ≡ ok launches) × (length launches ≡ 5)
unfolding all_launches physical_loop get
launched = (_, refl, refl)

two_tasks :
    maximum_parallelism code (Operator.parallel score_operator) (ValidatedCall.parallel call) ≡ ok 2
unfolding maximum_parallelism parallel_grid
two_tasks = refl

launch_plans-IsChosen_example :
    (launches : List LaunchPlan) × (launch_plans host code
        (Operator.parallel score_operator)
        (ValidatedCall.parallel call)
      ≡ ok launches)
    × All (IsChosen host DecompositionKind.query_blocks 2) launches
launch_plans-IsChosen_example =
    launch_plans-IsChosen host code (Operator.parallel score_operator) (ValidatedCall.parallel call)
      2 host_accepted two_tasks tt

abbrev digits : ℕ → String
digits n = "4"

abbrev text_le : String → String → Bool
text_le s t = true

enumerate_code_plans-IsKernel_example :
    (plans : List CodePlan) × (enumerate_code_plans digits x86_avx2
        (λ c. c.microkernel.name)
        text_le
        (Operator.parallel score_operator)
        (ValidatedCall.parallel call)
        host
      ≡ ok plans)
    × (0 < length plans)
    × All IsKernel plans
enumerate_code_plans-IsKernel_example =
    enumerate_code_plans-IsKernel digits x86_avx2 (λ c. c.microkernel.name) text_le score_operator
      call host x86_avx2-IsBackend shapes backend_supports

plan_call-IsReady_example :
    (plans : List ExecutionPlan) × (plan_call digits
        (λ c. c.microkernel.name)
        (λ p. p.code.microkernel.name)
        text_le
        x86_avx2
        builder
        (Operator.parallel score_operator)
        (ValidatedCall.parallel call)
      ≡ ok plans)
    × All (IsReady host 4096 score_operator shapes.q shapes.k shapes.v) plans
plan_call-IsReady_example =
    plan_call-IsReady digits (λ c. c.microkernel.name) (λ p. p.code.microkernel.name) text_le
      x86_avx2 host none 4096 builder score_operator call host_accepted builder_made
      x86_avx2-IsBackend backend_supports shapes

build-online_weights_example :
    (r : RowNorm) × (build BuiltIn.of_softmax one ≡ ok r)
    × (ws : List Number) × (online_weights numbers r (Number.array 2 ∷ Number.array 3 ∷ []) ≡ ok ws)
    × (length ws ≡ 2)
build-online_weights_example =
    build-online_weights numbers numbers_documented BuiltIn.of_softmax one
      (Number.array 2 ∷ Number.array 3 ∷ []) ((tt, tt), ((tt, tt), tt))
