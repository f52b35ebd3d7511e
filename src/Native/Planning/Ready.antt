-- ===== src/Native/Planning/Ready.antt =====
-- src/cpuattn/runtime.py: every plan of a call can run.
use Prim.Native.Nat.{bit_and}
use mathlib.Core.Path.{subst}
use cpuattn.Prelude.{
  string_eq, sym, ap, raise_if, count, nat_eq, ℕ, ◌-◌, ◌<◌, ◌≡◌, refl, String, Bool, true, not,
  ◌||◌, Option, List, [], ◌∷◌, map, concat, nat_beq, leb, length, All, All-append, ok, arith,
  >>=-eq-ok, traverse-keeps, ok-injective,
}
use cpuattn.Prelude.Bits.{IsPowerOfTwo, power_of_bit_and}
use cpuattn.Prelude.Sort.{sort, All-sort}
use cpuattn.Prelude.Dict.{index_by, values, All-values, All-index_by}
use cpuattn.Core.Operator.{Operator, Parallel}
use cpuattn.Core.Validate.{ParallelCall, ValidatedCall}
use cpuattn.Core.Validate.Contract.{ParallelContract}
use cpuattn.Schedule.Host.{Host, host_post_init}
use cpuattn.Schedule.Plan.{
  DecompositionKind, WorkerGroup, CodePlan, LaunchPlan, MemoryPlan, ExecutionPlan, is_packed,
  grouped,
}
use cpuattn.Schedule.Memory.Kernels.{kernel_stride, kernel_copy}
use cpuattn.Schedule.Memory.Layout.{Holds}
use cpuattn.Schedule.Memory.Plans.{IsPlannable, parallel_memory_plans_hold}
use cpuattn.Schedule.Launch.{PlanBuilder, make_builder, chosen_page}
use cpuattn.Schedule.Launch.Choice.{
  parallel_grid, maximum_parallelism, plans_of_launch, plans_of_code, build_all,
}
use cpuattn.Schedule.Launch.Groups.{IsPlaced}
use cpuattn.Schedule.Launch.Chosen.{IsChosen, Cuts, launch_plans-IsChosen}
use cpuattn.Native.Backend.{Backend, supports}
use cpuattn.Native.Backend.Accepted.{IsKernel, IsBackend, cuts_parallel}
use cpuattn.Native.Backend.Offers.{enumerate_code_plans-IsKernel}
use cpuattn.Native.Planning.{plan_call, tasks, IsReady}

-- The page size of a planner is a power of two, and the host is the one it was made for.
make_builder-eq-ok :
    (host : Host) (page_size : Option ℕ) (system_page : ℕ) (builder : PlanBuilder)
    → make_builder host page_size system_page ≡ ok builder
    → (builder.host ≡ host) × IsPowerOfTwo builder.page_size
unfolding make_builder
make_builder-eq-ok host page_size system_page builder made =
    let page = chosen_page page_size system_page in
    let bad = leb page 0 || not (nat_beq (bit_and page (page - 1)) 0) in
    let (x, checked, rest) = >>=-eq-ok (raise_if bad _) _ made in
    let same = ok-injective (record { host = host; page_size = page }) builder rest in
    (
      ap (λ r. r.host) (sym same),
      subst (λ r. IsPowerOfTwo r.page_size) same
          (power_of_bit_and page (ground (arith, checked)) (ground (arith, checked))),
    )

groups-some : (host : Host) (launch : LaunchPlan) → IsPlaced host launch → 0 < length launch.groups
groups-some host launch placed =
    some_group launch.cpu_ids launch.groups placed.staffed placed.partition
  where
    some_group :
        (ids : List ℕ) (groups : List WorkerGroup)
        → 0 < length ids
        → ((a : ℕ) → count a (grouped groups) ≡ count a ids)
        → 0 < length groups
    some_group [] groups h same = absurd (omega (arith, h))
    some_group (x ∷ ids) [] h same = absurd (ground (arith, same x, nat_eq.beq_iff x x))
    some_group (x ∷ ids) (g ∷ groups) h same = omega arith

Cuts-of_parallel :
    (d : DecompositionKind) (call : ParallelCall) (shapes : ParallelContract call)
    → cuts_parallel d ≡ true
    → Cuts d (ValidatedCall.parallel call)
Cuts-of_parallel DecompositionKind.query_blocks call shapes h = tt
Cuts-of_parallel DecompositionKind.split_key call shapes h = tt
Cuts-of_parallel DecompositionKind.query_groups_key_parts call shapes h =
    (shapes.q, shapes.k, shapes.q_shape, shapes.k_shape)
Cuts-of_parallel DecompositionKind.state_heads call shapes h = tt
Cuts-of_parallel DecompositionKind.state_heads_dv_blocks call shapes h = absurd (ground arith)

module _ (host : Host) (page : ℕ) (operator : Parallel) (call : ParallelCall)
    (accepted : host_post_init host ≡ ok tt) (page_power : IsPowerOfTwo page)
    (shapes : ParallelContract call) where
  abbrev Ready : ExecutionPlan → Type 0
  Ready = IsReady host page operator shapes.q shapes.k shapes.v

  plans_of_launch-IsReady :
      (code : CodePlan) (launch : LaunchPlan)
      → IsKernel code
      → IsChosen host code.decomposition (tasks code shapes.q shapes.k) launch
      → (plans : List ExecutionPlan) × (plans_of_launch page code
            (Operator.parallel operator)
            (ValidatedCall.parallel call)
            launch
          ≡ ok plans)
        × All Ready plans
  unfolding plans_of_launch
  plans_of_launch-IsReady code launch kernel chosen =
      let plannable : IsPlannable page code launch = record {
        page_power = page_power;
        names = kernel.names;
        groups = groups-some host launch chosen.placed;
        staffed = chosen.placed.staffed;
        tile_q = kernel.tile_q;
        tile_k = kernel.tile_k;
      } in
      let (memories, returned, _, good) =
        parallel_memory_plans_hold page code launch operator call plannable shapes in
      (
        map (λ m. record { code = code; launch = launch; memory = m }) memories,
        rw returned,
        with_memory memories good,
      )
    where
      with_memory :
          (ms : List MemoryPlan)
          → All
              (Holds page
                (kernel_stride page code operator shapes.q shapes.v)
                (kernel_copy page code shapes.q shapes.k)
                launch
                (is_packed code.packing))
              ms
          → All Ready (map (λ m. record { code = code; launch = launch; memory = m }) ms)
      with_memory [] h = tt
      with_memory (m ∷ ms) h =
          (record { kernel = kernel; launch = chosen; memory = h.0 }, with_memory ms h.1)

  All-concat : (pss : List (List ExecutionPlan)) → All (All Ready) pss → All Ready (concat pss)
  All-concat [] h = tt
  All-concat (ps ∷ pss) h = All-append Ready ps (concat pss) h.0 (All-concat pss h.1)

  plans_of_code-IsReady :
      (builder : PlanBuilder) (code : CodePlan)
      → builder.host ≡ host
      → builder.page_size ≡ page
      → IsKernel code
      → (plans : List ExecutionPlan) × (plans_of_code builder
            (Operator.parallel operator)
            (ValidatedCall.parallel call)
            code
          ≡ ok plans)
        × All Ready plans
  unfolding plans_of_code maximum_parallelism parallel_grid
  plans_of_code-IsReady builder code same_host same_page kernel =
      let maximum : maximum_parallelism code (Operator.parallel operator)
            (ValidatedCall.parallel call)
          ≡ ok (tasks code shapes.q shapes.k) =
        rw (shapes.q_shape, shapes.k_shape) in
      let (launches, found, good) =
        launch_plans-IsChosen host code (Operator.parallel operator) (ValidatedCall.parallel call)
          (tasks code shapes.q shapes.k) accepted maximum
          (Cuts-of_parallel code.decomposition call shapes kernel.cuts) in
      let (plans, planned, ready) =
        traverse-keeps (IsChosen host code.decomposition (tasks code shapes.q shapes.k)) (All Ready)
          (plans_of_launch page code (Operator.parallel operator) (ValidatedCall.parallel call))
          (λ launch chosen. plans_of_launch-IsReady code launch kernel chosen) launches good in
      (concat plans, rw (same_host, same_page, found, planned), All-concat plans ready)

-- The same with what the planner's constructor checks, for its host.
planned-IsReady :
    (decimal : ℕ → String) (code_identity : CodePlan → String) (identity : ExecutionPlan → String)
    (text_le : String → String → Bool) (b : Backend) (builder : PlanBuilder) (operator : Parallel)
    (call : ParallelCall)
    → host_post_init builder.host ≡ ok tt
    → IsPowerOfTwo builder.page_size
    → IsBackend b
    → supports b builder.host ≡ true
    → (shapes : ParallelContract call)
    → (plans : List ExecutionPlan) × (plan_call decimal code_identity identity text_le b builder
          (Operator.parallel operator)
          (ValidatedCall.parallel call)
        ≡ ok plans)
      × All (IsReady builder.host builder.page_size operator shapes.q shapes.k shapes.v) plans
unfolding plan_call build_all
planned-IsReady decimal code_identity identity text_le b builder operator call accepted power own
      fits shapes =
    let (codes, offered, _, kernels) =
      enumerate_code_plans-IsKernel decimal b code_identity text_le operator call builder.host own
        shapes fits in
    let Good = IsReady builder.host builder.page_size operator shapes.q shapes.k shapes.v in
    let (plans, planned, ready) =
      traverse-keeps IsKernel (All Good)
        (plans_of_code builder (Operator.parallel operator) (ValidatedCall.parallel call))
        (λ code kernel.
          plans_of_code-IsReady builder.host builder.page_size operator call accepted power shapes
            builder code refl refl kernel)
        codes kernels in
    let index = index_by identity [] (concat plans) in
    let le = λ (p r : String × ExecutionPlan). text_le p.0 r.0 in
    let all =
      All-concat builder.host builder.page_size operator call accepted power shapes plans ready in
    (
      values (sort le index),
      rw (offered, planned),
      All-values Good (sort le index)
          (All-sort le _ index (All-index_by Good identity [] (concat plans) tt all)),
    )

-- For a host that its constructor accepts, a planner made for it with a page size that the planner's
-- constructor accepts, a backend with an identifier and a power of two of float lanes that supports
-- the host, and a validated Parallel call: planning does not raise. Each plan has a code plan that
-- passed its constructor, workers on different physical cores of the host, at most as many as the
-- call has tasks, and a memory plan whose private region has at least the stride that the kernel
-- walks for each worker, and whose packed region, there exactly where K is packed, has at least the
-- kernel's stride of a copy for each owner.
pub plan_call-IsReady :
    (decimal : ℕ → String) (code_identity : CodePlan → String) (identity : ExecutionPlan → String)
    (text_le : String → String → Bool) (b : Backend) (host : Host) (page_size : Option ℕ)
    (system_page : ℕ) (builder : PlanBuilder) (operator : Parallel) (call : ParallelCall)
    → host_post_init host ≡ ok tt
    → make_builder host page_size system_page ≡ ok builder
    → IsBackend b
    → supports b host ≡ true
    → (shapes : ParallelContract call)
    → (plans : List ExecutionPlan) × (plan_call decimal code_identity identity text_le b builder
          (Operator.parallel operator)
          (ValidatedCall.parallel call)
        ≡ ok plans)
      × All (IsReady host builder.page_size operator shapes.q shapes.k shapes.v) plans
plan_call-IsReady decimal code_identity identity text_le b host page_size system_page builder
      operator call accepted made own fits shapes =
    let (same, power) = make_builder-eq-ok host page_size system_page builder made in
    let accepted_too = subst (λ h. host_post_init h ≡ ok tt) (sym same) accepted in
    let fits_too = subst (λ h. supports b h ≡ true) (sym same) fits in
    subst
      (λ h.
        (plans : List ExecutionPlan) × (plan_call decimal code_identity identity text_le b builder
            (Operator.parallel operator) (ValidatedCall.parallel call)
          ≡ ok plans)
        × All (IsReady h builder.page_size operator shapes.q shapes.k shapes.v) plans)
      same
      (planned-IsReady decimal code_identity identity text_le b builder operator call accepted_too
        power own fits_too shapes)
