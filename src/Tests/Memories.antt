-- ===== src/Tests/Memories.antt =====
-- src/cpuattn/schedule/planning.py and the lengths of src/cpuattn/runtime.py at concrete plans.
use cpuattn.Prelude.{
  ◌+◌, ◌*◌, ◌≤◌, ◌<◌, ◌%◌, ◌≡◌, refl, sym, ap, some-injective, List, [], ◌∷◌, length, All, ok,
  arith,
}
use cpuattn.Core.Operator.{Operator}
use cpuattn.Core.Validate.{ValidatedCall}
use cpuattn.Core.Validate.Contract.{ParallelContract, LinearContract}
use cpuattn.Schedule.Align.{align, align_bounds}
use cpuattn.Schedule.Plan.{
  CodePlan, LaunchPlan, MemoryPlan, LoweringKind, ScheduleKind, DecompositionKind, PackingKind,
  MergeKind, is_packed,
}
use cpuattn.Schedule.Memory.{memory_plans, linear_scratch_floats, linear_scratch_terms, sum_terms}
use cpuattn.Schedule.Memory.Kernels.{kernel_stride, kernel_copy}
use cpuattn.Schedule.Memory.Layout.{Holds}
use cpuattn.Schedule.Memory.Plans.{IsPlannable, parallel_memory_plans_hold}
use cpuattn.Runtime.Lengths.{kv_bucket, packed_skv, kv_bucket_idem, align-eq-packed_skv}
use cpuattn.Tests.Calls.{call, score_operator, linear_call}

abbrev pub code : CodePlan
code = record {
  backend_id = "x86_avx2";
  lowering = LoweringKind.parallel_blocked;
  microkernel = record { name = "avx2"; qk_vectors = 2 };
  tile = record { q = 4; k = 4; d = 4; dv = 4 };
  vector_bytes = 32;
  decomposition = DecompositionKind.query_blocks;
  packing = PackingKind.k_transposed;
  merge = MergeKind.unmerged;
  region_names = "packed_k" ∷ "scratch" ∷ [];
  schedule = ScheduleKind.static;
}

-- Two workers, one on each NUMA node.
abbrev pub launch : LaunchPlan
launch = record {
  cpu_ids = 0 ∷ 8 ∷ [];
  groups =
      record { numa_node = 0; cpu_ids = 0 ∷ [] } ∷ record { numa_node = 1; cpu_ids = 8 ∷ [] } ∷ [];
}

pub shapes : ParallelContract call
shapes = record {
  q = record { n0 = 1; n1 = 2; n2 = 2; n3 = 4 };
  k = record { n0 = 1; n1 = 1; n2 = 3; n3 = 4 };
  v = record { n0 = 1; n1 = 1; n2 = 3; n3 = 4 };
  q_shape = refl;
  k_shape = refl;
  v_shape = refl;
  q_positive = (omega arith, omega arith, omega arith, omega arith);
  k_positive = (omega arith, omega arith, omega arith, omega arith);
  v_positive = (omega arith, omega arith, omega arith, omega arith);
  batches = (refl, refl);
  channels = refl;
  kv_heads = refl;
  lengths = refl;
  grouped = refl;
  cached = λ _. omega arith;
}

plannable : IsPlannable 4096 code launch
plannable = record {
  page_power = (12, refl);
  names = refl;
  groups = omega arith;
  staffed = omega arith;
  tile_q = omega arith;
  tile_k = (2, refl);
}

parallel_memory_plans_hold_example :
    (plans : List MemoryPlan) × (memory_plans 4096 code launch
        (Operator.parallel score_operator)
        (ValidatedCall.parallel call)
      ≡ ok plans)
    × (0 < length plans)
    × All
        (Holds 4096
          (kernel_stride 4096 code score_operator shapes.q shapes.v)
          (kernel_copy 4096 code shapes.q shapes.k)
          launch
          (is_packed code.packing))
        plans
parallel_memory_plans_hold_example =
    parallel_memory_plans_hold 4096 code launch score_operator call plannable shapes

abbrev linear_code : CodePlan
linear_code = record {
  backend_id = "x86_avx2";
  lowering = LoweringKind.linear_delta;
  microkernel = record { name = "avx2"; qk_vectors = 2 };
  tile = record { q = 16; k = 16; d = 4; dv = 4 };
  vector_bytes = 32;
  decomposition = DecompositionKind.state_heads;
  packing = PackingKind.unpacked;
  merge = MergeKind.unmerged;
  region_names = "scratch" ∷ [];
  schedule = ScheduleKind.static;
}

abbrev linear_shapes : LinearContract linear_call
linear_shapes = record {
  q = record { n0 = 1; n1 = 1; n2 = 2; n3 = 4 };
  v = record { n0 = 1; n1 = 2; n2 = 2; n3 = 4 };
  q_shape = refl;
  v_shape = refl;
  k_shape = refl;
  q_positive = (omega arith, omega arith, omega arith, omega arith);
  v_positive = (omega arith, omega arith, omega arith, omega arith);
  batches = refl;
  sequences = refl;
  grouped = refl;
  state_fits = λ s e. ap (λ a. a.shape) (sym (some-injective e));
}

scratch_floats : linear_scratch_floats linear_code 4 4 ≡ 32 * 4 + 48 * 4 + 336
unfolding linear_scratch_floats linear_scratch_terms sum_terms
scratch_floats = refl

align_bounds_example : (100 ≤ align 100 64) × (align 100 64 < 164) × (align 100 64 % 64 ≡ 0)
align_bounds_example = align_bounds 100 64 (6, refl)

kv_bucket_idem_example : kv_bucket (kv_bucket 200) ≡ kv_bucket 200
kv_bucket_idem_example = kv_bucket_idem 200

align-eq-packed_skv_example : align 100 16 ≡ packed_skv 100 16
align-eq-packed_skv_example = align-eq-packed_skv 100 16 (4, refl)
