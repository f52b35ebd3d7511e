-- ===== src/Tests/Streams.antt =====
-- src/cpuattn/runtime.py and src/cpuattn/native/executor.py over two runs of a growing K.
use cpuattn.Prelude.{
  ℕ, String, ◌≡◌, refl, Bool, true, some, none, List, [], ◌∷◌, ok, string_eq, nat_eq, pair_eq,
  list_eq,
}
use cpuattn.Prelude.Dict.{get, put}
use cpuattn.Core.Validate.{ParallelCall, ValidatedCall}
use cpuattn.Schedule.Plan.{CodePlan, ExecutionPlan}
use cpuattn.Runtime.Lengths.{packed_skv}
use cpuattn.Runtime.Workspace.{
  Executor, UsesArena, new_executor, new_executor-IsLive, packed_template, packed_template-live,
  workspace_for, close, map_arena, prepare_launch,
}
use cpuattn.Runtime.Packing.{
  Source, Kernel, Launch, Answers, RuntimeState, new_runtime, settle, run_cached, executor_run,
  winner_kernel, prefix_for, packed_prefix, prefix_of, source_of, run_plan, fresh_kernel,
}
use cpuattn.Runtime.Packing.Measured.{timed_prefix, measure}
use cpuattn.Runtime.Packing.Stream.{Reached, AllTrusted, packed_stream_trusted}
use cpuattn.Tests.Calls.{panel}
use cpuattn.Tests.Memories.{code, launch}

packed_template-live_example : UsesArena "plan" (packed_template "artifact" "plan" new_executor)
packed_template-live_example =
    packed_template-live "artifact" "plan" new_executor new_executor-IsLive

abbrev identity : ExecutionPlan → String
identity plan = plan.code.backend_id

abbrev same_code : CodePlan → CodePlan → Bool
same_code a b = true

abbrev plan : ExecutionPlan
plan = record { code = code; launch = launch; memory = record { regions = []; total_bytes = 4096 } }

abbrev kernel : Kernel
kernel = record { artifact = "artifact"; code = code }

abbrev answers : Answers
answers = record { loaded = ok kernel; prepare_status = 0; status = 0 }

abbrev call_of : ℕ → ParallelCall
call_of rows = record {
  q = panel 2 2 0;
  k = panel 1 rows 4096;
  v = panel 1 rows 8192;
  arguments = [];
  kv_cache = true;
  k_pitch = 16;
  v_pitch = 16;
}

abbrev packs : ℕ → Source
packs rows = record { key = ("x86_avx2", (4096, (1, (1, 4)))); skv = rows; tile_k = 4 }

abbrev launch_of : ℕ → ℕ → Launch
launch_of prefix rows = record {
  plan = "x86_avx2";
  call = ValidatedCall.parallel (call_of rows);
  workspace = 0;
  prefix = prefix;
  source = some (packs rows);
}

-- A run of a measurement, which the runtime does not remember.
abbrev measured_of : ℕ → ℕ → Launch
measured_of prefix rows = record {
  plan = "x86_avx2";
  call = ValidatedCall.parallel (call_of rows);
  workspace = 0;
  prefix = prefix;
  source = none;
}

abbrev executor : Executor
executor = record {
  arena = some ("x86_avx2", 0);
  next_arena = 1;
  prepared = ("artifact", 0 ∷ 8 ∷ []) ∷ [];
  templates = (("artifact", "x86_avx2"), 0) ∷ [];
}

abbrev state_of : ℕ → ℕ → RuntimeState
state_of runs rows = record {
  arena_seq = runs;
  kv_packed = some (record { key = (packs rows).key; skv = rows; seq = runs });
  winner_kernels = (("key", "x86_avx2"), kernel) ∷ [];
  executor = executor;
}

first_run :
    run_cached identity same_code answers "key" plan
      (ValidatedCall.parallel (call_of 3))
      new_runtime
    ≡ (ok (launch_of 0 3), state_of 1 3)
unfolding run_cached winner_kernel prefix_for packed_prefix prefix_of source_of executor_run settle
    new_runtime new_executor packed_template workspace_for close map_arena prepare_launch get put
first_run = refl

second_run :
    run_cached identity same_code answers "key" plan
      (ValidatedCall.parallel (call_of 4))
      (state_of 1 3)
    ≡ (ok (launch_of 3 4), state_of 2 4)
unfolding run_cached winner_kernel prefix_for packed_prefix prefix_of source_of executor_run settle
    packed_template get packed_skv
second_run = refl

-- Two runs later, with the packed state of the second run.
abbrev after_measurement : RuntimeState
after_measurement = record {
  arena_seq = 4;
  kv_packed = some (record { key = (packs 4).key; skv = 4; seq = 2 });
  winner_kernels = (("key", "x86_avx2"), kernel) ∷ [];
  executor = executor;
}

measurement :
    measure identity same_code answers answers plan
      (ValidatedCall.parallel (call_of 4))
      (ValidatedCall.parallel (call_of 8))
      (state_of 2 4)
    ≡ (ok (measured_of 0 8, measured_of 8 8), after_measurement)
unfolding measure timed_prefix run_plan fresh_kernel executor_run settle packed_template
    prepare_launch get put
measurement = refl

abbrev trace : List Launch
trace = measured_of 8 8 ∷ measured_of 0 8 ∷ launch_of 3 4 ∷ launch_of 0 3 ∷ []

reached : Reached identity same_code after_measurement trace
reached =
    Reached.measured answers answers plan (ValidatedCall.parallel (call_of 4))
      (ValidatedCall.parallel (call_of 8)) (state_of 2 4) after_measurement (measured_of 0 8)
      (measured_of 8 8) (launch_of 3 4 ∷ launch_of 0 3 ∷ [])
      (Reached.cached answers "key" plan (ValidatedCall.parallel (call_of 4)) (state_of 1 3)
        (state_of 2 4) (launch_of 3 4) (launch_of 0 3 ∷ [])
        (Reached.cached answers "key" plan (ValidatedCall.parallel (call_of 3)) new_runtime
          (state_of 1 3) (launch_of 0 3) [] Reached.start first_run)
        second_run)
      measurement

packed_stream_trusted_example : AllTrusted identity same_code trace
packed_stream_trusted_example =
    packed_stream_trusted identity same_code after_measurement trace reached
