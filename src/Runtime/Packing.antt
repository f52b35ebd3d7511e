-- ===== src/Runtime/Packing.antt =====
-- src/cpuattn/runtime.py: the stream of the packed K over the runs of a runtime.
pub mod Measured
pub mod Tracks
pub mod Grounds
pub mod Timed
pub mod Stream
use cpuattn.Prelude.{
  ℕ, suc, ◌+◌, ◌<◌, ◌≤◌, String, ◌≡◌, refl, sym, ◌∙◌, Bool, true, false, not, ◌||◌, ◌&&◌, Option,
  none, some, List, [], ◌∷◌, ◌==◌, string_eq, nat_eq, pair_eq, leb, Result, ok, err, runtime_error,
  value_error, ◌>>=◌, ◌>>◌, raise_if, if◌then◌else◌, arith, >>=-eq-ok,
}
use cpuattn.Prelude.Dict.{Dict, get, put}
use cpuattn.Core.Operator.{Operator}
use cpuattn.Core.Validate.{Shape4, shape4, ParallelCall, ValidatedCall}
use cpuattn.Schedule.Plan.{CodePlan, ExecutionPlan, is_packed}
use cpuattn.Runtime.Lengths.{packed_skv}
use cpuattn.Runtime.Workspace.{Executor, new_executor, packed_template, prepare_launch}

-- (plan.identity, k.ctypes.data, b, hkv, d)
abbrev pub PackedKey : Type 0
PackedKey = String × (ℕ × (ℕ × (ℕ × ℕ)))

-- _PackedKState, less the view that keeps the buffer alive.
pub record PackedKState : Type 0 where
  pub key : PackedKey
  pub skv : ℕ
  pub seq : ℕ

-- What _packed_prefix reads of a Parallel call and its plan.
pub record Source : Type 0 where
  pub key : PackedKey
  pub skv : ℕ
  pub tile_k : ℕ

unfoldable pub source_of : String → ParallelCall → ExecutionPlan → Result Source
source_of identity call plan = do
  q ← shape4 call.q
  k ← shape4 call.k
  ok (record {
    key = (identity, (call.k.address, (q.n0, (k.n1, q.n3))));
    skv = k.n2;
    tile_k = plan.code.tile.k;
  })

-- The checks on the state of the latest run, in order: the prefix, and why none is trusted.
unfoldable pub prefix_of : Option PackedKState → ℕ → Source → ℕ × Option String
prefix_of none arena_seq source = (0, none)
prefix_of (some state) arena_seq source =
    if not (state.key == source.key)
    then (0, some "buffer-changed")
    else if not (state.seq == arena_seq)
    then (0, some "arena-changed")
    else if leb source.skv state.skv
    then (0, some "non-growing")
    else if not (packed_skv state.skv source.tile_k == packed_skv source.skv source.tile_k)
    then (0, some "stride-changed")
    else (state.skv, none)

-- Runtime._packed_prefix
unfoldable pub packed_prefix :
    Option PackedKState
    → ℕ
    → String
    → ParallelCall
    → ExecutionPlan
    → Result (ℕ × Option Source × Option String)
unfolding source_of prefix_of
packed_prefix kv_packed arena_seq identity call plan =
    if not (is_packed plan.code.packing)
    then ok (0, none, none)
    else (source_of identity call plan >>= λ source.
        let found = prefix_of kv_packed arena_seq source in ok (found.0, some source, found.1))

-- NativeKernel: the artifact, and the code plan it was compiled for.
pub record Kernel : Type 0 where
  pub artifact : String
  pub code : CodePlan

pub record RuntimeState : Type 0 where
  pub arena_seq : ℕ
  pub kv_packed : Option PackedKState
  pub winner_kernels : Dict (String × String) Kernel
  pub executor : Executor

unfoldable pub new_runtime : RuntimeState
unfolding new_executor
new_runtime = record {
  arena_seq = 0;
  kv_packed = none;
  winner_kernels = [];
  executor = new_executor;
}

-- What the compiler and the native calls answer in one run.
pub record Answers : Type 0 where
  pub loaded : Result Kernel
  pub prepare_status : ℕ
  pub status : ℕ

-- A native run: its plan and call, the workspace it writes, the prefix it keeps, and the K that the
-- runtime remembers as packed.
pub record Launch : Type 0 where
  pub plan : String
  pub call : ValidatedCall
  pub workspace : ℕ
  pub prefix : ℕ
  pub source : Option Source

abbrev pub set_executor : RuntimeState → Executor → RuntimeState
set_executor s e = record {
  arena_seq = s.arena_seq;
  kv_packed = s.kv_packed;
  winner_kernels = s.winner_kernels;
  executor = e;
}

abbrev pub set_kernels : RuntimeState → Dict (String × String) Kernel → RuntimeState
set_kernels s kernels = record {
  arena_seq = s.arena_seq;
  kv_packed = s.kv_packed;
  winner_kernels = kernels;
  executor = s.executor;
}

-- self._arena_seq += 1, and the state of the packed K where the run packed it.
unfoldable pub settle : Option Source → RuntimeState → RuntimeState
settle none s = record {
  arena_seq = s.arena_seq + 1;
  kv_packed = s.kv_packed;
  winner_kernels = s.winner_kernels;
  executor = s.executor;
}
settle (some source) s = record {
  arena_seq = s.arena_seq + 1;
  kv_packed = some (record { key = source.key; skv = source.skv; seq = s.arena_seq + 1 });
  winner_kernels = s.winner_kernels;
  executor = s.executor;
}

-- A kernel that is compiled, or loaded, and prepared for the launch.
unfoldable pub fresh_kernel :
    Answers → ExecutionPlan → RuntimeState → Result (Kernel × RuntimeState)
unfolding prepare_launch
fresh_kernel answers plan s = do
  kernel ← answers.loaded
  e ← prepare_launch kernel.artifact plan.launch.cpu_ids answers.prepare_status s.executor
  ok (kernel, set_executor s e)

module _ (identity : ExecutionPlan → String) (same_code : CodePlan → CodePlan → Bool) where
  -- Executor.run
  unfoldable pub executor_run :
      Kernel
      → ExecutionPlan
      → ValidatedCall
      → ℕ
      → Option Source
      → ℕ
      → Executor
      → Result Launch × Executor
  unfolding packed_template
  executor_run kernel plan call prefix source status e =
      if not (same_code kernel.code plan.code)
      then (err (value_error "compiled code and execution plan do not match"), e)
      else let template = packed_template kernel.artifact (identity plan) e in
        (
          (if not (status == 0)
              then err (runtime_error "native execution failed")
              else ok (record {
                plan = identity plan;
                call = call;
                workspace = template.0;
                prefix = prefix;
                source = source;
              })),
          template.1,
        )

  -- The kernel of the winner, prepared, compiled if this is its first run.
  unfoldable pub winner_kernel :
      Option Kernel
      → Answers
      → String
      → ExecutionPlan
      → RuntimeState
      → Result (Kernel × RuntimeState)
  unfolding prepare_launch
  winner_kernel (some kernel) answers key plan s = ok (kernel, s)
  winner_kernel none answers key plan s = do
    kernel ← answers.loaded
    e ← prepare_launch kernel.artifact plan.launch.cpu_ids answers.prepare_status s.executor
    ok (kernel, set_kernels (set_executor s e) (put (key, identity plan) kernel s.winner_kernels))

  -- The prefix of a call: only a Parallel call with a cache has one.
  unfoldable pub prefix_for :
      ExecutionPlan → ValidatedCall → RuntimeState → Result (ℕ × Option Source × Option String)
  unfolding packed_prefix
  prefix_for plan (ValidatedCall.parallel call) s =
      if call.kv_cache
      then packed_prefix s.kv_packed s.arena_seq (identity plan) call plan
      else ok (0, none, none)
  prefix_for plan (ValidatedCall.linear call) s = ok (0, none, none)

  abbrev pub finish :
      Option Source → RuntimeState → Result Launch × Executor → Result Launch × RuntimeState
  finish source s (err x, e) = (err x, set_executor s e)
  finish source s (ok launch, e) = (ok launch, settle source (set_executor s e))

  abbrev pub launch_kernel :
      Answers
      → ExecutionPlan
      → ValidatedCall
      → RuntimeState
      → Result (Kernel × RuntimeState)
      → Result (ℕ × Option Source × Option String)
      → Result Launch × RuntimeState
  launch_kernel answers plan call s (err x) found = (err x, s)
  launch_kernel answers plan call s (ok (kernel, t)) (err x) = (err x, t)
  launch_kernel answers plan call s (ok (kernel, t)) (ok (prefix, source, reason)) =
      finish source t (executor_run kernel plan call prefix source answers.status t.executor)

  -- Runtime._run_cached
  unfoldable pub run_cached :
      Answers → String → ExecutionPlan → ValidatedCall → RuntimeState → Result Launch × RuntimeState
  unfolding winner_kernel prefix_for executor_run settle
  run_cached answers key plan call s =
      launch_kernel answers plan call s
        (winner_kernel (get (key, identity plan) s.winner_kernels) answers key plan s)
        (prefix_for plan call s)

  -- Runtime._run_plan
  unfoldable pub run_plan :
      Answers → ExecutionPlan → ValidatedCall → ℕ → RuntimeState → Result Launch × RuntimeState
  unfolding fresh_kernel executor_run settle
  run_plan answers plan call prefix s =
      launch_kernel answers plan call s (fresh_kernel answers plan s) (ok (prefix, none, none))
