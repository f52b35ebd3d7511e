-- ===== src/Runtime/Packing/Measured.antt =====
-- src/cpuattn/runtime.py: the measurement of a plan, a discarded run and a timed one.
use cpuattn.Prelude.{ℕ, String, Bool, ◌&&◌, Result, ok, err, ◌>>=◌, if◌then◌else◌}
use cpuattn.Core.Tensor.{Array}
use cpuattn.Core.Validate.{shape4, ValidatedCall}
use cpuattn.Schedule.Plan.{CodePlan, ExecutionPlan, is_packed}
use cpuattn.Runtime.Packing.{Answers, Launch, RuntimeState, run_plan}

-- call.k
abbrev pub call_k : ValidatedCall → Array
call_k (ValidatedCall.parallel call) = call.k
call_k (ValidatedCall.linear call) = call.k

-- The prefix of the timed run: the whole K of the tuning call, where the call has a cache and K is
-- packed.
unfoldable pub timed_prefix : ValidatedCall → ValidatedCall → ExecutionPlan → Result ℕ
timed_prefix (ValidatedCall.parallel call) tune_call plan =
    if call.kv_cache && is_packed plan.code.packing
    then (do k ← shape4 (call_k tune_call); ok k.n2)
    else ok 0
timed_prefix (ValidatedCall.linear call) tune_call plan = ok 0

module _ (identity : ExecutionPlan → String) (same_code : CodePlan → CodePlan → Bool) where
  abbrev pub both_runs :
      Launch → Result Launch × RuntimeState → Result (Launch × Launch) × RuntimeState
  both_runs discarded (err x, t) = (err x, t)
  both_runs discarded (ok timed, t) = (ok (discarded, timed), t)

  abbrev pub timed_run :
      Answers
      → ExecutionPlan
      → ValidatedCall
      → Launch
      → RuntimeState
      → Result ℕ
      → Result (Launch × Launch) × RuntimeState
  timed_run answers plan tune_call discarded s (err x) = (err x, s)
  timed_run answers plan tune_call discarded s (ok prefix) =
      both_runs discarded (run_plan identity same_code answers plan tune_call prefix s)

  abbrev pub after_discarded :
      Answers
      → ExecutionPlan
      → ValidatedCall
      → ValidatedCall
      → Result Launch × RuntimeState
      → Result (Launch × Launch) × RuntimeState
  after_discarded answers plan call tune_call (err x, t) = (err x, t)
  after_discarded answers plan call tune_call (ok discarded, t) =
      timed_run answers plan tune_call discarded t (timed_prefix call tune_call plan)

  -- measure, in Runtime._select: the two runs of a plan, on the tuning call.
  unfoldable pub measure :
      Answers
      → Answers
      → ExecutionPlan
      → ValidatedCall
      → ValidatedCall
      → RuntimeState
      → Result (Launch × Launch) × RuntimeState
  unfolding run_plan timed_prefix
  measure first second plan call tune_call s =
      after_discarded second plan call tune_call
        (run_plan identity same_code first plan tune_call 0 s)
