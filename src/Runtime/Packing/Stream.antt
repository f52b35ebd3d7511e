-- ===== src/Runtime/Packing/Stream.antt =====
-- src/cpuattn/runtime.py: over any sequence of runs that succeed, the prefix of the packed K that a
-- run trusts was packed by the run before it, from the same buffer into the same arena.
use mathlib.Core.Path.{subst}
use cpuattn.Prelude.{
  ℕ, String, ◌≡◌, refl, sym, ap, inl, inr, Bool, Option, none, some, List, [], ◌∷◌, nat_eq,
  string_eq, pair_eq, Result, ok, err, >>=-eq-ok, some-injective, Bool-cases, ok-injective,
}
use cpuattn.Core.Validate.{ValidatedCall, ParallelCall, shape4}
use cpuattn.Schedule.Plan.{CodePlan, ExecutionPlan, is_packed}
use cpuattn.Runtime.Packing.{
  Source, source_of, prefix_of, packed_prefix, Kernel, RuntimeState, new_runtime, Answers, Launch,
  prefix_for, launch_kernel, run_cached,
}
use cpuattn.Runtime.Packing.Measured.{measure}
use cpuattn.Runtime.Packing.Tracks.{
  Tracks, new_runtime-Tracks, prefix_of-cases, Unmoved, Tracks-Unmoved, winner_kernel-Unmoved,
  Trusted,
}
use cpuattn.Runtime.Packing.Timed.{measure_sound}
use cpuattn.Runtime.Packing.Grounds.{Grounded, finish_sound}

-- The states that runs which succeed reach, with their launches, the latest first: runs of a winner,
-- and measurements with their two runs, in any order, on any plans and calls.
pub data Reached (identity : ExecutionPlan → String) (same_code : CodePlan → CodePlan → Bool)
    : RuntimeState → List Launch → Type 0 where
  start : Reached identity same_code new_runtime []
  cached :
      (answers : Answers) (key : String) (plan : ExecutionPlan) (call : ValidatedCall)
      (s t : RuntimeState) (launch : Launch) (trace : List Launch)
      → Reached identity same_code s trace
      → run_cached identity same_code answers key plan call s ≡ (ok launch, t)
      → Reached identity same_code t (launch ∷ trace)
  measured :
      (first second : Answers) (plan : ExecutionPlan) (call tune_call : ValidatedCall)
      (s t : RuntimeState) (discarded timed : Launch) (trace : List Launch)
      → Reached identity same_code s trace
      → measure identity same_code first second plan call tune_call s ≡ (ok (discarded, timed), t)
      → Reached identity same_code t (timed ∷ discarded ∷ trace)

module _ (identity : ExecutionPlan → String) (same_code : CodePlan → CodePlan → Bool) where
  no_prefix :
      (plan : ExecutionPlan) (s : RuntimeState) (prefix : ℕ) (source : Option Source)
      (reason : Option String)
      → ◌≡◌ {A = Result (ℕ × Option Source × Option String)}
          (ok (0, none, none))
          (ok (prefix, source, reason))
      → Grounded identity same_code s plan prefix source
  no_prefix plan s prefix source reason h =
      let same = ok-injective (0, none, none) (prefix, source, reason) h in
      (λ bound is. cc, inl (sym (ap (λ p. p.0) same)))

  source_of-key :
      (i : String) (call : ParallelCall) (plan : ExecutionPlan) (bound : Source)
      → source_of i call plan ≡ ok bound
      → bound.key.0 ≡ i
  unfolding source_of
  source_of-key i call plan bound h =
      let (q, pq, h1) = >>=-eq-ok (shape4 call.q) _ h in
      let (k, pk, h2) = >>=-eq-ok (shape4 call.k) _ h1 in
      sym (ap (λ b. b.key.0) (ok-injective _ bound h2))

  of_source :
      (plan : ExecutionPlan) (s : RuntimeState) (bound : Source)
      → bound.key.0 ≡ identity plan
      → Grounded identity same_code s plan (prefix_of s.kv_packed s.arena_seq bound).0 (some bound)
  of_source plan s bound key = (
    λ other is. rw (sym (some-injective is)) key,
    elim (prefix_of-cases s.kv_packed s.arena_seq bound) [
      | inl fresh ↦ inl fresh
      | inr (state, kept, same, latest, grows, stride, rows) ↦
          inr (bound, state, refl, kept, same, latest, sym rows, rw rows grows, stride)
    ],
  )

  packed_prefix-Grounded :
      (plan : ExecutionPlan) (call : ParallelCall) (s : RuntimeState) (prefix : ℕ)
      (source : Option Source) (reason : Option String)
      → packed_prefix s.kv_packed s.arena_seq (identity plan) call plan
        ≡ ok (prefix, source, reason)
      → Grounded identity same_code s plan prefix source
  unfolding packed_prefix
  packed_prefix-Grounded plan call s prefix source reason h =
      elim (Bool-cases (is_packed plan.code.packing)) [
        | inr plain ↦ no_prefix plan s prefix source reason (rw plain at h)
        | inl packs ↦
            let (bound, is, rest) =
              >>=-eq-ok (source_of (identity plan) call plan) _ (rw packs at h) in
            let same = ok-injective _ (prefix, source, reason) rest in
            subst (λ r. Grounded identity same_code s plan r.0 r.1) same
              (of_source plan s bound (source_of-key (identity plan) call plan bound is))
      ]

  prefix_for-Grounded :
      (plan : ExecutionPlan) (call : ValidatedCall) (s : RuntimeState) (prefix : ℕ)
      (source : Option Source) (reason : Option String)
      → prefix_for identity same_code plan call s ≡ ok (prefix, source, reason)
      → Grounded identity same_code s plan prefix source
  unfolding prefix_for
  prefix_for-Grounded plan (ValidatedCall.linear call) s prefix source reason h =
      no_prefix plan s prefix source reason h
  prefix_for-Grounded plan (ValidatedCall.parallel call) s prefix source reason h =
      elim (Bool-cases call.kv_cache) [
        | inr uncached ↦ no_prefix plan s prefix source reason (rw uncached at h)
        | inl with_cache ↦
            packed_prefix-Grounded plan call s prefix source reason (rw with_cache at h)
      ]

  Grounded-Unmoved :
      (s t : RuntimeState) (plan : ExecutionPlan) (prefix : ℕ) (source : Option Source)
      → Unmoved s t
      → Grounded identity same_code s plan prefix source
      → Grounded identity same_code t plan prefix source
  Grounded-Unmoved s t plan prefix source same h = rw (same.arena_seq, same.kv_packed) h

  launch_kernel_sound :
      (answers : Answers) (plan : ExecutionPlan) (call : ValidatedCall) (s : RuntimeState)
      (last : Option Launch) (ready : Result (Kernel × RuntimeState))
      (found : Result (ℕ × Option Source × Option String)) (launch : Launch) (after : RuntimeState)
      → Tracks s last
      → ((kernel : Kernel) (t : RuntimeState) → ready ≡ ok (kernel, t) → Unmoved s t)
      → ((prefix : ℕ) (source : Option Source) (reason : Option String)
          → found ≡ ok (prefix, source, reason)
          → Grounded identity same_code s plan prefix source)
      → launch_kernel identity same_code answers plan call s ready found ≡ (ok launch, after)
      → Trusted last launch × Tracks after (some launch)
  launch_kernel_sound answers plan call s last (err x) found launch after h same grounded e = cc
  launch_kernel_sound answers plan call s last (ok ready) (err x) launch after h same grounded e =
      cc
  launch_kernel_sound answers plan call s last (ok (kernel, t)) (ok (prefix, source, reason)) launch
        after h same grounded e =
      let unmoved = same kernel t refl in
      finish_sound identity same_code kernel plan call prefix source answers.status t last launch
        after (Tracks-Unmoved s t last unmoved h)
        (Grounded-Unmoved s t plan prefix source unmoved (grounded prefix source reason refl)) e

  run_cached_sound :
      (answers : Answers) (key : String) (plan : ExecutionPlan) (call : ValidatedCall)
      (s t : RuntimeState) (last : Option Launch) (launch : Launch)
      → Tracks s last
      → run_cached identity same_code answers key plan call s ≡ (ok launch, t)
      → Trusted last launch × Tracks t (some launch)
  unfolding run_cached
  run_cached_sound answers key plan call s t last launch h e =
      launch_kernel_sound answers plan call s last _ _ launch t h
        (λ kernel u. winner_kernel-Unmoved identity same_code _ answers key plan s u kernel)
        (λ prefix source reason. prefix_for-Grounded plan call s prefix source reason) e

  abbrev pub latest : List Launch → Option Launch
  latest [] = none
  latest (launch ∷ trace) = some launch

  -- Every run of the trace is trusted on the grounds of the run before it.
  abbrev pub AllTrusted : List Launch → Type 0
  AllTrusted [] = Unit
  AllTrusted (launch ∷ trace) = Trusted (latest trace) launch × AllTrusted trace

  Reached-Tracks :
      (s : RuntimeState) (trace : List Launch)
      → Reached identity same_code s trace
      → AllTrusted trace × Tracks s (latest trace)
  Reached-Tracks s trace start = (tt, new_runtime-Tracks)
  Reached-Tracks s trace (cached answers key plan call before t launch rest reached ran) =
      let (trusted, tracks) = Reached-Tracks before rest reached in
      let (now, after) =
        run_cached_sound answers key plan call before t (latest rest) launch tracks ran in
      ((now, trusted), after)
  Reached-Tracks s trace
        (measured first second plan call tune_call before t discarded timed rest reached ran) =
      let (trusted, tracks) = Reached-Tracks before rest reached in
      let (one, two, after) =
        measure_sound identity same_code first second plan call tune_call before t (latest rest)
          discarded timed tracks ran in
      ((two, (one, trusted)), after)

  -- In every sequence of runs of winners and of measurements that succeed, a prefix above zero is of
  -- the run just before, of the same plan, into the same workspace. For the run of a winner, that run
  -- packed exactly these rows for the same buffer and dimensions, at the same stride, and the K has
  -- grown since. For a measurement, that run was of the same call without a prefix, and the prefix is
  -- the whole K of the call.
  pub packed_stream_trusted :
      (s : RuntimeState) (trace : List Launch)
      → Reached identity same_code s trace
      → AllTrusted trace
  packed_stream_trusted s trace reached = (Reached-Tracks s trace reached).0
