-- ===== src/Runtime/Packing/Timed.antt =====
-- src/cpuattn/runtime.py: the timed run of a measurement continues the discarded one.
use mathlib.Core.Path.{subst}
use cpuattn.Prelude.{
  ℕ, String, ◌≡◌, refl, sym, ap, inl, inr, ◌⊎◌, ◌∙◌, ◌&&◌, Bool, Option, none, some, nat_eq,
  string_eq, pair_eq, Result, ok, err, >>=-eq-ok, Bool-cases, ok-injective,
}
use cpuattn.Core.Validate.{ValidatedCall, Shape4, shape4}
use cpuattn.Schedule.Plan.{CodePlan, ExecutionPlan, is_packed}
use cpuattn.Runtime.Packing.{
  Kernel, RuntimeState, Answers, Launch, launch_kernel, run_plan, fresh_kernel,
}
use cpuattn.Runtime.Packing.Measured.{
  call_k, timed_prefix, both_runs, timed_run, after_discarded, measure,
}
use cpuattn.Runtime.Packing.Tracks.{Tracks, prepared-Unmoved, Unmoved, Tracks-Unmoved, Trusted}
use cpuattn.Runtime.Packing.Grounds.{finish-Tracks, same_place}

module _ (identity : ExecutionPlan → String) (same_code : CodePlan → CodePlan → Bool) where
  -- What a run of _run_plan that succeeds leaves behind: its plan, call and prefix, and, where the
  -- run before was of this plan, its workspace.
  abbrev LeavesPlan :
      ExecutionPlan → ValidatedCall → ℕ → Option Launch → Launch → RuntimeState → Type 0
  LeavesPlan plan call prefix last launch t =
      (launch.plan ≡ identity plan)
      × (launch.call ≡ call)
      × (launch.prefix ≡ prefix)
      × ((before : Launch)
          → last ≡ some before
          → before.plan ≡ identity plan
          → launch.workspace ≡ before.workspace)
      × Tracks t (some launch)

  launched-LeavesPlan :
      (answers : Answers) (plan : ExecutionPlan) (call : ValidatedCall) (prefix : ℕ)
      (s t : RuntimeState) (ready : Result (Kernel × RuntimeState)) (last : Option Launch)
      (launch : Launch)
      → Tracks s last
      → ((kernel : Kernel) (u : RuntimeState) → ready ≡ ok (kernel, u) → Unmoved s u)
      → launch_kernel identity same_code answers plan call s ready (ok (prefix, none, none))
        ≡ (ok launch, t)
      → LeavesPlan plan call prefix last launch t
  launched-LeavesPlan answers plan call prefix s t (err x) last launch h same e = cc
  launched-LeavesPlan answers plan call prefix s t (ok (kernel, u)) last launch h same e =
      let tracks = Tracks-Unmoved s u last (same kernel u refl) h in
      let (p, c, x, q, w, after) =
        finish-Tracks identity same_code kernel plan call prefix none answers.status u last launch t
          tracks (λ bound is. cc) e in
      (
        p,
        c,
        x,
        λ before ran of_plan.
            w
            ∙ same_place identity same_code kernel plan u before (subst (Tracks u) ran tracks)
                of_plan,
        after,
      )

  run_plan-LeavesPlan :
      (answers : Answers) (plan : ExecutionPlan) (call : ValidatedCall) (prefix : ℕ)
      (s t : RuntimeState) (last : Option Launch) (launch : Launch)
      → Tracks s last
      → run_plan identity same_code answers plan call prefix s ≡ (ok launch, t)
      → LeavesPlan plan call prefix last launch t
  unfolding run_plan
  run_plan-LeavesPlan answers plan call prefix s t last launch h e =
      launched-LeavesPlan answers plan call prefix s t (fresh_kernel answers plan s) last launch h
        (λ kernel u. prepared-Unmoved answers plan s u kernel) e

  timed_prefix-cases :
      (call tune_call : ValidatedCall) (plan : ExecutionPlan) (prefix : ℕ)
      → timed_prefix call tune_call plan ≡ ok prefix
      → (prefix ≡ 0) ⊎ ((k : Shape4) × (shape4 (call_k tune_call) ≡ ok k) × (prefix ≡ k.n2))
  unfolding timed_prefix
  timed_prefix-cases (ValidatedCall.linear call) tune_call plan prefix h =
      inl (sym (ok-injective 0 prefix h))
  timed_prefix-cases (ValidatedCall.parallel call) tune_call plan prefix h =
      elim (Bool-cases (call.kv_cache && is_packed plan.code.packing)) [
        | inr plain ↦ inl (sym (ok-injective 0 prefix (rw plain at h)))
        | inl packs ↦
            let (k, found, rest) = >>=-eq-ok (shape4 (call_k tune_call)) _ (rw packs at h) in
            inr (k, found, sym (ok-injective k.n2 prefix rest))
      ]

  both_runs-ok :
      (first : Launch) (run : Result Launch × RuntimeState) (discarded timed : Launch)
      (t : RuntimeState)
      → both_runs identity same_code first run ≡ (ok (discarded, timed), t)
      → (first ≡ discarded) × (run ≡ (ok timed, t))
  both_runs-ok first (err x, u) discarded timed t h = cc
  both_runs-ok first (ok launch, u) discarded timed t h = (cc, cc)

  after_discarded-ok :
      (second : Answers) (plan : ExecutionPlan) (call tune_call : ValidatedCall)
      (run : Result Launch × RuntimeState) (t : RuntimeState) (discarded timed : Launch)
      → after_discarded identity same_code second plan call tune_call run
        ≡ (ok (discarded, timed), t)
      → (u : RuntimeState) × (prefix : ℕ) × (run ≡ (ok discarded, u))
        × (timed_prefix call tune_call plan ≡ ok prefix)
        × (run_plan identity same_code second plan tune_call prefix u ≡ (ok timed, t))
  after_discarded-ok second plan call tune_call (err x, u) t discarded timed h = cc
  after_discarded-ok second plan call tune_call (ok first, u) t discarded timed h =
      go (timed_prefix call tune_call plan) refl h
    where
      go :
          (found : Result ℕ)
          → timed_prefix call tune_call plan ≡ found
          → timed_run identity same_code second plan tune_call first u found
            ≡ (ok (discarded, timed), t)
          → (v : RuntimeState) × (prefix : ℕ) × (◌≡◌ {A = Result Launch × RuntimeState}
              (ok first, u)
              (ok discarded, v))
            × (timed_prefix call tune_call plan ≡ ok prefix)
            × (run_plan identity same_code second plan tune_call prefix v ≡ (ok timed, t))
      go (err x) e k = cc
      go (ok prefix) e k =
          let (same, ran) =
            both_runs-ok first (run_plan identity same_code second plan tune_call prefix u)
              discarded timed t k in
          (u, prefix, ap (λ l. (ok l, u)) same, e, ran)

  pub measure_sound :
      (first second : Answers) (plan : ExecutionPlan) (call tune_call : ValidatedCall)
      (s t : RuntimeState) (last : Option Launch) (discarded timed : Launch)
      → Tracks s last
      → measure identity same_code first second plan call tune_call s ≡ (ok (discarded, timed), t)
      → Trusted last discarded × Trusted (some discarded) timed × Tracks t (some timed)
  unfolding measure
  measure_sound first second plan call tune_call s t last discarded timed h e =
      let (u, prefix, ran, found, again) =
        after_discarded-ok second plan call tune_call
          (run_plan identity same_code first plan tune_call 0 s) t discarded timed e in
      let (p, c, x, place, tracks) =
        run_plan-LeavesPlan first plan tune_call 0 s u last discarded h ran in
      let (p', c', x', place', tracks') =
        run_plan-LeavesPlan second plan tune_call prefix u t (some discarded) timed tracks again in
      (
        inl x,
        (elim (timed_prefix-cases call tune_call plan prefix found) [
          | inl none_kept ↦ inl (x' ∙ none_kept)
          | inr (k, shape, rows) ↦ inr (
              inr (record {
                before = discarded;
                ran = refl;
                same_plan = p ∙ sym p';
                same_call = c ∙ sym c';
                whole = x;
                same_workspace = sym (place' discarded refl p);
                k = k;
                k_shape = ap (λ l. shape4 (call_k l)) c' ∙ shape;
                rows = x' ∙ rows;
              }))
        ]),
        tracks',
      )
