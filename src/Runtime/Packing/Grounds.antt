-- ===== src/Runtime/Packing/Grounds.antt =====
-- src/cpuattn/runtime.py: a run whose prefix has grounds in the packed state is sound, and it leaves
-- the state that remembers it.
use mathlib.Core.Path.{subst}
use cpuattn.Prelude.{
  ℕ, ◌<◌, ◌≤◌, String, ◌≡◌, refl, sym, ◌∙◌, ap, ◌⊎◌, inl, inr, Bool, Option, none, some, nat_eq,
  string_eq, pair_eq, Result, ok, err, some-injective, arith,
}
use cpuattn.Core.Validate.{ValidatedCall}
use cpuattn.Schedule.Plan.{CodePlan, ExecutionPlan}
use cpuattn.Runtime.Lengths.{packed_skv}
use cpuattn.Runtime.Workspace.{
  Executor, IsLive, packed_template, packed_template-live, packed_template-same,
}
use cpuattn.Runtime.Packing.{
  PackedKState, Source, Kernel, RuntimeState, Launch, set_executor, settle, executor_run, finish,
}
use cpuattn.Runtime.Packing.Tracks.{Tracks, executor_run-ok, Trusted, Keyed}

module _ (identity : ExecutionPlan → String) (same_code : CodePlan → CodePlan → Bool) where
  -- What the prefix of a run rests on: nothing, or the packed state of the latest run.
  abbrev pub Grounded : RuntimeState → ExecutionPlan → ℕ → Option Source → Type 0
  Grounded s plan prefix source =
      ((bound : Source) → source ≡ some bound → bound.key.0 ≡ identity plan)
      × ((prefix ≡ 0)
          ⊎ ((bound : Source) × (state : PackedKState) × (source ≡ some bound)
              × (s.kv_packed ≡ some state)
              × (state.key ≡ bound.key)
              × (state.seq ≡ s.arena_seq)
              × (state.skv ≡ prefix)
              × (prefix < bound.skv)
              × (packed_skv state.skv bound.tile_k ≡ packed_skv bound.skv bound.tile_k)))

  pub Trusted-of_Grounded :
      (kernel : Kernel) (plan : ExecutionPlan) (prefix : ℕ) (source : Option Source)
      (t : RuntimeState) (last : Option Launch) (launch : Launch)
      → Tracks t last
      → Grounded t plan prefix source
      → launch.prefix ≡ prefix
      → launch.source ≡ source
      → launch.workspace ≡ (packed_template kernel.artifact (identity plan) t.executor).0
      → Trusted last launch
  Trusted-of_Grounded kernel plan prefix source t last launch h (keyed, inl fresh) p q w =
      inl (p ∙ fresh)
  Trusted-of_Grounded kernel plan prefix source t last launch h
        (keyed, inr (bound, state, is, kept, same, latest, rows, grows, stride)) p q w =
      let (before, packed, ran, from, named, length) = (h.remembers state kept).1 latest in
      let (arena, key) = h.mapped before ran in
      let plans : before.plan ≡ identity plan =
        sym (key packed from) ∙ ap (λ k. k.0) named ∙ ap (λ k. k.0) same ∙ keyed bound is in
      let reused =
        packed_template-same kernel.artifact (identity plan) before.workspace t.executor h.live
          (arena ∙ ap (λ i. some (i, before.workspace)) plans) in
      inr (
        inl (
          before,
          packed,
          bound,
          ran,
          from,
          q ∙ is,
          named ∙ same,
          length ∙ rows ∙ sym p,
          rw p grows,
          rw length stride,
          sym reused ∙ sym w,
        ))

  pub settled :
      (source : Option Source) (t : RuntimeState) (launch : Launch) (e : Executor)
      → IsLive e
      → ((state : PackedKState) → t.kv_packed ≡ some state → state.seq ≤ t.arena_seq)
      → ((before : Launch)
          → some launch ≡ some before
          → (e.arena ≡ some (before.plan, before.workspace)) × Keyed before)
      → launch.source ≡ source
      → Tracks (settle source (set_executor t e)) (some launch)
  unfolding settle
  settled none t launch e live older mapped q = record {
    live = live;
    remembers = λ state kept.
        (omega (arith, older state kept), λ now. absurd (omega (arith, older state kept, now)));
    mapped = mapped;
  }
  settled (some source) t launch e live older mapped q = record {
    live = live;
    remembers = λ state kept.
        let same = some-injective kept in
        (
          omega (arith, ap (λ r. r.seq) same),
          λ now. (launch, source, refl, q, ap (λ r. r.key) same, ap (λ r. r.skv) same),
        );
    mapped = mapped;
  }

  pub finish-ok :
      (source : Option Source) (t : RuntimeState) (launch : Launch) (after : RuntimeState)
      (r : Result Launch × Executor)
      → finish identity same_code source t r ≡ (ok launch, after)
      → (r.0 ≡ ok launch) × (settle source (set_executor t r.1) ≡ after)
  finish-ok source t launch after (err x, e) h = cc
  finish-ok source t launch after (ok l, e) h = (ap (λ p. p.0) h, ap (λ p. p.1) h)

  pub Tracks-after :
      (kernel : Kernel) (plan : ExecutionPlan) (source : Option Source) (t : RuntimeState)
      (last : Option Launch) (launch : Launch) (e : Executor)
      → Tracks t last
      → ((bound : Source) → source ≡ some bound → bound.key.0 ≡ identity plan)
      → launch.plan ≡ identity plan
      → launch.source ≡ source
      → launch.workspace ≡ (packed_template kernel.artifact (identity plan) t.executor).0
      → e ≡ (packed_template kernel.artifact (identity plan) t.executor).1
      → Tracks (settle source (set_executor t e)) (some launch)
  unfolding settle
  Tracks-after kernel plan source t last launch e h keyed p q w f =
      let (arena, live) = packed_template-live kernel.artifact (identity plan) t.executor h.live in
      let mapped : (before : Launch)
          → some launch ≡ some before
          → (e.arena ≡ some (before.plan, before.workspace)) × Keyed before =
        λ before same.
          subst (λ l. (e.arena ≡ some (l.plan, l.workspace)) × Keyed l) (some-injective same)
            (rw (f, p, w) arena, λ bound from. keyed bound (sym q ∙ from) ∙ sym p) in
      settled source t launch e (rw f live) (λ state kept. (h.remembers state kept).0) mapped q

  -- What a run that succeeds leaves behind.
  pub finish-Tracks :
      (kernel : Kernel) (plan : ExecutionPlan) (call : ValidatedCall) (prefix : ℕ)
      (source : Option Source) (status : ℕ) (t : RuntimeState) (last : Option Launch)
      (launch : Launch) (after : RuntimeState)
      → Tracks t last
      → ((bound : Source) → source ≡ some bound → bound.key.0 ≡ identity plan)
      → finish identity same_code source t
          (executor_run identity same_code kernel plan call prefix source status t.executor)
        ≡ (ok launch, after)
      → (launch.plan ≡ identity plan)
        × (launch.call ≡ call)
        × (launch.prefix ≡ prefix)
        × (launch.source ≡ source)
        × (launch.workspace ≡ (packed_template kernel.artifact (identity plan) t.executor).0)
        × Tracks after (some launch)
  finish-Tracks kernel plan call prefix source status t last launch after h keyed e =
      let r = executor_run identity same_code kernel plan call prefix source status t.executor in
      let (ran, settled) = finish-ok source t launch after r e in
      let (p, c, x, q, w, f) =
        executor_run-ok identity same_code kernel plan call prefix source status t.executor launch
          ran in
      (
        p,
        c,
        x,
        q,
        w,
        subst (λ u. Tracks u (some launch)) settled
            (Tracks-after kernel plan source t last launch r.1 h keyed p q w f),
      )

  pub finish_sound :
      (kernel : Kernel) (plan : ExecutionPlan) (call : ValidatedCall) (prefix : ℕ)
      (source : Option Source) (status : ℕ) (t : RuntimeState) (last : Option Launch)
      (launch : Launch) (after : RuntimeState)
      → Tracks t last
      → Grounded t plan prefix source
      → finish identity same_code source t
          (executor_run identity same_code kernel plan call prefix source status t.executor)
        ≡ (ok launch, after)
      → Trusted last launch × Tracks after (some launch)
  finish_sound kernel plan call prefix source status t last launch after h grounded e =
      let (p, c, x, q, w, tracks) =
        finish-Tracks kernel plan call prefix source status t last launch after h grounded.0 e in
      (Trusted-of_Grounded kernel plan prefix source t last launch h grounded x q w, tracks)

  -- A run of the plan that ran last writes where that one wrote.
  pub same_place :
      (kernel : Kernel) (plan : ExecutionPlan) (t : RuntimeState) (before : Launch)
      → Tracks t (some before)
      → before.plan ≡ identity plan
      → (packed_template kernel.artifact (identity plan) t.executor).0 ≡ before.workspace
  same_place kernel plan t before h same =
      let (arena, key) = h.mapped before refl in
      packed_template-same kernel.artifact (identity plan) before.workspace t.executor h.live
        (arena ∙ ap (λ i. some (i, before.workspace)) same)
