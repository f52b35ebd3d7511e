-- ===== src/Runtime/Packing/Tracks.antt =====
-- src/cpuattn/runtime.py: what the packed state remembers of the latest run, and what keeps it.
use mathlib.Core.Path.{subst}
use cpuattn.Prelude.Dict.{put}
use cpuattn.Prelude.{
  ℕ, ◌<◌, ◌≤◌, String, ◌≡◌, refl, ◌∙◌, ap, ◌⊎◌, inl, inr, Bool, Option, none, some, List, nat_eq,
  string_eq, pair_eq, ok, >>=-eq-ok, arith, Bool-cases, ok-injective, leb, ◌==◌,
}
use cpuattn.Core.Validate.{Shape4, shape4, ValidatedCall}
use cpuattn.Runtime.Packing.Measured.{call_k}
use cpuattn.Schedule.Plan.{CodePlan, ExecutionPlan}
use cpuattn.Runtime.Lengths.{packed_skv}
use cpuattn.Runtime.Workspace.{
  Executor, IsLive, new_executor-IsLive, prepare_launch, packed_template,
}
use cpuattn.Runtime.Packing.{
  PackedKState, Source, prefix_of, Kernel, RuntimeState, new_runtime, Answers, Launch, set_executor,
  set_kernels, executor_run, fresh_kernel, winner_kernel,
}

-- The run before was of the same plan and call, without a prefix, into the same workspace, and the
-- prefix is the whole K of the call.
pub record Repeated (last : Option Launch) (launch : Launch) : Type 0 where
  pub before : Launch
  pub ran : last ≡ some before
  pub same_plan : before.plan ≡ launch.plan
  pub same_call : before.call ≡ launch.call
  pub whole : before.prefix ≡ 0
  pub same_workspace : before.workspace ≡ launch.workspace
  pub k : Shape4
  pub k_shape : shape4 (call_k launch.call) ≡ ok k
  pub rows : launch.prefix ≡ k.n2

-- A prefix is trusted only on the grounds that the run before this one packed it.
abbrev pub Trusted : Option Launch → Launch → Type 0
Trusted last launch =
    (launch.prefix ≡ 0)
    ⊎ ((before : Launch) × (packed : Source) × (source : Source) × (last ≡ some before)
        × (before.source ≡ some packed)
        × (launch.source ≡ some source)
        × (packed.key ≡ source.key)
        × (packed.skv ≡ launch.prefix)
        × (launch.prefix < source.skv)
        × (packed_skv packed.skv source.tile_k ≡ packed_skv source.skv source.tile_k)
        × (before.workspace ≡ launch.workspace))
    ⊎ Repeated last launch

-- The packed state is the latest run's if its number says so.
abbrev pub Remembers : RuntimeState → Option Launch → PackedKState → Type 0
Remembers s last state =
    (state.seq ≤ s.arena_seq)
    × (state.seq ≡ s.arena_seq
        → (before : Launch) × (packed : Source) × (last ≡ some before)
          × (before.source ≡ some packed)
          × (packed.key ≡ state.key)
          × (packed.skv ≡ state.skv))

-- The plan in the key of the packed K is the launch's.
abbrev pub Keyed : Launch → Type 0
Keyed launch = (source : Source) → launch.source ≡ some source → source.key.0 ≡ launch.plan

pub record Tracks (s : RuntimeState) (last : Option Launch) : Type 0 where
  pub live : IsLive s.executor
  pub remembers : (state : PackedKState) → s.kv_packed ≡ some state → Remembers s last state
  pub mapped :
      (before : Launch)
      → last ≡ some before
      → (s.executor.arena ≡ some (before.plan, before.workspace)) × Keyed before

-- What the checks of _packed_prefix establish of a prefix.
pub prefix_of-cases :
    (kv_packed : Option PackedKState) (arena_seq : ℕ) (source : Source)
    → ((prefix_of kv_packed arena_seq source).0 ≡ 0)
      ⊎ ((state : PackedKState) × (kv_packed ≡ some state)
          × (state.key ≡ source.key)
          × (state.seq ≡ arena_seq)
          × (state.skv < source.skv)
          × (packed_skv state.skv source.tile_k ≡ packed_skv source.skv source.tile_k)
          × ((prefix_of kv_packed arena_seq source).0 ≡ state.skv))
unfolding prefix_of
prefix_of-cases none arena_seq source = inl refl
prefix_of-cases (some state) arena_seq source = elim (Bool-cases (state.key == source.key)) [
  | inr other ↦ inl (rw other refl)
  | inl same ↦ elim (Bool-cases (state.seq == arena_seq)) [
    | inr stale ↦ inl (rw (same, stale) refl)
    | inl latest ↦ elim (Bool-cases (leb source.skv state.skv)) [
      | inl shrunk ↦ inl (rw (same, latest, shrunk) refl)
      | inr grows ↦
          elim (Bool-cases
            (packed_skv state.skv source.tile_k == packed_skv source.skv source.tile_k)) [
              | inr restrided ↦ inl (rw (same, latest, grows, restrided) refl)
              | inl kept ↦ inr (
                state,
                refl,
                (pair_eq.beq_iff state.key source.key).0 same,
                ground arith,
                ground arith,
                ground arith,
                rw (same, latest, grows, kept) refl,
              )
            ]
    ]
  ]
]

-- The arena, the templates, and the packed state are as they were.
pub record Unmoved (s t : RuntimeState) : Type 0 where
  pub arena_seq : t.arena_seq ≡ s.arena_seq
  pub kv_packed : t.kv_packed ≡ s.kv_packed
  pub arena : t.executor.arena ≡ s.executor.arena
  pub templates : t.executor.templates ≡ s.executor.templates

pub Tracks-Unmoved :
    (s t : RuntimeState) (last : Option Launch) → Unmoved s t → Tracks s last → Tracks t last
Tracks-Unmoved s t last same h = record {
  live = λ a i w p. same.arena ∙ h.live a i w (rw same.templates at p);
  remembers = λ state p. rw same.arena_seq (h.remembers state (rw same.kv_packed at p));
  mapped = λ before p. (same.arena ∙ (h.mapped before p).0, (h.mapped before p).1);
}

pub prepare_launch-keeps :
    (artifact : String) (cpu_ids : List ℕ) (status : ℕ) (e f : Executor)
    → prepare_launch artifact cpu_ids status e ≡ ok f
    → (f.arena ≡ e.arena) × (f.templates ≡ e.templates)
unfolding prepare_launch
prepare_launch-keeps artifact cpu_ids status e f h = ground arith

pub Unmoved-eq : (s t : RuntimeState) → s ≡ t → Unmoved s t
Unmoved-eq s t same =
    subst (Unmoved s) same
      (record { arena_seq = refl; kv_packed = refl; arena = refl; templates = refl })

pub new_runtime-Tracks : Tracks new_runtime none
unfolding new_runtime
new_runtime-Tracks = record {
  live = new_executor-IsLive;
  remembers = λ state kept. cc;
  mapped = λ before is. cc;
}

pub prepared-Unmoved :
    (answers : Answers) (plan : ExecutionPlan) (s t : RuntimeState) (kernel : Kernel)
    → fresh_kernel answers plan s ≡ ok (kernel, t)
    → Unmoved s t
unfolding fresh_kernel
prepared-Unmoved answers plan s t kernel h =
    let (k, loaded, h1) = >>=-eq-ok answers.loaded _ h in
    let (e, prepared, h2) =
      >>=-eq-ok (prepare_launch k.artifact plan.launch.cpu_ids answers.prepare_status s.executor) _
        h1 in
    let (arena, templates) =
      prepare_launch-keeps k.artifact plan.launch.cpu_ids answers.prepare_status s.executor e
        prepared in
    let u = set_executor s e in
    let same : (k, u) ≡ (kernel, t) = ok-injective (k, u) (kernel, t) h2 in
    subst (Unmoved s) (ap (λ p. p.1) same)
      (record { arena_seq = refl; kv_packed = refl; arena = arena; templates = templates })

module _ (identity : ExecutionPlan → String) (same_code : CodePlan → CodePlan → Bool) where
  pub winner_kernel-Unmoved :
      (found : Option Kernel) (answers : Answers) (key : String) (plan : ExecutionPlan)
      (s t : RuntimeState) (kernel : Kernel)
      → winner_kernel identity same_code found answers key plan s ≡ ok (kernel, t)
      → Unmoved s t
  unfolding winner_kernel
  winner_kernel-Unmoved (some found) answers key plan s t kernel h =
      let same : (found, s) ≡ (kernel, t) = ok-injective (found, s) (kernel, t) h in
      Unmoved-eq s t (ap (λ p. p.1) same)
  winner_kernel-Unmoved none answers key plan s t kernel h =
      let (k, loaded, h1) = >>=-eq-ok answers.loaded _ h in
      let (e, prepared, h2) =
        >>=-eq-ok (prepare_launch k.artifact plan.launch.cpu_ids answers.prepare_status s.executor)
          _ h1 in
      let (arena, templates) =
        prepare_launch-keeps k.artifact plan.launch.cpu_ids answers.prepare_status s.executor e
          prepared in
      let u = set_kernels (set_executor s e) (put (key, identity plan) k s.winner_kernels) in
      let same : (k, u) ≡ (kernel, t) = ok-injective (k, u) (kernel, t) h2 in
      subst (Unmoved s) (ap (λ p. p.1) same)
        (record { arena_seq = refl; kv_packed = refl; arena = arena; templates = templates })

  pub executor_run-ok :
      (kernel : Kernel) (plan : ExecutionPlan) (call : ValidatedCall) (prefix : ℕ)
      (source : Option Source) (status : ℕ) (e : Executor) (launch : Launch)
      → (executor_run identity same_code kernel plan call prefix source status e).0 ≡ ok launch
      → (launch.plan ≡ identity plan)
        × (launch.call ≡ call)
        × (launch.prefix ≡ prefix)
        × (launch.source ≡ source)
        × (launch.workspace ≡ (packed_template kernel.artifact (identity plan) e).0)
        × ((executor_run identity same_code kernel plan call prefix source status e).1
            ≡ (packed_template kernel.artifact (identity plan) e).1)
  unfolding executor_run
  executor_run-ok kernel plan call prefix source status e launch h = ground arith
