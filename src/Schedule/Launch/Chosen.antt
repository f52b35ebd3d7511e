-- ===== src/Schedule/Launch/Chosen.antt =====
-- src/cpuattn/schedule/planning.py: the launches that a decomposition takes.
use cpuattn.Prelude.{
  ℕ, ◌*◌, ◌≤◌, ◌≡◌, refl, Bool, true, List, [], ◌∷◌, nat_beq, min, distinct, keep, All-keep, All,
  ok, arith, Bool-cases, inl, inr, nat_eq,
}
use cpuattn.Core.Operator.{Operator}
use cpuattn.Core.Validate.{Shape4, shape4, ValidatedCall}
use cpuattn.Schedule.Host.{Host, host_post_init, cpu_ids}
use cpuattn.Schedule.Plan.{DecompositionKind, CodePlan, LaunchPlan, workers}
use cpuattn.Schedule.Launch.{physical_cpus_by_node}
use cpuattn.Schedule.Launch.Choice.{
  parallel_grid, maximum_parallelism, cpu_count, suitable, launch_plans, ceil_div, takes_grid,
  takes_values,
}
use cpuattn.Schedule.Launch.Groups.{IsPlaced}
use cpuattn.Schedule.Launch.Plans.{IsLegalFor, all_launches-IsLegal}

-- The workers that a decomposition needs.
abbrev pub needed : DecompositionKind → ℕ
needed DecompositionKind.split_key = 2
needed DecompositionKind.query_groups_key_parts = 4
needed DecompositionKind.state_heads_dv_blocks = 2
needed _ = 1

-- A decomposition for calls of that class, whose tensors have four axes.
abbrev pub Cuts : DecompositionKind → ValidatedCall → Type 0
Cuts DecompositionKind.query_groups_key_parts (ValidatedCall.parallel c) =
    (q : Shape4) × (k : Shape4) × (shape4 c.q ≡ ok q) × (shape4 c.k ≡ ok k)
Cuts DecompositionKind.query_groups_key_parts (ValidatedCall.linear c) = ⊥
Cuts DecompositionKind.state_heads_dv_blocks (ValidatedCall.linear c) =
    (v : Shape4) × (shape4 c.v ≡ ok v)
Cuts DecompositionKind.state_heads_dv_blocks (ValidatedCall.parallel c) = ⊥
Cuts _ call = Unit

-- A launch for a decomposition: on different physical cores, within the bounds.
pub record IsChosen (host : Host) (decomposition : DecompositionKind) (maximum : ℕ)
    (launch : LaunchPlan) : Type 0 where
  pub placed : IsPlaced host launch
  pub parallelism : workers launch ≤ maximum
  pub physical : workers launch ≤ cpu_count (physical_cpus_by_node host)
  pub enough : needed decomposition ≤ workers launch

host_ids : (host : Host) → host_post_init host ≡ ok tt → distinct (cpu_ids host.cpus) ≡ true
unfolding host_post_init
host_ids host accepted = ground arith

-- A launch of the planner that may still be dropped.
abbrev Bounded : Host → ℕ → LaunchPlan → Type 0
Bounded host maximum = IsLegalFor host (min maximum (cpu_count (physical_cpus_by_node host)))

module _ (host : Host) (maximum : ℕ) where
  choose :
      (d : DecompositionKind) (launch : LaunchPlan)
      → Bounded host maximum launch
      → needed d ≤ workers launch
      → IsChosen host d maximum launch
  choose d launch (placed, bound) enough = record {
    placed = placed;
    parallelism = omega (arith, bound);
    physical = omega (arith, bound);
    enough = enough;
  }

  kept :
      (d : DecompositionKind) (p : LaunchPlan → Bool)
      → ((launch : LaunchPlan) → p launch ≡ true → needed d ≤ workers launch)
      → (launches : List LaunchPlan) → All (Bounded host maximum) launches
      → All (IsChosen host d maximum) (keep p launches)
  kept d p shows =
      All-keep p (Bounded host maximum) (IsChosen host d maximum)
        λ launch true_of bound. choose d launch bound (shows launch true_of)

  All-of :
      (d : DecompositionKind)
      → needed d ≡ 1
      → (launches : List LaunchPlan) → All (Bounded host maximum) launches
      → All (IsChosen host d maximum) launches
  All-of d same [] h = tt
  All-of d same (l ∷ ls) h =
      (choose d l h.0 (omega (arith, same, h.0.0.staffed)), All-of d same ls h.1)

  suitable-IsChosen :
      (d : DecompositionKind) (code : CodePlan) (call : ValidatedCall) (launches : List LaunchPlan)
      → Cuts d call
      → All (Bounded host maximum) launches
      → (chosen : List LaunchPlan) × (suitable d code call maximum launches ≡ ok chosen)
        × All (IsChosen host d maximum) chosen
  unfolding suitable parallel_grid
  suitable-IsChosen DecompositionKind.query_blocks code call launches cuts legal =
      (launches, refl, All-of DecompositionKind.query_blocks refl launches legal)
  suitable-IsChosen DecompositionKind.state_heads code call launches cuts legal =
      (launches, refl, All-of DecompositionKind.state_heads refl launches legal)
  suitable-IsChosen DecompositionKind.split_key code call launches cuts legal =
      (_, refl, kept DecompositionKind.split_key _ (λ launch p. ground arith) launches legal)
  suitable-IsChosen DecompositionKind.query_groups_key_parts code (ValidatedCall.parallel c)
        launches (q, k, qs, ks) legal =
      (
        keep (takes_grid (q.n0 * q.n1 * ceil_div q.n2 code.tile.q, ceil_div k.n2 code.tile.k))
            launches,
        rw (qs, ks),
        kept DecompositionKind.query_groups_key_parts _ (λ launch p. ground (arith, p)) launches
            legal,
      )
  suitable-IsChosen DecompositionKind.query_groups_key_parts code (ValidatedCall.linear c) launches
        cuts legal =
      elim cuts [ ]
  suitable-IsChosen DecompositionKind.state_heads_dv_blocks code (ValidatedCall.linear c) launches
        (v, vs) legal =
      (
        keep (takes_values code v maximum) launches,
        rw vs,
        kept DecompositionKind.state_heads_dv_blocks _ (λ launch p. ground (arith, p)) launches
            legal,
      )
  suitable-IsChosen DecompositionKind.state_heads_dv_blocks code (ValidatedCall.parallel c) launches
        cuts legal =
      elim cuts [ ]

-- For a host that its constructor accepts, a call whose tensors have the axes that the decomposition
-- reads, and the call's maximum parallelism: the planner gives launches without an exception. Each
-- passes its constructor, puts its workers on different physical cores of the host, in groups that
-- hold each worker once and only processors of their node, and has at most as many workers as the
-- call has tasks and the host has cores, and as many as the decomposition needs.
pub launch_plans-IsChosen :
    (host : Host) (code : CodePlan) (operator : Operator) (call : ValidatedCall) (maximum : ℕ)
    → host_post_init host ≡ ok tt
    → maximum_parallelism code operator call ≡ ok maximum
    → Cuts code.decomposition call
    → (launches : List LaunchPlan) × (launch_plans host code operator call ≡ ok launches)
      × All (IsChosen host code.decomposition maximum) launches
unfolding launch_plans
launch_plans-IsChosen host code operator call maximum accepted tasks cuts =
    elim (Bool-cases (nat_beq maximum 0)) [
      | inl idle ↦ ([], rw (tasks, idle), tt)
      | inr busy ↦
          let (all, found, legal) =
            all_launches-IsLegal host (host_ids host accepted)
              (min maximum (cpu_count (physical_cpus_by_node host))) in
          let (chosen, taken, good) =
            suitable-IsChosen host maximum code.decomposition code call all cuts legal in
          (chosen, rw (tasks, busy, found) taken, good)
    ]
