-- ===== src/Native/Backend/Offers.antt =====
-- src/cpuattn/native/backends: what the repository's backends offer for a Parallel call.
use cpuattn.Prelude.{
  length-map, ℕ, ◌+◌, ◌*◌, ◌<◌, ◌≡◌, refl, String, Bool, true, List, [], ◌∷◌, ◌++◌, ◌==◌, string_eq,
  leb, length, length-append, All, All-append, Result, ok, arith, Bool-cases, inl, inr,
}
use cpuattn.Prelude.Bits.{IsPowerOfTwo}
use cpuattn.Prelude.Sort.{sort, All-sort, length-sort}
use cpuattn.Prelude.Dict.{put, index_by, values, All-values, All-index_by}
use cpuattn.Core.RowNorm.{supports_split_k}
use cpuattn.Core.Operator.{Operator, Parallel}
use cpuattn.Core.Validate.{ParallelCall, ValidatedCall}
use cpuattn.Core.Validate.Contract.{ParallelContract}
use cpuattn.Schedule.Host.{Host}
use cpuattn.Schedule.Plan.{ScheduleKind, PackingKind, CodePlan}
use cpuattn.Native.Backend.{Backend, backends, supports}
use cpuattn.Native.Backend.Enumerate.{
  lanes, for_each, blocked_plan, blocked_plans, packings, split_tile, split_plans, offered_plans,
  enumerate_code_plans,
}
use cpuattn.Native.Backend.Accepted.{for_each-keeps, IsKernel, IsBackend, power-times}
use cpuattn.Native.Backend.Kernels.{blocked_plan-IsKernel, split_tile-IsKernel}

-- The backends of the repository.
pub All-IsBackend : All IsBackend backends
All-IsBackend = (
  record { has_id = refl; vectors = refl; power = (4, refl) },
  (
    record { has_id = refl; vectors = refl; power = (3, refl) },
    (
      record { has_id = refl; vectors = refl; power = (3, refl) },
      (record { has_id = refl; vectors = refl; power = (2, refl) }, tt),
    ),
  ),
)

-- A shape of the loops.
abbrev IsShape : ℕ × ℕ → Type 0
IsShape s = (0 < s.0) × IsPowerOfTwo s.1

wide_shapes : All IsShape ((8, 1) ∷ (6, 2) ∷ (4, 4) ∷ (8, 2) ∷ [])
wide_shapes = (
  (omega arith, (0, refl)),
  ((omega arith, (1, refl)), ((omega arith, (2, refl)), ((omega arith, (1, refl)), tt))),
)

narrow_shapes : All IsShape ((6, 1) ∷ (4, 2) ∷ (2, 4) ∷ [])
narrow_shapes =
    ((omega arith, (0, refl)), ((omega arith, (1, refl)), ((omega arith, (2, refl)), tt)))

-- The code plans of a loop, all of them good.
abbrev Gives : Result (List CodePlan) → Type 0
Gives loop = (plans : List CodePlan) × (loop ≡ ok plans) × (0 < length plans) × All IsKernel plans

module _ (decimal : ℕ → String) (b : Backend) (own : IsBackend b) (d : ℕ) (hd : 0 < d) where
  -- The loops over the blocked plans, from the inside.
  abbrev over_schedules : ℕ × ℕ → ℕ → ℕ → PackingKind → Result (List CodePlan)
  over_schedules s m dvm p =
      for_each (λ x. blocked_plan decimal b d s m dvm p x)
        (ScheduleKind.static ∷ ScheduleKind.dynamic ∷ [])

  abbrev over_packings : ℕ × ℕ → ℕ → ℕ → Result (List CodePlan)
  over_packings s m dvm = for_each (λ p. over_schedules s m dvm p) packings

  abbrev over_widths : ℕ × ℕ → ℕ → Result (List CodePlan)
  over_widths s m = for_each (λ dvm. over_packings s m dvm) (1 ∷ 2 ∷ [])

  abbrev over_tiles : ℕ × ℕ → Result (List CodePlan)
  over_tiles s = for_each (λ m. over_widths s m) (1 ∷ 2 ∷ [])

  over_schedules-Gives :
      (s : ℕ × ℕ) (m dvm : ℕ) (p : PackingKind)
      → IsShape s
      → IsPowerOfTwo m
      → 0 < dvm
      → Gives (over_schedules s m dvm p)
  over_schedules-Gives s m dvm p shape hm hv =
      for_each-keeps (λ (x : ScheduleKind). Unit {0}) IsKernel _
        (λ x u. blocked_plan-IsKernel decimal b own d s.0 s.1 m dvm p x hd shape.0 hv shape.1 hm)
        ScheduleKind.static (ScheduleKind.dynamic ∷ []) (tt, (tt, tt))

  over_packings-Gives :
      (s : ℕ × ℕ) (m dvm : ℕ) → IsShape s → IsPowerOfTwo m → 0 < dvm → Gives (over_packings s m dvm)
  over_packings-Gives s m dvm shape hm hv =
      for_each-keeps (λ (x : PackingKind). Unit {0}) IsKernel _
        (λ p u. over_schedules-Gives s m dvm p shape hm hv) PackingKind.unpacked
        (PackingKind.k_transposed ∷ []) (tt, (tt, tt))

  over_widths-Gives : (s : ℕ × ℕ) (m : ℕ) → IsShape s → IsPowerOfTwo m → Gives (over_widths s m)
  over_widths-Gives s m shape hm =
      for_each-keeps (λ dvm. 0 < dvm) IsKernel _ (λ dvm hv. over_packings-Gives s m dvm shape hm hv)
        1 (2 ∷ []) (omega arith, (omega arith, tt))

  over_tiles-Gives : (s : ℕ × ℕ) → IsShape s → Gives (over_tiles s)
  over_tiles-Gives s shape =
      for_each-keeps IsPowerOfTwo IsKernel _ (λ m hm. over_widths-Gives s m shape hm) 1 (2 ∷ [])
        ((0, refl), ((1, refl), tt))

  blocked_plans-Gives : Gives (blocked_plans decimal b d)
  unfolding blocked_plans
  blocked_plans-Gives =
      let each = λ (s : ℕ × ℕ) (h : IsShape s). over_tiles-Gives s h in
      elim (Bool-cases (leb 16 (lanes b))) [
        | inl wide ↦ rw wide (
            for_each-keeps IsShape IsKernel over_tiles each (8, 1) ((6, 2) ∷ (4, 4) ∷ (8, 2) ∷ [])
              wide_shapes)
        | inr narrow ↦ rw narrow (
            for_each-keeps IsShape IsKernel over_tiles each (6, 1) ((4, 2) ∷ (2, 4) ∷ [])
              narrow_shapes)
      ]

  split_plans-return :
      (operator : Parallel)
      → (plans : List CodePlan) × (split_plans decimal b operator d ≡ ok plans) × All IsKernel plans
  unfolding split_plans
  split_plans-return operator = elim (Bool-cases (supports_split_k operator.row_norm)) [
    | inr whole ↦ ([], rw whole, tt)
    | inl splits ↦
        let two = power-times 2 (lanes b) (1, refl) own.power in
        let four = power-times 4 (lanes b) (2, refl) own.power in
        let (plans, looped, _, good) =
          for_each-keeps IsPowerOfTwo IsKernel (split_tile decimal b d)
            (λ k h. split_tile-IsKernel decimal b own d k hd h) (2 * lanes b) (4 * lanes b ∷ [])
            (two, (four, tt)) in
        (plans, rw splits looped, good)
  ]

put_some {ℓ} : {V : Type ℓ} (k : String) (v : V) (d : List (String × V)) → 0 < length (put k v d)
unfolding put
put_some k v [] = omega arith
put_some k v ((j, w) ∷ d) = elim (Bool-cases (k == j)) [
  | inl here ↦ rw here (omega arith)
  | inr there ↦ rw there (omega arith)
]

index_by_some :
    (identity : CodePlan → String) (d : List (String × CodePlan)) (plans : List CodePlan)
    → 0 < length plans + length d
    → 0 < length (index_by identity d plans)
unfolding index_by
index_by_some identity d [] h = omega (arith, h)
index_by_some identity d (p ∷ plans) h =
    index_by_some identity (put (identity p) p d) plans (omega (arith, put_some (identity p) p d))

-- A backend with an identifier and a power of two of float lanes, each of the repository's being
-- such, offers for a validated Parallel call on a host that it supports at least one code plan,
-- without an exception. Every one passes the constructor of code plans and has the workspace regions
-- of its lowering and packing, a positive query tile, and a key tile that is a power of two.
pub enumerate_code_plans-IsKernel :
    (decimal : ℕ → String) (b : Backend) (identity : CodePlan → String)
    (text_le : String → String → Bool) (operator : Parallel) (call : ParallelCall) (host : Host)
    → IsBackend b
    → ParallelContract call
    → supports b host ≡ true
    → (plans : List CodePlan) × (enumerate_code_plans decimal b identity text_le
          (Operator.parallel operator)
          (ValidatedCall.parallel call)
          host
        ≡ ok plans)
      × (0 < length plans)
      × All IsKernel plans
unfolding enumerate_code_plans offered_plans
enumerate_code_plans-IsKernel decimal b identity text_le operator call host own shapes fits =
    let d = shapes.q.n3 in
    let hd = shapes.q_positive.3 in
    let (blocked, first, filled, good) = blocked_plans-Gives decimal b own d hd in
    let (split, second, good') = split_plans-return decimal b own d hd operator in
    let all = All-append IsKernel blocked split good good' in
    let index = index_by identity [] (blocked ++ split) in
    let le = λ (p r : String × CodePlan). text_le p.0 r.0 in
    let kept = All-sort le _ index (All-index_by IsKernel identity [] (blocked ++ split) tt all) in
    let some_plan =
      index_by_some identity [] (blocked ++ split)
        (omega (arith, length-append blocked split, filled)) in
    (
      values (sort le index),
      rw (fits, shapes.q_shape, first, second),
      omega (
        arith,
        length-map (λ (e : String × CodePlan). e.1) (sort le index),
        length-sort le index,
        some_plan,
      ),
      All-values IsKernel (sort le index) kept,
    )
