-- ===== src/Native/Backend/Enumerate.antt =====
-- src/cpuattn/native/backends/base.py: the code plans that a backend offers for a call.
use Prim.Native.String.{◌++◌ as append_text}
use cpuattn.Prelude.{
  ℕ, ◌*◌, ◌/◌, String, Bool, none, some, List, [], ◌∷◌, ◌++◌, string_eq, leb, Result, ok, err,
  unsupported_error, assertion_error, ◌>>=◌, if◌then◌else◌,
}
use cpuattn.Prelude.Sort.{sort}
use cpuattn.Prelude.Dict.{index_by, values}
use cpuattn.Core.RowNorm.{supports_split_k}
use cpuattn.Core.Operator.{Operator, Parallel, Linear}
use cpuattn.Core.Validate.{shape4, ValidatedCall}
use cpuattn.Schedule.Host.{Host}
use cpuattn.Schedule.Plan.{
  LoweringKind, ScheduleKind, DecompositionKind, PackingKind, MergeKind, TileShape, make_tile,
  MicrokernelSpec, make_microkernel, make_workspace_abi, CodePlan, is_packed,
}
use cpuattn.Native.Lowering.{linear_block_plan, delta_block_plan}
use cpuattn.Native.Backend.{Backend, supports, code_plan}

-- A loop that extends a list.
unfoldable pub for_each {ℓ κ} :
    {A : Type ℓ} {B : Type κ} → (A → Result (List B)) → List A → Result (List B)
for_each f [] = ok []
for_each f (x ∷ xs) = do ys ← f x; zs ← for_each f xs; ok (ys ++ zs)

abbrev pub abi_names : String → PackingKind → List String
abi_names private packing = if is_packed packing then "packed_k" ∷ private ∷ [] else private ∷ []

abbrev pub packings : List PackingKind
packings = PackingKind.unpacked ∷ PackingKind.k_transposed ∷ []

-- (tile_q, qk_vectors)
abbrev pub blocked_shapes : ℕ → List (ℕ × ℕ)
blocked_shapes lanes =
    if leb 16 lanes then (8, 1) ∷ (6, 2) ∷ (4, 4) ∷ (8, 2) ∷ [] else (6, 1) ∷ (4, 2) ∷ (2, 4) ∷ []

-- self.vector_bytes // 4
abbrev pub lanes : Backend → ℕ
lanes b = b.vector_bytes / 4

-- str(n) of an int is a parameter.
module _ (decimal : ℕ → String) (b : Backend) where
  abbrev pub blocked_name : ℕ → ℕ → String
  blocked_name q n = append_text "qk_m" (
      append_text (decimal q)
        (append_text "n" (append_text (decimal n) (append_text "_pv_m" (decimal q)))))

  -- The body of the five loops over the blocked plans.
  unfoldable pub blocked_plan :
      ℕ → ℕ × ℕ → ℕ → ℕ → PackingKind → ScheduleKind → Result (List CodePlan)
  unfolding make_tile make_microkernel make_workspace_abi code_plan
  blocked_plan d (tile_q, qk_vectors) multiplier dv_multiplier packing schedule = do
    tile ← make_tile tile_q (qk_vectors * (lanes b) * multiplier) d (lanes b * dv_multiplier)
    microkernel ← make_microkernel (blocked_name tile_q qk_vectors) qk_vectors
    abi ← make_workspace_abi (abi_names "scratch" packing)
    plan ←
        code_plan b LoweringKind.parallel_blocked DecompositionKind.query_blocks tile microkernel
          abi packing MergeKind.unmerged schedule
    ok (plan ∷ [])

  unfoldable pub blocked_plans : ℕ → Result (List CodePlan)
  unfolding for_each blocked_plan
  blocked_plans d =
      for_each
        (λ shape.
          for_each
            (λ multiplier.
              for_each
                (λ dv_multiplier.
                  for_each
                    (λ packing.
                      for_each
                        (λ schedule. blocked_plan d shape multiplier dv_multiplier packing schedule)
                        (ScheduleKind.static ∷ ScheduleKind.dynamic ∷ []))
                    packings)
                (1 ∷ 2 ∷ []))
            (1 ∷ 2 ∷ []))
        (blocked_shapes (lanes b))

  -- The two plans that split K, for one tile and packing.
  unfoldable pub split_pair : TileShape → MicrokernelSpec → PackingKind → Result (List CodePlan)
  unfolding make_workspace_abi code_plan
  split_pair tile microkernel packing = do
    one_abi ← make_workspace_abi (abi_names "partials" packing)
    one ←
        code_plan b LoweringKind.parallel_split_k DecompositionKind.split_key tile microkernel
          one_abi packing MergeKind.row_norm ScheduleKind.static
    two_abi ← make_workspace_abi (abi_names "partials" packing)
    two ←
        code_plan b LoweringKind.parallel_2d DecompositionKind.query_groups_key_parts tile
          microkernel two_abi packing MergeKind.row_norm ScheduleKind.static
    ok (one ∷ two ∷ [])

  unfoldable pub split_tile : ℕ → ℕ → Result (List CodePlan)
  unfolding make_tile make_microkernel for_each split_pair
  split_tile d tile_k = do
    tile ← make_tile 1 tile_k d (lanes b)
    microkernel ← make_microkernel "qk_m1n2_pv_m1" 2
    for_each (split_pair tile microkernel) packings

  unfoldable pub split_plans : Parallel → ℕ → Result (List CodePlan)
  unfolding supports_split_k for_each split_tile
  split_plans operator d =
      if supports_split_k operator.row_norm
      then for_each (split_tile d) (2 * (lanes b) ∷ 4 * (lanes b) ∷ [])
      else ok []

  -- One plan of a Linear operator.
  unfoldable pub linear_plan :
      LoweringKind → DecompositionKind → String → ℕ × ℕ × ℕ × ℕ → Result (List CodePlan)
  unfolding make_tile make_microkernel make_workspace_abi code_plan
  linear_plan lowering decomposition name (q, k, d, dv) = do
    tile ← make_tile q k d dv
    microkernel ← make_microkernel name 1
    abi ← make_workspace_abi ("scratch" ∷ [])
    plan ←
        code_plan b lowering decomposition tile microkernel abi PackingKind.unpacked
          MergeKind.unmerged ScheduleKind.static
    ok (plan ∷ [])

  -- f"{prefix}{block}n{(lanes b)}"
  abbrev pub block_name : String → ℕ → String
  block_name prefix block =
      append_text prefix (append_text (decimal block) (append_text "n" (decimal (lanes b))))

  unfoldable pub block_plans : LoweringKind → String → List ℕ → Result (List CodePlan)
  unfolding for_each linear_plan
  block_plans lowering prefix blocks =
      for_each
        (λ block.
          linear_plan lowering DecompositionKind.state_heads (block_name prefix block)
            (block, block, (lanes b), (lanes b)))
        blocks

  unfoldable pub scan_plans : Result (List CodePlan)
  unfolding for_each linear_plan
  scan_plans =
      for_each
        (λ tile.
          linear_plan LoweringKind.linear_scan DecompositionKind.state_heads
            (append_text "linear_m1n" (decimal (lanes b))) tile)
        ((1, 1, lanes b, lanes b)
          ∷ (1, 1, 2 * (lanes b), (lanes b))
          ∷ (1, 1, (lanes b), 2 * (lanes b))
          ∷ [])

  unfoldable pub chunked_plans : Linear → Result (List CodePlan)
  unfolding linear_block_plan block_plans
  chunked_plans operator = elim (linear_block_plan operator) [
    | none ↦ ok []
    | some _ ↦
        block_plans LoweringKind.linear_chunked "linear_chunked_m"
          (if leb 8 (lanes b) then 2 ∷ 4 ∷ 6 ∷ [] else 2 ∷ 4 ∷ [])
  ]

  unfoldable pub delta_plans : Linear → Result (List CodePlan)
  unfolding delta_block_plan block_plans
  delta_plans operator = do
    plan ← delta_block_plan operator
    elim plan [
      | none ↦ ok []
      | some _ ↦
          block_plans LoweringKind.linear_delta "linear_delta_m"
            (if leb 8 (lanes b) then 4 ∷ 8 ∷ 16 ∷ [] else 2 ∷ 4 ∷ [])
    ]

  -- The plans in the order in which they are added.
  unfoldable pub offered_plans : Operator → ValidatedCall → Result (List CodePlan)
  unfolding blocked_plans split_plans scan_plans linear_plan chunked_plans delta_plans
  offered_plans (Operator.parallel operator) (ValidatedCall.parallel call) = do
    q ← shape4 call.q
    blocked ← blocked_plans q.n3
    split ← split_plans operator q.n3
    ok (blocked ++ split)
  offered_plans (Operator.parallel operator) (ValidatedCall.linear call) = err assertion_error
  offered_plans (Operator.linear operator) call = do
    scans ← scan_plans
    two_d ←
        linear_plan LoweringKind.linear_2d DecompositionKind.state_heads_dv_blocks
          (append_text "linear_dv_m1n" (decimal (lanes b))) (1, 1, lanes b, lanes b)
    chunked ← chunked_plans operator
    delta ← delta_plans operator
    ok (((scans ++ two_d) ++ chunked) ++ delta)

  -- Backend.enumerate_code_plans. A plan's identity, a SHA-256 digest, and the order of texts are
  -- parameters.
  unfoldable pub enumerate_code_plans :
      (CodePlan → String)
      → (String → String → Bool)
      → Operator
      → ValidatedCall
      → Host
      → Result (List CodePlan)
  unfolding supports offered_plans index_by sort
  enumerate_code_plans identity text_le operator call host =
      if supports b host
      then (do
        plans ← offered_plans operator call
        ok (values (sort (λ p r. text_le p.0 r.0) (index_by identity [] plans))))
      else err (unsupported_error "backend is incompatible with host")
