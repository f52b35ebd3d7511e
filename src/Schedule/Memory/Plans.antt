-- ===== src/Schedule/Memory/Plans.antt =====
-- src/cpuattn/schedule/planning.py: the memory plans of a validated call.
use cpuattn.Prelude.{
  ℕ, ◌+◌, ◌*◌, ◌%◌, ◌≤◌, ◌<◌, ◌≡◌, ◌∙◌, ap, List, [], ◌∷◌, map, length, All, ok, arith, Bool-cases,
  inl, inr, length-map, length-append, length-range_from, if◌then◌else◌,
}
use cpuattn.Prelude.Bits.{IsPowerOfTwo}
use cpuattn.Core.Operator.{Operator, Parallel}
use cpuattn.Core.Validate.{Shape4, ParallelCall, ValidatedCall}
use cpuattn.Core.Validate.Contract.{ParallelContract}
use cpuattn.Schedule.Align.{align, align_bounds}
use cpuattn.Schedule.Plan.{
  CodePlan, LaunchPlan, MemoryPlan, workers, crosses_numa, is_packed, is_blocked,
}
use cpuattn.Schedule.Memory.{
  memory_plans, all_owners, packed_owners, packed_copy_bytes, worker_floats,
}
use cpuattn.Schedule.Memory.Kernels.{
  kernel_stride, kernel_copy, worker_floats-eq, packed_copy_bytes-eq,
}
use cpuattn.Schedule.Memory.Layout.{
  Suits, packed_owners_suit, expected_names, laid_out, All-laid_out, Holds, laid_out-Holds,
}

All-map {ℓ κ} :
    {A : Type 0} {B : Type 0} (P : A → Type ℓ) (Q : B → Type κ) (f : A → B)
    → ((a : A) → P a → Q (f a))
    → (xs : List A) → All P xs
    → All Q (map f xs)
All-map P Q f h [] a = tt
All-map P Q f h (x ∷ xs) a = (h x a.0, All-map P Q f h xs a.1)

pub product-pos : (a b : ℕ) → 0 < a → 0 < b → 0 < a * b
product-pos a b p q = grind arith

align-pos : (n page : ℕ) → IsPowerOfTwo page → 0 < n → 0 < align n page
align-pos n page p h = omega (arith, (align_bounds n page p).0, h)

-- A launch that the planner makes for a legal code plan.
pub record IsPlannable (page : ℕ) (code : CodePlan) (launch : LaunchPlan) : Type 0 where
  pub page_power : IsPowerOfTwo page
  pub names : code.region_names ≡ expected_names code
  pub groups : 0 < length launch.groups
  pub staffed : 0 < workers launch
  pub tile_q : 0 < code.tile.q
  pub tile_k : IsPowerOfTwo code.tile.k

worker_floats-pos :
    (code : CodePlan) (operator : Parallel) (q v : Shape4)
    → 0 < code.tile.q
    → 0 < v.n3
    → (0 < q.n0) × (0 < q.n1) × (0 < q.n2)
    → 0 < worker_floats code operator q v
worker_floats-pos code operator q v tile_q dv (n0, n1, n2) =
    elim (Bool-cases (is_blocked code.lowering)) [
      | inl blocked ↦ rw blocked (omega (arith, product-pos code.tile.q v.n3 tile_q dv))
      | inr split ↦ rw split (
          product-pos (q.n0 * q.n1 * q.n2) (v.n3 + length operator.row_norm.states)
            (product-pos (q.n0 * q.n1) q.n2 (product-pos q.n0 q.n1 n0 n1) n2) (omega (arith, dv)))
    ]

copy-facts :
    (page : ℕ) (code : CodePlan) (q k : Shape4)
    → IsPowerOfTwo page
    → IsPowerOfTwo code.tile.k
    → (0 < q.n0) × (0 < k.n1) × (0 < q.n3) × (0 < k.n2)
    → (0 < packed_copy_bytes page code q k) × (packed_copy_bytes page code q k % page ≡ 0)
copy-facts page code q k page_power tile_k (b, h, d, s) =
    let padded = align k.n2 code.tile.k in
    let room =
      product-pos (q.n0 * k.n1 * q.n3) padded
        (product-pos (q.n0 * k.n1) q.n3 (product-pos q.n0 k.n1 b h) d)
        (align-pos k.n2 code.tile.k tile_k s) in
    let (low, high, aligned) = align_bounds (q.n0 * k.n1 * q.n3 * padded * 4) page page_power in
    (omega (arith, room, low), aligned)

packed_owners-some :
    (code : CodePlan) (launch : LaunchPlan)
    → 0 < length launch.groups
    → 0 < length (packed_owners code launch)
unfolding packed_owners
packed_owners-some code launch h = elim (Bool-cases (is_packed code.packing)) [
  | inr plain ↦ rw plain (omega arith)
  | inl packs ↦
      let singles = map (λ g. g ∷ []) (all_owners launch) in
      let shared = if crosses_numa launch then all_owners launch ∷ [] else [] in
      let total = length-append singles shared in
      let first =
        length-map (λ g. g ∷ []) (all_owners launch) ∙ length-range_from 0 (length launch.groups) in
      rw packs (omega (arith, total, first, h))
]

-- For a validated Parallel call, and a code and launch plan with a page size and a key tile that are
-- powers of two, a positive query tile, the region names of the lowering and packing, and a worker
-- and a group at least: no check of a constructor fails, and every memory plan has, aligned to pages
-- and apart from each other, a private region of at least the stride that the kernel walks for each
-- worker and, exactly where K is packed, a region of at least the kernel's stride of a copy for each
-- owner.
pub parallel_memory_plans_hold :
    (page : ℕ) (code : CodePlan) (launch : LaunchPlan) (operator : Parallel) (call : ParallelCall)
    → IsPlannable page code launch
    → (shapes : ParallelContract call)
    → (plans : List MemoryPlan) × (memory_plans page code launch
          (Operator.parallel operator)
          (ValidatedCall.parallel call)
        ≡ ok plans)
      × (0 < length plans)
      × All
          (Holds page
            (kernel_stride page code operator shapes.q shapes.v)
            (kernel_copy page code shapes.q shapes.k)
            launch
            (is_packed code.packing))
          plans
unfolding memory_plans
parallel_memory_plans_hold page code launch operator call legal shapes =
    let q = shapes.q in
    let k = shapes.k in
    let v = shapes.v in
    let stride = align (worker_floats code operator q v * 4) page in
    let size = workers launch * stride in
    let copy = packed_copy_bytes page code q k in
    let floats =
      worker_floats-pos code operator q v legal.tile_q shapes.v_positive.3
        (shapes.q_positive.0, shapes.q_positive.1, shapes.q_positive.2) in
    let (copy_pos, aligned) =
      copy-facts page code q k legal.page_power legal.tile_k
        (shapes.q_positive.0, shapes.k_positive.1, shapes.q_positive.3, shapes.k_positive.2) in
    let worker_room =
      (align_bounds (worker_floats code operator q v * 4) page legal.page_power).0 in
    let size_pos : 0 < size =
      product-pos (workers launch) stride legal.staffed (omega (arith, floats, worker_room)) in
    let stride_used : kernel_stride page code operator q v ≤ stride =
      omega (arith, ap (λ n. align (n * 4) page) (worker_floats-eq code operator q v)) in
    let copy_used : kernel_copy page code q k ≤ copy =
      omega (arith, packed_copy_bytes-eq page code q k legal.tile_k) in
    let owners = packed_owners code launch in
    let suits = packed_owners_suit code launch legal.groups in
    (
      map (laid_out page code launch size copy) owners,
      rw (shapes.q_shape, shapes.k_shape, shapes.v_shape)
          (All-laid_out page code launch size copy legal.page_power legal.names legal.groups
            size_pos copy_pos aligned owners suits),
      rw (length-map (laid_out page code launch size copy) owners)
          (packed_owners-some code launch legal.groups),
      All-map (Suits code launch) _ (laid_out page code launch size copy)
          (laid_out-Holds page code launch (kernel_stride page code operator q v)
            (kernel_copy page code q k) copy stride aligned copy_used stride_used)
          owners suits,
    )
