-- ===== src/Native/Backend/Kernels.antt =====
-- src/cpuattn/native/backends/base.py: every code plan of a loop passes the constructors.
use Prim.Native.String.{◌++◌ as append_text}
use cpuattn.Prelude.{
  ℕ, ◌*◌, ◌<◌, String, ◌≡◌, refl, ◌∙◌, List, [], ◌∷◌, string_eq, length, All, ok, arith, Bool-cases,
  inl, inr,
}
use cpuattn.Prelude.Bits.{IsPowerOfTwo}
use cpuattn.Schedule.Plan.{
  LoweringKind, ScheduleKind, DecompositionKind, PackingKind, MergeKind, TileShape, MicrokernelSpec,
  CodePlan, code_post_init, is_packed,
}
use cpuattn.Schedule.Memory.{private_name}
use cpuattn.Schedule.Memory.Layout.{expected_names}
use cpuattn.Native.Backend.{Backend, code_plan}
use cpuattn.Native.Backend.Enumerate.{
  abi_names, blocked_plan, lanes, blocked_name, split_pair, split_tile,
}
use cpuattn.Native.Backend.Accepted.{
  for_each-keeps, IsKernel, named, make_tile-returns, make_microkernel-returns, abi_names-returns,
  dynamic_blocked, code_accepted, IsBackend, power-times, power-pos, product-pos,
}

module _ (decimal : ℕ → String) (b : Backend) (own : IsBackend b) where
  names_match :
      (code : CodePlan)
      → code.region_names ≡ abi_names (private_name code) code.packing
      → code.region_names ≡ expected_names code
  names_match code h = elim (Bool-cases (is_packed code.packing)) [
    | inl packs ↦ h ∙ rw packs
    | inr plain ↦ h ∙ rw plain
  ]

  pub blocked_plan-IsKernel :
      (d q n m dvm : ℕ) (packing : PackingKind) (schedule : ScheduleKind)
      → 0 < d
      → 0 < q
      → 0 < dvm
      → IsPowerOfTwo n
      → IsPowerOfTwo m
      → (plans : List CodePlan) × (blocked_plan decimal b d (q, n) m dvm packing schedule
          ≡ ok plans)
        × (0 < length plans)
        × All IsKernel plans
  unfolding blocked_plan code_plan
  blocked_plan-IsKernel d q n m dvm packing schedule hd hq hv hn hm =
      let hn_pos = power-pos n hn in
      let hm_pos = power-pos m hm in
      let l_pos = power-pos (lanes b) own.power in
      let wide = power-times (n * lanes b) m (power-times n (lanes b) hn own.power) hm in
      let tile =
        make_tile-returns q (n * lanes b * m) d (lanes b * dvm) hq (power-pos _ wide) hd
          (product-pos (lanes b) dvm l_pos hv) in
      let name =
        named "qk_m"
          (append_text (decimal q)
            (append_text "n" (append_text (decimal n) (append_text "_pv_m" (decimal q)))))
          (omega arith) in
      let kernel = make_microkernel-returns (blocked_name decimal b q n) n name hn_pos in
      let (abi, packs) = abi_names-returns "scratch" packing refl refl in
      let plan : CodePlan = record {
        backend_id = b.backend_id;
        lowering = LoweringKind.parallel_blocked;
        microkernel = record { name = blocked_name decimal b q n; qk_vectors = n };
        tile = record { q = q; k = n * lanes b * m; d = d; dv = lanes b * dvm };
        vector_bytes = b.vector_bytes;
        decomposition = DecompositionKind.query_blocks;
        packing = packing;
        merge = MergeKind.unmerged;
        region_names = abi_names "scratch" packing;
        schedule = schedule;
      } in
      let accepted : code_post_init plan ≡ ok tt =
        code_accepted plan own.has_id own.vectors refl (dynamic_blocked schedule) packs refl refl in
      (
        plan ∷ [],
        rw (tile, kernel, abi, accepted),
        omega arith,
        (
          record {
            accepted = accepted;
            names = names_match plan refl;
            tile_q = hq;
            tile_k = wide;
            cuts = refl;
          },
          tt,
        ),
      )

  -- The tiles of the plans that split K.
  abbrev split_shape : ℕ → ℕ → TileShape
  split_shape d k = record { q = 1; k = k; d = d; dv = lanes b }

  abbrev two_vectors : MicrokernelSpec
  two_vectors = record { name = "qk_m1n2_pv_m1"; qk_vectors = 2 }

  abbrev split_code : ℕ → ℕ → LoweringKind → DecompositionKind → PackingKind → CodePlan
  split_code d k lowering decomposition packing = record {
    backend_id = b.backend_id;
    lowering = lowering;
    microkernel = two_vectors;
    tile = split_shape d k;
    vector_bytes = b.vector_bytes;
    decomposition = decomposition;
    packing = packing;
    merge = MergeKind.row_norm;
    region_names = abi_names "partials" packing;
    schedule = ScheduleKind.static;
  }

  split_pair-IsKernel :
      (d k : ℕ) (packing : PackingKind)
      → IsPowerOfTwo k
      → (plans : List CodePlan) × (split_pair decimal b (split_shape d k) two_vectors packing
          ≡ ok plans)
        × (0 < length plans)
        × All IsKernel plans
  unfolding split_pair code_plan
  split_pair-IsKernel d k packing power =
      let (abi, packs) = abi_names-returns "partials" packing refl refl in
      let one = split_code d k LoweringKind.parallel_split_k DecompositionKind.split_key packing in
      let two =
        split_code d k LoweringKind.parallel_2d DecompositionKind.query_groups_key_parts packing in
      let first : code_post_init one ≡ ok tt =
        code_accepted one own.has_id own.vectors refl refl packs refl refl in
      let second : code_post_init two ≡ ok tt =
        code_accepted two own.has_id own.vectors refl refl packs refl refl in
      (
        one ∷ two ∷ [],
        rw (abi, first),
        omega arith,
        (
          record {
            accepted = first;
            names = names_match one refl;
            tile_q = omega arith;
            tile_k = power;
            cuts = refl;
          },
          (
            record {
              accepted = second;
              names = names_match two refl;
              tile_q = omega arith;
              tile_k = power;
              cuts = refl;
            },
            tt,
          ),
        ),
      )

  pub split_tile-IsKernel :
      (d k : ℕ)
      → 0 < d
      → IsPowerOfTwo k
      → (plans : List CodePlan) × (split_tile decimal b d k ≡ ok plans)
        × (0 < length plans)
        × All IsKernel plans
  unfolding split_tile
  split_tile-IsKernel d k hd power =
      let tile =
        make_tile-returns 1 k d (lanes b) (omega arith) (power-pos k power) hd
          (power-pos (lanes b) own.power) in
      let (plans, looped, filled, good) =
        for_each-keeps (λ (p : PackingKind). Unit {0}) IsKernel
          (split_pair decimal b (split_shape d k) two_vectors)
          (λ p u. split_pair-IsKernel d k p power) PackingKind.unpacked
          (PackingKind.k_transposed ∷ []) (tt, (tt, tt)) in
      (plans, rw tile looped, filled, good)
