-- ===== src/Schedule/Memory/Kernels.antt =====
-- src/cpuattn/kernels/parallel.c.j2, parallel_split_k.c.j2 and parallel_2d.c.j2: the workspace that the
-- generated kernels of Parallel operators walk, written from the kernels and not from the planner.
use cpuattn.Prelude.{ℕ, ◌+◌, ◌*◌, ◌≡◌, refl, ap, sym, length, if◌then◌else◌, arith}
use cpuattn.Prelude.Bits.{IsPowerOfTwo}
use cpuattn.Core.Operator.{Parallel}
use cpuattn.Core.Validate.{Shape4}
use cpuattn.Runtime.Lengths.{packed_skv, align-eq-packed_skv}
use cpuattn.Schedule.Align.{align}
use cpuattn.Schedule.Plan.{LoweringKind, CodePlan, is_blocked}
use cpuattn.Schedule.Memory.{worker_floats, packed_copy_bytes}

-- The tiles of one worker of parallel.c.j2, one behind the other: the scores, the rescaling of each
-- step, and the output.
abbrev pub tile_floats : CodePlan → Shape4 → ℕ
tile_floats code v =
    let step_rescale = code.tile.q * code.tile.k in
    let output_tile = step_rescale + code.tile.q * code.tile.k in output_tile + code.tile.q * v.n3

-- The rows of one worker of the two other kernels: part_stride floats for each row of the output.
abbrev pub partial_floats : Parallel → Shape4 → Shape4 → ℕ
partial_floats operator q v =
    let part_stride = v.n3 + length operator.row_norm.states in q.n0 * q.n1 * q.n2 * part_stride

-- The template of a lowering.
unfoldable pub kernel_floats : LoweringKind → CodePlan → Parallel → Shape4 → Shape4 → ℕ
kernel_floats LoweringKind.parallel_blocked code operator q v = tile_floats code v
kernel_floats _ code operator q v = partial_floats operator q v

-- scratch_stride, worker_stride: what lies between the workspaces of two workers.
abbrev pub kernel_stride : ℕ → CodePlan → Parallel → Shape4 → Shape4 → ℕ
kernel_stride page code operator q v =
    align (kernel_floats code.lowering code operator q v * 4) page

-- packed_copy_bytes: what lies between two copies of the packed K.
abbrev pub kernel_copy : ℕ → CodePlan → Shape4 → Shape4 → ℕ
kernel_copy page code q k = align (q.n0 * k.n1 * q.n3 * packed_skv k.n2 code.tile.k * 4) page

lowered :
    (lowering : LoweringKind) (code : CodePlan) (operator : Parallel) (q v : Shape4)
    → kernel_floats lowering code operator q v ≡ (
        if is_blocked lowering
        then code.tile.q * code.tile.k * 2 + code.tile.q * v.n3
        else q.n0 * q.n1 * q.n2 * (v.n3 + length operator.row_norm.states))
unfolding kernel_floats
lowered LoweringKind.parallel_blocked code operator q v = omega arith
lowered _ code operator q v = refl

-- The planner's floats are the kernel's.
pub worker_floats-eq :
    (code : CodePlan) (operator : Parallel) (q v : Shape4)
    → worker_floats code operator q v ≡ kernel_floats code.lowering code operator q v
worker_floats-eq code operator q v = sym (lowered code.lowering code operator q v)

pub packed_copy_bytes-eq :
    (page : ℕ) (code : CodePlan) (q k : Shape4)
    → IsPowerOfTwo code.tile.k
    → packed_copy_bytes page code q k ≡ kernel_copy page code q k
packed_copy_bytes-eq page code q k tile_k =
    ap (λ rows. align (q.n0 * k.n1 * q.n3 * rows * 4) page)
      (align-eq-packed_skv k.n2 code.tile.k tile_k)
