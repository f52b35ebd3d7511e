-- ===== src/Core/Tensor/Panel.antt =====
-- src/cpuattn/core/tensor.py: what require_panel accepts, and how the kernels address it.
use cpuattn.Prelude.{
  ℕ, ◌+◌, ◌*◌, ◌≤◌, ◌<◌, ◌≡◌, true, false, some, [], ◌∷◌, ok, arith, contains, length, nat_eq,
}
use cpuattn.Core.Tensor.{Array, Value, require_panel, panel_pitch, as_ndarray, is_float32}

panel_pitch-eq-some :
    (b h s d s0 s1 s2 s3 item pitch : ℕ)
    → panel_pitch (b ∷ h ∷ s ∷ d ∷ []) (s0 ∷ s1 ∷ s2 ∷ s3 ∷ []) item ≡ some pitch
    → (s3 ≡ item) × (s2 ≡ d * item) × (s1 ≡ pitch * item) × (s ≤ pitch) × (s0 ≡ h * pitch * item)
unfolding panel_pitch
panel_pitch-eq-some b h s d s0 s1 s2 s3 item pitch e = ground arith

pub require_panel-eq-ok :
    (value : Value) (rank : ℕ) (a : Array) (pitch : ℕ)
    → require_panel value rank ≡ ok (a, pitch)
    → (panel_pitch a.shape a.strides a.itemsize ≡ some pitch)
      × (contains a.shape 0 ≡ false)
      × (length a.shape ≡ rank)
      × (is_float32 a.dtype ≡ true)
unfolding require_panel as_ndarray
require_panel-eq-ok (Value.ndarray r) rank a pitch e = ground arith
require_panel-eq-ok (Value.tensor device r) rank a pitch e = ground arith
require_panel-eq-ok Value.object rank a pitch e = ground arith

-- An accepted K or V panel has positive dimensions, and the byte address of each element by
-- NumPy's strides is the address that the kernels compute from the returned head pitch.
pub require_panel_addresses :
    (value : Value) (a : Array) (pitch b h s d s0 s1 s2 s3 i j r c : ℕ)
    → require_panel value 4 ≡ ok (a, pitch)
    → a.shape ≡ b ∷ h ∷ s ∷ d ∷ []
    → a.strides ≡ s0 ∷ s1 ∷ s2 ∷ s3 ∷ []
    → (0 < b)
      × (0 < h)
      × (0 < s)
      × (0 < d)
      × (i * s0 + j * s1 + r * s2 + c * s3 ≡ ((i * h + j) * pitch + r * d + c) * a.itemsize)
require_panel_addresses value a pitch b h s d s0 s1 s2 s3 i j r c e shape strides =
    let (p, z, _, _) = require_panel-eq-ok value 4 a pitch e in
    let z' : contains (b ∷ h ∷ s ∷ d ∷ []) 0 ≡ false = rw shape at z in
    let p' : panel_pitch (b ∷ h ∷ s ∷ d ∷ []) (s0 ∷ s1 ∷ s2 ∷ s3 ∷ []) a.itemsize ≡ some pitch =
      rw (shape, strides) at p in
    let (q3, q2, q1, q, q0) = panel_pitch-eq-some b h s d s0 s1 s2 s3 a.itemsize pitch p' in
    (ground arith, ground arith, ground arith, ground arith, rw (q3, q2, q1, q0) (omega arith))
