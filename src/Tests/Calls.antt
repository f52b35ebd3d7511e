-- ===== src/Tests/Calls.antt =====
-- src/cpuattn/core/validate.py and core/tensor.py at a small Parallel and a small Linear call.
use cpuattn.Prelude.{ℕ, ◌+◌, ◌*◌, ◌<◌, ◌≡◌, refl, true, some, [], ◌∷◌, ok, string_eq}
use cpuattn.Core.Expr.{ValueType, Const, leaf_var, leaf_const}
use cpuattn.Core.Tensor.{
  Array, Value, StorageType, require_panel, panel_pitch, require_array, as_ndarray,
}
use cpuattn.Core.Tensor.Panel.{require_panel_addresses}
use cpuattn.Core.Operator.{Parallel, Linear}
use cpuattn.Core.Validate.{
  ParallelCall, LinearCall, bind_parallel_call, check_parallel_shapes, bind_linear_call,
  check_linear_shapes, bind_state, validate_arguments,
}
use cpuattn.Core.Validate.Contract.{
  ParallelContract, LinearContract, bind_parallel_call-ParallelContract,
  bind_linear_call-LinearContract,
}
use cpuattn.Tests.Norms.{norm}
use cpuattn.Tests.Linears.{delta_rule}

-- Four float32 numbers for each of heads times rows, in C order.
abbrev pub panel : ℕ → ℕ → ℕ → Array
panel heads rows address = record {
  shape = 1 ∷ heads ∷ rows ∷ 4 ∷ [];
  strides = heads * rows * 16 ∷ rows * 16 ∷ 16 ∷ 4 ∷ [];
  dtype = StorageType.float32;
  itemsize = 4;
  c_contiguous = true;
  address = address;
}

abbrev pub score_operator : Parallel
score_operator = record {
  score_mod = leaf_var ValueType.float "x";
  mask_mod = leaf_const ValueType.bool (Const.truth true);
  row_norm = norm;
  arguments = [];
}

abbrev pub call : ParallelCall
call = record {
  q = panel 2 2 0;
  k = panel 1 3 4096;
  v = panel 1 3 8192;
  arguments = [];
  kv_cache = true;
  k_pitch = 12;
  v_pitch = 12;
}

bound :
    bind_parallel_call score_operator
      (Value.ndarray (panel 2 2 0))
      (Value.ndarray (panel 1 3 4096))
      (Value.ndarray (panel 1 3 8192))
      []
      true
    ≡ ok call
unfolding bind_parallel_call check_parallel_shapes validate_arguments require_panel panel_pitch
    require_array as_ndarray
bound = refl

bind_parallel_call-ParallelContract_example : ParallelContract call
bind_parallel_call-ParallelContract_example =
    bind_parallel_call-ParallelContract score_operator (Value.ndarray (panel 2 2 0))
      (Value.ndarray (panel 1 3 4096)) (Value.ndarray (panel 1 3 8192)) [] true call bound

require_panel_accepts : require_panel (Value.ndarray (panel 1 3 4096)) 4 ≡ ok (panel 1 3 4096, 12)
unfolding require_panel panel_pitch as_ndarray
require_panel_accepts = refl

require_panel_addresses_example :
    (0 < 1)
    × (0 < 1)
    × (0 < 3)
    × (0 < 4)
    × (0 * 48 + 0 * 48 + 2 * 16 + 1 * 4 ≡ ((0 * 1 + 0) * 12 + 2 * 4 + 1) * 4)
require_panel_addresses_example =
    require_panel_addresses (Value.ndarray (panel 1 3 4096)) (panel 1 3 4096) 12 1 1 3 4 48 48 16 4
      0 0 2 1 require_panel_accepts refl refl

abbrev pub linear_call : LinearCall
linear_call = record {
  q = panel 1 2 0;
  k = panel 1 2 64;
  v = panel 2 2 128;
  state = some (panel 2 4 512);
  arguments = [];
}

abbrev pub plain : Linear
plain = record {
  transition = delta_rule.transition;
  readout = delta_rule.readout;
  q_mod = delta_rule.q_mod;
  k_mod = delta_rule.k_mod;
  v_mod = delta_rule.v_mod;
  arguments = [];
}

linear_bound :
    bind_linear_call plain
      (Value.ndarray (panel 1 2 0))
      (Value.ndarray (panel 1 2 64))
      (Value.ndarray (panel 2 2 128))
      (some (Value.ndarray (panel 2 4 512)))
      []
    ≡ ok linear_call
unfolding bind_linear_call check_linear_shapes bind_state validate_arguments require_array
    as_ndarray
linear_bound = refl

bind_linear_call-LinearContract_example : LinearContract linear_call
bind_linear_call-LinearContract_example =
    bind_linear_call-LinearContract plain (Value.ndarray (panel 1 2 0))
      (Value.ndarray (panel 1 2 64)) (Value.ndarray (panel 2 2 128))
      (some (Value.ndarray (panel 2 4 512))) [] linear_call linear_bound
