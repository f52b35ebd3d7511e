-- ===== src/Core/Validate.antt =====
-- src/cpuattn/core/validate.py: the check of an operator's definition and of the tensors of a call.
pub mod Definition
pub mod Contract
use cpuattn.Prelude.{
  ℕ, zero, suc, ◌-◌, ◌%◌, ◌≡◌, refl, String, Bool, true, false, not, ◌&&◌, ◌||◌, Option, none, some,
  List, [], ◌∷◌, map, ◌==◌, nat_eq, list_eq, string_eq, nat_beq, ltb, length, same_set, Result, ok,
  err, value_error, key_error, ◌>>=◌, ◌>>◌, raise_if, if◌then◌else◌, traverse,
}
use cpuattn.Prelude.Dict.{Dict, get, keys}
use cpuattn.Core.Tensor.{Axis, axis_eq, TensorArgSpec, Array, Value, require_array, require_panel}
use cpuattn.Core.Operator.{Parallel, Linear, Operator}
use cpuattn.Prelude.Json.{Json}
use cpuattn.Core.Validate.Definition.{Verified, validate_definition}

pub record Shape4 : Type 0 where
  pub n0 : ℕ
  pub n1 : ℕ
  pub n2 : ℕ
  pub n3 : ℕ

-- a, b, c, d = array.shape
abbrev pub unpack4 : List ℕ → Result Shape4
unpack4 (n0 ∷ n1 ∷ n2 ∷ n3 ∷ []) = ok (record { n0 = n0; n1 = n1; n2 = n2; n3 = n3 })
unpack4 _ = err (value_error "not enough values to unpack")

abbrev pub shape4 : Array → Result Shape4
shape4 a = unpack4 a.shape

pub record ParallelCall : Type 0 where
  pub q : Array
  pub k : Array
  pub v : Array
  pub arguments : List (String × Array)
  pub kv_cache : Bool
  pub k_pitch : ℕ
  pub v_pitch : ℕ

pub record LinearCall : Type 0 where
  pub q : Array
  pub k : Array
  pub v : Array
  pub state : Option Array
  pub arguments : List (String × Array)

pub data ValidatedCall : Type 0 where
  parallel : ParallelCall → ValidatedCall
  linear : LinearCall → ValidatedCall

-- dimensions[axis]
abbrev pub dimension : Dict Axis ℕ → Axis → Result ℕ
dimension dims axis = elim (get axis dims) [ none ↦ err (key_error "axis") | some n ↦ ok n ]

abbrev pub supplied_value : Dict String Value → String → Result Value
supplied_value values name = elim (get name values) [
  | none ↦ err (key_error "argument")
  | some v ↦ ok v
]

-- One argument of _validate_arguments.
unfoldable pub bind_argument :
    Dict String Value → Dict Axis ℕ → TensorArgSpec → Result (String × Array)
bind_argument values dims spec = do
  value ← supplied_value values spec.name
  array ← require_array value (length spec.axes)
  expected ← traverse (dimension dims) spec.axes
  raise_if (not (array.shape == expected)) (value_error "argument must have another shape")
  ok (spec.name, array)

-- _validate_arguments
unfoldable pub validate_arguments :
    List TensorArgSpec → Dict String Value → Dict Axis ℕ → Result (List (String × Array))
unfolding bind_argument
validate_arguments [] [] dims = ok []
validate_arguments [] (v ∷ values) dims = err (value_error "operator argument mismatch")
validate_arguments (spec ∷ specs) values dims = do
  raise_if (not (same_set (keys values) (map (λ s. s.name) (spec ∷ specs))))
      (value_error "operator argument mismatch")
  traverse (bind_argument values dims) (spec ∷ specs)

abbrev pub parallel_dimensions : Shape4 → Shape4 → Shape4 → Dict Axis ℕ
parallel_dimensions q k v =
    (Axis.batch, q.n0)
    ∷ (Axis.query_head, q.n1)
    ∷ (Axis.kv_head, k.n1)
    ∷ (Axis.query, q.n2)
    ∷ (Axis.key, k.n2)
    ∷ (Axis.d, q.n3)
    ∷ (Axis.dv, v.n3)
    ∷ []

abbrev pub linear_dimensions : Shape4 → Shape4 → Dict Axis ℕ
linear_dimensions q v =
    (Axis.batch, q.n0)
    ∷ (Axis.parameter_group, q.n1)
    ∷ (Axis.state_head, v.n1)
    ∷ (Axis.sequence, q.n2)
    ∷ (Axis.d, q.n3)
    ∷ (Axis.dv, v.n3)
    ∷ []

-- The checks of validate_parallel_call on the shapes.
unfoldable pub check_parallel_shapes : Shape4 → Shape4 → Shape4 → Bool → Result (Unit {0})
check_parallel_shapes q k v kv_cache = do
  raise_if (not (nat_beq k.n0 q.n0) || not (nat_beq v.n0 q.n0))
      (value_error "q, k, and v batch dimensions must match")
  raise_if (not (nat_beq k.n3 q.n3)) (value_error "q and k channel dimensions must match")
  raise_if (not (nat_beq k.n1 v.n1)) (value_error "k and v must use the same kv_heads")
  raise_if (not (nat_beq k.n2 v.n2)) (value_error "k and v sequence dimensions must match")
  raise_if (not (nat_beq (q.n1 % k.n1) 0)) (value_error "query_heads must be divisible by kv_heads")
  raise_if (kv_cache && ltb k.n2 q.n2)
      (value_error "kv_cache key_length must be at least query_length")

-- validate_parallel_call, behind the check of the definition.
unfoldable pub bind_parallel_call :
    Parallel → Value → Value → Value → Dict String Value → Bool → Result ParallelCall
unfolding check_parallel_shapes validate_arguments
bind_parallel_call operator q k v arguments kv_cache = do
  q_array ← require_array q 4
  k_panel ← require_panel k 4
  v_panel ← require_panel v 4
  q_shape ← shape4 q_array
  k_shape ← shape4 k_panel.0
  v_shape ← shape4 v_panel.0
  check_parallel_shapes q_shape k_shape v_shape kv_cache
  bound ←
      validate_arguments operator.arguments arguments (parallel_dimensions q_shape k_shape v_shape)
  ok (record {
    q = q_array;
    k = k_panel.0;
    v = v_panel.0;
    arguments = bound;
    kv_cache = kv_cache;
    k_pitch = k_panel.1;
    v_pitch = v_panel.1;
  })

unfoldable pub check_linear_shapes : Shape4 → Shape4 → Shape4 → Result (Unit {0})
check_linear_shapes q k v = do
  raise_if (not (nat_beq k.n0 q.n0 && nat_beq k.n1 q.n1 && nat_beq k.n2 q.n2 && nat_beq k.n3 q.n3))
      (value_error "Linear q and k shapes must match exactly")
  raise_if (not (nat_beq v.n0 q.n0) || not (nat_beq v.n2 q.n2))
      (value_error "Linear q/k/v batch and sequence dimensions must match")
  raise_if (not (nat_beq (v.n1 % q.n1) 0))
      (value_error "state_heads must be divisible by parameter_groups")

-- The recurrent state of a Linear call, if one is given.
unfoldable pub bind_state : Shape4 → Shape4 → Option Value → Result (Option Array)
bind_state q v none = ok none
bind_state q v (some value) = do
  array ← require_array value 4
  raise_if (not (array.shape == (q.n0 ∷ v.n1 ∷ q.n3 ∷ v.n3 ∷ [])))
      (value_error "state must have another shape")
  ok (some array)

-- validate_linear_call, behind the check of the definition.
unfoldable pub bind_linear_call :
    Linear → Value → Value → Value → Option Value → Dict String Value → Result LinearCall
unfolding check_linear_shapes bind_state validate_arguments
bind_linear_call operator q k v state arguments = do
  q_array ← require_array q 4
  k_array ← require_array k 4
  v_array ← require_array v 4
  q_shape ← shape4 q_array
  k_shape ← shape4 k_array
  v_shape ← shape4 v_array
  check_linear_shapes q_shape k_shape v_shape
  state_array ← bind_state q_shape v_shape state
  bound ← validate_arguments operator.arguments arguments (linear_dimensions q_shape v_shape)
  ok (record { q = q_array; k = k_array; v = v_array; state = state_array; arguments = bound })

module _ (sha256 : String → String) (dumps : Json → String) where
  -- validate_parallel_call: an accepted definition stays in the set whatever the tensors are.
  unfoldable pub validate_parallel_call :
      Parallel
      → Value
      → Value
      → Value
      → Dict String Value
      → Bool
      → Verified
      → Result ParallelCall × Verified
  unfolding validate_definition bind_parallel_call
  validate_parallel_call operator q k v arguments kv_cache verified =
      let (checked, verified') =
        validate_definition sha256 dumps (Operator.parallel operator) verified in
      (checked >> bind_parallel_call operator q k v arguments kv_cache, verified')

  unfoldable pub validate_linear_call :
      Linear
      → Value
      → Value
      → Value
      → Option Value
      → Dict String Value
      → Verified
      → Result LinearCall × Verified
  unfolding validate_definition bind_linear_call
  validate_linear_call operator q k v state arguments verified =
      let (checked, verified') =
        validate_definition sha256 dumps (Operator.linear operator) verified in
      (checked >> bind_linear_call operator q k v state arguments, verified')
