-- ===== src/Core/Tensor.antt =====
-- src/cpuattn/core/tensor.py: logical axes, argument specifications, and the contract of the arrays
-- that a caller passes.
pub mod Panel
use cpuattn.Prelude.{
  ℕ, zero, suc, ◌*◌, ◌/◌, String, ◌≡◌, refl, ◌↔◌, Bool, true, false, not, ◌&&◌, ◌||◌, Option, none,
  some, List, [], ◌∷◌, Eq, ◌==◌, nat_beq, nat_eq, string_eq, list_beq, leb, length, contains,
  distinct, Result, ok, err, value_error, ◌>>=◌, ◌>>◌, raise_if, arith, if◌then◌else◌,
}

pub data Axis : Type 0 where
  batch query_head kv_head state_head parameter_group query key sequence d dv : Axis

-- The position of an axis in the enumeration, by which axes are compared.
abbrev pub axis_number : Axis → ℕ
axis_number Axis.batch = 0
axis_number Axis.query_head = 1
axis_number Axis.kv_head = 2
axis_number Axis.state_head = 3
axis_number Axis.parameter_group = 4
axis_number Axis.query = 5
axis_number Axis.key = 6
axis_number Axis.sequence = 7
axis_number Axis.d = 8
axis_number Axis.dv = 9

abbrev pub axis_beq : Axis → Axis → Bool
axis_beq a b = nat_beq (axis_number a) (axis_number b)

pub axis_beq_iff : (a b : Axis) → (axis_beq a b ≡ true) ↔ (a ≡ b)
axis_beq_iff a b = ground arith

instance abbrev pub axis_eq : Eq Axis
axis_eq = record { beq = axis_beq; beq_iff = axis_beq_iff }

pub record TensorArgSpec : Type 0 where
  pub name : String
  pub axes : List Axis
  pub contiguous : Bool

-- _require_identifier_axes. Python's str.isidentifier is a parameter.
unfoldable pub require_identifier_axes : (String → Bool) → String → List Axis → Result (Unit {0})
require_identifier_axes is_identifier identifier axes = do
  raise_if (identifier == "" || not (is_identifier identifier)) (value_error "invalid identifier")
  raise_if (not (distinct axes)) (value_error "repeats a logical axis")

-- TensorArgSpec.__post_init__
unfoldable pub make_tensor_arg_spec :
    (String → Bool) → String → List Axis → Bool → Result TensorArgSpec
unfolding require_identifier_axes
make_tensor_arg_spec is_identifier name axes contiguous = do
  require_identifier_axes is_identifier name axes
  ok (record { name = name; axes = axes; contiguous = contiguous })

pub data StorageType : Type 0 where
  float32 : StorageType
  other_type : String → StorageType

-- What the contract reads of a NumPy array. The strides are in bytes.
pub record Array : Type 0 where
  pub shape : List ℕ
  pub strides : List ℕ
  pub dtype : StorageType
  pub itemsize : ℕ
  pub c_contiguous : Bool
  pub address : ℕ

-- A caller's value: an array, a tensor with its device and the array that `detach().numpy()`
-- gives, or anything else.
pub data Value : Type 0 where
  ndarray : Array → Value
  tensor : Option String → Array → Value
  object : Value

abbrev on_cpu : Option String → Bool
on_cpu none = true
on_cpu (some device) = device == "cpu"

unfoldable pub as_ndarray : Value → Result Array
as_ndarray (Value.ndarray a) = ok a
as_ndarray (Value.tensor device a) = do
  raise_if (not (on_cpu device)) (value_error "must be a CPU tensor")
  ok a
as_ndarray Value.object = err (value_error "must be a NumPy array or contiguous CPU tensor")

abbrev pub is_float32 : StorageType → Bool
is_float32 StorageType.float32 = true
is_float32 (StorageType.other_type t) = false

-- The checks that both contracts begin with.
abbrev rank_is : Array → ℕ → Bool
rank_is a rank = nat_beq (length a.shape) rank

unfoldable pub require_array : Value → ℕ → Result Array
unfolding as_ndarray
require_array value rank = do
  a ← as_ndarray value
  raise_if (not (rank_is a rank)) (value_error "must have another rank")
  raise_if (not (is_float32 a.dtype)) (value_error "must use fp32 storage")
  raise_if (not a.c_contiguous) (value_error "must be contiguous BHSD storage")
  raise_if (contains a.shape 0) (value_error "dimensions must be positive")
  ok a

-- b, h, s, d = array.shape; s0, s1, s2, s3 = array.strides: the head stride in elements, if the
-- strides are those of a panel.
unfoldable pub panel_pitch : List ℕ → List ℕ → ℕ → Option ℕ
panel_pitch (b ∷ heads ∷ rows ∷ width ∷ []) (s0 ∷ s1 ∷ s2 ∷ s3 ∷ []) item =
    let pitch = s1 / item in
    if nat_beq s3 item && nat_beq s2 (width * item)
    then (if nat_beq s1 (pitch * item) && leb rows pitch && nat_beq s0 (heads * pitch * item)
        then some pitch
        else none)
    else none
panel_pitch _ _ item = none

abbrev pitched : Array → Option ℕ → Result (Array × ℕ)
pitched a none = err (value_error "must be contiguous BHSD storage or a prefix view of one")
pitched a (some pitch) = ok (a, pitch)

unfoldable pub require_panel : Value → ℕ → Result (Array × ℕ)
unfolding as_ndarray panel_pitch
require_panel value rank = do
  a ← as_ndarray value
  raise_if (not (rank_is a rank)) (value_error "must have another rank")
  raise_if (not (is_float32 a.dtype)) (value_error "must use fp32 storage")
  raise_if (contains a.shape 0) (value_error "dimensions must be positive")
  pitched a (panel_pitch a.shape a.strides a.itemsize)
