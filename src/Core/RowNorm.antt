-- ===== src/Core/RowNorm.antt =====
-- src/cpuattn/core/rownorm.py: row norms, the checks of their constructor, and the interpreter of
-- the online protocol and of the merge.
pub mod Online
pub mod Returns
pub mod Interpreter
pub mod Protocols
pub mod BuiltIns
use Prim.Native.String.{◌++◌ as append_text}
use cpuattn.Prelude.{
  String, ◌≡◌, refl, Bool, true, false, not, ◌&&◌, ◌||◌, Option, none, some, List, [], ◌∷◌, ◌++◌,
  map, ◌==◌, string_eq, list_eq, contains, distinct, subset, Result, ok, err, value_error,
  type_error, ◌>>=◌, ◌>>◌, raise_if,
}
use cpuattn.Core.Float.{Float}
use cpuattn.Core.Expr.{ValueType, Expr, value_type, variables}
use cpuattn.Core.Expr.Build.{same_type}

pub record State : Type 0 where
  pub name : String
  pub initial : Float

pub record Update : Type 0 where
  pub state : String
  pub value : Expr

pub record Reduction : Type 0 where
  pub name : String
  pub operation : String
  pub value : Expr

pub record Reference : Type 0 where
  pub reductions : List Reduction
  pub weight : Expr

pub record Merge : Type 0 where
  pub updates : List Update
  pub left_scale : Expr
  pub right_scale : Expr

pub record RowNorm : Type 0 where
  pub name : String
  pub states : List State
  pub updates : List Update
  pub rescale : Expr
  pub weight : Expr
  pub final_scale : Expr
  pub reference : Reference
  pub merge : Option Merge

-- State.__post_init__ and Reduction.__post_init__. str.isidentifier is a parameter.
unfoldable pub make_state : (String → Bool) → String → Float → Result State
make_state is_identifier name initial = do
  raise_if (not (is_identifier name)) (value_error "invalid RowNorm state name")
  ok (record { name = name; initial = initial })

unfoldable pub make_reduction : (String → Bool) → String → String → Expr → Result Reduction
make_reduction is_identifier name operation value = do
  raise_if (not (is_identifier name)) (value_error "invalid reference reduction name")
  raise_if (not (operation == "sum" || operation == "max"))
      (value_error "reference reductions support only sum and max")
  ok (record { name = name; operation = operation; value = value })

-- f"{prefix}{name}"
abbrev pub prefixed : String → String → String
prefixed = append_text

abbrev pub state_names : List State → List String
state_names states = map (λ s. s.name) states

abbrev pub update_names : List Update → List String
update_names updates = map (λ u. u.state) updates

abbrev pub with_prefix : String → List String → List String
with_prefix prefix names = map (prefixed prefix) names

-- unknown = value.variables() - allowed; if unknown: raise
unfoldable pub require_known : Expr → List String → Result (Unit {0})
require_known value allowed =
    raise_if (not (subset (variables value) allowed)) (value_error "unknown variables")

unfoldable pub require_float : Expr → Result (Unit {0})
require_float value =
    raise_if (not (same_type (value_type value) ValueType.float))
      (type_error "must be a float expression")

unfoldable pub require_floats : List Update → Result (Unit {0})
unfolding require_float
require_floats [] = ok tt
require_floats (u ∷ us) = require_float u.value >> require_floats us

-- The loop over the updates: each may use `base` and what the updates before it produced. It gives
-- all that was produced.
unfoldable pub check_updates : List String → List String → List Update → Result (List String)
unfolding require_known
check_updates base produced [] = ok produced
check_updates base produced (u ∷ us) = do
  require_known u.value (base ++ produced)
  check_updates base (prefixed "new." u.state ∷ produced) us

-- The loop over the reference's reductions.
unfoldable pub check_reductions : List String → List Reduction → Result (List String)
unfolding require_known
check_reductions names [] = ok names
check_reductions names (r ∷ rs) = do
  require_known r.value ("score" ∷ names)
  raise_if (contains names r.name) (value_error "duplicate reference reduction")
  check_reductions (r.name ∷ names) rs

unfoldable pub check_merge : List String → Option Merge → Result (Unit {0})
unfolding require_known
check_merge names none = ok tt
check_merge names (some m) = do
  raise_if (not (update_names m.updates == names))
      (value_error "merge updates must define every state once, in state order")
  let sides = with_prefix "left." names ++ with_prefix "right." names
  merged ← check_updates sides [] m.updates
  require_known m.left_scale (sides ++ merged)
  require_known m.right_scale (sides ++ merged)

-- RowNorm._validate_variables
unfoldable pub validate_variables : RowNorm → Result (Unit {0})
unfolding require_known
validate_variables r = do
  let names = state_names r.states
  let old = with_prefix "old." names
  produced ← check_updates ("score" ∷ old) [] r.updates
  let online = ("score" ∷ old) ++ with_prefix "new." names
  require_known r.rescale online
  require_known r.weight online
  require_known r.final_scale (with_prefix "state." names)
  reductions ← check_reductions [] r.reference.reductions
  require_known r.reference.weight ("score" ∷ reductions)
  check_merge names r.merge

-- RowNorm.__post_init__
unfoldable pub post_init : RowNorm → Result (Unit {0})
unfolding require_float
post_init r = do
  raise_if (r.name == "") (value_error "RowNorm name must not be empty")
  raise_if (not (distinct (state_names r.states)))
      (value_error "RowNorm state names must be unique")
  raise_if (not (update_names r.updates == state_names r.states))
      (value_error "RowNorm updates must define every state once, in state order")
  require_floats r.updates
  require_float r.rescale
  require_float r.weight
  require_float r.final_scale
  require_float r.reference.weight
  validate_variables r

-- supports_split_k
unfoldable pub supports_split_k : RowNorm → Bool
supports_split_k r = elim r.merge [ none ↦ false | some m ↦ true ]
