-- ===== src/Core/Validate/Definition.antt =====
-- src/cpuattn/core/validate.py: validate_definition, with the set of fingerprints of the operators
-- that it has accepted.
use cpuattn.Prelude.{
  String, not, List, [], ◌∷◌, ◌++◌, map, string_eq, any, subset, contains, Result, ok, err,
  value_error, type_error, ◌>>◌, raise_if, if◌then◌else◌,
}
use cpuattn.Core.Expr.{ValueType, Expr, value_type, variables}
use cpuattn.Core.Expr.Build.{same_type}
use cpuattn.Core.Tensor.{Axis, axis_eq, TensorArgSpec}
use cpuattn.Core.Transition.{Step}
use cpuattn.Prelude.Json.{Json}
use cpuattn.Core.Canonical.{fingerprint}
use cpuattn.Core.Operator.{Parallel, Linear, Operator, arguments}

abbrev pub reserved_arguments : List String
reserved_arguments = "x" ∷ "q" ∷ "k" ∷ "v" ∷ "score" ∷ "query_index" ∷ "key_index" ∷ []

abbrev pub parallel_axes : List Axis
parallel_axes = Axis.batch ∷ Axis.query_head ∷ Axis.kv_head ∷ Axis.query ∷ Axis.key ∷ []

abbrev pub linear_axes : List Axis
linear_axes =
    Axis.batch ∷ Axis.state_head ∷ Axis.parameter_group ∷ Axis.sequence ∷ Axis.d ∷ Axis.dv ∷ []

abbrev pub argument_names : List TensorArgSpec → List String
argument_names specs = map (λ a. a.name) specs

-- _require_variables
unfoldable pub require_variables : Expr → List String → Result (Unit {0})
require_variables e allowed =
    raise_if (not (subset (variables e) allowed)) (value_error "uses undeclared variables")

unfoldable pub require_names : List String → List String → Result (Unit {0})
require_names names allowed =
    raise_if (not (subset names allowed)) (value_error "uses undeclared variables")

unfoldable pub require_value_type : Expr → ValueType → Result (Unit {0})
require_value_type e t =
    raise_if (not (same_type (value_type e) t)) (type_error "must produce another type")

abbrev pub step_variables : Step → List String
step_variables (Step.scale factor) = variables factor
step_variables (Step.rank1 left right) = variables left ++ variables right
step_variables (Step.outer left right) = variables left ++ variables right

abbrev pub program_variables : List Step → List String
program_variables [] = []
program_variables (s ∷ ss) = step_variables s ++ program_variables ss

-- The loop over the arguments' axes.
unfoldable pub check_axes : List Axis → List TensorArgSpec → Result (Unit {0})
check_axes allowed [] = ok tt
check_axes allowed (a ∷ specs) = do
  raise_if (not (subset a.axes allowed)) (value_error "argument uses unavailable axes")
  check_axes allowed specs

unfoldable pub check_parallel : Parallel → Result (Unit {0})
unfolding require_variables require_value_type check_axes
check_parallel p = do
  require_value_type p.score_mod ValueType.float
  require_value_type p.mask_mod ValueType.bool
  require_variables p.score_mod ("x" ∷ argument_names p.arguments)
  require_variables p.mask_mod ("query_index" ∷ "key_index" ∷ argument_names p.arguments)
  check_axes parallel_axes p.arguments

unfoldable pub check_linear : Linear → Result (Unit {0})
unfolding require_variables require_names require_value_type check_axes
check_linear l = do
  let names = argument_names l.arguments
  require_value_type l.q_mod ValueType.float
  require_variables l.q_mod ("x" ∷ names)
  require_value_type l.k_mod ValueType.float
  require_variables l.k_mod ("x" ∷ names)
  require_value_type l.v_mod ValueType.float
  require_variables l.v_mod ("x" ∷ names)
  require_names (variables l.readout.query ++ program_variables l.transition.steps)
      ("q" ∷ "k" ∷ "v" ∷ names)
  check_axes linear_axes l.arguments

unfoldable pub check_class : Operator → Result (Unit {0})
unfolding check_parallel check_linear
check_class (Operator.parallel p) = check_parallel p
check_class (Operator.linear l) = check_linear l

-- The body behind the memo.
unfoldable pub check_definition : Operator → Result (Unit {0})
unfolding check_class
check_definition operator = do
  raise_if (any (contains reserved_arguments) (argument_names (arguments operator)))
      (value_error "operator arguments use reserved names")
  check_class operator

-- _DEFINITION_VERIFIED
abbrev pub Verified : Type 0
Verified = List String

module _ (sha256 : String → String) (dumps : Json → String) where
  abbrev remember : Operator → Result (Unit {0}) → Verified → Result (Unit {0}) × Verified
  remember operator (ok _) verified = (ok tt, fingerprint sha256 dumps operator ∷ verified)
  remember operator (err e) verified = (err e, verified)

  unfoldable pub validate_definition : Operator → Verified → Result (Unit {0}) × Verified
  unfolding fingerprint
  validate_definition operator verified =
      if contains verified (fingerprint sha256 dumps operator)
      then (ok tt, verified)
      else remember operator (check_definition operator) verified
