-- ===== src/Native/Lowering.antt =====
-- src/cpuattn/native/lowering.py: which Linear definitions may be chunked.
pub mod Coefficient
pub mod Plans
pub mod Uniform
use cpuattn.Prelude.{
  String, ◌≡◌, refl, Bool, true, false, not, ◌&&◌, ◌||◌, Option, none, some, List, [], ◌∷◌, ◌++◌,
  ◌==◌, string_eq, any, all, contains, find?, Result, ok, err, index_error, ◌>>=◌, ◌>>◌,
  if◌then◌else◌,
}
use cpuattn.Core.Float.{one}
use cpuattn.Core.Expr.{
  ValueType, Unary, Binary, Kind, Const, Expr, Exprs, node, kind, args, leaf_const, variables,
}
use cpuattn.Core.Expr.Build.{negate}
use cpuattn.Core.Expr.Canonical.{same_canonical}
use cpuattn.Core.Tensor.{Axis, axis_eq, TensorArgSpec}
use cpuattn.Core.Transition.{Step, ReadTiming}
use cpuattn.Core.Operator.{Linear}

pub record LinearBlockPlan : Type 0 where
  pub scale : Option Expr
  pub outer_left : Expr
  pub outer_right : Expr

pub record DeltaBlockPlan : Type 0 where
  pub scale : Option Expr
  pub beta : Expr

-- _is_variable
unfoldable pub is_variable : Expr → String → Bool
is_variable (node Kind.var t a v (some s)) name = s == name
is_variable e name = false

-- second.kind == "neg" and _is_variable(second.args[0], name)
unfoldable pub is_negated_variable : Expr → String → Result Bool
unfolding is_variable
is_negated_variable (node (Kind.unary Unary.neg) t Exprs.nil v n) name =
    err (index_error "tuple index out of range")
is_negated_variable (node (Kind.unary Unary.neg) t (Exprs.cons a more) v n) name =
    ok (is_variable a name)
is_negated_variable e name = ok false

abbrev pub found : Result Expr → Result (Option Expr)
found r = r >>= λ e. ok (some e)

-- The branch for a product of two factors.
unfoldable pub product_coefficient : Expr → Expr → String → Result (Option Expr)
unfolding is_variable is_negated_variable
product_coefficient first second name =
    if is_variable second name
    then ok (some first)
    else if is_variable first name
    then ok (some second)
    else (do
      second_negated ← is_negated_variable second name
      if second_negated then found (negate first) else (do
        first_negated ← is_negated_variable first name
        if first_negated then found (negate second) else ok none))

abbrev pub negated : Option Expr → Result (Option Expr)
negated none = ok none
negated (some e) = found (negate e)

-- _coefficient_of: c for an expression c * var(name). A variable has the coefficient 1.0.
unfoldable pub coefficient_of : Expr → String → Result (Option Expr)
unfolding product_coefficient
coefficient_of (node (Kind.unary Unary.neg) t (Exprs.cons a Exprs.nil) v n) name =
    coefficient_of a name >>= negated
coefficient_of (node (Kind.binary Binary.mul) t (Exprs.cons a (Exprs.cons b Exprs.nil)) v n) name =
    product_coefficient a b name
coefficient_of e name =
    ok (if is_variable e name then some (leaf_const ValueType.float (Const.number one)) else none)

-- spec is not None and ({Axis.D, Axis.DV} & set(spec.axes))
unfoldable pub varies_along_vector : List TensorArgSpec → String → Bool
varies_along_vector specs name = elim (find? (λ s. s.name == name) specs) [
  | none ↦ false
  | some spec ↦ contains spec.axes Axis.d || contains spec.axes Axis.dv
]

abbrev pub uses_vectors : Expr → Bool
uses_vectors e = any (contains ("q" ∷ "k" ∷ "v" ∷ [])) (variables e)

abbrev pub is_after : ReadTiming → Bool
is_after ReadTiming.after = true
is_after ReadTiming.before = false

-- The scale factor is one number for a token: no vector variable, and no argument along d or dv.
abbrev pub factor_is_uniform : List TensorArgSpec → Option Expr → Bool
factor_is_uniform specs none = true
factor_is_uniform specs (some factor) =
    not (uses_vectors factor) && not (any (varies_along_vector specs) (variables factor))

unfoldable pub outer_block : Linear → Option Expr → Expr → Expr → Option LinearBlockPlan
unfolding is_variable varies_along_vector
outer_block operator scale left right =
    if not (is_variable left "k" && is_variable right "v")
    then none
    else if not (is_variable operator.readout.query "q")
    then none
    else if not (factor_is_uniform operator.arguments scale)
    then none
    else some (record { scale = scale; outer_left = left; outer_right = right })

abbrev pub block_of_steps : Linear → List Step → Option LinearBlockPlan
block_of_steps operator (Step.outer left right ∷ []) = outer_block operator none left right
block_of_steps operator (Step.scale factor ∷ Step.outer left right ∷ []) =
    outer_block operator (some factor) left right
block_of_steps operator _ = none

-- linear_block_plan
unfoldable pub linear_block_plan : Linear → Option LinearBlockPlan
unfolding outer_block
linear_block_plan operator = block_of_steps operator operator.transition.steps

-- What remains once beta and the coefficient of v are known.
unfoldable pub delta_with : Linear → Option Expr → Expr → Option Expr → Option DeltaBlockPlan
unfolding is_variable varies_along_vector
delta_with operator scale beta none = none
delta_with operator scale beta (some right) =
    if not (same_canonical right beta)
    then none
    else if not (is_variable operator.readout.query "q")
    then none
    else if not (is_after operator.readout.timing)
    then none
    else if not (factor_is_uniform operator.arguments scale)
    then none
    else if any (varies_along_vector operator.arguments) (variables beta)
    then none
    else some (record { scale = scale; beta = beta })

-- left is None or left.kind != "neg" or len(left.args) != 1; beta = left.args[0]
abbrev pub beta_of : Option Expr → Option Expr
beta_of (some (node (Kind.unary Unary.neg) t (Exprs.cons beta Exprs.nil) v n)) = some beta
beta_of _ = none

abbrev pub delta_of_beta :
    Linear → Option Expr → Expr → Option Expr → Result (Option DeltaBlockPlan)
delta_of_beta operator scale outer_right none = ok none
delta_of_beta operator scale outer_right (some beta) = do
  right ← coefficient_of outer_right "v"
  ok (delta_with operator scale beta right)

-- rank1.left, rank1.right, outer.left, outer.right
unfoldable pub delta_block :
    Linear → Option Expr → Expr → Expr → Expr → Expr → Result (Option DeltaBlockPlan)
unfolding is_variable coefficient_of delta_with
delta_block operator scale rank1_left rank1_right outer_left outer_right =
    if not (is_variable rank1_right "k" && is_variable outer_left "k") then ok none else (do
      left ← coefficient_of rank1_left "k"
      delta_of_beta operator scale outer_right (beta_of left))

abbrev pub delta_of_steps : Linear → List Step → Result (Option DeltaBlockPlan)
delta_of_steps operator (Step.rank1 a b ∷ Step.outer c d ∷ []) = delta_block operator none a b c d
delta_of_steps operator (Step.scale factor ∷ Step.rank1 a b ∷ Step.outer c d ∷ []) =
    delta_block operator (some factor) a b c d
delta_of_steps operator _ = ok none

-- delta_block_plan
unfoldable pub delta_block_plan : Linear → Result (Option DeltaBlockPlan)
unfolding delta_block
delta_block_plan operator = delta_of_steps operator operator.transition.steps
