-- ===== src/Tests/Linears.antt =====
-- src/cpuattn/native/lowering.py at the gated delta rule with an argument for beta.
use cpuattn.Prelude.{ℕ, String, ◌≡◌, refl, true, string_eq, none, some, [], ◌∷◌, ok, ◌*◌}
use cpuattn.Prelude.Dict.{Dict, get}
use cpuattn.Core.Expr.{ValueType, Unary, Binary, Expr, variables, leaf_var, unary_node, binary_node}
use cpuattn.Core.Expr.Canonical.{same_canonical}
use cpuattn.Core.Expr.Eval.{evaluate, apply_kind, apply_unary}
use cpuattn.Core.Tensor.{Axis}
use cpuattn.Core.Transition.{Step, ReadTiming}
use cpuattn.Core.Operator.{Linear, validate_argument_names}
use cpuattn.Native.Lowering.{
  DeltaBlockPlan, delta_block_plan, delta_block, delta_with, coefficient_of, product_coefficient,
  is_variable, varies_along_vector,
}
use cpuattn.Native.Lowering.Coefficient.{IsProduct, coefficient-IsProduct}
use cpuattn.Native.Lowering.Plans.{delta_block_plan_sound}
use cpuattn.Native.Lowering.Uniform.{IsReachedByNone, IsUniform, delta_block_plan-IsUniform}
use cpuattn.Tests.Expressions.{naturals, naturals-IsSigned, naturals-MulLaws}

abbrev named : String → Expr
named s = leaf_var ValueType.float s

abbrev times : Expr → Expr → Expr
times a b = binary_node Binary.mul ValueType.float a b

abbrev erased : Expr
erased = times (unary_node Unary.neg ValueType.float (named "beta")) (named "k")

abbrev written : Expr
written = times (named "beta") (named "v")

abbrev pub delta_rule : Linear
delta_rule = record {
  transition = record {
    steps = Step.rank1 erased (named "k") ∷ Step.outer (named "k") written ∷ [];
  };
  readout = record { query = named "q"; timing = ReadTiming.after };
  q_mod = named "x";
  k_mod = named "x";
  v_mod = named "x";
  arguments =
      record { name = "beta"; axes = Axis.batch ∷ Axis.sequence ∷ []; contiguous = true } ∷ [];
}

abbrev plan : DeltaBlockPlan
plan = record { scale = none; beta = named "beta" }

recognised : delta_block_plan delta_rule ≡ ok (some plan)
unfolding delta_block_plan delta_block delta_with coefficient_of product_coefficient is_variable
    varies_along_vector same_canonical variables
recognised = refl

abbrev env : Dict String ℕ
env = ("beta", 2) ∷ ("k", 3) ∷ ("v", 5) ∷ []

k_bound : get "k" env ≡ some 3
unfolding get
k_bound = refl

v_bound : get "v" env ≡ some 5
unfolding get
v_bound = refl

erased_value : evaluate naturals erased env ≡ ok 6
unfolding evaluate apply_kind apply_unary get
erased_value = refl

written_value : evaluate naturals written env ≡ ok 10
unfolding evaluate apply_kind apply_unary get
written_value = refl

written_coefficient : coefficient_of written "v" ≡ ok (some (named "beta"))
unfolding coefficient_of product_coefficient is_variable
written_coefficient = refl

coefficient-IsProduct_example :
    IsProduct naturals naturals-IsSigned naturals-MulLaws env "v" 5 v_bound (named "beta") 10
coefficient-IsProduct_example =
    coefficient-IsProduct naturals naturals-IsSigned naturals-MulLaws env "v" 5 v_bound written
      (named "beta") 10 written_coefficient written_value

names_accepted : validate_argument_names delta_rule.arguments ≡ ok tt
unfolding validate_argument_names
names_accepted = refl

delta_block_plan-IsUniform_example :
    IsReachedByNone delta_rule.arguments (named "beta") × IsUniform delta_rule.arguments none
delta_block_plan-IsUniform_example =
    delta_block_plan-IsUniform delta_rule plan names_accepted recognised

delta_block_plan_sound_example :
    ((b nb : ℕ) × (evaluate naturals (named "beta") env ≡ ok b)
      × (ok b ≡ ok nb)
      × (ok (nb * 3) ≡ ok 6))
    × ((e : Expr) × (c : ℕ) × (same_canonical e (named "beta") ≡ true)
        × (evaluate naturals e env ≡ ok c)
        × (ok (c * 5) ≡ ok 10))
delta_block_plan_sound_example =
    delta_block_plan_sound naturals naturals-IsSigned naturals-MulLaws env 3 5 k_bound v_bound
      delta_rule plan erased (named "k") (named "k") written 6 10 recognised refl erased_value
      written_value
