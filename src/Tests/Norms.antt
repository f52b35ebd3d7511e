-- ===== src/Tests/Norms.antt =====
-- src/cpuattn/core/rownorm.py at the row norm that divides by the sum of the scores.
use cpuattn.Prelude.{String, ◌≡◌, refl, some, List, [], ◌∷◌, ok, length}
use cpuattn.Prelude.Dict.{keys}
use cpuattn.Core.Float.{one, zero_float}
use cpuattn.Core.Expr.{ValueType, Binary, Const, Expr, variables, leaf_var, leaf_const, binary_node}
use cpuattn.Core.Expr.Typing.{IsTyped}
use cpuattn.Core.Expr.Returns.{divides_arrays}
use cpuattn.Core.RowNorm.{
  Merge, RowNorm, post_init, validate_variables, check_updates, check_merge, check_reductions,
  require_known, require_floats, require_float,
}
use cpuattn.Core.RowNorm.Online
use cpuattn.Core.RowNorm.Online.{online_weights, merge_states}
use cpuattn.Core.RowNorm.Interpreter.{Typed, online_weights-returns, merge_states-returns}
use cpuattn.Tests.Expressions.{Number, numbers, numbers_documented, score, score-IsTyped}

abbrev named : String → Expr
named s = leaf_var ValueType.float s

abbrev unit : Expr
unit = leaf_const ValueType.float (Const.number one)

abbrev sum : Expr → Expr → Expr
sum a b = binary_node Binary.add ValueType.float a b

abbrev merge : Merge
merge = record {
  updates = record { state = "total"; value = sum (named "left.total") (named "right.total") } ∷ [];
  left_scale = unit;
  right_scale = unit;
}

abbrev pub norm : RowNorm
norm = record {
  name = "total";
  states = record { name = "total"; initial = zero_float } ∷ [];
  updates = record { state = "total"; value = sum (named "old.total") score } ∷ [];
  rescale = unit;
  weight = score;
  final_scale = binary_node Binary.div ValueType.float unit (named "state.total");
  reference = record {
    reductions = record { name = "all"; operation = "sum"; value = score } ∷ [];
    weight = binary_node Binary.div ValueType.float score (named "all");
  };
  merge = some merge;
}

sum-IsTyped : (a b : String) → IsTyped (sum (named a) (named b))
sum-IsTyped a b =
    IsTyped.binary Binary.add ValueType.float (IsTyped.named ValueType.float a)
      (IsTyped.named ValueType.float b) refl refl refl

unit-IsTyped : IsTyped unit
unit-IsTyped = IsTyped.number one

quotient-IsTyped : IsTyped (binary_node Binary.div ValueType.float unit (named "state.total"))
quotient-IsTyped =
    IsTyped.binary Binary.div ValueType.float unit-IsTyped
      (IsTyped.named ValueType.float "state.total") refl refl refl

norm-Typed : Typed norm
unfolding divides_arrays variables
norm-Typed = record {
  updates = ((sum-IsTyped "old.total" "score", refl), tt);
  rescale = (unit-IsTyped, refl);
  weight = (score-IsTyped, refl);
  final_scale = (quotient-IsTyped, refl);
  merge = (
    ((sum-IsTyped "left.total" "right.total", refl), tt),
    (unit-IsTyped, refl),
    (unit-IsTyped, refl),
  );
}

norm_accepted : post_init norm ≡ ok tt
unfolding post_init validate_variables check_updates check_merge check_reductions require_known
    require_floats require_float variables
norm_accepted = refl

abbrev scores : List Number
scores = Number.array 2 ∷ Number.array 3 ∷ []

online_weights-returns_example :
    (ws : List Number) × (online_weights numbers norm scores ≡ ok ws) × (length ws ≡ 2)
online_weights-returns_example =
    online_weights-returns numbers numbers_documented norm norm_accepted norm-Typed scores
      ((tt, tt), ((tt, tt), tt))

merge_states-returns_example :
    (out : Online.Env numbers × Number × Number) × (merge_states numbers norm
        (("total", Number.array 2) ∷ [])
        (("total", Number.python 3) ∷ [])
      ≡ ok out)
    × (keys out.0 ≡ "total" ∷ [])
merge_states-returns_example =
    merge_states-returns numbers numbers_documented norm norm_accepted norm-Typed merge
      (("total", Number.array 2) ∷ []) (("total", Number.python 3) ∷ []) refl refl refl (tt, tt)
      (tt, tt)
