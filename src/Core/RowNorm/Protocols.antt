-- ===== src/Core/RowNorm/Protocols.antt =====
-- src/cpuattn/core/rownorm.py: the built-in row norms softmax, identity, l1 and sigmoid_norm, built
-- by the operators of the expressions and checked by the constructors.
use cpuattn.Prelude.{String, some, [], ◌∷◌, Result, ok, ◌>>=◌, ◌>>◌}
use cpuattn.Core.Float.{Float, zero_float, one, minus_infinity}
use cpuattn.Core.Expr.{ValueType, Unary, Binary, Expr}
use cpuattn.Core.Expr.Build.{
  Operand, as_expr, float_binary, float_reflected, compare_expr, unary_expr, var, where_expr,
}
use cpuattn.Core.RowNorm.{RowNorm, post_init}

-- expr.var(name), and the operators between two expressions or an expression and a number.
abbrev named : String → Result Expr
named name = var name ValueType.float

abbrev by : Binary → Expr → Expr → Result Expr
by op a b = float_binary a (Operand.expression b) op

abbrev by_number : Binary → Expr → Float → Result Expr
by_number op a x = float_binary a (Operand.number x) op

-- value > x
abbrev above : Expr → Float → Result Expr
above a x = compare_expr a (Operand.number x) Binary.gt

abbrev apply : Unary → Expr → Result Expr
apply op a = unary_expr op (Operand.expression a)

-- expr.maximum(a, b)
abbrev larger : Expr → Operand → Result Expr
larger a b = float_reflected (Operand.expression a) b Binary.max

-- 1.0 / value
abbrev inverse : Expr → Result Expr
inverse a = float_reflected (Operand.number one) (Operand.expression a) Binary.div

-- expr.where(condition, value, 0.0)
abbrev or_zero : Expr → Expr → Result Expr
or_zero c a = where_expr (Operand.expression c) (Operand.expression a) (Operand.number zero_float)

-- RowNorm(...), whose __post_init__ runs.
unfoldable make_row_norm : RowNorm → Result RowNorm
unfolding post_init
make_row_norm r = do post_init r; ok r

-- expr.where(old_l > 0.0, expr.exp(old_m - new_m), 0.0)
unfoldable decay : String → String → String → Result Expr
unfolding var float_binary compare_expr unary_expr where_expr
decay count old new = do
  l ← named count
  m ← named old
  n ← named new
  positive ← above l zero_float
  difference ← by Binary.sub m n
  power ← apply Unary.exp difference
  or_zero positive power

-- expr.where(score > -float("inf"), expr.exp(score - m), 0.0)
unfoldable numerator : Expr → String → Result Expr
unfolding var float_binary compare_expr unary_expr where_expr
numerator score largest = do
  m ← named largest
  finite ← above score minus_infinity
  difference ← by Binary.sub score m
  power ← apply Unary.exp difference
  or_zero finite power

-- expr.where(sum > 0.0, value / sum, 0.0)
unfoldable share : Expr → Expr → Result Expr
unfolding float_binary compare_expr where_expr
share value total = do
  positive ← above total zero_float
  quotient ← by Binary.div value total
  or_zero positive quotient

-- expr.where(sum > 0.0, 1.0 / sum, 0.0)
unfoldable inverse_or_zero : Expr → Result Expr
unfolding float_reflected compare_expr where_expr
inverse_or_zero total = do
  positive ← above total zero_float
  quotient ← inverse total
  or_zero positive quotient

unfoldable pub softmax : Float → Result RowNorm
unfolding var float_binary float_reflected decay numerator share inverse_or_zero make_row_norm
softmax scale = do
  raw ← named "score"
  score ← by_number Binary.mul raw scale
  old_m ← named "old.m"
  old_l ← named "old.l"
  new_m ← larger old_m (Operand.expression score)
  old_scale ← decay "old.l" "old.m" "new.m"
  new_weight ← numerator score "new.m"
  kept ← by Binary.mul old_l old_scale
  new_l ← by Binary.add kept new_weight
  left_m ← named "left.m"
  right_m ← named "right.m"
  merge_m ← larger left_m (Operand.expression right_m)
  merge_left_scale ← decay "left.l" "left.m" "new.m"
  merge_right_scale ← decay "right.l" "right.m" "new.m"
  left_l ← named "left.l"
  right_l ← named "right.l"
  from_left ← by Binary.mul left_l merge_left_scale
  from_right ← by Binary.mul right_l merge_right_scale
  merge_l ← by Binary.add from_left from_right
  ref_numerator ← numerator score "m"
  state_l ← named "state.l"
  final_scale ← inverse_or_zero state_l
  l ← named "l"
  ref_weight ← share ref_numerator l
  make_row_norm record {
    name = "softmax";
    states =
        record { name = "m"; initial = minus_infinity }
        ∷ record { name = "l"; initial = zero_float }
        ∷ [];
    updates = record { state = "m"; value = new_m } ∷ record { state = "l"; value = new_l } ∷ [];
    rescale = old_scale;
    weight = new_weight;
    final_scale = final_scale;
    reference = record {
      reductions =
          record { name = "m"; operation = "max"; value = score }
          ∷ record { name = "l"; operation = "sum"; value = ref_numerator }
          ∷ [];
      weight = ref_weight;
    };
    merge = some record {
      updates =
          record { state = "m"; value = merge_m } ∷ record { state = "l"; value = merge_l } ∷ [];
      left_scale = merge_left_scale;
      right_scale = merge_right_scale;
    };
  }

unfoldable pub identity : Result RowNorm
unfolding var as_expr make_row_norm
identity = do
  score ← named "score"
  unit ← as_expr (Operand.number one)
  make_row_norm record {
    name = "identity";
    states = [];
    updates = [];
    rescale = unit;
    weight = score;
    final_scale = unit;
    reference = record { reductions = []; weight = score };
    merge = some record { updates = []; left_scale = unit; right_scale = unit };
  }

unfoldable pub l1 : Float → Result RowNorm
unfolding var as_expr float_binary float_reflected unary_expr make_row_norm
l1 scale = do
  raw ← named "score"
  score ← by_number Binary.mul raw scale
  old_r ← named "old.r"
  size ← apply Unary.abs score
  new_r ← by Binary.add old_r size
  unit ← as_expr (Operand.number one)
  state_r ← named "state.r"
  state_floor ← larger state_r (Operand.number one)
  final_scale ← inverse state_floor
  r ← named "r"
  floor ← larger r (Operand.number one)
  ref_weight ← by Binary.div score floor
  left_r ← named "left.r"
  right_r ← named "right.r"
  merged ← by Binary.add left_r right_r
  make_row_norm record {
    name = "l1";
    states = record { name = "r"; initial = zero_float } ∷ [];
    updates = record { state = "r"; value = new_r } ∷ [];
    rescale = unit;
    weight = score;
    final_scale = final_scale;
    reference = record {
      reductions = record { name = "r"; operation = "sum"; value = size } ∷ [];
      weight = ref_weight;
    };
    merge = some record {
      updates = record { state = "r"; value = merged } ∷ [];
      left_scale = unit;
      right_scale = unit;
    };
  }

unfoldable pub sigmoid_norm : Float → Result RowNorm
unfolding var as_expr float_binary unary_expr share inverse_or_zero make_row_norm
sigmoid_norm scale = do
  raw ← named "score"
  score ← by_number Binary.mul raw scale
  value ← apply Unary.sigmoid score
  state_sum ← named "state.l"
  reference_sum ← named "l"
  old_l ← named "old.l"
  new_l ← by Binary.add old_l value
  unit ← as_expr (Operand.number one)
  final_scale ← inverse_or_zero state_sum
  ref_weight ← share value reference_sum
  left_l ← named "left.l"
  right_l ← named "right.l"
  merged ← by Binary.add left_l right_l
  make_row_norm record {
    name = "sigmoid_norm";
    states = record { name = "l"; initial = zero_float } ∷ [];
    updates = record { state = "l"; value = new_l } ∷ [];
    rescale = unit;
    weight = value;
    final_scale = final_scale;
    reference = record {
      reductions = record { name = "l"; operation = "sum"; value = value } ∷ [];
      weight = ref_weight;
    };
    merge = some record {
      updates = record { state = "l"; value = merged } ∷ [];
      left_scale = unit;
      right_scale = unit;
    };
  }
