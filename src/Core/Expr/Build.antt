-- ===== src/Core/Expr/Build.antt =====
-- src/cpuattn/core/expr.py: the builders. Every operator of the class takes any Python value.
use cpuattn.Prelude.{
  String, Bool, true, false, not, ◌==◌, string_eq, Result, ok, err, value_error, type_error, ◌>>=◌,
  ◌>>◌, raise_if,
}
use cpuattn.Core.Float.{Float}
use cpuattn.Core.Expr.{
  ValueType, Unary, Binary, Const, Expr, value_type, leaf_var, leaf_const, unary_node, binary_node,
  select_node,
}

-- What a caller may hand to an operator. An object of any other class is its class's name.
pub data Operand : Type 0 where
  expression : Expr → Operand
  boolean : Bool → Operand
  number : Float → Operand
  object : String → Operand

abbrev pub same_type : ValueType → ValueType → Bool
same_type ValueType.float ValueType.float = true
same_type ValueType.bool ValueType.bool = true
same_type _ _ = false

unfoldable pub require_type : Expr → ValueType → Result (Unit {0})
require_type e expected =
    raise_if (not (same_type (value_type e) expected)) (type_error "requires other expressions")

unfoldable pub as_expr : Operand → Result Expr
as_expr (Operand.expression e) = ok e
as_expr (Operand.boolean b) = ok (leaf_const ValueType.bool (Const.truth b))
as_expr (Operand.number x) = ok (leaf_const ValueType.float (Const.number x))
as_expr (Operand.object c) = err (type_error "cannot use as an expression")

-- Expr._float_binary: + - * / max min, and their reflected forms with the arguments swapped.
unfoldable pub float_binary : Expr → Operand → Binary → Result Expr
unfolding as_expr require_type
float_binary e other op = do
  rhs ← as_expr other
  require_type e ValueType.float
  require_type rhs ValueType.float
  ok (binary_node op ValueType.float e rhs)

-- __radd__, __rsub__, __rmul__, __rtruediv__, and maximum and minimum
unfoldable pub float_reflected : Operand → Operand → Binary → Result Expr
unfolding float_binary
float_reflected left right op = do lhs ← as_expr left; float_binary lhs right op

-- Expr._compare: < <= > >= equal not_equal
unfoldable pub compare_expr : Expr → Operand → Binary → Result Expr
unfolding as_expr require_type
compare_expr e other op = do
  rhs ← as_expr other
  require_type e ValueType.float
  require_type rhs ValueType.float
  ok (binary_node op ValueType.bool e rhs)

-- __and__ and __or__
unfoldable pub logical : Expr → Operand → Binary → Result Expr
unfolding as_expr require_type
logical e other op = do
  rhs ← as_expr other
  require_type e ValueType.bool
  require_type rhs ValueType.bool
  ok (binary_node op ValueType.bool e rhs)

-- __neg__
unfoldable pub negate : Expr → Result Expr
unfolding require_type
negate e = do require_type e ValueType.float; ok (unary_node Unary.neg ValueType.float e)

-- __invert__
unfoldable pub invert : Expr → Result Expr
unfolding require_type
invert e = do require_type e ValueType.bool; ok (unary_node Unary.not ValueType.bool e)

-- _unary: exp log tanh sigmoid relu abs_
unfoldable pub unary_expr : Unary → Operand → Result Expr
unfolding as_expr require_type
unary_expr op value = do
  e ← as_expr value
  require_type e ValueType.float
  ok (unary_node op ValueType.float e)

unfoldable pub var : String → ValueType → Result Expr
var name t = do
  raise_if (name == "") (value_error "variable name must not be empty")
  ok (leaf_var t name)

unfoldable pub where_expr : Operand → Operand → Operand → Result Expr
unfolding as_expr require_type
where_expr condition when_true when_false = do
  test ← as_expr condition
  lhs ← as_expr when_true
  rhs ← as_expr when_false
  require_type test ValueType.bool
  raise_if (not (same_type (value_type lhs) (value_type rhs)))
      (type_error "where branches must have the same type")
  ok (select_node (value_type lhs) test lhs rhs)

unfoldable pub identity : Result Expr
unfolding var
identity = var "x" ValueType.float

unfoldable pub causal : Result Expr
unfolding var compare_expr
causal = do
  key ← var "key_index" ValueType.float
  query ← var "query_index" ValueType.float
  compare_expr key (Operand.expression query) Binary.le
