-- ===== src/Core/Expr/Eval.antt =====
-- src/cpuattn/core/expr.py: evaluation. NumPy is a parameter: its values, and each primitive that
-- the evaluator calls, which may raise.
use cpuattn.Prelude.{
  String, Option, none, some, List, [], ◌∷◌, string_eq, Result, ok, err, value_error, index_error,
  ◌>>=◌,
}
use cpuattn.Prelude.Dict.{Dict, get}
use cpuattn.Core.Float.{Float, zero_float, one}
use cpuattn.Core.Expr.{Unary, Binary, Kind, Const, Expr, Exprs, node}

pub record NumPy : Type 1 where
  pub Value : Type 0
  -- a Python literal as a value; `none` is Python's None
  pub literal : Option Const → Value
  -- - np.exp np.log np.tanh np.abs np.logical_not
  pub unary : Unary → Value → Result Value
  -- + - * / np.maximum np.minimum, the comparisons, np.logical_and, np.logical_or
  pub binary : Binary → Value → Value → Result Value
  -- np.where
  pub select : Value → Value → Value → Result Value
  -- np.float32(x) and np.asarray(x, dtype=np.float32)
  pub float32 : Value → Result Value

module _ (np : NumPy) where
  open np use {Value}

  abbrev pub Env : Type 0
  Env = Dict String Value

  abbrev float_value : Float → Value
  float_value x = np.literal (some (Const.number x))

  -- The two operations that the source writes out, and the primitives.
  unfoldable pub apply_unary : Unary → Value → Result Value
  apply_unary Unary.sigmoid v = do
    n ← np.unary Unary.neg v
    e ← np.unary Unary.exp n
    s ← np.binary Binary.add (float_value one) e
    np.binary Binary.div (float_value one) s
  apply_unary Unary.relu v = np.binary Binary.max v (float_value zero_float)
  apply_unary op v = np.unary op v

  -- values[i], and the branch of the operation. Further values are not read.
  unfoldable pub apply_kind : Kind → List Value → Result Value
  unfolding apply_unary
  apply_kind (Kind.unary op) (a ∷ vs) = apply_unary op a
  apply_kind (Kind.binary op) (a ∷ b ∷ vs) = np.binary op a b
  apply_kind Kind.select (a ∷ b ∷ c ∷ vs) = np.select a b c
  apply_kind (Kind.other k) vs = err (value_error "unsupported expression operation")
  apply_kind _ vs = err (index_error "tuple index out of range")

  abbrev named : Option Value → Result Value
  named none = err (value_error "expression variable is not bound")
  named (some v) = ok v

  -- env[expr.name]; a name that is None is in no environment of texts
  abbrev look_up : Option String → Env → Result Value
  look_up none env = err (value_error "expression variable is not bound")
  look_up (some s) env = named (get s env)

  unfoldable mutual
    pub evaluate : Expr → Env → Result Value
    evaluate (node Kind.const t a v n) env = ok (np.literal v)
    evaluate (node Kind.var t a v n) env = look_up n env
    evaluate (node k t a v n) env = do vs ← evaluate_all a env; apply_kind k vs

    pub evaluate_all : Exprs → Env → Result (List Value)
    evaluate_all Exprs.nil env = ok []
    evaluate_all (Exprs.cons e es) env = do
      v ← evaluate e env
      vs ← evaluate_all es env
      ok (v ∷ vs)
