-- ===== src/Core/Expr.antt =====
-- src/cpuattn/core/expr.py: the expression tree, its builders and its variables. A node holds its
-- kind, its type, its arguments, and the literal or the name that only two kinds have.
pub mod Build
pub mod Canonical
pub mod Eval
pub mod Typing
pub mod Returns
use cpuattn.Prelude.{
  String, ◌≡◌, refl, Bool, true, false, Option, none, some, List, [], ◌∷◌, ◌++◌, ◌==◌, nat_beq,
  Result, ok, err, Exception, value_error, type_error, ◌>>=◌, ◌>>◌, raise_if,
}
use cpuattn.Core.Float.{Float, float_eq}

pub data ValueType : Type 0 where
  float bool : ValueType

pub data Unary : Type 0 where
  neg exp log tanh sigmoid relu abs not : Unary

pub data Binary : Type 0 where
  add sub mul div max min lt le gt ge eq ne and or : Binary

-- The string `kind`: the operations that the evaluator and the emitters know, by arity, and any
-- other text. `select` is "where".
pub data Kind : Type 0 where
  const var select : Kind
  unary : Unary → Kind
  binary : Binary → Kind
  other : String → Kind

pub data Const : Type 0 where
  number : Float → Const
  truth : Bool → Const

mutual
  pub data Expr : Type 0 where
    node : Kind → ValueType → Exprs → Option Const → Option String → Expr

  pub data Exprs : Type 0 where
    nil : Exprs
    cons : Expr → Exprs → Exprs

abbrev pub kind : Expr → Kind
kind (node k t a v n) = k

abbrev pub value_type : Expr → ValueType
value_type (node k t a v n) = t

abbrev pub args : Expr → Exprs
args (node k t a v n) = a

-- The nodes that the builders make.
pattern abbrev pub leaf_var : ValueType → String → Expr
leaf_var t s = node Kind.var t Exprs.nil none (some s)

pattern abbrev pub leaf_const : ValueType → Const → Expr
leaf_const t c = node Kind.const t Exprs.nil (some c) none

pattern abbrev pub unary_node : Unary → ValueType → Expr → Expr
unary_node op t a = node (Kind.unary op) t (Exprs.cons a Exprs.nil) none none

pattern abbrev pub binary_node : Binary → ValueType → Expr → Expr → Expr
binary_node op t a b = node (Kind.binary op) t (Exprs.cons a (Exprs.cons b Exprs.nil)) none none

pattern abbrev pub select_node : ValueType → Expr → Expr → Expr → Expr
select_node t c a b =
    node Kind.select t (Exprs.cons c (Exprs.cons a (Exprs.cons b Exprs.nil))) none none

-- Expr.variables, as a list of the names with repetitions.
abbrev own_name : Kind → Option String → List String
own_name Kind.var (some s) = s ∷ []
own_name _ _ = []

unfoldable mutual
  pub variables : Expr → List String
  variables (node k t a v n) = own_name k n ++ variables_of a

  pub variables_of : Exprs → List String
  variables_of Exprs.nil = []
  variables_of (Exprs.cons e es) = variables e ++ variables_of es
