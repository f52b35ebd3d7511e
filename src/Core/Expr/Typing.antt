-- ===== src/Core/Expr/Typing.antt =====
-- src/cpuattn/core/expr.py: what the builders guarantee.
use cpuattn.Prelude.{
  String, ◌≡◌, refl, ◌∙◌, Bool, true, false, string_eq, Result, ok, err, ◌>>=◌, ◌>>◌, ◌⊎◌, inl, inr,
  sym,
}
use cpuattn.Core.Float.{Float}
use cpuattn.Core.Expr.{
  ValueType, Unary, Binary, Const, Expr, value_type, leaf_var, leaf_const, unary_node, binary_node,
  select_node,
}
use cpuattn.Core.Expr.Build.{
  Operand, as_expr, float_binary, compare_expr, logical, negate, invert, unary_expr, where_expr,
  require_type, same_type,
}

-- The types that an operation takes and gives.
abbrev pub takes_unary : Unary → ValueType
takes_unary Unary.not = ValueType.bool
takes_unary _ = ValueType.float

abbrev pub takes : Binary → ValueType
takes Binary.and = ValueType.bool
takes Binary.or = ValueType.bool
takes _ = ValueType.float

abbrev pub gives : Binary → ValueType
gives Binary.lt = ValueType.bool
gives Binary.le = ValueType.bool
gives Binary.gt = ValueType.bool
gives Binary.ge = ValueType.bool
gives Binary.eq = ValueType.bool
gives Binary.ne = ValueType.bool
gives Binary.and = ValueType.bool
gives Binary.or = ValueType.bool
gives _ = ValueType.float

-- A tree that the builders can make: known operations with their arguments, each of its type.
pub data IsTyped : Expr → Type 0 where
  named : (t : ValueType) (s : String) → IsTyped (leaf_var t s)
  number : (x : Float) → IsTyped (leaf_const ValueType.float (Const.number x))
  truth : (b : Bool) → IsTyped (leaf_const ValueType.bool (Const.truth b))
  unary :
      {a : Expr} (op : Unary) (t : ValueType)
      → IsTyped a
      → value_type a ≡ takes_unary op
      → t ≡ takes_unary op
      → IsTyped (unary_node op t a)
  binary :
      {a b : Expr} (op : Binary) (t : ValueType)
      → IsTyped a
      → IsTyped b
      → value_type a ≡ takes op
      → value_type b ≡ takes op
      → t ≡ gives op
      → IsTyped (binary_node op t a b)
  select :
      {c a b : Expr} (t : ValueType)
      → IsTyped c
      → IsTyped a
      → IsTyped b
      → value_type c ≡ ValueType.bool
      → value_type a ≡ t
      → value_type b ≡ t
      → IsTyped (select_node t c a b)

-- The operands that the builders take: an expression of theirs, or a literal.
abbrev pub IsOperand : Operand → Type 0
IsOperand (Operand.expression e) = IsTyped e
IsOperand _ = Unit

-- A builder raises, or gives a typed expression.
abbrev pub Yields : Result Expr → Type 0
Yields (ok e) = IsTyped e
Yields (err x) = Unit

type_cases : (s t : ValueType) → (s ≡ t) × (same_type s t ≡ true) ⊎ (same_type s t ≡ false)
type_cases ValueType.float ValueType.float = inl (refl, refl)
type_cases ValueType.bool ValueType.bool = inl (refl, refl)
type_cases ValueType.float ValueType.bool = inr refl
type_cases ValueType.bool ValueType.float = inr refl

-- After a check the rest may use what it checked.
Yields-require :
    (e : Expr) (t : ValueType) (rest : Result Expr)
    → (value_type e ≡ t → Yields rest)
    → Yields (require_type e t >> rest)
unfolding require_type
Yields-require e t rest k = elim (type_cases (value_type e) t) [
  | inl same ↦ rw same.1 (k same.0)
  | inr differs ↦ rw differs tt
]

Yields-as_expr :
    (o : Operand) (rest : Expr → Result Expr)
    → IsOperand o
    → ((e : Expr) → IsTyped e → Yields (rest e))
    → Yields (as_expr o >>= rest)
unfolding as_expr
Yields-as_expr (Operand.expression e) rest h k = k e h
Yields-as_expr (Operand.boolean b) rest h k = k _ (IsTyped.truth b)
Yields-as_expr (Operand.number x) rest h k = k _ (IsTyped.number x)
Yields-as_expr (Operand.object c) rest h k = tt

float_binary-IsTyped :
    (e : Expr) (o : Operand) (op : Binary)
    → IsTyped e
    → IsOperand o
    → takes op ≡ ValueType.float
    → gives op ≡ ValueType.float
    → Yields (float_binary e o op)
unfolding float_binary
float_binary-IsTyped e o op he ho t g = Yields-as_expr o _ ho λ rhs hr.
    Yields-require e ValueType.float _ λ p.
      Yields-require rhs ValueType.float _
        λ q. IsTyped.binary op ValueType.float he hr (p ∙ sym t) (q ∙ sym t) (sym g)

compare_expr-IsTyped :
    (e : Expr) (o : Operand) (op : Binary)
    → IsTyped e
    → IsOperand o
    → takes op ≡ ValueType.float
    → gives op ≡ ValueType.bool
    → Yields (compare_expr e o op)
unfolding compare_expr
compare_expr-IsTyped e o op he ho t g = Yields-as_expr o _ ho λ rhs hr.
    Yields-require e ValueType.float _ λ p.
      Yields-require rhs ValueType.float _
        λ q. IsTyped.binary op ValueType.bool he hr (p ∙ sym t) (q ∙ sym t) (sym g)

where_expr-IsTyped :
    (c a b : Operand) → IsOperand c → IsOperand a → IsOperand b → Yields (where_expr c a b)
unfolding where_expr
where_expr-IsTyped c a b hc ha hb = Yields-as_expr c _ hc λ test ht. Yields-as_expr a _ ha λ lhs hl.
    Yields-as_expr b _ hb λ rhs hr. Yields-require test ValueType.bool _ λ p.
      elim (type_cases (value_type lhs) (value_type rhs)) [
        | inl same ↦ rw same.1 (IsTyped.select (value_type lhs) ht hl hr p refl (sym same.0))
        | inr differs ↦ rw differs tt
      ]

negate-IsTyped : (e : Expr) → IsTyped e → Yields (negate e)
unfolding negate
negate-IsTyped e he =
    Yields-require e ValueType.float _ λ p. IsTyped.unary Unary.neg ValueType.float he p refl

invert-IsTyped : (e : Expr) → IsTyped e → Yields (invert e)
unfolding invert
invert-IsTyped e he =
    Yields-require e ValueType.bool _ λ p. IsTyped.unary Unary.not ValueType.bool he p refl

logical-IsTyped :
    (e : Expr) (o : Operand) (op : Binary)
    → IsTyped e
    → IsOperand o
    → takes op ≡ ValueType.bool
    → gives op ≡ ValueType.bool
    → Yields (logical e o op)
unfolding logical
logical-IsTyped e o op he ho t g = Yields-as_expr o _ ho λ rhs hr.
    Yields-require e ValueType.bool _ λ p.
      Yields-require rhs ValueType.bool _
        λ q. IsTyped.binary op ValueType.bool he hr (p ∙ sym t) (q ∙ sym t) (sym g)

unary_expr-IsTyped :
    (op : Unary) (o : Operand)
    → IsOperand o
    → takes_unary op ≡ ValueType.float
    → Yields (unary_expr op o)
unfolding unary_expr
unary_expr-IsTyped op o ho t = Yields-as_expr o _ ho λ e he.
    Yields-require e ValueType.float _ λ p. IsTyped.unary op ValueType.float he (p ∙ sym t) (sym t)

-- Each builder, on typed expressions and on literals, raises or gives a typed expression: the
-- arithmetic of the float operations, their comparisons, the logic of the Boolean ones, the unary
-- functions, negation, inversion and where.
pub builders_give_typed :
    (e : Expr) (a b c : Operand) (arithmetic comparison logic : Binary) (function : Unary)
    → IsTyped e
    → IsOperand a
    → IsOperand b
    → IsOperand c
    → (takes arithmetic ≡ ValueType.float) × (gives arithmetic ≡ ValueType.float)
    → (takes comparison ≡ ValueType.float) × (gives comparison ≡ ValueType.bool)
    → (takes logic ≡ ValueType.bool) × (gives logic ≡ ValueType.bool)
    → takes_unary function ≡ ValueType.float
    → Yields (float_binary e a arithmetic)
      × Yields (compare_expr e a comparison)
      × Yields (logical e a logic)
      × Yields (unary_expr function a)
      × Yields (negate e)
      × Yields (invert e)
      × Yields (where_expr a b c)
builders_give_typed e a b c arithmetic comparison logic function he ha hb hc x y z u = (
  float_binary-IsTyped e a arithmetic he ha x.0 x.1,
  compare_expr-IsTyped e a comparison he ha y.0 y.1,
  logical-IsTyped e a logic he ha z.0 z.1,
  unary_expr-IsTyped function a ha u,
  negate-IsTyped e he,
  invert-IsTyped e he,
  where_expr-IsTyped a b c ha hb hc,
)
