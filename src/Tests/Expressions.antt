-- ===== src/Tests/Expressions.antt =====
-- src/cpuattn/core/expr.py at concrete expressions, with a NumPy over the natural numbers whose
-- operators do not raise. The other tests use it too.
use cpuattn.Prelude.{
  ℕ, ◌+◌, ◌*◌, ◌≡◌, refl, sym, ap, ◌∙◌, true, false, Option, none, some, [], ◌∷◌, Result, ok,
  nat_beq, nat_eq, zero, err, value_error, ◌⊎◌, inl, inr, string_eq, subset, if◌then◌else◌, arith,
  ok-injective,
}
use native.Mathlib.Nat.{mul_comm}
use mathlib.Core.Path.{subst}
use cpuattn.Core.Float.{one, zero_float}
use cpuattn.Core.Expr.{
  ValueType, Unary, Binary, Kind, Const, Expr, leaf_const, variables, leaf_var, binary_node,
}
use cpuattn.Core.Expr.Build.{
  Operand, float_binary, compare_expr, logical, unary_expr, negate, invert, where_expr,
}
use cpuattn.Core.Expr.Eval.{NumPy, evaluate, apply_kind}
use cpuattn.Prelude.Json.{Json, Fields}
use cpuattn.Core.Canonical.{expr_json}
use cpuattn.Core.Expr.Typing.{IsTyped, Yields, builders_give_typed}
use cpuattn.Core.Expr.Returns.{
  IsDocumented, is_division, is_empty, divides_arrays, evaluate-returns,
}
use cpuattn.Native.Lowering.Coefficient.{IsSigned, MulLaws}

abbrev literal_value : Option Const → ℕ
literal_value none = 0
literal_value (some (Const.number x)) = if nat_beq x one then 1 else x
literal_value (some (Const.truth true)) = 1
literal_value (some (Const.truth false)) = 0

abbrev binary_value : Binary → ℕ → ℕ → Result ℕ
binary_value Binary.mul a b = ok (a * b)
binary_value op a b = ok (a + b)

abbrev pub naturals : NumPy
naturals = record {
  Value = ℕ;
  literal = literal_value;
  unary = λ op v. ok v;
  binary = binary_value;
  select = λ c a b. ok a;
  float32 = λ v. ok v;
}

-- A NumPy over natural numbers that tells those of Python from its own: a division of Python's by
-- zero raises.
pub data Number : Type 0 where
  python array : ℕ → Number

abbrev value_of : Number → ℕ
value_of (Number.python n) = n
value_of (Number.array n) = n

-- The result is Python's only where both operands are.
abbrev both : Number → Number → ℕ → Number
both (Number.python a) (Number.python b) n = Number.python n
both _ _ n = Number.array n

abbrev divided : Number → Number → Result Number
divided (Number.python a) (Number.python zero) = err (value_error "float division by zero")
divided x y = ok (both x y (value_of x))

abbrev binary_number : Binary → Number → Number → Result Number
binary_number Binary.div x y = divided x y
binary_number op x y = ok (both x y (value_of x + value_of y))

abbrev unary_number : Unary → Number → Number
unary_number Unary.neg x = x
unary_number op x = Number.array (value_of x)

abbrev pub numbers : NumPy
numbers = record {
  Value = Number;
  literal = λ c. Number.python (literal_value c);
  unary = λ op x. ok (unary_number op x);
  binary = binary_number;
  select = λ c x y. ok (Number.array (value_of x));
  float32 = λ x. ok (Number.array (value_of x));
}

abbrev pub OfNumPy : Number → Type 0
OfNumPy (Number.python n) = ⊥
OfNumPy (Number.array n) = Unit

pub unary_number-OfNumPy : (op : Unary) (x : Number) → OfNumPy x → OfNumPy (unary_number op x)
unary_number-OfNumPy Unary.neg x h = h
unary_number-OfNumPy op x h = tt

both-OfNumPy : (x y : Number) (n : ℕ) → OfNumPy x ⊎ OfNumPy y → OfNumPy (both x y n)
both-OfNumPy (Number.python a) (Number.python b) n (inl h) = h
both-OfNumPy (Number.python a) (Number.python b) n (inr h) = h
both-OfNumPy (Number.python a) (Number.array b) n h = tt
both-OfNumPy (Number.array a) y n h = tt

divided-ok : (x y : Number) → OfNumPy x ⊎ OfNumPy y → divided x y ≡ ok (both x y (value_of x))
divided-ok (Number.python a) (Number.python b) (inl h) = absurd h
divided-ok (Number.python a) (Number.python b) (inr h) = absurd h
divided-ok (Number.python a) (Number.array b) h = refl
divided-ok (Number.array a) y h = refl

pub binary_number-returns :
    (op : Binary) (x y : Number)
    → (is_division (Kind.binary op) ≡ true → OfNumPy x ⊎ OfNumPy y)
    → Unit {0}
    → Unit {0}
    → (w : Number) × (binary_number op x y ≡ ok w) × Unit {0} × (OfNumPy x ⊎ OfNumPy y → OfNumPy w)
binary_number-returns Binary.div x y d hx hy =
    (both x y (value_of x), divided-ok x y (d refl), tt, both-OfNumPy x y (value_of x))
binary_number-returns op x y d hx hy =
    (both x y (value_of x + value_of y), refl, tt, both-OfNumPy x y (value_of x + value_of y))

abbrev pub numbers_documented : IsDocumented numbers
numbers_documented = record {
  Is = λ t x. Unit;
  IsArray = OfNumPy;
  number = λ x. tt;
  truth = λ b. tt;
  float_as_bool = λ v h. tt;
  unary_returns = λ op v h. (unary_number op v, refl, tt, unary_number-OfNumPy op v);
  exp_array = λ v w h. subst OfNumPy (ok-injective (Number.array (value_of v)) w h) tt;
  binary_returns = binary_number-returns;
  select_returns = λ t c v u hc hv hu. (Number.array (value_of v), refl, tt, tt);
  float32_returns = λ t v h. (Number.array (value_of v), refl, tt, tt);
}

pub naturals-IsSigned : IsSigned naturals
naturals-IsSigned = record {
  factor_negated = λ a b p v m n. (a, refl);
  product_of_negated = λ a b n v h m. (a * b, refl);
}

pub naturals-MulLaws : MulLaws naturals
naturals-MulLaws = record {
  mul_comm = λ a b. ap ok (mul_comm a b);
  one_mul = λ a. ap ok (omega arith);
  neg_mul = λ a b na p h k. ap (λ x. ok (x * b)) (sym (ok-injective a na h)) ∙ k;
}

abbrev pub score : Expr
score = leaf_var ValueType.float "score"

abbrev pub doubled : Expr
doubled = binary_node Binary.add ValueType.float score score

pub score-IsTyped : IsTyped score
score-IsTyped = IsTyped.named ValueType.float "score"

pub doubled-IsTyped : IsTyped doubled
doubled-IsTyped =
    IsTyped.binary Binary.add ValueType.float score-IsTyped score-IsTyped refl refl refl

doubled_bound : subset (variables doubled) ("score" ∷ []) ≡ true
unfolding variables
doubled_bound = refl

evaluate-returns_example :
    (v : Number) × (evaluate numbers doubled (("score", Number.array 5) ∷ []) ≡ ok v)
    × Unit {0}
    × (is_empty (variables doubled) ≡ false → OfNumPy v)
unfolding divides_arrays variables
evaluate-returns_example =
    evaluate-returns numbers numbers_documented doubled (("score", Number.array 5) ∷ [])
      doubled-IsTyped refl doubled_bound ((tt, tt), tt)

-- The division of two numbers of Python raises.
literals_divided :
    evaluate numbers
      (binary_node Binary.div ValueType.float
        (leaf_const ValueType.float (Const.number one))
        (leaf_const ValueType.float (Const.number zero_float)))
      []
    ≡ err (value_error "float division by zero")
unfolding evaluate apply_kind
literals_divided = refl

builders_give_typed_example :
    Yields (float_binary doubled (Operand.number one) Binary.mul)
    × Yields (compare_expr doubled (Operand.number one) Binary.lt)
    × Yields (logical doubled (Operand.number one) Binary.and)
    × Yields (unary_expr Unary.exp (Operand.number one))
    × Yields (negate doubled)
    × Yields (invert doubled)
    × Yields (where_expr (Operand.number one) (Operand.boolean true) (Operand.object "list"))
builders_give_typed_example =
    builders_give_typed doubled (Operand.number one) (Operand.boolean true) (Operand.object "list")
      Binary.mul Binary.lt Binary.and Unary.exp doubled-IsTyped tt tt tt (refl, refl) (refl, refl)
      (refl, refl) refl

canonical_of_score :
    expr_json score
    ≡ Json.object (
        Fields.field "kind" (Json.text "var") (
          Fields.field "type"
            (Json.text "float")
            (Fields.field "name" (Json.text "score") Fields.empty)))
unfolding expr_json
canonical_of_score = refl
