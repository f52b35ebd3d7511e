-- ===== src/Native/Lowering/Uniform.antt =====
-- src/cpuattn/native/lowering.py: the scale and the beta of a recognised definition are one number
-- for a token.
use cpuattn.Prelude.{
  String, ◌≡◌, refl, Bool, true, false, ◌⊎◌, inl, inr, Option, none, some, List, [], ◌∷◌, map, ◌==◌,
  string_eq, any, find?, contains, distinct, All, ok, arith, Bool-cases, ap,
}
use cpuattn.Core.Expr.{Expr, variables}
use cpuattn.Core.Tensor.{Axis, axis_eq, TensorArgSpec}
use cpuattn.Core.Operator.{Linear, validate_argument_names}
use cpuattn.Native.Lowering.{
  DeltaBlockPlan, delta_block_plan, varies_along_vector, factor_is_uniform, uses_vectors,
}
use cpuattn.Native.Lowering.Plans.{delta_block_plan-shape}

-- An argument with a value for each channel.
abbrev pub HasVectorAxis : TensorArgSpec → Type 0
HasVectorAxis spec = (contains spec.axes Axis.d ≡ true) ⊎ (contains spec.axes Axis.dv ≡ true)

-- No argument along d or dv is a variable of the expression.
abbrev pub IsReachedByNone : List TensorArgSpec → Expr → Type 0
IsReachedByNone specs e =
    All (λ spec. HasVectorAxis spec → contains (variables e) spec.name ≡ false) specs

-- Neither is q, k or v a variable of the scale, if there is one.
abbrev pub IsUniform : List TensorArgSpec → Option Expr → Type 0
IsUniform specs none = Unit
IsUniform specs (some factor) =
    IsReachedByNone specs factor
    × (contains (variables factor) "q" ≡ false)
    × (contains (variables factor) "k" ≡ false)
    × (contains (variables factor) "v" ≡ false)

any-contains :
    (p : String → Bool) (xs : List String) (x : String)
    → any p xs ≡ false
    → p x ≡ true
    → contains xs x ≡ false
any-contains p [] x h k = refl
any-contains p (y ∷ ys) x h k = elim (Bool-cases (x == y)) [
  | inl same ↦ absurd (ground (arith, k, h, ap p ((string_eq.beq_iff x y).0 same)))
  | inr other ↦ rw other (any-contains p ys x (ground (arith, h)) k)
]

found_behind :
    (first : TensorArgSpec) (specs rest : List TensorArgSpec)
    → contains (map (λ a. a.name) rest) first.name ≡ false
    → All (λ spec. find? (λ s. s.name == spec.name) specs ≡ some spec) rest
    → All (λ spec. find? (λ s. s.name == spec.name) (first ∷ specs) ≡ some spec) rest
found_behind first specs [] h k = tt
found_behind first specs (spec ∷ rest) h k =
    let other : (first.name == spec.name) ≡ false = ground (arith, h) in
    (rw (other, find?) k.0, found_behind first specs rest (ground (arith, h)) k.1)

-- Among distinct names, the search for a name gives its argument.
each_found :
    (specs : List TensorArgSpec)
    → distinct (map (λ a. a.name) specs) ≡ true
    → All (λ spec. find? (λ s. s.name == spec.name) specs ≡ some spec) specs
each_found [] h = tt
each_found (spec ∷ specs) h =
    let same : (spec.name == spec.name) ≡ true = (string_eq.beq_iff spec.name spec.name).1 refl in
    (
      rw (same, find?),
      found_behind spec specs specs (ground (arith, h)) (each_found specs (ground (arith, h))),
    )

varies-true :
    (specs : List TensorArgSpec) (spec : TensorArgSpec)
    → find? (λ s. s.name == spec.name) specs ≡ some spec
    → HasVectorAxis spec
    → varies_along_vector specs spec.name ≡ true
unfolding varies_along_vector
varies-true specs spec h (inl along) = rw (h, varies_along_vector) (ground (arith, along))
varies-true specs spec h (inr along) = rw (h, varies_along_vector) (ground (arith, along))

none_reaches :
    (specs rest : List TensorArgSpec) (e : Expr)
    → All (λ spec. find? (λ s. s.name == spec.name) specs ≡ some spec) rest
    → any (varies_along_vector specs) (variables e) ≡ false
    → IsReachedByNone rest e
none_reaches specs [] e h k = tt
none_reaches specs (spec ∷ rest) e h k = (
  λ along.
      any-contains (varies_along_vector specs) (variables e) spec.name k
        (varies-true specs spec h.0 along),
  none_reaches specs rest e h.1 k,
)

factor_is_uniform-IsUniform :
    (specs : List TensorArgSpec) (scale : Option Expr)
    → distinct (map (λ a. a.name) specs) ≡ true
    → factor_is_uniform specs scale ≡ true
    → IsUniform specs scale
factor_is_uniform-IsUniform specs none d h = tt
factor_is_uniform-IsUniform specs (some factor) d h =
    let vectors : uses_vectors factor ≡ false = ground (arith, h) in
    let reserved = contains ("q" ∷ "k" ∷ "v" ∷ []) in
    (
      none_reaches specs specs factor (each_found specs d) (ground (arith, h)),
      any-contains reserved (variables factor) "q" vectors refl,
      any-contains reserved (variables factor) "k" vectors refl,
      any-contains reserved (variables factor) "v" vectors refl,
    )

-- For an operator whose constructor accepts the names of its arguments: where it is recognised as a
-- gated delta rule, no argument with the axis d or dv is a variable of its beta or of its scale, and
-- none of q, k and v is one of its scale.
pub delta_block_plan-IsUniform :
    (operator : Linear) (plan : DeltaBlockPlan)
    → validate_argument_names operator.arguments ≡ ok tt
    → delta_block_plan operator ≡ ok (some plan)
    → IsReachedByNone operator.arguments plan.beta × IsUniform operator.arguments plan.scale
unfolding validate_argument_names
delta_block_plan-IsUniform operator plan names h =
    let s = delta_block_plan-shape operator plan h in
    let d : distinct (map (λ a. a.name) operator.arguments) ≡ true = ground (arith, names) in
    (
      none_reaches operator.arguments operator.arguments plan.beta (each_found operator.arguments d)
          s.uniform_beta,
      factor_is_uniform-IsUniform operator.arguments plan.scale d s.uniform_scale,
    )
