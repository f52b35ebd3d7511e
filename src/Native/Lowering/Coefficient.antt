-- ===== src/Native/Lowering/Coefficient.antt =====
-- src/cpuattn/native/lowering.py: _coefficient_of gives a coefficient.
use cpuattn.Prelude.{
  String, ◌≡◌, refl, sym, ap, ◌∙◌, Bool, true, false, Option, none, some, [], ◌∷◌, string_eq,
  Result, ok, err, ◌>>=◌, >>=-eq-ok, ok-injective, arith, Bool-cases, inl, inr, if◌then◌else◌,
}
use text.Mathlib.TextEquality.{eq_iff}
use cpuattn.Prelude.Dict.{get}
use cpuattn.Core.Float.{one}
use cpuattn.Core.Expr.{
  ValueType, Unary, Binary, Kind, Const, Expr, Exprs, node, leaf_const, unary_node,
}
use cpuattn.Core.Expr.Build.{negate, require_type}
use cpuattn.Core.Expr.Eval
use cpuattn.Core.Expr.Eval.{NumPy, evaluate, evaluate_all, apply_kind, apply_unary}
use cpuattn.Native.Lowering.{
  is_variable, is_negated_variable, product_coefficient, coefficient_of, negated, found,
}

-- IEEE 754 multiplication: it is commutative, 1.0 is its unit, and a sign moves through it.
pub record MulLaws (np : NumPy) : Type 1 where
  pub mul_comm : (a b : np.Value) → np.binary Binary.mul a b ≡ np.binary Binary.mul b a
  pub one_mul :
      (a : np.Value) → np.binary Binary.mul (np.literal (some (Const.number one))) a ≡ ok a
  pub neg_mul :
      (a b na p : np.Value)
      → np.unary Unary.neg a ≡ ok na
      → np.binary Binary.mul a b ≡ ok p
      → np.binary Binary.mul na b ≡ np.unary Unary.neg p

negate-eq-ok : (e c : Expr) → negate e ≡ ok c → c ≡ unary_node Unary.neg ValueType.float e
unfolding negate require_type
negate-eq-ok e c h =
    let (u, p, q) = >>=-eq-ok (require_type e ValueType.float) _ h in
    sym (ok-injective (unary_node Unary.neg ValueType.float e) c q)

-- Which branch gave the coefficient of a product.
data ProductCase (a b : Expr) (name : String) (c : Expr) : Type 0 where
  right_variable : is_variable b name ≡ true → a ≡ c → ProductCase a b name c
  left_variable : is_variable a name ≡ true → b ≡ c → ProductCase a b name c
  right_negated : is_negated_variable b name ≡ ok true → negate a ≡ ok c → ProductCase a b name c
  left_negated : is_negated_variable a name ≡ ok true → negate b ≡ ok c → ProductCase a b name c

ok_some-injective : (a c : Expr) → ok (some a) ≡ ok (some c) → a ≡ c
ok_some-injective a c h = cc

found-eq-some : (r : Result Expr) (c : Expr) → found r ≡ ok (some c) → r ≡ ok c
found-eq-some (ok e) c h = cc
found-eq-some (err e) c h = cc

negated-eq-some :
    (o : Option Expr) (c : Expr)
    → negated o ≡ ok (some c)
    → (d : Expr) × (o ≡ some d) × (negate d ≡ ok c)
negated-eq-some none c h = cc
negated-eq-some (some d) c h = (d, refl, found-eq-some (negate d) c h)

left_case :
    (a b : Expr) (name : String) (c : Expr) (flag : Bool)
    → is_negated_variable a name ≡ ok flag
    → (if flag then found (negate b) else ok none) ≡ ok (some c)
    → ProductCase a b name c
left_case a b name c true f h = ProductCase.left_negated f (found-eq-some (negate b) c h)
left_case a b name c false f h = cc

right_case :
    (a b : Expr) (name : String) (c : Expr) (flag : Bool)
    → is_negated_variable b name ≡ ok flag
    → (if flag
        then found (negate a)
        else (is_negated_variable a name >>= λ first_negated.
            if first_negated then found (negate b) else ok none))
      ≡ ok (some c)
    → ProductCase a b name c
right_case a b name c true f h = ProductCase.right_negated f (found-eq-some (negate a) c h)
right_case a b name c false f h =
    let (flag, g, rest) = >>=-eq-ok (is_negated_variable a name) _ h in
    left_case a b name c flag g rest

product_cases :
    (a b : Expr) (name : String) (c : Expr)
    → product_coefficient a b name ≡ ok (some c)
    → ProductCase a b name c
unfolding product_coefficient
product_cases a b name c h = elim (Bool-cases (is_variable b name)) [
  | inl here ↦ ProductCase.right_variable here (ok_some-injective a c (rw here at h))
  | inr not_right ↦ elim (Bool-cases (is_variable a name)) [
    | inl here ↦ ProductCase.left_variable here (ok_some-injective b c (rw (not_right, here) at h))
    | inr not_left ↦
        let (flag, f, rest) =
          >>=-eq-ok (is_negated_variable b name) _ (rw (not_right, not_left) at h) in
        right_case a b name c flag f rest
  ]
]

-- Where a product is negated, its factor can be; where a negated number is multiplied, the number can
-- be: a sign never makes NumPy raise on numbers.
pub record IsSigned (np : NumPy) : Type 0 where
  pub factor_negated :
      (a b p v : np.Value)
      → np.binary Binary.mul a b ≡ ok p
      → np.unary Unary.neg p ≡ ok v
      → (n : np.Value) × (np.unary Unary.neg a ≡ ok n)
  pub product_of_negated :
      (a b n v : np.Value)
      → np.unary Unary.neg a ≡ ok n
      → np.binary Binary.mul n b ≡ ok v
      → (p : np.Value) × (np.binary Binary.mul a b ≡ ok p)

module _ (np : NumPy) (signs : IsSigned np) (laws : MulLaws np) (env : Eval.Env np) (name : String)
    (x : np.Value) (bound : get name env ≡ some x) where
  evaluate-variable :
      (e : Expr) (v : np.Value) → is_variable e name ≡ true → evaluate np e env ≡ ok v → v ≡ x
  unfolding is_variable evaluate
  evaluate-variable (node Kind.var t a k (some s)) v h p =
      ground (arith, (eq_iff s name).0 h, bound)
  evaluate-variable (node Kind.var t a k none) v h p = cc
  evaluate-variable (node Kind.const t a k n) v h p = cc
  evaluate-variable (node Kind.select t a k n) v h p = cc
  evaluate-variable (node (Kind.unary op) t a k n) v h p = cc
  evaluate-variable (node (Kind.binary op) t a k n) v h p = cc
  evaluate-variable (node (Kind.other s) t a k n) v h p = cc

  -- The expression is the product of a value of the coefficient and the variable.
  abbrev pub IsProduct : Expr → np.Value → Type 0
  IsProduct c v = (cv : np.Value) × (evaluate np c env ≡ ok cv) × (np.binary Binary.mul cv x ≡ ok v)

  IsProduct-negate :
      (c d : Expr) (p v : np.Value)
      → negate c ≡ ok d
      → IsProduct c p
      → np.unary Unary.neg p ≡ ok v
      → IsProduct d v
  unfolding evaluate apply_kind apply_unary
  IsProduct-negate c d p v h (cv, e, m) n =
      let (nv, q) = signs.factor_negated cv x p v m n in
      rw (negate-eq-ok c d h) (nv, rw (e, q), laws.neg_mul cv x nv p q m ∙ n)

  IsProduct-one :
      (v : np.Value) → v ≡ x → IsProduct (leaf_const ValueType.float (Const.number one)) v
  unfolding evaluate
  IsProduct-one v e = (np.literal (some (Const.number one)), refl, laws.one_mul x ∙ ap ok (sym e))

  variable-IsProduct :
      (e c : Expr) (v : np.Value)
      → ok (
          if is_variable e name then some (leaf_const ValueType.float (Const.number one)) else none)
        ≡ ok (some c)
      → evaluate np e env ≡ ok v
      → IsProduct c v
  variable-IsProduct e c v h p = elim (Bool-cases (is_variable e name)) [
    | inl here ↦
        let q : ok (some (leaf_const ValueType.float (Const.number one))) ≡ ok (some c) =
          rw here at h in
        let r : leaf_const ValueType.float (Const.number one) ≡ c = cc q in
        rw (← r) (IsProduct-one v (evaluate-variable e v here p))
    | inr other ↦
        let q : ◌≡◌ {A = Result (Option Expr)} (ok none) (ok (some c)) = rw other at h in cc q
  ]

  pub unary_inversion :
      (op : Unary) (t : ValueType) (a : Expr) (more : Exprs) (w : Option Const) (n : Option String)
      (v : np.Value)
      → evaluate np (node (Kind.unary op) t (Exprs.cons a more) w n) env ≡ ok v
      → (u : np.Value) × (evaluate np a env ≡ ok u) × (apply_unary np op u ≡ ok v)
  unfolding evaluate apply_kind
  unary_inversion op t a more w n v p =
      let (vs, q, r) =
        >>=-eq-ok (evaluate_all np (Exprs.cons a more) env) (apply_kind np (Kind.unary op)) p in
      let (u, q1, q2) = >>=-eq-ok (evaluate np a env) _ q in
      let (rest, q3, q4) = >>=-eq-ok (evaluate_all np more env) _ q2 in
      (u, q1, rw (← ok-injective (u ∷ rest) vs q4) at r)

  pub binary_inversion :
      (op : Binary) (t : ValueType) (a b : Expr) (w : Option Const) (n : Option String)
      (v : np.Value)
      → evaluate np (node (Kind.binary op) t (Exprs.cons a (Exprs.cons b Exprs.nil)) w n) env ≡ ok v
      → (u y : np.Value) × (evaluate np a env ≡ ok u)
        × (evaluate np b env ≡ ok y)
        × (np.binary op u y ≡ ok v)
  unfolding evaluate apply_kind
  binary_inversion op t a b w n v p =
      let (vs, q, r) =
        >>=-eq-ok (evaluate_all np (Exprs.cons a (Exprs.cons b Exprs.nil)) env)
          (apply_kind np (Kind.binary op)) p in
      let (u, q1, q2) = >>=-eq-ok (evaluate np a env) _ q in
      let (rest, q3, q4) = >>=-eq-ok (evaluate_all np (Exprs.cons b Exprs.nil) env) _ q2 in
      let (y, q5, q6) = >>=-eq-ok (evaluate np b env) _ q3 in
      let r' : apply_kind np (Kind.binary op) (u ∷ rest) ≡ ok v =
        rw (← ok-injective (u ∷ rest) vs q4) at r in
      (u, y, q1, q5, rw (← ok-injective (y ∷ []) rest q6) at r')

  -- A factor that is the negated variable.
  negated_variable :
      (e : Expr) (v : np.Value)
      → is_negated_variable e name ≡ ok true
      → evaluate np e env ≡ ok v
      → np.unary Unary.neg x ≡ ok v
  unfolding is_negated_variable apply_unary
  negated_variable (node (Kind.unary Unary.neg) t (Exprs.cons a more) w n) v h p =
      let (u, q, r) = unary_inversion Unary.neg t a more w n v p in
      rw (evaluate-variable a u (ok-injective _ _ h) q) at r
  negated_variable (node (Kind.unary Unary.neg) t Exprs.nil w n) v h p = cc
  negated_variable _ v h p = cc

  IsProduct-inner :
      (a b c : Expr) (u y v : np.Value)
      → product_coefficient a b name ≡ ok (some c)
      → evaluate np a env ≡ ok u
      → evaluate np b env ≡ ok y
      → np.binary Binary.mul u y ≡ ok v
      → IsProduct c v
  IsProduct-inner a b c u y v h p q m = by_case (product_cases a b name c h)
    where
      -- The negated variable times another factor.
      moved :
          (other y' u' : np.Value) (o : Expr)
          → np.unary Unary.neg x ≡ ok y'
          → np.binary Binary.mul y' u' ≡ ok v
          → evaluate np o env ≡ ok u'
          → negate o ≡ ok c
          → IsProduct c v
      moved other y' u' o n m' e h' =
          let (w, r) = signs.product_of_negated x u' y' v n m' in
          IsProduct-negate o c w v h' (u', e, laws.mul_comm u' x ∙ r)
            (sym (laws.neg_mul x u' y' w n r) ∙ m')

      by_case : ProductCase a b name c → IsProduct c v
      by_case (ProductCase.right_variable here same) =
          rw (← same) (u, p, rw (← evaluate-variable b y here q) m)
      by_case (ProductCase.left_variable here same) =
          rw (← same) (y, q, rw (← evaluate-variable a u here p) (laws.mul_comm y u ∙ m))
      by_case (ProductCase.right_negated here h') =
          moved y y u a (negated_variable b y here q) (laws.mul_comm y u ∙ m) p h'
      by_case (ProductCase.left_negated here h') =
          moved u u y b (negated_variable a u here p) m q h'

  -- With a NumPy that negates and multiplies like IEEE 754, and a variable that is bound:
  -- where the coefficient of the variable is found and the expression has a value, the coefficient
  -- has one too, and the expression's is its product with the variable's.
  pub coefficient-IsProduct :
      (e c : Expr) (v : np.Value)
      → coefficient_of e name ≡ ok (some c)
      → evaluate np e env ≡ ok v
      → IsProduct c v
  unfolding coefficient_of apply_unary
  coefficient-IsProduct (node (Kind.unary Unary.neg) t (Exprs.cons a Exprs.nil) k n) c v h p =
      let (inner, q, r) = >>=-eq-ok (coefficient_of a name) negated h in
      let (d, same, made) = negated-eq-some inner c r in
      let (u, s, z) = unary_inversion Unary.neg t a Exprs.nil k n v p in
      IsProduct-negate d c u v made (coefficient-IsProduct a d u (q ∙ ap ok same) s) z
  coefficient-IsProduct
        (node (Kind.binary Binary.mul) t (Exprs.cons a (Exprs.cons b Exprs.nil)) k n) c v h p =
      let (u, y, q, r, m) = binary_inversion Binary.mul t a b k n v p in
      IsProduct-inner a b c u y v h q r m
  coefficient-IsProduct e c v h p = variable-IsProduct e c v h p
