-- ===== src/Core/Expr/Returns.antt =====
-- src/cpuattn/core/expr.py: when evaluation returns. A literal is a number of Python, whose division by
-- zero raises; NumPy's operators under np.errstate(...="ignore") do not.
use cpuattn.Prelude.{
  String, ◌≡◌, refl, sym, Bool, true, false, not, ◌&&◌, ◌++◌, some, List, [], ◌∷◌, All, string_eq,
  subset, Result, ok, ◌⊎◌, inl, inr, arith, all_left, all_right, Bool-cases, ◌==◌, some-injective,
}
use mathlib.Core.Path.{subst}
use cpuattn.Prelude.Dict.{keys, get, get_of_key}
use cpuattn.Core.Float.{Float, zero_float, one}
use cpuattn.Core.Expr.{
  ValueType, Unary, Binary, Kind, Const, Expr, Exprs, node, value_type, variables, variables_of,
}
use cpuattn.Core.Expr.Eval
use cpuattn.Core.Expr.Eval.{NumPy, evaluate, apply_unary, apply_kind}
use cpuattn.Core.Expr.Typing.{IsTyped, takes_unary, takes, gives}

abbrev pub is_empty : List String → Bool
is_empty [] = true
is_empty (s ∷ ss) = false

abbrev pub is_division : Kind → Bool
is_division (Kind.binary Binary.div) = true
is_division _ = false

-- No division of the tree has two operands without a variable, which are numbers of Python.
unfoldable mutual
  pub divides_arrays : Expr → Bool
  divides_arrays (node k t a v n) =
      not (is_division k && is_empty (variables_of a)) && all_divide_arrays a

  pub all_divide_arrays : Exprs → Bool
  all_divide_arrays Exprs.nil = true
  all_divide_arrays (Exprs.cons e es) = divides_arrays e && all_divide_arrays es

-- What Python documents of its numbers, and NumPy of its operators under np.errstate, on numbers and
-- on arrays of one shape. A float stands where a Boolean is taken. A result is NumPy's where an
-- operand is, and from exp, where and float32 always. Of divisions, only those with an operand of
-- NumPy are known to return: 1.0 / 0.0 of Python's numbers raises.
pub record IsDocumented (np : NumPy) : Type 1 where
  pub Is : ValueType → np.Value → Type 0
  pub IsArray : np.Value → Type 0
  pub number : (x : Float) → Is ValueType.float (np.literal (some (Const.number x)))
  pub truth : (b : Bool) → Is ValueType.bool (np.literal (some (Const.truth b)))
  pub float_as_bool : (v : np.Value) → Is ValueType.float v → Is ValueType.bool v
  pub unary_returns :
      (op : Unary) (v : np.Value)
      → Is (takes_unary op) v
      → (w : np.Value) × (np.unary op v ≡ ok w) × Is (takes_unary op) w × (IsArray v → IsArray w)
  pub exp_array : (v w : np.Value) → np.unary Unary.exp v ≡ ok w → IsArray w
  pub binary_returns :
      (op : Binary) (v u : np.Value)
      → (is_division (Kind.binary op) ≡ true → IsArray v ⊎ IsArray u)
      → Is (takes op) v
      → Is (takes op) u
      → (w : np.Value) × (np.binary op v u ≡ ok w)
        × Is (gives op) w
        × (IsArray v ⊎ IsArray u → IsArray w)
  pub select_returns :
      (t : ValueType) (c v u : np.Value)
      → Is ValueType.bool c
      → Is t v
      → Is t u
      → (w : np.Value) × (np.select c v u ≡ ok w) × Is t w × IsArray w
  pub float32_returns :
      (t : ValueType) (v : np.Value)
      → Is t v
      → (w : np.Value) × (np.float32 v ≡ ok w) × Is ValueType.float w × IsArray w

not_empty :
    (xs ys : List String)
    → is_empty (xs ++ ys) ≡ false
    → (is_empty xs ≡ false) ⊎ (is_empty ys ≡ false)
not_empty [] ys h = inr h
not_empty (x ∷ xs) ys h = inl refl

-- An expression of the builders without a division of Python's numbers.
abbrev pub IsSafe : Expr → Type 0
IsSafe e = IsTyped e × (divides_arrays e ≡ true)

not_both : (p q : Bool) → not (p && q) ≡ true → p ≡ true → q ≡ false
not_both p q h k = ground arith

parts_of_three :
    (p x y : Bool) → (p && (x && (y && true))) ≡ true → (p ≡ true) × (x ≡ true) × (y ≡ true)
parts_of_three p x y h = (ground arith, ground arith, ground arith)

module _ (np : NumPy) (doc : IsDocumented np) where
  open doc use {Is, IsArray}

  -- A float of NumPy: what the source binds variables to.
  abbrev pub IsFloats : np.Value → Type 0
  IsFloats v = Is ValueType.float v × IsArray v

  abbrev pub Binds : Eval.Env np → Type 0
  Binds env = All (λ b. IsFloats b.1) env

  pub get-IsFloats :
      (s : String) (env : Eval.Env np) (v : np.Value) → get s env ≡ some v → Binds env → IsFloats v
  unfolding get
  get-IsFloats s [] v h k = cc
  get-IsFloats s ((j, w) ∷ env) v h k = elim (Bool-cases (s == j)) [
    | inl here ↦ subst IsFloats (some-injective (rw here at h)) k.0
    | inr there ↦ get-IsFloats s env v (rw there at h) k.1
  ]

  of_type : (t : ValueType) (v : np.Value) → Is ValueType.float v → Is t v
  of_type ValueType.float v h = h
  of_type ValueType.bool v h = doc.float_as_bool v h

  -- The result of an operation on values, some of which are NumPy's.
  abbrev Gives : ValueType → Type 0 → Result np.Value → Type 0
  Gives t array r = (v : np.Value) × (r ≡ ok v) × Is t v × (array → IsArray v)

  apply_unary-Gives :
      (op : Unary) (v : np.Value)
      → Is (takes_unary op) v
      → Gives (takes_unary op) (IsArray v) (apply_unary np op v)
  unfolding apply_unary
  apply_unary-Gives Unary.sigmoid v h =
      let one_value = np.literal (some (Const.number one)) in
      let (n, p, pn, _) = doc.unary_returns Unary.neg v h in
      let (e, q, pe, _) = doc.unary_returns Unary.exp n pn in
      let e_array = doc.exp_array n e q in
      let (s, r, ps, s_array) =
        doc.binary_returns Binary.add one_value e (λ d. inr e_array) (doc.number one) pe in
      let (d, t, pd, d_array) =
        doc.binary_returns Binary.div one_value s (λ d. inr (s_array (inr e_array)))
          (doc.number one) ps in
      (d, rw p (rw q (rw r t)), pd, λ a. d_array (inr (s_array (inr e_array))))
  apply_unary-Gives Unary.relu v h =
      let zero_value = np.literal (some (Const.number zero_float)) in
      let (w, p, pw, array) =
        doc.binary_returns Binary.max v zero_value (λ d. cc) h (doc.number zero_float) in
      (w, p, pw, λ a. array (inl a))
  apply_unary-Gives op v h = doc.unary_returns op v h

  -- With the documented behaviour of numbers and of NumPy: an expression that the builders can make,
  -- in which no division has two operands without a variable, evaluates to a value of its type
  -- wherever all its variables are bound to floats of NumPy; it does not raise. The value is NumPy's
  -- if the expression has a variable.
  pub evaluate-returns :
      (e : Expr) (env : Eval.Env np)
      → IsTyped e
      → divides_arrays e ≡ true
      → subset (variables e) (keys env) ≡ true
      → Binds env
      → (v : np.Value) × (evaluate np e env ≡ ok v)
        × Is (value_type e) v
        × (is_empty (variables e) ≡ false → IsArray v)
  unfolding evaluate variables apply_kind divides_arrays
  evaluate-returns e env (IsTyped.named t s) d h k =
      let (v, p) = get_of_key s env (ground arith) in
      let (f, array) = get-IsFloats s env v p k in (v, rw p refl, of_type t v f, λ _. array)
  evaluate-returns e env (IsTyped.number x) d h k =
      (np.literal (some (Const.number x)), refl, doc.number x, λ p. cc)
  evaluate-returns e env (IsTyped.truth x) d h k =
      (np.literal (some (Const.truth x)), refl, doc.truth x, λ p. cc)
  evaluate-returns e env (IsTyped.unary {a} op t ha p q) d h k =
      let (v, x, is, array) =
        evaluate-returns a env ha (ground arith) (all_left _ (variables a) [] h) k in
      let (w, y, gw, array_w) = apply_unary-Gives op v (subst (λ t. Is t v) p is) in
      let arrays : is_empty (variables a ++ []) ≡ false → IsArray w =
        λ some. elim (not_empty (variables a) [] some) [ inl l ↦ array_w (array l) | inr r ↦ cc ] in
      (w, rw x y, subst (λ t. Is t w) (sym q) gw, arrays)
  evaluate-returns e env (IsTyped.binary {a} {b} op t ha hb p q r) d h k =
      let names = variables a ++ (variables b ++ []) in
      let (safe, da, db) =
        parts_of_three (not (is_division (Kind.binary op) && is_empty names)) (divides_arrays a)
          (divides_arrays b) d in
      let h' = all_right _ (variables a) (variables b ++ []) h in
      let (v, x, tv, array) =
        evaluate-returns a env ha da (all_left _ (variables a) (variables b ++ []) h) k in
      let (u, y, tu, array_u) = evaluate-returns b env hb db (all_left _ (variables b) [] h') k in
      let arrays : is_empty names ≡ false → IsArray v ⊎ IsArray u = λ some.
        elim (not_empty (variables a) (variables b ++ []) some) [
          | inl l ↦ inl (array l)
          | inr l ↦ elim (not_empty (variables b) [] l) [ inl m ↦ inr (array_u m) | inr m ↦ cc ]
        ] in
      let (w, z, tw, array_w) =
        doc.binary_returns op v u
          (λ div. arrays (not_both (is_division (Kind.binary op)) (is_empty names) safe div))
          (subst (λ t. Is t v) p tv) (subst (λ t. Is t u) q tu) in
      (w, rw x (rw y z), subst (λ t. Is t w) (sym r) tw, λ some. array_w (arrays some))
  evaluate-returns e env (IsTyped.select {c} {a} {b} t hc hl hm p q r) d h k =
      let rest = variables a ++ (variables b ++ []) in
      let h' = all_right _ (variables c) rest h in
      let h'' = all_right _ (variables a) (variables b ++ []) h' in
      let (i, x, ti, _) =
        evaluate-returns c env hc (ground arith) (all_left _ (variables c) rest h) k in
      let (v, y, tv, _) =
        evaluate-returns a env hl (ground arith) (all_left _ (variables a) (variables b ++ []) h')
          k in
      let (u, z, tu, _) =
        evaluate-returns b env hm (ground arith) (all_left _ (variables b) [] h'') k in
      let (w, s, tw, array) =
        doc.select_returns t i v u (subst (λ t. Is t i) p ti) (subst (λ t. Is t v) q tv)
          (subst (λ t. Is t u) r tu) in
      (w, rw x (rw y (rw z s)), tw, λ _. array)
