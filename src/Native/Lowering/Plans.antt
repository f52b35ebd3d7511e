-- ===== src/Native/Lowering/Plans.antt =====
-- src/cpuattn/native/lowering.py: what a recognised definition computes.
use cpuattn.Prelude.{
  String, ◌≡◌, refl, sym, ap, ◌∙◌, true, false, ◌&&◌, Option, none, some, List, [], ◌∷◌, ◌++◌,
  string_eq, any, Result, ok, >>=-eq-ok, ok-injective, arith, Bool-cases, Option-cases, inl, inr,
}
use cpuattn.Prelude.Dict.{get}
use cpuattn.Core.Expr.{ValueType, Unary, Binary, Kind, Const, Expr, Exprs, node, variables}
use cpuattn.Core.Expr.Canonical.{same_canonical}
use cpuattn.Core.Expr.Eval
use cpuattn.Core.Expr.Eval.{NumPy, evaluate, apply_unary}
use cpuattn.Core.Transition.{Step}
use cpuattn.Core.Operator.{Linear}
use cpuattn.Native.Lowering.{
  DeltaBlockPlan, is_variable, coefficient_of, varies_along_vector, is_after, factor_is_uniform,
  delta_with, beta_of, delta_block, delta_block_plan, delta_of_beta, delta_of_steps,
}
use cpuattn.Native.Lowering.Coefficient.{IsSigned, MulLaws, coefficient-IsProduct, unary_inversion}

abbrev pub scale_steps : Option Expr → List Step
scale_steps none = []
scale_steps (some factor) = Step.scale factor ∷ []

-- The program and the readout of a recognised gated delta rule.
pub record DeltaShape (operator : Linear) (plan : DeltaBlockPlan) : Type 0 where
  pub rank1_left : Expr
  pub rank1_right : Expr
  pub outer_left : Expr
  pub outer_right : Expr
  pub steps :
      operator.transition.steps
      ≡ scale_steps plan.scale
        ++ Step.rank1 rank1_left rank1_right ∷ Step.outer outer_left outer_right ∷ []
  pub right_is_k : is_variable rank1_right "k" ≡ true
  pub left_is_k : is_variable outer_left "k" ≡ true
  pub negative : Expr
  pub negative_coefficient : coefficient_of rank1_left "k" ≡ ok (some negative)
  pub negative_beta : beta_of (some negative) ≡ some plan.beta
  pub value_coefficient : Expr
  pub coefficient_of_v : coefficient_of outer_right "v" ≡ ok (some value_coefficient)
  pub same_beta : same_canonical value_coefficient plan.beta ≡ true
  pub query_is_q : is_variable operator.readout.query "q" ≡ true
  pub reads_after : is_after operator.readout.timing ≡ true
  pub uniform_scale : factor_is_uniform operator.arguments plan.scale ≡ true
  pub uniform_beta : any (varies_along_vector operator.arguments) (variables plan.beta) ≡ false

delta_with-eq-some :
    (operator : Linear) (scale : Option Expr) (beta : Expr) (right : Option Expr)
    (plan : DeltaBlockPlan)
    → delta_with operator scale beta right ≡ some plan
    → (c : Expr) × (right ≡ some c)
      × (plan.scale ≡ scale)
      × (plan.beta ≡ beta)
      × (same_canonical c beta ≡ true)
      × (is_variable operator.readout.query "q" ≡ true)
      × (is_after operator.readout.timing ≡ true)
      × (factor_is_uniform operator.arguments scale ≡ true)
      × (any (varies_along_vector operator.arguments) (variables beta) ≡ false)
unfolding delta_with
delta_with-eq-some operator scale beta none plan h = cc
delta_with-eq-some operator scale beta (some c) plan h = (
  c,
  refl,
  ground arith,
  ground arith,
  ground arith,
  ground arith,
  ground arith,
  ground arith,
  ground arith,
)

delta_of_beta-shape :
    (operator : Linear) (scale : Option Expr) (a b c d : Expr) (left : Option Expr)
    (plan : DeltaBlockPlan)
    → operator.transition.steps ≡ scale_steps scale ++ Step.rank1 a b ∷ Step.outer c d ∷ []
    → is_variable b "k" ≡ true
    → is_variable c "k" ≡ true
    → coefficient_of a "k" ≡ ok left
    → delta_of_beta operator scale d (beta_of left) ≡ ok (some plan)
    → DeltaShape operator plan
delta_of_beta-shape operator scale a b c d none plan es hb hc hl h = cc
delta_of_beta-shape operator scale a b c d (some negative) plan es hb hc hl h =
    elim (Option-cases (beta_of (some negative))) [
      | inl missing ↦
          let q : ◌≡◌ {A = Result (Option DeltaBlockPlan)} (ok none) (ok (some plan)) =
            rw missing at h in
          cc q
      | inr (beta, found) ↦
          let h' : delta_of_beta operator scale d (some beta) ≡ ok (some plan) = rw found at h in
          let (right, pr, rest) = >>=-eq-ok (coefficient_of d "v") _ h' in
          let (v, is_v, same_scale, same_beta, canonical, query, timing, uniform, uniform') =
            delta_with-eq-some operator scale beta right plan
              (ok-injective (delta_with operator scale beta right) (some plan) rest) in
          record {
            rank1_left = a;
            rank1_right = b;
            outer_left = c;
            outer_right = d;
            steps = rw same_scale es;
            right_is_k = hb;
            left_is_k = hc;
            negative = negative;
            negative_coefficient = hl;
            negative_beta = found ∙ ap some (sym same_beta);
            value_coefficient = v;
            coefficient_of_v = pr ∙ ap ok is_v;
            same_beta = rw same_beta canonical;
            query_is_q = query;
            reads_after = timing;
            uniform_scale = rw same_scale uniform;
            uniform_beta = rw same_beta uniform';
          }
    ]

delta_block-shape :
    (operator : Linear) (scale : Option Expr) (a b c d : Expr) (plan : DeltaBlockPlan)
    → operator.transition.steps ≡ scale_steps scale ++ Step.rank1 a b ∷ Step.outer c d ∷ []
    → delta_block operator scale a b c d ≡ ok (some plan)
    → DeltaShape operator plan
unfolding delta_block
delta_block-shape operator scale a b c d plan es h =
    elim (Bool-cases (is_variable b "k" && is_variable c "k")) [
      | inl both ↦
          let (left, pl, rest) = >>=-eq-ok (coefficient_of a "k") _ (rw both at h) in
          delta_of_beta-shape operator scale a b c d left plan es (ground arith) (ground arith) pl
            rest
      | inr missing ↦
          let q : ◌≡◌ {A = Result (Option DeltaBlockPlan)} (ok none) (ok (some plan)) =
            rw missing at h in
          cc q
    ]

delta_of_steps-shape :
    (operator : Linear) (steps : List Step) (plan : DeltaBlockPlan)
    → operator.transition.steps ≡ steps
    → delta_of_steps operator steps ≡ ok (some plan)
    → DeltaShape operator plan
delta_of_steps-shape operator (Step.rank1 a b ∷ Step.outer c d ∷ []) plan es h =
    delta_block-shape operator none a b c d plan es h
delta_of_steps-shape operator (Step.scale f ∷ Step.rank1 a b ∷ Step.outer c d ∷ []) plan es h =
    delta_block-shape operator (some f) a b c d plan es h
delta_of_steps-shape operator _ plan es h = cc

-- A definition that is recognised as a gated delta rule has its shape: an optional scale, a rank-1
-- step with k on its right and a coefficient -beta of k on its left, an outer step of k with a
-- multiple of v whose coefficient is written like beta, a readout of q after the update, and a scale
-- and a beta that no argument along d or dv reaches.
pub delta_block_plan-shape :
    (operator : Linear) (plan : DeltaBlockPlan)
    → delta_block_plan operator ≡ ok (some plan)
    → DeltaShape operator plan
unfolding delta_block_plan
delta_block_plan-shape operator plan h =
    delta_of_steps-shape operator operator.transition.steps plan refl h

beta_of-eq-some :
    (e beta : Expr)
    → beta_of (some e) ≡ some beta
    → (t : ValueType) × (v : Option Const) × (n : Option String) × (e
        ≡ node (Kind.unary Unary.neg) t (Exprs.cons beta Exprs.nil) v n)
beta_of-eq-some (node (Kind.unary Unary.neg) t (Exprs.cons b Exprs.nil) v n) beta h = (t, v, n, cc)
beta_of-eq-some _ beta h = cc

same_factors :
    (scale : Option Expr) (a b c d a' b' c' d' : Expr)
    → scale_steps scale ++ Step.rank1 a b ∷ Step.outer c d ∷ []
      ≡ scale_steps scale ++ Step.rank1 a' b' ∷ Step.outer c' d' ∷ []
    → (a ≡ a') × (d ≡ d')
same_factors none a b c d a' b' c' d' h = (cc, cc)
same_factors (some f) a b c d a' b' c' d' h = (cc, cc)

module _ (np : NumPy) (signs : IsSigned np) (laws : MulLaws np) (env : Eval.Env np)
    (key value : np.Value) (key_bound : get "k" env ≡ some key)
    (value_bound : get "v" env ≡ some value) where
  negative_product :
      (negative beta a : Expr) (u : np.Value)
      → beta_of (some negative) ≡ some beta
      → coefficient_of a "k" ≡ ok (some negative)
      → evaluate np a env ≡ ok u
      → (b nb : np.Value) × (evaluate np beta env ≡ ok b)
        × (np.unary Unary.neg b ≡ ok nb)
        × (np.binary Binary.mul nb key ≡ ok u)
  unfolding apply_unary
  negative_product negative beta a u hb hc he =
      let (nb, p, m) =
        coefficient-IsProduct np signs laws env "k" key key_bound a negative u hc he in
      let (t, v, n, shape) = beta_of-eq-some negative beta hb in
      let (b, q, r) =
        unary_inversion np signs laws env "k" key key_bound Unary.neg t beta Exprs.nil v n nb
          (rw shape at p) in
      (b, nb, q, r, m)

  -- With a NumPy that negates and multiplies like IEEE 754, and k and v bound: where a
  -- recognised gated delta rule is evaluated, its rank-1 left factor has the value -beta * k and its
  -- outer right factor the value c * v, where beta is the coefficient of the plan and c is written
  -- like it.
  pub delta_block_plan_sound :
      (operator : Linear) (plan : DeltaBlockPlan) (a b c d : Expr) (u w : np.Value)
      → delta_block_plan operator ≡ ok (some plan)
      → operator.transition.steps ≡ scale_steps plan.scale ++ Step.rank1 a b ∷ Step.outer c d ∷ []
      → evaluate np a env ≡ ok u
      → evaluate np d env ≡ ok w
      → ((bv nb : np.Value) × (evaluate np plan.beta env ≡ ok bv)
          × (np.unary Unary.neg bv ≡ ok nb)
          × (np.binary Binary.mul nb key ≡ ok u))
        × ((e : Expr) × (ev : np.Value) × (same_canonical e plan.beta ≡ true)
            × (evaluate np e env ≡ ok ev)
            × (np.binary Binary.mul ev value ≡ ok w))
  delta_block_plan_sound operator plan a b c d u w h es left right =
      let s = delta_block_plan-shape operator plan h in
      let (same_left, same_right) =
        same_factors plan.scale a b c d s.rank1_left s.rank1_right s.outer_left s.outer_right
          (sym es ∙ s.steps) in
      (
        negative_product s.negative plan.beta s.rank1_left u s.negative_beta s.negative_coefficient
            (rw (← same_left) left),
        (let (ev, p, m) =
              coefficient-IsProduct np signs laws env "v" value value_bound s.outer_right
                s.value_coefficient w s.coefficient_of_v (rw (← same_right) right) in
            (s.value_coefficient, ev, s.same_beta, p, m)),
      )
