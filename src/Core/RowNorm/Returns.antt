-- ===== src/Core/RowNorm/Returns.antt =====
-- src/cpuattn/core/rownorm.py: what the constructor checks is what the interpreter needs.
use cpuattn.Prelude.{
  suc, String, ◌≡◌, refl, true, not, ◌||◌, some, List, [], ◌∷◌, ◌++◌, ◌==◌, string_eq, list_eq,
  list_beq_iff, contains, subset, Covers, subset_trans, contains-append, ok, value_error, >>=-eq-ok,
  raise_if, arith, All, length, ap, inr,
}
use cpuattn.Prelude.Dict.{put, keys, keys-put, get_of_key, All-put}
use cpuattn.Core.Expr.{Binary, Expr, variables, value_type}
use cpuattn.Core.Expr.Eval.{NumPy}
use cpuattn.Core.Expr.Returns.{
  IsDocumented, IsSafe, IsFloats, Binds, get-IsFloats, evaluate-returns,
}
use cpuattn.Core.RowNorm.{
  State, Update, RowNorm, Merge, prefixed, state_names, update_names, with_prefix, require_known,
  check_updates, check_merge, validate_variables, post_init,
}
use cpuattn.Core.RowNorm.Online
use cpuattn.Core.RowNorm.Online.{
  update, relabel, evaluate32, run_updates, collect, scale_all, online_step, online_loop,
  initial_states, online_weights, relabel32, merge_with, merge_states,
}

pub require_known-eq-ok :
    (e : Expr) (allowed : List String)
    → require_known e allowed ≡ ok tt
    → subset (variables e) allowed ≡ true
unfolding require_known
require_known-eq-ok e allowed h = ground arith

-- The names that a loop over updates gives hold those it began with and each that it produced.
pub check_updates_final :
    (base produced final : List String) (us : List Update)
    → check_updates base produced us ≡ ok final
    → Covers (with_prefix "new." (update_names us) ++ produced) final
unfolding check_updates
check_updates_final base produced final [] h s p = ground arith
check_updates_final base produced final (u ∷ us) h s p =
    let (x, known, rest) = >>=-eq-ok (require_known u.value (base ++ produced)) _ h in
    check_updates_final base (prefixed "new." u.state ∷ produced) final us rest s (
      ground (
        arith,
        contains-append (with_prefix "new." (update_names us)) produced s,
        contains-append (with_prefix "new." (update_names us)) (prefixed "new." u.state ∷ produced)
            s,
      ))

module _ (np : NumPy) (doc : IsDocumented np) where
  pub keys-update :
      (env more : Online.Env np) (s : String)
      → contains (keys (update np env more)) s ≡ (contains (keys more) s || contains (keys env) s)
  unfolding update
  keys-update env [] s = refl
  keys-update env ((k, v) ∷ more) s =
      ground (arith, keys-update (put k v env) more s, keys-put k v env s)

  pub keys-relabel :
      (prefix : String) (items : Online.Env np)
      → keys (relabel np prefix items) ≡ with_prefix prefix (keys items)
  unfolding relabel
  keys-relabel prefix [] = refl
  keys-relabel prefix ((k, v) ∷ items) = ap (λ t. prefixed prefix k ∷ t) (keys-relabel prefix items)

  pub update-Binds :
      (env more : Online.Env np)
      → Binds np doc env
      → Binds np doc more
      → Binds np doc (update np env more)
  unfolding update
  update-Binds env [] h k = h
  update-Binds env ((s, v) ∷ more) h k =
      update-Binds (put s v env) more (All-put (IsFloats np doc) s v env k.0 h) k.1

  pub relabel-Binds :
      (prefix : String) (items : Online.Env np)
      → Binds np doc items
      → Binds np doc (relabel np prefix items)
  unfolding relabel
  relabel-Binds prefix [] h = tt
  relabel-Binds prefix ((k, v) ∷ items) h = (h.0, relabel-Binds prefix items h.1)

  pub evaluate32-returns :
      (e : Expr) (env : Online.Env np) (allowed : List String)
      → IsSafe e
      → subset (variables e) allowed ≡ true
      → Covers allowed (keys env)
      → Binds np doc env
      → (v : np.Value) × (evaluate32 np e env ≡ ok v) × IsFloats np doc v
  unfolding evaluate32
  evaluate32-returns e env allowed safe known covered bound =
      let (v, p, is, _) =
        evaluate-returns np doc e env safe.0 safe.1 (subset_trans _ allowed _ known covered)
          bound in
      let (w, q, float, array) = doc.float32_returns (value_type e) v is in
      (w, rw p q, (float, array))

  pub run_updates-returns :
      (env new : Online.Env np) (base produced final : List String) (us : List Update)
      → check_updates base produced us ≡ ok final
      → All (λ u. IsSafe u.value) us
      → Covers base (keys env)
      → Covers produced (keys new)
      → Binds np doc env
      → Binds np doc new
      → (new' : Online.Env np) × (run_updates np env new us ≡ ok new')
        × Covers final (keys new')
        × Binds np doc new'
  unfolding run_updates check_updates
  run_updates-returns env new base produced final [] h safe hb hp be bn =
      (new, refl, λ s p. hp s (ground arith), bn)
  run_updates-returns env new base produced final (u ∷ us) h safe hb hp be bn =
      let (x, known, rest) = >>=-eq-ok (require_known u.value (base ++ produced)) _ h in
      let (v, q, floats) =
        evaluate32-returns u.value (update np env new) (base ++ produced) safe.0
          (require_known-eq-ok u.value (base ++ produced) known)
          (λ s p.
            ground (arith, contains-append base produced s, hb s, hp s, keys-update env new s))
          (update-Binds env new be bn) in
      let name = prefixed "new." u.state in
      let (new', r, c, bound) =
        run_updates-returns env (put name v new) base (name ∷ produced) final us rest safe.1 hb
          (λ s p. ground (arith, keys-put name v new s, hp s)) be
          (All-put (IsFloats np doc) name v new floats bn) in
      (new', rw q r, c, bound)

  pub collect-returns :
      (new : Online.Env np) (ss : List State)
      → Covers (with_prefix "new." (state_names ss)) (keys new)
      → Binds np doc new
      → (out : Online.Env np) × (collect np new ss ≡ ok out)
        × (keys out ≡ state_names ss)
        × Binds np doc out
  unfolding collect
  collect-returns new [] h bn = ([], refl, refl, tt)
  collect-returns new (s ∷ ss) h bn =
      let here : contains (keys new) (prefixed "new." s.name) ≡ true =
        h (prefixed "new." s.name)
          (ground (arith, string_eq.beq_iff (prefixed "new." s.name) (prefixed "new." s.name))) in
      let (v, p) = get_of_key (prefixed "new." s.name) new here in
      let (rest, q, r, bound) = collect-returns new ss (λ t c. h t (ground arith)) bn in
      (
        (s.name, v) ∷ rest,
        rw (p, q),
        ap (λ t. s.name ∷ t) r,
        (get-IsFloats np doc (prefixed "new." s.name) new v p bn, bound),
      )

  pub scale_all-returns :
      (factor : np.Value) (ws : List np.Value)
      → IsFloats np doc factor
      → All (IsFloats np doc) ws
      → (out : List np.Value) × (scale_all np factor ws ≡ ok out)
        × (length out ≡ length ws)
        × All (IsFloats np doc) out
  unfolding scale_all
  scale_all-returns factor [] hf hw = ([], refl, refl, tt)
  scale_all-returns factor (w ∷ ws) hf hw =
      let (v, p, is, array) = doc.binary_returns Binary.mul w factor (λ d. cc) hw.0.0 hf.0 in
      let (out, q, r, all) = scale_all-returns factor ws hf hw.1 in
      (v ∷ out, rw (p, q), ap suc r, ((is, array (inr hf.1)), all))

abbrev pub online_names : RowNorm → List String
online_names r =
    ("score" ∷ with_prefix "old." (state_names r.states))
    ++ with_prefix "new." (state_names r.states)

pub validate-checked :
    (r : RowNorm)
    → validate_variables r ≡ ok tt
    → (produced : List String) × (check_updates
          ("score" ∷ with_prefix "old." (state_names r.states))
          []
          r.updates
        ≡ ok produced)
      × (subset (variables r.rescale) (online_names r) ≡ true)
      × (subset (variables r.weight) (online_names r) ≡ true)
      × (subset (variables r.final_scale) (with_prefix "state." (state_names r.states)) ≡ true)
      × (check_merge (state_names r.states) r.merge ≡ ok tt)
unfolding validate_variables
validate-checked r h =
    let (produced, p, q) =
      >>=-eq-ok (check_updates ("score" ∷ with_prefix "old." (state_names r.states)) [] r.updates) _
        h in
    (produced, p, ground arith, ground arith, ground arith, ground arith)

pub post_init-checked :
    (r : RowNorm)
    → post_init r ≡ ok tt
    → (update_names r.updates ≡ state_names r.states) × (validate_variables r ≡ ok tt)
unfolding post_init
post_init-checked r h =
    ((list_beq_iff (update_names r.updates) (state_names r.states)).0 (ground arith), ground arith)

abbrev pub side_names : List String → List String
side_names names = with_prefix "left." names ++ with_prefix "right." names

pub check_merge-checked :
    (names : List String) (m : Merge)
    → check_merge names (some m) ≡ ok tt
    → (merged : List String) × (check_updates (side_names names) [] m.updates ≡ ok merged)
      × (update_names m.updates ≡ names)
      × (subset (variables m.left_scale) (side_names names ++ merged) ≡ true)
      × (subset (variables m.right_scale) (side_names names ++ merged) ≡ true)
unfolding check_merge
check_merge-checked names m h =
    let (x, same, rest) =
      >>=-eq-ok (raise_if (not (update_names m.updates == names)) (value_error _)) _ h in
    let (merged, p, scales) = >>=-eq-ok (check_updates (side_names names) [] m.updates) _ rest in
    (
      merged,
      p,
      (list_beq_iff (update_names m.updates) names).0 (ground arith),
      ground arith,
      ground arith,
    )
