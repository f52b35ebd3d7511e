-- ===== src/Core/RowNorm/Interpreter.antt =====
-- src/cpuattn/core/rownorm.py: a row norm that its constructor accepts is interpreted without an
-- exception, for every list of scores and every pair of states.
use cpuattn.Prelude.{
  suc, ◌+◌, String, ◌≡◌, refl, ◌∙◌, Option, none, some, List, [], ◌∷◌, ◌++◌, string_eq, list_eq,
  contains, Covers, contains-append, ok, arith, All, All-append, length, length-append, ap,
}
use mathlib.Core.Path.{subst}
use cpuattn.Prelude.Dict.{keys}
use cpuattn.Core.Expr.{Const}
use cpuattn.Core.Expr.Eval.{NumPy}
use cpuattn.Core.Expr.{ValueType}
use cpuattn.Core.Expr.Returns.{IsDocumented, IsSafe, IsFloats, Binds}
use cpuattn.Core.RowNorm.{
  State, RowNorm, Merge, prefixed, state_names, with_prefix, check_merge, post_init,
}
use cpuattn.Core.RowNorm.Online
use cpuattn.Core.RowNorm.Online.{
  update, relabel, run_updates, online_step, online_loop, initial_states, online_weights, relabel32,
  merge_with, merge_states, evaluate32,
}
use cpuattn.Core.RowNorm.Returns.{
  online_names, check_updates_final, keys-update, keys-relabel, evaluate32-returns,
  run_updates-returns, collect-returns, scale_all-returns, validate-checked, update-Binds,
  relabel-Binds, post_init-checked, side_names, check_merge-checked,
}

abbrev pub MergeTyped : Option Merge → Type 0
MergeTyped none = Unit
MergeTyped (some m) =
    All (λ u. IsSafe u.value) m.updates × IsSafe m.left_scale × IsSafe m.right_scale

-- The expressions come from the builders, and divide no number of Python by another.
pub record Typed (r : RowNorm) : Type 0 where
  pub updates : All (λ u. IsSafe u.value) r.updates
  pub rescale : IsSafe r.rescale
  pub weight : IsSafe r.weight
  pub final_scale : IsSafe r.final_scale
  pub merge : MergeTyped r.merge

module _ (np : NumPy) (doc : IsDocumented np) (r : RowNorm) (accepted : post_init r ≡ ok tt)
    (typed : Typed r) where
  abbrev names : List String
  names = state_names r.states

  -- What the two expressions of a step may use is there after the updates.
  online_covered :
      (env new : Online.Env np) (produced : List String)
      → Covers ("score" ∷ with_prefix "old." names) (keys env)
      → Covers (with_prefix "new." names) (keys new)
      → Covers (online_names r) (keys (update np env new))
  online_covered env new produced he hn s p = ground (
    arith,
    he s,
    hn s,
    contains-append ("score" ∷ with_prefix "old." names) (with_prefix "new." names) s,
    keys-update np doc env new s,
  )

  online_step-returns :
      (states : Online.Env np) (ws : List np.Value) (score : np.Value)
      → keys states ≡ names
      → Binds np doc states
      → All (IsFloats np doc) ws
      → IsFloats np doc score
      → (next : Online.Env np × List np.Value) × (online_step np r states ws score ≡ ok next)
        × (keys next.0 ≡ names)
        × (length next.1 ≡ suc (length ws))
        × Binds np doc next.0
        × All (IsFloats np doc) next.1
  unfolding online_step
  online_step-returns states ws score hs bs bw fs =
      let (same, valid) = post_init-checked r accepted in
      let (produced, pu, pr, pw, pf, pm) = validate-checked r valid in
      let env = update np (("score", score) ∷ []) (relabel np "old." states) in
      let old_keys : keys (relabel np "old." states) ≡ with_prefix "old." names =
        keys-relabel np doc "old." states ∙ ap (with_prefix "old.") hs in
      let he : Covers ("score" ∷ with_prefix "old." names) (keys env) = λ s p. ground (
        arith,
        keys-update np doc (("score", score) ∷ []) (relabel np "old." states) s,
        ap (λ (l : List String). contains l s) old_keys,
      ) in
      let be : Binds np doc env =
        update-Binds np doc (("score", score) ∷ []) (relabel np "old." states) (fs, tt)
          (relabel-Binds np doc "old." states bs) in
      let (new, qn, cn, bn) =
        run_updates-returns np doc env [] _ [] produced r.updates pu typed.updates he (λ s p. p) be
          tt in
      let hn : Covers (with_prefix "new." names) (keys new) = λ s p. cn s (
        check_updates_final _ [] produced r.updates pu s
          (rw same (ground (arith, contains-append (with_prefix "new." names) [] s)))) in
      let bound = update-Binds np doc env new be bn in
      let (rescale, qr, fr) =
        evaluate32-returns np doc r.rescale (update np env new) (online_names r) typed.rescale pr
          (online_covered env new produced he hn) bound in
      let (scaled, qs, ls, all) = scale_all-returns np doc rescale ws fr bw in
      let (weight, qw, fw) =
        evaluate32-returns np doc r.weight (update np env new) (online_names r) typed.weight pw
          (online_covered env new produced he hn) bound in
      let (states', qc, kc, bc) = collect-returns np doc new r.states hn bn in
      (
        (states', scaled ++ weight ∷ []),
        rw (qn, qr, qs, qw, qc),
        kc,
        omega (arith, length-append scaled (weight ∷ []), ls),
        bc,
        All-append (IsFloats np doc) scaled (weight ∷ []) all (fw, tt),
      )

  online_loop-returns :
      (states : Online.Env np) (ws scores : List np.Value)
      → keys states ≡ names
      → Binds np doc states
      → All (IsFloats np doc) ws
      → All (IsFloats np doc) scores
      → (last : Online.Env np × List np.Value) × (online_loop np r states ws scores ≡ ok last)
        × (keys last.0 ≡ names)
        × (length last.1 ≡ length ws + length scores)
        × Binds np doc last.0
        × All (IsFloats np doc) last.1
  unfolding online_loop
  online_loop-returns states ws [] hs bs bw fs = ((states, ws), refl, hs, omega arith, bs, bw)
  online_loop-returns states ws (score ∷ scores) hs bs bw fs =
      let (next, p, k, l, bn, wn) = online_step-returns states ws score hs bs bw fs.0 in
      let (last, q, k', l', bl, wl) = online_loop-returns next.0 next.1 scores k bn wn fs.1 in
      (last, rw p q, k', omega (arith, l, l'), bl, wl)

  initial_states-returns :
      (ss : List State)
      → (env : Online.Env np) × (initial_states np ss ≡ ok env)
        × (keys env ≡ state_names ss)
        × Binds np doc env
  unfolding initial_states
  initial_states-returns [] = ([], refl, refl, tt)
  initial_states-returns (s ∷ ss) =
      let initial = np.literal (some (Const.number s.initial)) in
      let (v, p, float, array) =
        doc.float32_returns ValueType.float initial (doc.number s.initial) in
      let (env, q, k, bound) = initial_states-returns ss in
      ((s.name, v) ∷ env, rw (p, q), ap (λ t. s.name ∷ t) k, ((float, array), bound))

  -- A row norm that the constructor accepts, with expressions of the builders that divide no number
  -- of Python by another, and with the documented behaviour of numbers and of NumPy, has online
  -- weights for every list of scores that are floats of NumPy: no variable is unbound, no state is
  -- missing and nothing else raises, and there is one weight for each score.
  pub online_weights-returns :
      (scores : List np.Value)
      → All (IsFloats np doc) scores
      → (ws : List np.Value) × (online_weights np r scores ≡ ok ws) × (length ws ≡ length scores)
  unfolding online_weights
  online_weights-returns scores fs =
      let (same, valid) = post_init-checked r accepted in
      let (produced, pu, pr, pw, pf, pm) = validate-checked r valid in
      let (env, p, k, be) = initial_states-returns r.states in
      let (last, q, k', l, bl, wl) = online_loop-returns env [] scores k be tt fs in
      let last_keys : keys (relabel np "state." last.0) ≡ with_prefix "state." names =
        keys-relabel np doc "state." last.0 ∙ ap (with_prefix "state.") k' in
      let (scale, s, fc) =
        evaluate32-returns np doc r.final_scale (relabel np "state." last.0)
          (with_prefix "state." names) typed.final_scale pf (λ t c. rw last_keys c)
          (relabel-Binds np doc "state." last.0 bl) in
      let (ws, w, lw, _) = scale_all-returns np doc scale last.1 fc wl in
      (ws, rw (p, q, s, w), omega (arith, l, lw))

  relabel32-returns :
      (prefix : String) (items : Online.Env np)
      → All (λ b. doc.Is ValueType.float b.1) items
      → (env : Online.Env np) × (relabel32 np prefix items ≡ ok env)
        × (keys env ≡ with_prefix prefix (keys items))
        × Binds np doc env
  unfolding relabel32
  relabel32-returns prefix [] h = ([], refl, refl, tt)
  relabel32-returns prefix ((k, v) ∷ items) h =
      let (w, p, float, array) = doc.float32_returns ValueType.float v h.0 in
      let (env, q, e, bound) = relabel32-returns prefix items h.1 in
      (
        (prefixed prefix k, w) ∷ env,
        rw (p, q),
        ap (λ t. prefixed prefix k ∷ t) e,
        ((float, array), bound),
      )

  -- The scales may use both sides, and what the updates merged.
  sides_covered :
      (l rr : Online.Env np)
      → keys l ≡ with_prefix "left." names
      → keys rr ≡ with_prefix "right." names
      → Covers (side_names names) (keys (update np l rr))
  sides_covered l rr hl hr s p = ground (
    arith,
    contains-append (with_prefix "left." names) (with_prefix "right." names) s,
    keys-update np doc l rr s,
    ap (λ (t : List String). contains t s) hl,
    ap (λ (t : List String). contains t s) hr,
  )

  merge_with-returns :
      (m : Merge) (left right : Online.Env np)
      → check_merge names (some m) ≡ ok tt
      → MergeTyped (some m)
      → keys left ≡ names
      → keys right ≡ names
      → All (λ b. doc.Is ValueType.float b.1) left
      → All (λ b. doc.Is ValueType.float b.1) right
      → (out : Online.Env np × np.Value × np.Value) × (merge_with np r m left right ≡ ok out)
        × (keys out.0 ≡ names)
  unfolding merge_with
  merge_with-returns m left right checked mt hl hr fl fr =
      let (merged, pu, same, pl, pr) = check_merge-checked names m checked in
      let (l, ql, kl, bl) = relabel32-returns "left." left fl in
      let (rr, qr, kr, br) = relabel32-returns "right." right fr in
      let env = update np l rr in
      let he : Covers (side_names names) (keys env) =
        sides_covered l rr (kl ∙ ap (with_prefix "left.") hl) (kr ∙ ap (with_prefix "right.") hr) in
      let be = update-Binds np doc l rr bl br in
      let (new, qn, cn, bn) =
        run_updates-returns np doc env [] (side_names names) [] merged m.updates pu mt.0 he
          (λ s p. p) be tt in
      let hn : Covers (with_prefix "new." names) (keys new) = λ s p. cn s (
        check_updates_final (side_names names) [] merged m.updates pu s
          (rw same (ground (arith, contains-append (with_prefix "new." names) [] s)))) in
      let all_covered : Covers (side_names names ++ merged) (keys (update np env new)) = λ s p.
        ground (
          arith,
          he s,
          cn s,
          contains-append (side_names names) merged s,
          keys-update np doc env new s,
        ) in
      let (out, qc, kc, _) = collect-returns np doc new r.states hn bn in
      let bound = update-Binds np doc env new be bn in
      let (ls, q1, _) =
        evaluate32-returns np doc m.left_scale (update np env new) (side_names names ++ merged) mt.1
          pl all_covered bound in
      let (rs, q2, _) =
        evaluate32-returns np doc m.right_scale (update np env new) (side_names names ++ merged)
          mt.2 pr all_covered bound in
      ((out, ls, rs), rw (ql, qr, qn, qc, q1, q2), kc)

  -- For a row norm that the constructor accepts, with a merge, with expressions of the builders that
  -- divide no number of Python by another, and with the documented behaviour of numbers and of NumPy:
  -- two halves of a row, each with a float for every state in order, are merged without an exception,
  -- and the merged half has a value for every state again.
  pub merge_states-returns :
      (m : Merge) (left right : Online.Env np)
      → r.merge ≡ some m
      → keys left ≡ names
      → keys right ≡ names
      → All (λ b. doc.Is ValueType.float b.1) left
      → All (λ b. doc.Is ValueType.float b.1) right
      → (out : Online.Env np × np.Value × np.Value) × (merge_states np r left right ≡ ok out)
        × (keys out.0 ≡ names)
  unfolding merge_states
  merge_states-returns m left right em hl hr fl fr =
      let (same, valid) = post_init-checked r accepted in
      let (produced, pu, pr, pw, pf, pm) = validate-checked r valid in
      let checked : check_merge names (some m) ≡ ok tt =
        subst (λ o. check_merge names o ≡ ok tt) em pm in
      let (out, q, k) =
        merge_with-returns m left right checked (subst MergeTyped em typed.merge) hl hr fl fr in
      (out, rw (em, merge_states) q, k)
