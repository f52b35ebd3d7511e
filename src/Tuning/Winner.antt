-- ===== src/Tuning/Winner.antt =====
-- src/cpuattn/tuning/tuner.py: the winner of a tuning is a least measurement, and no more plans are
-- measured than allowed.
use mathlib.Core.Path.{subst}
use cpuattn.Prelude.{
  ℕ, zero, suc, ◌≤◌, ◌≡◌, refl, sym, ap, ◌∙◌, String, Bool, false, Option, none, some, List, [],
  ◌∷◌, ◌++◌, string_eq, ltb, leb, length, contains, Result, ok, err, ◌>>=◌, traverse, fold, arith,
  >>=-eq-ok, ok-injective, some-injective, Bool-cases, Option-cases, inl, inr, length-append,
  leb_false→lt, key_error,
}
use cpuattn.Prelude.Dict.{Dict, get, put, keys}
use cpuattn.Tuning.Tuner.{
  Measurement, Session, samples_of, legal_plan, history, sample, sample_times, admit, take_turn,
  turn, turns, confirm_finalists, check_legal, continue,
}

length-put_new :
    (k : String) (v : List ℕ) (d : Dict String (List ℕ))
    → contains (keys d) k ≡ false
    → length (put k v d) ≡ suc (length d)
unfolding put
length-put_new k v [] h = refl
length-put_new k v ((j, w) ∷ d) h = ground (arith, string_eq.beq_iff k j, length-put_new k v d)

length-put_old :
    (k : String) (v w : List ℕ) (d : Dict String (List ℕ))
    → get k d ≡ some w
    → length (put k v d) ≡ length d
unfolding put get
length-put_old k v w [] h = cc
length-put_old k v w ((j, u) ∷ d) h = ground (arith, length-put_old k v w d)

pub length-traverse :
    {A : Type 0} {B : Type 0} (f : A → Result B) (xs : List A) (ys : List B)
    → traverse f xs ≡ ok ys
    → length ys ≡ length xs
length-traverse f [] ys h = ap length (sym (ok-injective [] ys h))
length-traverse f (x ∷ xs) ys h =
    let (y, p, h1) = >>=-eq-ok (f x) _ h in
    let (zs, q, h2) = >>=-eq-ok (traverse f xs) _ h1 in
    sym (ap length (ok-injective (y ∷ zs) ys h2)) ∙ ap suc (length-traverse f xs zs q)

pub samples_of-eq-ok :
    (d : Dict String (List ℕ)) (k : String) (xs : List ℕ)
    → samples_of d k ≡ ok xs
    → get k d ≡ some xs
samples_of-eq-ok d k xs h = elim (Option-cases (get k d)) [
  | inl missing ↦ let q : err (key_error "samples") ≡ ok xs = rw (samples_of, missing) at h in cc q
  | inr (ys, found) ↦ found ∙ ap some (ok-injective ys xs (rw (samples_of, found) at h))
]

-- A session with as many samples as plans in its order.
abbrev Balanced : Session → Type 0
Balanced s = length s.samples ≡ length s.order

module _ {Plan : Type 0} (identity : Plan → String) (same_plan : Plan → Plan → Bool)
    (text_le : String → String → Bool) (measure : ℕ → Plan → Result ℕ) where
  sample-keeps :
      (plan : Plan) (s t : Session)
      → sample identity same_plan text_le measure plan s ≡ ok t
      → (t.order ≡ s.order) × (length t.samples ≡ length s.samples)
  unfolding sample
  sample-keeps plan s t h =
      let (latency, p, h1) = >>=-eq-ok (measure s.calls plan) _ h in
      let (xs, q, h2) = >>=-eq-ok (samples_of s.samples (identity plan)) _ h1 in
      let same = ok-injective _ t h2 in
      (
        sym (ap (λ u. u.order) same),
        sym (ap (λ u. length u.samples) same)
            ∙ length-put_old (identity plan) (xs ++ latency ∷ []) xs s.samples
                (samples_of-eq-ok s.samples (identity plan) xs q),
      )

  sample_times-keeps :
      (n : ℕ) (plan : Plan) (s t : Session)
      → sample_times identity same_plan text_le measure n plan s ≡ ok t
      → (t.order ≡ s.order) × (length t.samples ≡ length s.samples)
  unfolding sample_times
  sample_times-keeps zero plan s t h =
      let same = ok-injective s t h in
      (sym (ap (λ u. u.order) same), sym (ap (λ u. length u.samples) same))
  sample_times-keeps (suc n) plan s t h =
      let (u, p, h1) = >>=-eq-ok (sample identity same_plan text_le measure plan s) _ h in
      let (order, size) = sample-keeps plan s u p in
      let (order', size') = sample_times-keeps n plan u t h1 in (order' ∙ order, size' ∙ size)

  admit-eq-ok :
      (plan : Plan) (s t : Session)
      → admit identity same_plan text_le measure plan s ≡ ok t
      → contains (keys s.samples) (identity plan) ≡ false
      → (length t.order ≡ suc (length s.order)) × (length t.samples ≡ suc (length s.samples))
  unfolding admit
  admit-eq-ok plan s t h new =
      let (cold, p, h1) = >>=-eq-ok (measure s.calls plan) _ h in
      let same = ok-injective _ t h1 in
      let grown = length-append s.order (identity plan ∷ []) in
      let added = length-put_new (identity plan) [] s.samples new in
      (
        sym (ap (λ u. length u.order) same) ∙ (omega (arith, grown)),
        sym (ap (λ u. length u.samples) same) ∙ added,
      )

  -- The bound that a turn keeps.
  abbrev pub Within : ℕ → Session → Type 0
  Within n s = Balanced s × (length s.order ≤ n)

  take_turn-Within :
      (n repeat : ℕ) (plan : Plan) (s t : Session)
      → Within n s
      → take_turn identity same_plan text_le measure (some n) repeat plan s ≡ ok (some t)
      → Within n t
  unfolding take_turn
  take_turn-Within n repeat plan s t (balanced, bound) h =
      elim (Bool-cases (contains (keys s.samples) (identity plan))) [
        | inl known ↦
            let (u, p, h1) =
              >>=-eq-ok (sample_times identity same_plan text_le measure repeat plan s) _
                (rw known at h) in
            let same = some-injective (ok-injective (some u) (some t) h1) in
            let (order, size) = sample_times-keeps repeat plan s u p in
            subst (Within n) same (size ∙ balanced ∙ sym (ap length order), rw order bound)
        | inr new ↦ elim (Bool-cases (leb n (length s.samples))) [
          | inl full ↦
              let q : ◌≡◌ {A = Result (Option Session)} (ok none) (ok (some t)) =
                rw (new, full) at h in
              cc q
          | inr room ↦
              let (u, p, h1) =
                >>=-eq-ok (admit identity same_plan text_le measure plan s) _
                  (rw (new, room) at h) in
              let (w, q, h2) =
                >>=-eq-ok (sample_times identity same_plan text_le measure repeat plan u) _ h1 in
              let same = some-injective (ok-injective (some w) (some t) h2) in
              let (order, size) = admit-eq-ok plan s u p new in
              let (order', size') = sample_times-keeps repeat plan u w q in
              subst (Within n) same (
                size' ∙ size ∙ ap suc balanced ∙ sym order ∙ sym (ap length order'),
                rw order' (omega (arith, order, balanced, leb_false→lt n (length s.samples) room)),
              )
        ]
      ]

  pub check_legal_eq :
      (selected : Plan) (found : Option Plan) (plan : Plan)
      → check_legal identity same_plan text_le measure selected found ≡ ok plan
      → found ≡ some plan
  check_legal_eq selected none plan h = cc
  check_legal_eq selected (some p) plan h = ground arith

  pub turn-Within :
      (choose_next : List (Measurement Plan) → Option Plan) (n repeat : ℕ)
      (legal : Dict String Plan) (s t : Session)
      → Within n s
      → turn identity same_plan text_le measure choose_next (some n) repeat legal s ≡ ok (some t)
      → Within n t
  unfolding turn
  turn-Within choose_next n repeat legal s t within h =
      let (seen, p, h1) =
        >>=-eq-ok (history identity same_plan text_le measure s.order legal s.samples) _ h in
      elim (Option-cases (choose_next seen)) [
        | inl stop ↦
            let q : ◌≡◌ {A = Result (Option Session)} (ok none) (ok (some t)) = rw stop at h1 in
            cc q
        | inr (selected, chosen) ↦
            let (plan, q, h2) =
              >>=-eq-ok
                (check_legal identity same_plan text_le measure selected
                  (get (identity selected) legal))
                _ (rw chosen at h1) in
            take_turn-Within n repeat plan s t within h2
      ]

  continue-Within :
      (again : Session → Option (Result Session)) (n : ℕ) (s t : Session)
      (r : Result (Option Session))
      → Within n s
      → ((u : Session) → r ≡ ok (some u) → Within n u)
      → ((u : Session) → Within n u → again u ≡ some (ok t) → Within n t)
      → continue identity same_plan text_le measure again s r ≡ some (ok t)
      → Within n t
  continue-Within again n s t (err e) within next rest h = cc
  continue-Within again n s t (ok none) within next rest h =
      subst (Within n) (ok-injective s t (some-injective h)) within
  continue-Within again n s t (ok (some u)) within next rest h = rest u (next u refl) h

  pub turns-Within :
      (fuel : ℕ) (choose_next : List (Measurement Plan) → Option Plan) (n repeat : ℕ)
      (legal : Dict String Plan) (s t : Session)
      → Within n s
      → turns identity same_plan text_le measure fuel choose_next (some n) repeat legal s
        ≡ some (ok t)
      → Within n t
  unfolding turns
  turns-Within zero choose_next n repeat legal s t within h = cc
  turns-Within (suc fuel) choose_next n repeat legal s t within h =
      continue-Within
        (turns identity same_plan text_le measure fuel choose_next (some n) repeat legal) n s t
        (turn identity same_plan text_le measure choose_next (some n) repeat legal s) within
        (λ u. turn-Within choose_next n repeat legal s u within)
        (λ u. turns-Within fuel choose_next n repeat legal u t) h

  fold-sample-keeps :
      (legal : Dict String Plan) (names : List String) (s t : Session)
      → fold
          (λ u key. (do
            plan ← legal_plan identity same_plan text_le measure legal key
            sample identity same_plan text_le measure plan u))
          s
          names
        ≡ ok t
      → t.order ≡ s.order
  fold-sample-keeps legal [] s t h = sym (ap (λ u. u.order) (ok-injective s t h))
  fold-sample-keeps legal (key ∷ names) s t h =
      let (u, p, h1) =
        >>=-eq-ok
          (legal_plan identity same_plan text_le measure legal key >>= λ plan.
            sample identity same_plan text_le measure plan s)
          _ h in
      let (plan, q, h2) = >>=-eq-ok (legal_plan identity same_plan text_le measure legal key) _ p in
      fold-sample-keeps legal names u t h1 ∙ (sample-keeps plan s u h2).0

  pub confirm_finalists-keeps :
      (legal : Dict String Plan) (s t : Session)
      → confirm_finalists identity same_plan text_le measure legal s ≡ ok t
      → t.order ≡ s.order
  unfolding confirm_finalists
  confirm_finalists-keeps legal s t h = elim (Bool-cases (ltb (length s.samples) 2)) [
    | inl few ↦ sym (ap (λ u. u.order) (ok-injective s t (rw few at h)))
    | inr many ↦
        let (ranked, p, h1) = >>=-eq-ok (traverse _ (keys s.samples)) _ (rw many at h) in
        fold-sample-keeps legal _ s t h1
  ]
