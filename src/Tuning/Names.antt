-- ===== src/Tuning/Names.antt =====
-- src/cpuattn/tuning/tuner.py: the names of a session, and what a turn adds to them.
use mathlib.Core.Path.{subst}
use cpuattn.Prelude.{
  ℕ, zero, suc, ◌≡◌, refl, sym, ap, ◌∙◌, String, Bool, true, some, List, [], ◌∷◌, ◌++◌, map,
  string_eq, length, contains, contains-append, Result, ok, err, key_error, ◌>>=◌, arith, >>=-eq-ok,
  ok-injective, Option-cases, inl, inr, traverse, length-append, raise_if, nat_beq, value_error,
}
use cpuattn.Prelude.Dict.{Dict, get, put, keys, get-put, keys-put}
use cpuattn.Tuning.Tuner.{
  Measurement, Session, Samples, history, make_measurement, legal_plan, samples_of, sample,
  sample_times, admit, legal_by_id, median_sample,
}
use cpuattn.Tuning.Winner.{samples_of-eq-ok}

-- The plans in the order are those with samples.
abbrev pub Named : Session → Type 0
Named s = (k : String) → contains (keys s.samples) k ≡ contains s.order k

contains_of_get :
    (k : String) (d : Samples) (xs : List ℕ) → get k d ≡ some xs → contains (keys d) k ≡ true
unfolding get
contains_of_get k [] xs h = cc
contains_of_get k ((j, v) ∷ d) xs h = ground (arith, contains_of_get k d xs)

module _ {Plan : Type 0} (identity : Plan → String) (same_plan : Plan → Plan → Bool)
    (text_le : String → String → Bool) (measure : ℕ → Plan → Result ℕ) where
  sample-Named :
      (plan : Plan) (s t : Session)
      → sample identity same_plan text_le measure plan s ≡ ok t
      → Named s
      → Named t × (t.order ≡ s.order)
  unfolding sample
  sample-Named plan s t h named =
      let (latency, p, h1) = >>=-eq-ok (measure s.calls plan) _ h in
      let (xs, q, h2) = >>=-eq-ok (samples_of s.samples (identity plan)) _ h1 in
      let there =
        contains_of_get (identity plan) s.samples xs
          (samples_of-eq-ok s.samples (identity plan) xs q) in
      subst (λ u. Named u × (u.order ≡ s.order)) (ok-injective _ t h2)
        (
          λ k. ground (
            arith,
            keys-put (identity plan) (xs ++ latency ∷ []) s.samples k,
            named k,
            there,
            string_eq.beq_iff k (identity plan),
          ),
          refl,
        )

  pub sample_times-Named :
      (n : ℕ) (plan : Plan) (s t : Session)
      → sample_times identity same_plan text_le measure n plan s ≡ ok t
      → Named s
      → Named t × (t.order ≡ s.order)
  unfolding sample_times
  sample_times-Named zero plan s t h named =
      subst (λ u. Named u × (u.order ≡ s.order)) (ok-injective s t h) (named, refl)
  sample_times-Named (suc n) plan s t h named =
      let (u, p, h1) = >>=-eq-ok (sample identity same_plan text_le measure plan s) _ h in
      let (named', order) = sample-Named plan s u p named in
      let (named'', order') = sample_times-Named n plan u t h1 named' in (named'', order' ∙ order)

  pub admit-Named :
      (plan : Plan) (s t : Session)
      → admit identity same_plan text_le measure plan s ≡ ok t
      → Named s
      → Named t × (length t.order ≡ suc (length s.order))
  unfolding admit
  admit-Named plan s t h named =
      let (cold, p, h1) = >>=-eq-ok (measure s.calls plan) _ h in
      subst (λ u. Named u × (length u.order ≡ suc (length s.order))) (ok-injective _ t h1)
        (
          λ k. ground (
            arith,
            keys-put (identity plan) [] s.samples k,
            named k,
            contains-append s.order (identity plan ∷ []) k,
          ),
          omega (arith, length-append s.order (identity plan ∷ [])),
        )

  -- Each legal plan stands under its identity.
  abbrev pub Matching : Dict String Plan → Type 0
  Matching legal = (k : String) (p : Plan) → get k legal ≡ some p → identity p ≡ k

  pub Matching-empty : Matching []
  unfolding get
  Matching-empty k p h = cc

  pub legal_by_id-Matching :
      (ps : List Plan) (d : Dict String Plan)
      → Matching d
      → Matching (legal_by_id identity same_plan text_le measure ps d)
  legal_by_id-Matching [] d h = h
  legal_by_id-Matching (p ∷ ps) d h = legal_by_id-Matching ps (put (identity p) p d) (λ k q e.
      ground (arith, get-put k (identity p) p d, e, h k q, string_eq.beq_iff k (identity p)))

  legal_plan-eq-ok :
      (legal : Dict String Plan) (k : String) (p : Plan)
      → legal_plan identity same_plan text_le measure legal k ≡ ok p
      → get k legal ≡ some p
  legal_plan-eq-ok legal k p h = elim (Option-cases (get k legal)) [
    | inl missing ↦ let q : err (key_error "plan") ≡ ok p = rw (legal_plan, missing) at h in cc q
    | inr (r, found) ↦ found ∙ ap some (ok-injective r p (rw (legal_plan, found) at h))
  ]

  plan_of_measurement :
      (plan : Plan) (xs : List ℕ) (m : Measurement Plan)
      → make_measurement identity same_plan text_le measure plan xs ≡ ok m
      → m.plan ≡ plan
  unfolding make_measurement
  plan_of_measurement plan xs m h =
      let (latency, p, h1) = >>=-eq-ok (median_sample xs) _ h in
      let (u, q, h2) =
        >>=-eq-ok
          (raise_if (nat_beq (length xs) 0)
            (value_error "measurement samples must be non-negative"))
          _ h1 in
      sym (ap (λ x. x.plan) (ok-injective _ m h2))

  pub history-names :
      (order : List String) (legal : Dict String Plan) (samples : Samples)
      (seen : List (Measurement Plan))
      → Matching legal
      → history identity same_plan text_le measure order legal samples ≡ ok seen
      → map (λ m. identity m.plan) seen ≡ order
  unfolding history
  history-names [] legal samples seen match h =
      ap (map (λ m. identity m.plan)) (sym (ok-injective [] seen h))
  history-names (k ∷ order) legal samples seen match h =
      let (m, p, h1) =
        >>=-eq-ok
          (legal_plan identity same_plan text_le measure legal k >>= λ plan.
            samples_of samples k >>= λ xs.
            make_measurement identity same_plan text_le measure plan xs)
          _ h in
      let (ms, q, h2) = >>=-eq-ok (traverse _ order) _ h1 in
      let (plan, p1, p2) = >>=-eq-ok (legal_plan identity same_plan text_le measure legal k) _ p in
      let (xs, p3, p4) = >>=-eq-ok (samples_of samples k) _ p2 in
      let here =
        ap identity (plan_of_measurement plan xs m p4)
        ∙ match k plan (legal_plan-eq-ok legal k plan p1) in
      sym (ap (map (λ x. identity x.plan)) (ok-injective (m ∷ ms) seen h2))
      ∙ ap (λ i. i ∷ map (λ x. identity x.plan) ms) here
      ∙ ap (λ ks. k ∷ ks) (history-names order legal samples ms match q)
