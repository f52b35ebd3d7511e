-- ===== src/Tuning/Fresh.antt =====
-- src/cpuattn/tuning/tuner.py: a tuner that never repeats a plan ends within its bound of turns.
use mathlib.Core.Path.{subst}
use cpuattn.Prelude.{
  ℕ, zero, suc, ◌+◌, ◌<◌, ◌≡◌, refl, ap, ◌∙◌, String, Bool, false, Option, none, some, List, [],
  map, string_eq, length, contains, Result, ok, err, ◌>>=◌, arith, >>=-eq-ok, ok-injective,
  some-injective, Bool-cases, Option-cases, inl, inr,
}
use cpuattn.Prelude.Dict.{Dict, get, keys}
use cpuattn.Tuning.Tuner.{
  Measurement, Session, history, sample_times, admit, is_full, take_turn, turn, turns, legal_by_id,
  check_legal, continue, new_session, TuningResult, concluded, conclude, select,
}
use cpuattn.Tuning.Winner.{check_legal_eq, Within, turn-Within}
use cpuattn.Tuning.Names.{
  Named, sample_times-Named, admit-Named, Matching, legal_by_id-Matching, Matching-empty,
  history-names,
}

module _ {Plan : Type 0} (identity : Plan → String) (same_plan : Plan → Plan → Bool)
    (text_le : String → String → Bool) (measure : ℕ → Plan → Result ℕ) where
  -- A chooser that never returns to a plan of the history.
  abbrev pub IsFresh : (List (Measurement Plan) → Option Plan) → Type 0
  IsFresh choose_next =
      (seen : List (Measurement Plan)) (p : Plan)
      → choose_next seen ≡ some p
      → contains (map (λ m. identity m.plan) seen) (identity p) ≡ false

  take_turn-new :
      (maxnum : Option ℕ) (repeat : ℕ) (plan : Plan) (s t : Session)
      → Named s
      → contains s.order (identity plan) ≡ false
      → take_turn identity same_plan text_le measure maxnum repeat plan s ≡ ok (some t)
      → Named t × (length t.order ≡ suc (length s.order))
  unfolding take_turn
  take_turn-new maxnum repeat plan s t named new h =
      let absent : contains (keys s.samples) (identity plan) ≡ false =
        named (identity plan) ∙ new in
      elim (Bool-cases (is_full identity same_plan text_le measure maxnum (length s.samples))) [
        | inl full ↦
            let q : ◌≡◌ {A = Result (Option Session)} (ok none) (ok (some t)) =
              rw (absent, full) at h in
            cc q
        | inr room ↦
            let (u, p, h1) =
              >>=-eq-ok (admit identity same_plan text_le measure plan s) _
                (rw (absent, room) at h) in
            let (w, q, h2) =
              >>=-eq-ok (sample_times identity same_plan text_le measure repeat plan u) _ h1 in
            let (named', grown) = admit-Named identity same_plan text_le measure plan s u p named in
            let (named'', same_order) =
              sample_times-Named identity same_plan text_le measure repeat plan u w q named' in
            subst (λ x. Named x × (length x.order ≡ suc (length s.order)))
              (some-injective (ok-injective (some w) (some t) h2))
              (named'', ap length same_order ∙ grown)
      ]

  turn-new :
      (choose_next : List (Measurement Plan) → Option Plan) (maxnum : Option ℕ) (repeat : ℕ)
      (legal : Dict String Plan) (s t : Session)
      → IsFresh choose_next
      → Matching identity same_plan text_le measure legal
      → Named s
      → turn identity same_plan text_le measure choose_next maxnum repeat legal s ≡ ok (some t)
      → Named t × (length t.order ≡ suc (length s.order))
  unfolding turn
  turn-new choose_next maxnum repeat legal s t fresh match named h =
      let (seen, p, h1) =
        >>=-eq-ok (history identity same_plan text_le measure s.order legal s.samples) _ h in
      elim (Option-cases (choose_next seen)) [
        | inl stop ↦
            let q : ◌≡◌ {A = Result (Option Session)} (ok none) (ok (some t)) = rw stop at h1 in
            cc q
        | inr (selected, chosen) ↦
            let (plan, q, h2) =
              >>=-eq-ok
                (check_legal identity same_plan text_le measure selected
                  (get (identity selected) legal))
                _ (rw chosen at h1) in
            let same_name = match (identity selected) plan (
              check_legal_eq identity same_plan text_le measure selected
                (get (identity selected) legal) plan q) in
            let new : contains s.order (identity plan) ≡ false =
              rw
                (
                  same_name,
                  ← history-names identity same_plan text_le measure s.order legal s.samples seen
                      match p,
                )
                (fresh seen selected chosen) in
            take_turn-new maxnum repeat plan s t named new h2
      ]

  continue-ends :
      (again : Session → Option (Result Session)) (s : Session) (r : Result (Option Session))
      → ((t : Session) → r ≡ ok (some t) → (o : Result Session) × (again t ≡ some o))
      → (o : Result Session) × (continue identity same_plan text_le measure again s r ≡ some o)
  continue-ends again s (err e) next = (err e, refl)
  continue-ends again s (ok none) next = (ok s, refl)
  continue-ends again s (ok (some t)) next = next t refl

  turns-ends :
      (fuel : ℕ) (choose_next : List (Measurement Plan) → Option Plan) (n repeat : ℕ)
      (legal : Dict String Plan) (s : Session)
      → IsFresh choose_next
      → Matching identity same_plan text_le measure legal
      → Named s
      → Within identity same_plan text_le measure n s
      → n < fuel + length s.order
      → (o : Result Session) × (turns identity same_plan text_le measure fuel choose_next
            (some n)
            repeat
            legal
            s
          ≡ some o)
  unfolding turns
  turns-ends zero choose_next n repeat legal s fresh match named within enough =
      absurd (omega (arith, within.1, enough))
  turns-ends (suc fuel) choose_next n repeat legal s fresh match named within enough =
      continue-ends
        (turns identity same_plan text_le measure fuel choose_next (some n) repeat legal) s
        (turn identity same_plan text_le measure choose_next (some n) repeat legal s)
        (λ t went.
          let (named', grown) =
            turn-new choose_next (some n) repeat legal s t fresh match named went in
          turns-ends fuel choose_next n repeat legal t fresh match named'
            (turn-Within identity same_plan text_le measure choose_next n repeat legal s t within
              went)
            (omega (arith, grown, enough)))

  concluded-ends :
      (legal : Dict String Plan) (ended : Option (Result Session)) (o : Result Session)
      → ended ≡ some o
      → (r : Result (TuningResult Plan)) × (concluded identity same_plan text_le measure legal ended
          ≡ some r)
  concluded-ends legal ended o h = (
    o >>= conclude identity same_plan text_le measure legal,
    ap (concluded identity same_plan text_le measure legal) h,
  )

  -- A tuner with a chooser that never returns to a plan of the history ends, with a result or an
  -- exception, within one turn more than it may measure plans.
  pub select-ends :
      (choose_next : List (Measurement Plan) → Option Plan) (maxnum repeat : ℕ)
      (candidates : List Plan)
      → IsFresh choose_next
      → (r : Result (TuningResult Plan)) × (select identity same_plan text_le measure
            (suc maxnum)
            choose_next
            (some maxnum)
            repeat
            candidates
          ≡ some r)
  unfolding select
  select-ends choose_next maxnum repeat candidates fresh =
      let legal = legal_by_id identity same_plan text_le measure candidates [] in
      let (o, p) =
        turns-ends (suc maxnum) choose_next maxnum repeat legal new_session fresh
          (legal_by_id-Matching identity same_plan text_le measure candidates []
            (Matching-empty identity same_plan text_le measure))
          (λ k. refl) (refl, omega arith) (omega arith) in
      concluded-ends legal
        (turns identity same_plan text_le measure (suc maxnum) choose_next (some maxnum) repeat
          legal new_session)
        o p
