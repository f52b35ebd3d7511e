-- ===== src/Tuning/Least.antt =====
-- src/cpuattn/tuning/tuner.py: what select returns.
use mathlib.Core.Path.{subst}
use cpuattn.Prelude.{
  ℕ, zero, suc, ◌≤◌, ◌≡◌, refl, ap, ◌∙◌, String, Bool, true, false, Option, none, some, List, [],
  ◌∷◌, string_eq, length, get_elem?, Result, ok, err, All, arith, >>=-eq-ok, ok-injective,
  some-injective, Bool-cases, inl, inr,
}
use cpuattn.Prelude.Dict.{Dict}
use cpuattn.Tuning.Tuner.{
  Measurement, TuningResult, Session, history, turns, key_le, confirm_finalists, rank, least,
  conclude, select, choose_winner, concluded, legal_by_id, new_session,
}
use cpuattn.Tuning.Winner.{length-traverse, Within, turns-Within, confirm_finalists-keeps}

-- Python's order of texts is total and transitive.
pub record TextOrder (text_le : String → String → Bool) : Type 0 where
  pub total : (a b : String) → text_le a b ≡ false → text_le b a ≡ true
  pub trans : (a b c : String) → text_le a b ≡ true → text_le b c ≡ true → text_le a c ≡ true

module _ {Plan : Type 0} (identity : Plan → String) (same_plan : Plan → Plan → Bool)
    (text_le : String → String → Bool) (measure : ℕ → Plan → Result ℕ)
    (texts : TextOrder text_le) where
  -- The first key is at most the second.
  abbrev pub Below : ℕ × String → ℕ × String → Type 0
  Below a b = key_le identity same_plan text_le measure a b ≡ true

  Below-total :
      (a b : ℕ × String) → key_le identity same_plan text_le measure a b ≡ false → Below b a
  Below-total (a, x) (b, y) h = ground (arith, texts.total x y)

  Below-trans : (a b c : ℕ × String) → Below a b → Below b c → Below a c
  Below-trans (a, x) (b, y) (c, z) h k = ground (arith, texts.trans x y z)

  Below-refl : (a : ℕ × String) → Below a a
  Below-refl a = elim (Bool-cases (key_le identity same_plan text_le measure a a)) [
    | inl here ↦ here
    | inr not_here ↦ Below-total a a not_here
  ]

  abbrev pub measured_rank : Measurement Plan → ℕ × String
  measured_rank m = rank identity same_plan text_le measure m

  abbrev least_of : Measurement Plan → List (Measurement Plan) → Measurement Plan
  least_of best ms = least identity same_plan text_le measure best ms

  All-trans :
      (a b : Measurement Plan) (ms : List (Measurement Plan))
      → Below (measured_rank a) (measured_rank b)
      → All (λ m. Below (measured_rank b) (measured_rank m)) ms
      → All (λ m. Below (measured_rank a) (measured_rank m)) ms
  All-trans a b [] h k = tt
  All-trans a b (m ∷ ms) h k = (
    Below-trans (measured_rank a) (measured_rank b) (measured_rank m) h k.0,
    All-trans a b ms h k.1,
  )

  least_kept :
      (best m : Measurement Plan) (ms : List (Measurement Plan))
      → Below (measured_rank best) (measured_rank m)
      → least_of best ms ≡ least_of best (m ∷ ms)
  unfolding least
  least_kept best m ms h = rw h refl

  least_replaced :
      (best m : Measurement Plan) (ms : List (Measurement Plan))
      → key_le identity same_plan text_le measure (measured_rank best) (measured_rank m) ≡ false
      → least_of m ms ≡ least_of best (m ∷ ms)
  unfolding least
  least_replaced best m ms h = rw h refl

  -- What a measurement is, below all of some.
  abbrev BelowAll : List (Measurement Plan) → Measurement Plan → Type 0
  BelowAll ms w = All (λ m. Below (measured_rank w) (measured_rank m)) ms

  least-Below :
      (best : Measurement Plan) (ms : List (Measurement Plan))
      → BelowAll (best ∷ ms) (least_of best ms)
  unfolding least
  least-Below best [] = (Below-refl (measured_rank best), tt)
  least-Below best (m ∷ ms) =
      elim (Bool-cases
        (key_le identity same_plan text_le measure (measured_rank best) (measured_rank m))) [
          | inl keeps ↦
              let (first, rest) = least-Below best ms in
              subst (BelowAll (best ∷ m ∷ ms)) (least_kept best m ms keeps) (
                first,
                (
                  Below-trans (measured_rank (least_of best ms)) (measured_rank best)
                      (measured_rank m) first keeps,
                  rest,
                ),
              )
          | inr replaces ↦
              let (first, rest) = least-Below m ms in
              subst (BelowAll (best ∷ m ∷ ms)) (least_replaced best m ms replaces) (
                Below-trans (measured_rank (least_of m ms)) (measured_rank m) (measured_rank best)
                    first (Below-total (measured_rank best) (measured_rank m) replaces),
                (first, rest),
              )
        ]

  shift :
      (best m w : Measurement Plan) (ms : List (Measurement Plan)) (i : ℕ)
      → get_elem? (best ∷ ms) i ≡ some w
      → (j : ℕ) × (get_elem? (best ∷ m ∷ ms) j ≡ some w)
  shift best m w ms zero h = (0, h)
  shift best m w ms (suc i) h = (suc (suc i), h)

  least-get :
      (best : Measurement Plan) (ms : List (Measurement Plan))
      → (i : ℕ) × (get_elem? (best ∷ ms) i ≡ some (least_of best ms))
  unfolding least
  least-get best [] = (0, refl)
  least-get best (m ∷ ms) =
      elim (Bool-cases
        (key_le identity same_plan text_le measure (measured_rank best) (measured_rank m))) [
          | inl keeps ↦
              let (i, p) = least-get best ms in rw keeps (shift best m (least_of best ms) ms i p)
          | inr replaces ↦ let (i, p) = least-get m ms in rw replaces (suc i, p)
        ]

  -- The winner's measurement, its place, and that no other one is below it.
  pub record IsWinner (r : TuningResult Plan) : Type 0 where
    pub best : Measurement Plan
    pub place : ℕ
    pub there : get_elem? r.measurements place ≡ some best
    pub won : best.plan ≡ r.winner
    pub below : All (λ m. Below (measured_rank best) (measured_rank m)) r.measurements

  choose_winner-IsWinner :
      (ms : List (Measurement Plan)) (r : TuningResult Plan)
      → choose_winner identity same_plan text_le measure ms ≡ ok r
      → IsWinner r × (length r.measurements ≡ length ms)
  choose_winner-IsWinner [] r h = cc
  choose_winner-IsWinner (m ∷ ms) r h =
      let (i, p) = least-get m ms in
      let made : TuningResult Plan = record {
        winner = (least_of m ms).plan;
        measurements = m ∷ ms;
      } in
      subst (λ s. IsWinner s × (length s.measurements ≡ length (m ∷ ms))) (ok-injective made r h)
        (
          record {
            best = least_of m ms;
            place = i;
            there = p;
            won = refl;
            below = least-Below m ms;
          },
          refl,
        )

  -- With texts in a total and transitive order: where the end of select returns, every plan in the
  -- order is measured, and the winner is a measured plan whose latency, and among equal latencies
  -- whose identity, is least.
  pub conclude-IsWinner :
      (legal : Dict String Plan) (s : Session) (r : TuningResult Plan)
      → conclude identity same_plan text_le measure legal s ≡ ok r
      → IsWinner r × (length r.measurements ≡ length s.order)
  unfolding conclude history
  conclude-IsWinner legal s r h =
      let (confirmed, p, h1) =
        >>=-eq-ok (confirm_finalists identity same_plan text_le measure legal s) _ h in
      let (ms, q, h2) =
        >>=-eq-ok
          (history identity same_plan text_le measure confirmed.order legal confirmed.samples) _
          h1 in
      let (winner, size) = choose_winner-IsWinner ms r h2 in
      (
        winner,
        size
            ∙ length-traverse _ confirmed.order ms q
            ∙ ap length
                (confirm_finalists-keeps identity same_plan text_le measure legal s confirmed p),
      )

  concluded_lem :
      (legal : Dict String Plan) (maxnum : ℕ) (ended : Option (Result Session))
      (r : TuningResult Plan)
      → ((s : Session) → ended ≡ some (ok s) → Within identity same_plan text_le measure maxnum s)
      → concluded identity same_plan text_le measure legal ended ≡ some (ok r)
      → IsWinner r × (length r.measurements ≤ maxnum)
  concluded_lem legal maxnum none r within h = cc
  concluded_lem legal maxnum (some (err e)) r within h = cc
  concluded_lem legal maxnum (some (ok s)) r within h =
      let (winner, size) = conclude-IsWinner legal s r (some-injective h) in
      (winner, rw size (within s refl).1)

  -- With texts in a total and transitive order: where the tuner returns, at most maxnum plans were
  -- measured, and the winner is a measured plan whose latency, and among equal latencies whose
  -- identity, is least.
  pub select-IsWinner :
      (fuel : ℕ) (choose_next : List (Measurement Plan) → Option Plan) (maxnum repeat : ℕ)
      (candidates : List Plan) (r : TuningResult Plan)
      → select identity same_plan text_le measure fuel choose_next (some maxnum) repeat candidates
        ≡ some (ok r)
      → IsWinner r × (length r.measurements ≤ maxnum)
  unfolding select
  select-IsWinner fuel choose_next maxnum repeat candidates r h =
      let legal = legal_by_id identity same_plan text_le measure candidates [] in
      concluded_lem legal maxnum
        (turns identity same_plan text_le measure fuel choose_next (some maxnum) repeat legal
          new_session)
        r
        (λ s.
          turns-Within identity same_plan text_le measure fuel choose_next maxnum repeat legal
            new_session s (refl, omega arith))
        h
