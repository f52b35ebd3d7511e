-- ===== src/Tuning/Tuner.antt =====
-- src/cpuattn/tuning/tuner.py: Tuner.select, on the candidates of one context. The clock is a
-- parameter: what the n-th call of measure answers.
use cpuattn.Prelude.{
  ℕ, zero, suc, ◌+◌, ◌-◌, ◌/◌, String, Bool, false, ◌&&◌, ◌||◌, Option, none, some, List, [], ◌∷◌,
  ◌++◌, map, string_eq, nat_beq, ltb, leb, length, take, get_elem?, contains, Result, ok, err,
  value_error, runtime_error, key_error, index_error, ◌>>=◌, ◌>>◌, raise_if, traverse, fold,
  if◌then◌else◌,
}
use cpuattn.Prelude.Dict.{Dict, get, put, keys}
use cpuattn.Prelude.Sort.{sort}

-- sorted(samples)[(len(samples) - 1) // 2]; of no samples, an IndexError.
abbrev element : Option ℕ → Result ℕ
element none = err (index_error "list index out of range")
element (some n) = ok n

unfoldable pub median_sample : List ℕ → Result ℕ
unfolding sort
median_sample samples = element (get_elem? (sort leb samples) ((length samples - 1) / 2))

abbrev pub Samples : Type 0
Samples = Dict String (List ℕ)

-- samples_by_id[identity]
abbrev pub samples_of : Samples → String → Result (List ℕ)
samples_of samples identity = elim (get identity samples) [
  | none ↦ err (key_error "samples")
  | some xs ↦ ok xs
]

pub record Measurement (Plan : Type 0) : Type 0 where
  pub plan : Plan
  pub samples_ns : List ℕ
  pub latency_ns : ℕ

pub record TuningResult (Plan : Type 0) : Type 0 where
  pub winner : Plan
  pub measurements : List (Measurement Plan)

-- The samples, the order of the plans, and the number of calls of measure.
pub record Session : Type 0 where
  pub samples : Samples
  pub order : List String
  pub calls : ℕ

abbrev pub new_session : Session
new_session = record { samples = []; order = []; calls = 0 }

-- Tuner.__post_init__, on the two fields that a caller sets.
unfoldable pub tuner_post_init : Option ℕ → ℕ → Result (Unit {0})
tuner_post_init none repeat = raise_if (nat_beq repeat 0) (value_error "repeat must be positive")
tuner_post_init (some maxnum) repeat = do
  raise_if (nat_beq maxnum 0) (value_error "maxnum must be positive or None")
  raise_if (nat_beq repeat 0) (value_error "repeat must be positive")

module _ {Plan : Type 0} (identity : Plan → String) (same_plan : Plan → Plan → Bool)
    (text_le : String → String → Bool) (measure : ℕ → Plan → Result ℕ) where
  -- {plan.identity: plan for plan in candidates}
  abbrev pub legal_by_id : List Plan → Dict String Plan → Dict String Plan
  legal_by_id [] d = d
  legal_by_id (p ∷ ps) d = legal_by_id ps (put (identity p) p d)

  abbrev pub legal_plan : Dict String Plan → String → Result Plan
  legal_plan legal key = elim (get key legal) [ none ↦ err (key_error "plan") | some p ↦ ok p ]

  -- Measurement(...), whose constructor rejects no samples.
  unfoldable pub make_measurement : Plan → List ℕ → Result (Measurement Plan)
  unfolding median_sample
  make_measurement plan samples = do
    latency ← median_sample samples
    raise_if (nat_beq (length samples) 0) (value_error "measurement samples must be non-negative")
    ok (record { plan = plan; samples_ns = samples; latency_ns = latency })

  -- _history
  unfoldable pub history :
      List String → Dict String Plan → Samples → Result (List (Measurement Plan))
  unfolding make_measurement
  history order legal samples =
      traverse
        (λ key. do
          plan ← legal_plan legal key
          xs ← samples_of samples key
          make_measurement plan xs)
        order

  -- _sample
  unfoldable pub sample : Plan → Session → Result Session
  sample plan s = do
    latency ← measure s.calls plan
    xs ← samples_of s.samples (identity plan)
    ok (record {
      samples = put (identity plan) (xs ++ latency ∷ []) s.samples;
      order = s.order;
      calls = s.calls + 1;
    })

  -- for _ in range(n): _sample(...)
  unfoldable pub sample_times : ℕ → Plan → Session → Result Session
  unfolding sample
  sample_times zero plan s = ok s
  sample_times (suc n) plan s = sample plan s >>= sample_times n plan

  -- The first time that a plan is selected: its place in the order, and a run outside the samples.
  unfoldable pub admit : Plan → Session → Result Session
  admit plan s = do
    cold ← measure s.calls plan
    ok (record {
      samples = put (identity plan) [] s.samples;
      order = s.order ++ identity plan ∷ [];
      calls = s.calls + 1;
    })

  abbrev pub is_full : Option ℕ → ℕ → Bool
  is_full none n = false
  is_full (some maxnum) n = leb maxnum n

  -- The turn with a plan that is legal: no session means the loop breaks.
  unfoldable pub take_turn : Option ℕ → ℕ → Plan → Session → Result (Option Session)
  unfolding admit sample_times
  take_turn maxnum repeat plan s =
      if contains (keys s.samples) (identity plan)
      then (do t ← sample_times repeat plan s; ok (some t))
      else if is_full maxnum (length s.samples)
      then ok none
      else (do opened ← admit plan s; t ← sample_times repeat plan opened; ok (some t))

  -- legal is None or legal != selected
  abbrev pub check_legal : Plan → Option Plan → Result Plan
  check_legal selected none = err (value_error "tuner selected a plan outside the legal candidates")
  check_legal selected (some plan) =
      if same_plan plan selected
      then ok plan
      else err (value_error "tuner selected a plan outside the legal candidates")

  -- One turn of the loop of select.
  unfoldable pub turn :
      (List (Measurement Plan) → Option Plan)
      → Option ℕ
      → ℕ
      → Dict String Plan
      → Session
      → Result (Option Session)
  unfolding history take_turn
  turn choose_next maxnum repeat legal s = history s.order legal s.samples >>= λ seen.
      elim (choose_next seen) [
        | none ↦ ok none
        | some selected ↦ (do
          plan ← check_legal selected (get (identity selected) legal)
          take_turn maxnum repeat plan s)
      ]

  abbrev pub continue :
      (Session → Option (Result Session))
      → Session
      → Result (Option Session)
      → Option (Result Session)
  continue again s (err e) = some (err e)
  continue again s (ok none) = some (ok s)
  continue again s (ok (some t)) = again t

  -- The loop, for at most so many turns.
  unfoldable pub turns :
      ℕ
      → (List (Measurement Plan) → Option Plan)
      → Option ℕ
      → ℕ
      → Dict String Plan
      → Session
      → Option (Result Session)
  unfolding turn
  turns zero choose_next maxnum repeat legal s = none
  turns (suc fuel) choose_next maxnum repeat legal s =
      continue (turns fuel choose_next maxnum repeat legal) s
        (turn choose_next maxnum repeat legal s)

  -- The order of sorted and min: by the latency, then by the identity.
  abbrev pub key_le : ℕ × String → ℕ × String → Bool
  key_le a b = ltb a.0 b.0 || (nat_beq a.0 b.0 && text_le a.1 b.1)

  -- Tuner._confirm_finalists
  unfoldable pub confirm_finalists : Dict String Plan → Session → Result Session
  unfolding median_sample sample sort
  confirm_finalists legal s = if ltb (length s.samples) 2 then ok s else (do
    ranked ←
        traverse (λ key. do xs ← samples_of s.samples key; m ← median_sample xs; ok (m, key))
          (keys s.samples)
    let finalists = map (λ r. r.1) (take 2 (sort key_le ranked))
    fold (λ t key. do plan ← legal_plan legal key; sample plan t) s (finalists ++ finalists))

  abbrev pub rank : Measurement Plan → ℕ × String
  rank m = (m.latency_ns, identity m.plan)

  -- min(measurements, key=...): the first one of the least keys.
  unfoldable pub least : Measurement Plan → List (Measurement Plan) → Measurement Plan
  least best [] = best
  least best (m ∷ ms) = if key_le (rank best) (rank m) then least best ms else least m ms

  abbrev pub choose_winner : List (Measurement Plan) → Result (TuningResult Plan)
  choose_winner [] = err (runtime_error "tuner stopped before measuring a plan")
  choose_winner (m ∷ ms) = ok (record { winner = (least m ms).plan; measurements = m ∷ ms })

  -- What follows the loop.
  unfoldable pub conclude : Dict String Plan → Session → Result (TuningResult Plan)
  unfolding confirm_finalists history least
  conclude legal s = do
    confirmed ← confirm_finalists legal s
    measured ← history confirmed.order legal confirmed.samples
    choose_winner measured

  abbrev pub concluded :
      Dict String Plan → Option (Result Session) → Option (Result (TuningResult Plan))
  concluded legal none = none
  concluded legal (some r) = some (r >>= conclude legal)

  -- Tuner.select, behind the checks of the context.
  unfoldable pub select :
      ℕ
      → (List (Measurement Plan) → Option Plan)
      → Option ℕ
      → ℕ
      → List Plan
      → Option (Result (TuningResult Plan))
  unfolding turns conclude
  select fuel choose_next maxnum repeat candidates =
      let legal = legal_by_id candidates [] in
      concluded legal (turns fuel choose_next maxnum repeat legal new_session)
