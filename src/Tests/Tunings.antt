-- ===== src/Tests/Tunings.antt =====
-- src/cpuattn/tuning/tuner.py at a tuning of two plans, with a clock that counts its calls.
use cpuattn.Prelude.{
  ℕ, String, ◌≡◌, refl, Bool, true, Option, none, some, List, [], ◌∷◌, ◌≤◌, Result, ok, length,
  string_eq, if◌then◌else◌, not, contains, map, false, arith,
}
use cpuattn.Prelude.Dict.{Dict, get, put}
use cpuattn.Prelude.Sort.{sort, insert_sorted}
use cpuattn.Tuning.Tuner.{
  Measurement, TuningResult, Session, make_measurement, history, sample, sample_times, admit,
  take_turn, turn, turns, confirm_finalists, conclude, select, least, median_sample,
}
use cpuattn.Tuning.Least.{TextOrder, IsWinner, select-IsWinner}
use cpuattn.Tuning.Fresh.{IsFresh, select-ends}

abbrev identity : String → String
identity p = p

abbrev text_le : String → String → Bool
text_le a b = true

text_le-TextOrder : TextOrder text_le
text_le-TextOrder = record { total = λ a b h. refl; trans = λ a b c h k. refl }

abbrev clock : ℕ → String → Result ℕ
clock n p = ok n

-- The first of the two plans that is not measured.
abbrev choose_missing : List String → Option String
choose_missing seen =
    if not (contains seen "a") then some "a" else if not (contains seen "b") then some "b" else none

abbrev next_plan : List (Measurement String) → Option String
next_plan seen = choose_missing (map (λ m. m.plan) seen)

choose_missing-new :
    (seen : List String) (p : String) → choose_missing seen ≡ some p → contains seen p ≡ false
choose_missing-new seen p h = ground arith

next_plan-IsFresh : IsFresh identity string_eq.beq text_le clock next_plan
next_plan-IsFresh seen p h = choose_missing-new (map (λ m. m.plan) seen) p h

select-ends_example :
    (r : Result (TuningResult String)) × (select identity string_eq.beq text_le clock 3 next_plan
        (some 2)
        1
        ("a" ∷ "b" ∷ [])
      ≡ some r)
select-ends_example =
    select-ends identity string_eq.beq text_le clock next_plan 2 1 ("a" ∷ "b" ∷ [])
      next_plan-IsFresh

abbrev session : Session
session = record { samples = ("a", 1 ∷ []) ∷ ("b", 3 ∷ []) ∷ []; order = "a" ∷ "b" ∷ []; calls = 4 }

abbrev legal : Dict String String
legal = ("a", "a") ∷ ("b", "b") ∷ []

abbrev result : TuningResult String
result = record {
  winner = "a";
  measurements =
      record { plan = "a"; samples_ns = 1 ∷ 4 ∷ 6 ∷ []; latency_ns = 4 }
      ∷ record { plan = "b"; samples_ns = 3 ∷ 5 ∷ 7 ∷ []; latency_ns = 5 }
      ∷ [];
}

selected :
    select identity string_eq.beq text_le clock 3 next_plan (some 2) 1 ("a" ∷ "b" ∷ [])
    ≡ some (ok result)
unfolding select turns turn take_turn admit sample_times sample history make_measurement
    median_sample confirm_finalists conclude least get put sort insert_sorted
selected = refl

select-IsWinner_example :
    IsWinner identity string_eq.beq text_le clock text_le-TextOrder result
    × (length result.measurements ≤ 2)
select-IsWinner_example =
    select-IsWinner identity string_eq.beq text_le clock text_le-TextOrder 3 next_plan 2 1
      ("a" ∷ "b" ∷ []) result selected

concluded : conclude identity string_eq.beq text_le clock legal session ≡ ok result
unfolding sample history make_measurement median_sample confirm_finalists conclude least get put
    sort insert_sorted
concluded = refl
