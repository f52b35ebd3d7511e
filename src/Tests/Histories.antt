-- ===== src/Tests/Histories.antt =====
-- src/cpuattn/tuning/cache.py over a history of two keys.
use cpuattn.Prelude.{
  string_eq, ℕ, ◌≡◌, refl, String, none, some, List, [], ◌∷◌, Result, ok, contains, true, ◌==◌,
  if◌then◌else◌, All,
}
use cpuattn.Prelude.Dict.{get, put, index_by}
use cpuattn.Tuning.Cache.{Json, Jsons, Fields, Selection, payload}
use cpuattn.Tuning.Cache.Answers.{answers-promised}
use cpuattn.Tuning.Cache.History.{Event, answers, promised, IsPublished, Published}

abbrev name : String → String
name s = s

-- The JSON of a selection with one record, by hand.
abbrev json : String → String → ℕ → Json
json key plan latency = Json.object (
    Fields.field "key" (Json.text key) (
      Fields.field "records"
        (Json.array (
          Jsons.cons
            (Json.object (
              Fields.field "latency_ns" (Json.natural latency) (
                Fields.field "plan_id" (Json.text plan) (
                  Fields.field "samples_ns"
                    (Json.array (Jsons.cons (Json.natural latency) Jsons.nil))
                    (Fields.field "status" (Json.text "selected") Fields.empty)))))
            Jsons.nil))
        (Fields.field "winner_plan_id" (Json.text plan) Fields.empty)))

-- A text for each of the three selections: its winner.
abbrev dumps : Json → String
dumps
      (Json.object
        (Fields.field _ _ (Fields.field _ _ (Fields.field _ (Json.text winner) Fields.empty)))) =
    winner
dumps _ = ""

abbrev loads : String → Result Json
loads s =
    if s == "narrow"
    then ok (json "k" "narrow" 9)
    else if s == "wide"
    then ok (json "k" "wide" 5)
    else ok (json "other" "tall" 7)

abbrev candidates : List String
candidates = "narrow" ∷ "wide" ∷ "tall" ∷ []

abbrev selection : String → String → ℕ → Selection name dumps loads
selection key plan latency = record {
  key = key;
  winner = plan;
  records =
      record {
        plan_id = plan;
        status = "selected";
        latency_ns = some latency;
        samples_ns = latency ∷ [];
      }
      ∷ [];
}

abbrev events : List (Event name dumps loads candidates)
events =
    Event.asked "k"
    ∷ Event.published (selection "k" "narrow" 9)
    ∷ Event.asked "k"
    ∷ Event.restarted
    ∷ Event.published (selection "k" "wide" 5)
    ∷ Event.published (selection "other" "tall" 7)
    ∷ Event.restarted
    ∷ Event.asked "k"
    ∷ Event.asked "k"
    ∷ Event.asked "third"
    ∷ []

selection-IsPublished :
    (key plan : String) (latency : ℕ)
    → get plan (index_by name [] candidates) ≡ some plan
    → contains (plan ∷ []) plan ≡ true
    → loads (dumps (payload name dumps loads (selection key plan latency)))
      ≡ ok (payload name dumps loads (selection key plan latency))
    → IsPublished name dumps loads candidates (selection key plan latency)
selection-IsPublished key plan latency legal recorded parsed = record {
  selection = record {
    winner = legal;
    records = (
      record {
        plan = plan;
        legal = legal;
        status = refl;
        latency = latency;
        timed = refl;
        first_sample = latency;
        samples = [];
        sampled = refl;
      },
      tt,
    );
    measured = recorded;
  };
  parsed = parsed;
}

events-Published : All (Published name dumps loads candidates) events
unfolding get index_by put
events-Published =
    let narrow = selection-IsPublished "k" "narrow" 9 refl refl refl in
    let wide = selection-IsPublished "k" "wide" 5 refl refl refl in
    let tall = selection-IsPublished "other" "tall" 7 refl refl refl in
    (tt, (narrow, (tt, (tt, (wide, (tall, (tt, (tt, (tt, (tt, tt))))))))))

answers-promised_example :
    answers name dumps loads candidates events (record { files = []; memory = [] })
    ≡ ok (promised name dumps loads candidates events [])
answers-promised_example = answers-promised name dumps loads candidates events events-Published

answered :
    promised name dumps loads candidates events []
    ≡ none
      ∷ some ("narrow", (selection "k" "narrow" 9).records)
      ∷ some ("wide", (selection "k" "wide" 5).records)
      ∷ some ("wide", (selection "k" "wide" 5).records)
      ∷ none
      ∷ []
unfolding promised get put
answered = refl
