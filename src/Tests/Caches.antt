-- ===== src/Tests/Caches.antt =====
-- src/cpuattn/tuning/cache.py at two plans that are named by their identity.
use cpuattn.Prelude.{
  string_eq, ℕ, ◌≡◌, refl, String, none, some, List, [], ◌∷◌, Option, Result, ok, err, value_error,
}
use cpuattn.Prelude.Dict.{get, put, index_by}
use cpuattn.Tuning.Cache.{
  Json, Jsons, Fields, PlanRecord, CachedSelection, SelectionCache, Selection, restart, publish,
  get_selection, read,
}
use cpuattn.Tuning.Cache.Restart.{IsSelection, publish-restart-get}
use cpuattn.Tuning.Cache.Tame.{Holds}
use cpuattn.Tuning.Cache.Checks.{IsChecked, get_selection-IsChecked}

abbrev name : String → String
name s = s

-- A store of one text.
abbrev dumps : Json → String
dumps j = "{}"

abbrev candidates : List String
candidates = "narrow" ∷ "wide" ∷ []

abbrev records : List PlanRecord
records =
    record { plan_id = "narrow"; status = "measured"; latency_ns = some 9; samples_ns = 9 ∷ [] }
    ∷ record { plan_id = "wide"; status = "selected"; latency_ns = some 5; samples_ns = 5 ∷ 6 ∷ [] }
    ∷ []

-- What the text stands for: the keys and the records of the selection, by hand.
abbrev record_text : String → String → ℕ → Jsons → Json
record_text plan_id status latency samples = Json.object (
    Fields.field "latency_ns" (Json.natural latency) (
      Fields.field "plan_id" (Json.text plan_id) (
        Fields.field "samples_ns" (Json.array samples)
          (Fields.field "status" (Json.text status) Fields.empty))))

abbrev content : Json
content = Json.object (
    Fields.field "key" (Json.text "k") (
      Fields.field "records"
        (Json.array (
          Jsons.cons (record_text "narrow" "measured" 9 (Jsons.cons (Json.natural 9) Jsons.nil)) (
            Jsons.cons
              (record_text "wide" "selected" 5
                (Jsons.cons (Json.natural 5) (Jsons.cons (Json.natural 6) Jsons.nil)))
              Jsons.nil)))
        (Fields.field "winner_plan_id" (Json.text "wide") Fields.empty)))

abbrev loads : String → Result Json
loads s = ok content

abbrev selection : Selection name dumps loads
selection = record { key = "k"; winner = "wide"; records = records }

abbrev empty_cache : SelectionCache name dumps loads
empty_cache = record { files = []; memory = [] }

selection-IsSelection : IsSelection name dumps loads candidates selection
unfolding get index_by put
selection-IsSelection = record {
  winner = refl;
  records = (
    record {
      plan = "narrow";
      legal = refl;
      status = refl;
      latency = 9;
      timed = refl;
      first_sample = 9;
      samples = [];
      sampled = refl;
    },
    (
      record {
        plan = "wide";
        legal = refl;
        status = refl;
        latency = 5;
        timed = refl;
        first_sample = 5;
        samples = 6 ∷ [];
        sampled = refl;
      },
      tt,
    ),
  );
  measured = refl;
}

publish-restart-get_example :
    (next : SelectionCache name dumps loads) × (get_selection name dumps loads
        (restart name dumps loads (publish name dumps loads empty_cache selection))
        "k"
        candidates
      ≡ ok (some ("wide", records), next))
    × (next.files ≡ (publish name dumps loads empty_cache selection).files)
publish-restart-get_example =
    publish-restart-get name dumps loads empty_cache candidates selection selection-IsSelection refl

-- A parser that finds no JSON.
abbrev rejects : String → Result Json
rejects s = err (value_error "Expecting value")

get_selection-IsChecked_example :
    (found : Option (CachedSelection name dumps loads)) × (next : SelectionCache name dumps loads)
    × (get_selection name dumps loads
          (record { files = ("k.json", "{}") ∷ []; memory = [] })
          "k"
          candidates
        ≡ ok (found, next))
    × (next.files ≡ ("k.json", "{}") ∷ [])
    × Holds (IsChecked name dumps loads (index_by name [] candidates)) found
unfolding get
get_selection-IsChecked_example =
    get_selection-IsChecked name dumps loads (record { files = ("k.json", "{}") ∷ []; memory = [] })
      "k" candidates (λ c. tt) refl

broken_file :
    get_selection name dumps rejects
      (record { files = ("k.json", "{}") ∷ []; memory = [] })
      "k"
      candidates
    ≡ ok (none, record { files = ("k.json", "{}") ∷ []; memory = [] })
unfolding get_selection read get
broken_file = refl
