-- ===== src/Tuning/Cache.antt =====
-- src/cpuattn/tuning/cache.py: the cache of selections, in memory and in one file for each key. The
-- lock and the temporary file of a write are not modelled: a file is replaced at once.
pub mod Answers
pub mod Tame
pub mod Checks
pub mod History
pub mod Restart
use Prim.Native.String.{◌++◌ as append_text}
use cpuattn.Prelude.{
  ℕ, String, Bool, true, false, not, ◌||◌, ◌==◌, string_eq, Option, none, some, List, [], ◌∷◌, map,
  contains, Exception, Result, ok, err, os_error, type_error, value_error, ◌>>=◌, if◌then◌else◌,
  traverse,
}
use cpuattn.Prelude.Dict.{Dict, get, put, index_by}
pub use cpuattn.Prelude.Json.{Json, Jsons, Fields, array_of}

-- fields.get(name)
unfoldable pub lookup : String → Fields → Json
lookup name Fields.empty = Json.null
lookup name (Fields.field k v fields) =
    let rest = lookup name fields in if name == k then v else rest

abbrev pub items : Jsons → List Json
items Jsons.nil = []
items (Jsons.cons j js) = j ∷ items js

-- isinstance(value, int) and value >= 0: a bool is an int.
abbrev pub count_of : Json → Option ℕ
count_of (Json.natural n) = some n
count_of (Json.boolean true) = some 1
count_of (Json.boolean false) = some 0
count_of _ = none

pub record PlanRecord : Type 0 where
  pub plan_id : String
  pub status : String
  pub latency_ns : Option ℕ
  pub samples_ns : List ℕ

-- The samples, if they are a list of natural numbers.
unfoldable pub counts_of : List Json → Option (List ℕ)
counts_of [] = some []
counts_of (j ∷ js) = elim (count_of j) [
  | none ↦ none
  | some n ↦ elim (counts_of js) [ none ↦ none | some ns ↦ some (n ∷ ns) ]
]

unfoldable pub samples_field : Json → Option (List ℕ)
unfolding counts_of
samples_field (Json.array Jsons.nil) = none
samples_field (Json.array (Jsons.cons j js)) = counts_of (j ∷ items js)
samples_field _ = none

-- status in {"measured", "selected"}, where a list or a dictionary cannot be hashed.
unfoldable pub known_status : Json → Result (Option String)
known_status (Json.text s) = if s == "measured" || s == "selected" then ok (some s) else ok none
known_status (Json.array _) = err (type_error "unhashable type: 'list'")
known_status (Json.object _) = err (type_error "unhashable type: 'dict'")
known_status _ = ok none

-- The record, if all that it needs is there.
unfoldable pub complete_record :
    String → Option String → Option ℕ → Option (List ℕ) → Option PlanRecord
complete_record plan_id (some status) (some latency) (some samples) =
    some (record {
      plan_id = plan_id;
      status = status;
      latency_ns = some latency;
      samples_ns = samples;
    })
complete_record plan_id _ _ _ = none

-- The exceptions that _read catches.
abbrev pub caught : {A : Type 0} → Result (Option A) → Result (Option A)
caught (ok a) = ok a
caught (err (os_error m)) = ok none
caught (err (type_error m)) = ok none
caught (err (value_error m)) = ok none
caught (err e) = err e

-- any(record is None for record in records)
abbrev pub all_some : {A : Type 0} → List (Option A) → Option (List A)
all_some [] = some []
all_some (none ∷ xs) = none
all_some (some x ∷ xs) = elim (all_some xs) [ none ↦ none | some ys ↦ some (x ∷ ys) ]

-- f"{key}.json", in the directory of the selections.
abbrev pub path : String → String
path key = append_text key ".json"

-- A plan's identity, and the text of a JSON value with sorted keys and its parser, are parameters.
module _ {Plan : Type 0} (identity : Plan → String) (dumps : Json → String)
    (loads : String → Result Json) where
  abbrev pub CachedSelection : Type 0
  CachedSelection = Plan × List PlanRecord

  pub record SelectionCache : Type 0 where
    pub files : Dict String String
    pub memory : Dict String CachedSelection

  -- SelectionCache(cache_dir): what is on disk stays.
  abbrev pub restart : SelectionCache → SelectionCache
  restart cache = record { files = cache.files; memory = [] }

  -- The rest of _record, for a plan that is found or not.
  unfoldable pub record_for : String → Option Plan → Fields → Result (Option PlanRecord)
  unfolding lookup known_status samples_field complete_record
  record_for plan_id none fields = ok none
  record_for plan_id (some _) fields = do
    status ← known_status (lookup "status" fields)
    ok (
        complete_record plan_id status (count_of (lookup "latency_ns" fields))
          (samples_field (lookup "samples_ns" fields)))

  abbrev pub record_with : Dict String Plan → Json → Fields → Result (Option PlanRecord)
  record_with by_id (Json.text plan_id) fields = record_for plan_id (get plan_id by_id) fields
  record_with by_id _ fields = ok none

  -- _record
  unfoldable pub record_of : Dict String Plan → Json → Result (Option PlanRecord)
  unfolding lookup record_for
  record_of by_id (Json.object fields) = record_with by_id (lookup "plan_id" fields) fields
  record_of by_id _ = ok none

  -- by_id.get(winner_plan_id), where a list or a dictionary cannot be hashed.
  abbrev pub winner_of : Dict String Plan → Json → Result (Option Plan)
  winner_of by_id (Json.text id) = ok (get id by_id)
  winner_of by_id (Json.array _) = err (type_error "unhashable type: 'list'")
  winner_of by_id (Json.object _) = err (type_error "unhashable type: 'dict'")
  winner_of by_id _ = ok none

  -- The checks of _read on the records.
  abbrev pub accept_records : Plan → Option (List PlanRecord) → Option CachedSelection
  accept_records winner none = none
  accept_records winner (some records) =
      if contains (map (λ x. x.plan_id) records) (identity winner)
      then some (winner, records)
      else none

  unfoldable pub accept : Plan → List (Option PlanRecord) → Option CachedSelection
  accept winner [] = none
  accept winner (r ∷ rs) = accept_records winner (all_some (r ∷ rs))

  unfoldable pub read_records :
      Dict String Plan → Option Plan → Json → Result (Option CachedSelection)
  unfolding record_of accept
  read_records by_id (some winner) (Json.array js) = do
    records ← traverse (record_of by_id) (items js)
    ok (accept winner records)
  read_records by_id _ _ = ok none

  -- data.get("key") != key
  abbrev pub is_key : String → Json → Bool
  is_key key (Json.text k) = k == key
  is_key key _ = false

  unfoldable pub read_data : String → List Plan → Json → Result (Option CachedSelection)
  unfolding lookup index_by read_records
  read_data key candidates (Json.object fields) =
      if is_key key (lookup "key" fields)
      then (do
        let by_id = index_by identity [] candidates
        winner ← winner_of by_id (lookup "winner_plan_id" fields)
        read_records by_id winner (lookup "records" fields))
      else ok none
  read_data key candidates _ = ok none

  -- path.read_text(encoding="utf-8")
  abbrev pub read_text : Dict String String → String → Result String
  read_text files name = elim (get name files) [
    | none ↦ err (os_error "no such file")
    | some content ↦ ok content
  ]

  -- SelectionCache._read
  unfoldable pub read : Dict String String → String → List Plan → Result (Option CachedSelection)
  unfolding read_data
  read files key candidates = caught (do
    content ← read_text files (path key)
    parsed ← loads content
    read_data key candidates parsed)

  -- SelectionCache.get
  unfoldable pub get_selection :
      SelectionCache → String → List Plan → Result (Option CachedSelection × SelectionCache)
  unfolding read
  get_selection cache key candidates = elim (get key cache.memory) [
    | some found ↦ ok (some found, cache)
    | none ↦ (do
      found ← read cache.files key candidates
      elim found [
        | none ↦ ok (none, cache)
        | some c ↦ ok (some c, record { files = cache.files; memory = put key c cache.memory })
      ])
  ]

  pub record Selection : Type 0 where
    pub key : String
    pub winner : Plan
    pub records : List PlanRecord

  abbrev pub latency_json : Option ℕ → Json
  latency_json none = Json.null
  latency_json (some n) = Json.natural n

  -- The keys stand in the order in which sort_keys writes them.
  abbrev pub record_json : PlanRecord → Json
  record_json r = Json.object (
      Fields.field "latency_ns" (latency_json r.latency_ns) (
        Fields.field "plan_id" (Json.text r.plan_id) (
          Fields.field "samples_ns" (Json.array (array_of (map Json.natural r.samples_ns)))
            (Fields.field "status" (Json.text r.status) Fields.empty))))

  abbrev pub payload : Selection → Json
  payload s = Json.object (
      Fields.field "key" (Json.text s.key) (
        Fields.field "records" (Json.array (array_of (map record_json s.records)))
          (Fields.field "winner_plan_id" (Json.text (identity s.winner)) Fields.empty)))

  -- SelectionCache.publish
  unfoldable pub publish : SelectionCache → Selection → SelectionCache
  publish cache s = record {
    files = put (path s.key) (dumps (payload s)) cache.files;
    memory = put s.key (s.winner, s.records) cache.memory;
  }
