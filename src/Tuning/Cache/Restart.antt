-- ===== src/Tuning/Cache/Restart.antt =====
-- src/cpuattn/tuning/cache.py: what a process publishes, a later one reads.
use mathlib.Core.Path.{subst}
use cpuattn.Prelude.{
  ℕ, ◌≡◌, refl, sym, ap, ◌∙◌, String, true, ◌||◌, ◌==◌, string_eq, Option, some, List, [], ◌∷◌, map,
  contains, Result, ok, arith, All, traverse,
}
use cpuattn.Prelude.Dict.{Dict, get, put, index_by, get-put}
use cpuattn.Tuning.Cache.{
  Json, lookup, items, array_of, counts_of, samples_field, known_status, complete_record,
  PlanRecord, all_some, path, SelectionCache, Selection, restart, record_of, record_for, accept,
  read_records, read_data, read_text, read, get_selection, record_json, payload, publish,
}

items-array_of : (js : List Json) → items (array_of js) ≡ js
items-array_of [] = refl
items-array_of (j ∷ js) = ap (λ l. j ∷ l) (items-array_of js)

counts-of_array : (ns : List ℕ) → counts_of (items (array_of (map Json.natural ns))) ≡ some ns
unfolding counts_of
counts-of_array [] = refl
counts-of_array (n ∷ ns) = rw (counts-of_array ns)

samples_field-array :
    (n : ℕ) (ns : List ℕ)
    → samples_field (Json.array (array_of (map Json.natural (n ∷ ns)))) ≡ some (n ∷ ns)
unfolding samples_field
samples_field-array n ns = counts-of_array (n ∷ ns)

all_some-map : {A : Type 0} (xs : List A) → all_some (map some xs) ≡ some xs
all_some-map [] = refl
all_some-map (x ∷ xs) = rw (all_some-map xs)

module _ {Plan : Type 0} (identity : Plan → String) (dumps : Json → String)
    (loads : String → Result Json) where
  -- A record of a run among the candidates.
  pub record IsRecord (by_id : Dict String Plan) (r : PlanRecord) : Type 0 where
    pub plan : Plan
    pub legal : get r.plan_id by_id ≡ some plan
    pub status : (r.status == "measured" || r.status == "selected") ≡ true
    pub latency : ℕ
    pub timed : r.latency_ns ≡ some latency
    pub first_sample : ℕ
    pub samples : List ℕ
    pub sampled : r.samples_ns ≡ first_sample ∷ samples

  -- The record with its fields written out.
  abbrev written : String → String → Option ℕ → List ℕ → PlanRecord
  written plan_id status latency samples = record {
    plan_id = plan_id;
    status = status;
    latency_ns = latency;
    samples_ns = samples;
  }

  record_of-written :
      (by_id : Dict String Plan) (plan_id status : String) (latency first_sample : ℕ)
      (samples : List ℕ) (plan : Plan)
      → get plan_id by_id ≡ some plan
      → (status == "measured" || status == "selected") ≡ true
      → record_of identity dumps loads by_id (
          record_json identity dumps loads
            (written plan_id status (some latency) (first_sample ∷ samples)))
        ≡ ok (some (written plan_id status (some latency) (first_sample ∷ samples)))
  unfolding record_of record_for lookup known_status complete_record
  record_of-written by_id plan_id status latency first_sample samples plan legal known =
      rw (legal, known, samples_field-array first_sample samples, record_for)

  record_of-json :
      (by_id : Dict String Plan) (r : PlanRecord)
      → IsRecord by_id r
      → record_of identity dumps loads by_id (record_json identity dumps loads r) ≡ ok (some r)
  record_of-json by_id r h =
      let first =
        ap (λ l. written r.plan_id r.status l (h.first_sample ∷ h.samples)) (sym h.timed) in
      let second = ap (λ ns. written r.plan_id r.status r.latency_ns ns) (sym h.sampled) in
      subst
        (λ x.
          record_of identity dumps loads by_id (record_json identity dumps loads x) ≡ ok (some x))
        (first ∙ second)
        (record_of-written by_id r.plan_id r.status h.latency h.first_sample h.samples h.plan
          h.legal h.status)

  records-read :
      (by_id : Dict String Plan) (rs : List PlanRecord)
      → All (IsRecord by_id) rs
      → traverse (record_of identity dumps loads by_id) (map (record_json identity dumps loads) rs)
        ≡ ok (map some rs)
  records-read by_id [] h = refl
  records-read by_id (r ∷ rs) h = rw (record_of-json by_id r h.0, records-read by_id rs h.1)

  -- A selection among the candidates.
  pub record IsSelection (candidates : List Plan) (s : Selection identity dumps loads)
      : Type 0 where
    pub winner : get (identity s.winner) (index_by identity [] candidates) ≡ some s.winner
    pub records : All (IsRecord (index_by identity [] candidates)) s.records
    pub measured : contains (map (λ r. r.plan_id) s.records) (identity s.winner) ≡ true

  accept-records :
      (winner : Plan) (rs : List PlanRecord)
      → contains (map (λ r. r.plan_id) rs) (identity winner) ≡ true
      → accept identity dumps loads winner (map some rs) ≡ some (winner, rs)
  unfolding accept
  accept-records winner [] h = ground arith
  accept-records winner (r ∷ rs) h = rw (all_some-map rs, h, accept)

  read_data-payload :
      (candidates : List Plan) (s : Selection identity dumps loads)
      → IsSelection candidates s
      → read_data identity dumps loads s.key candidates (payload identity dumps loads s)
        ≡ ok (some (s.winner, s.records))
  unfolding read_data lookup read_records
  read_data-payload candidates s h =
      let same_key = (string_eq.beq_iff s.key s.key).1 refl in
      let all = items-array_of (map (record_json identity dumps loads) s.records) in
      let each = records-read (index_by identity [] candidates) s.records h.records in
      rw (same_key, h.winner, all, each, accept-records s.winner s.records h.measured)

  pub read-stored :
      (files : Dict String String) (candidates : List Plan) (s : Selection identity dumps loads)
      → IsSelection candidates s
      → loads (dumps (payload identity dumps loads s)) ≡ ok (payload identity dumps loads s)
      → get (path s.key) files ≡ some (dumps (payload identity dumps loads s))
      → read identity dumps loads files s.key candidates ≡ ok (some (s.winner, s.records))
  unfolding read
  read-stored files candidates s h parsed there =
      let content = dumps (payload identity dumps loads s) in
      let text_read : read_text identity dumps loads files (path s.key) ≡ ok content =
        rw (there, read_text) in
      rw (text_read, parsed, read_data-payload candidates s h)

  read-published :
      (cache : SelectionCache identity dumps loads) (candidates : List Plan)
      (s : Selection identity dumps loads)
      → IsSelection candidates s
      → loads (dumps (payload identity dumps loads s)) ≡ ok (payload identity dumps loads s)
      → read identity dumps loads (publish identity dumps loads cache s).files s.key candidates
        ≡ ok (some (s.winner, s.records))
  unfolding publish
  read-published cache candidates s h parsed =
      let same_path = (string_eq.beq_iff (path s.key) (path s.key)).1 refl in
      let content = dumps (payload identity dumps loads s) in
      read-stored (put (path s.key) content cache.files) candidates s h parsed
        (get-put (path s.key) (path s.key) content cache.files ∙ rw same_path)

  -- A selection among the candidates, whose records have a known status, a latency and samples, and
  -- whose winner is recorded, is given back with its records by a cache that starts later on the same
  -- files, if JSON reads back what it wrote.
  pub publish-restart-get :
      (cache : SelectionCache identity dumps loads) (candidates : List Plan)
      (s : Selection identity dumps loads)
      → IsSelection candidates s
      → loads (dumps (payload identity dumps loads s)) ≡ ok (payload identity dumps loads s)
      → (next : SelectionCache identity dumps loads) × (get_selection identity dumps loads
            (restart identity dumps loads (publish identity dumps loads cache s))
            s.key
            candidates
          ≡ ok (some (s.winner, s.records), next))
        × (next.files ≡ (publish identity dumps loads cache s).files)
  unfolding get_selection publish get
  publish-restart-get cache candidates s h parsed =
      let back = read-published cache candidates s h parsed in
      (
        record {
          files = (publish identity dumps loads cache s).files;
          memory = put s.key (s.winner, s.records) [];
        },
        rw back,
        refl,
      )
