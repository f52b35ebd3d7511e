-- ===== src/Tuning/Cache/Tame.antt =====
-- src/cpuattn/tuning/cache.py: a record that is read is of a candidate, or the read gives nothing or
-- raises what _read catches.
use cpuattn.Prelude.{
  ℕ, ◌≡◌, refl, String, true, ◌||◌, ◌==◌, string_eq, Option, none, some, List, [], ◌∷◌, Result, ok,
  err, os_error, type_error, value_error, All, ◌>>=◌, traverse, Bool-cases, Option-cases, inl, inr,
}
use cpuattn.Prelude.Dict.{Dict, get}
use cpuattn.Tuning.Cache.{
  Json, Jsons, Fields, lookup, items, count_of, counts_of, samples_field, known_status,
  complete_record, caught, record_of, record_for, record_with,
}
use cpuattn.Tuning.Cache.Restart.{IsRecord}

-- What holds of the value, if there is one.
abbrev pub Holds : {A : Type 0} → (A → Type 0) → Option A → Type 0
Holds P none = Unit
Holds P (some a) = P a

-- A computation that gives a good value or raises what _read catches.
abbrev pub Tame : {A : Type 0} → (A → Type 0) → Result A → Type 0
Tame P (ok a) = P a
Tame P (err (os_error m)) = Unit
Tame P (err (type_error m)) = Unit
Tame P (err (value_error m)) = Unit
Tame P (err e) = ⊥

pub Tame-bind :
    {A B : Type 0} (P : A → Type 0) (Q : B → Type 0) (m : Result A) (f : A → Result B)
    → Tame P m
    → ((a : A) → P a → Tame Q (f a))
    → Tame Q (m >>= f)
Tame-bind P Q (ok a) f h k = k a h
Tame-bind P Q (err (os_error m)) f h k = tt
Tame-bind P Q (err (type_error m)) f h k = tt
Tame-bind P Q (err (value_error m)) f h k = tt
Tame-bind P Q (err e) f h k = elim h [ ]

pub Tame-traverse :
    {A B : Type 0} (P : B → Type 0) (f : A → Result B) (xs : List A)
    → ((a : A) → Tame P (f a))
    → Tame (All P) (traverse f xs)
Tame-traverse P f [] h = tt
Tame-traverse P f (x ∷ xs) h =
    Tame-bind P (All P) (f x) _ (h x)
      λ y p. Tame-bind (All P) (All P) (traverse f xs) _ (Tame-traverse P f xs h) λ ys ps. (p, ps)

pub caught-Holds :
    {A : Type 0} (P : A → Type 0) (m : Result (Option A))
    → Tame (Holds P) m
    → (found : Option A) × (caught m ≡ ok found) × Holds P found
caught-Holds P (ok a) h = (a, refl, h)
caught-Holds P (err (os_error m)) h = (none, refl, tt)
caught-Holds P (err (type_error m)) h = (none, refl, tt)
caught-Holds P (err (value_error m)) h = (none, refl, tt)
caught-Holds P (err e) h = elim h [ ]

known_status-Tame :
    (j : Json) → Tame (Holds (λ s. (s == "measured" || s == "selected") ≡ true)) (known_status j)
unfolding known_status
known_status-Tame (Json.text s) = elim (Bool-cases (s == "measured" || s == "selected")) [
  | inl known ↦ rw known known
  | inr other ↦ rw other tt
]
known_status-Tame (Json.array _) = tt
known_status-Tame (Json.object _) = tt
known_status-Tame _ = tt

counts_of-some :
    (js : List Json) (j : Json)
    → Holds (λ (ns : List ℕ). (n : ℕ) × (rest : List ℕ) × (ns ≡ n ∷ rest)) (counts_of (j ∷ js))
unfolding counts_of
counts_of-some js j = elim (Option-cases (count_of j)) [
  | inl odd ↦ rw (odd, counts_of) tt
  | inr (n, here) ↦ elim (Option-cases (counts_of js)) [
    | inl later ↦ rw (here, later, counts_of) tt
    | inr (ns, rest) ↦ rw (here, rest, counts_of) (n, ns, refl)
  ]
]

samples_field-some :
    (j : Json)
    → Holds (λ (ns : List ℕ). (n : ℕ) × (rest : List ℕ) × (ns ≡ n ∷ rest)) (samples_field j)
unfolding samples_field
samples_field-some (Json.array Jsons.nil) = tt
samples_field-some (Json.array (Jsons.cons j js)) = counts_of-some (items js) j
samples_field-some _ = tt

module _ {Plan : Type 0} (identity : Plan → String) (dumps : Json → String)
    (loads : String → Result Json) where
  complete_record-IsRecord :
      (by_id : Dict String Plan) (plan_id : String) (plan : Plan) (status : Option String)
      (latency : Option ℕ) (samples : Option (List ℕ))
      → get plan_id by_id ≡ some plan
      → Holds (λ s. (s == "measured" || s == "selected") ≡ true) status
      → Holds (λ (ns : List ℕ). (n : ℕ) × (rest : List ℕ) × (ns ≡ n ∷ rest)) samples
      → Holds (IsRecord identity dumps loads by_id) (complete_record plan_id status latency samples)
  unfolding complete_record
  complete_record-IsRecord by_id plan_id plan (some s) (some n) (some ns) legal known
        (k, ks, same) =
      record {
        plan = plan;
        legal = legal;
        status = known;
        latency = n;
        timed = refl;
        first_sample = k;
        samples = ks;
        sampled = same;
      }
  complete_record-IsRecord by_id plan_id plan none latency samples legal known h = tt
  complete_record-IsRecord by_id plan_id plan (some s) none samples legal known h = tt
  complete_record-IsRecord by_id plan_id plan (some s) (some n) none legal known h = tt

  record_for-Tame :
      (by_id : Dict String Plan) (plan_id : String) (found : Option Plan) (fields : Fields)
      → get plan_id by_id ≡ found
      → Tame
          (Holds (IsRecord identity dumps loads by_id))
          (record_for identity dumps loads plan_id found fields)
  unfolding record_for
  record_for-Tame by_id plan_id none fields h = tt
  record_for-Tame by_id plan_id (some plan) fields h =
      Tame-bind (Holds (λ s. (s == "measured" || s == "selected") ≡ true)) _
        (known_status (lookup "status" fields)) _ (known_status-Tame (lookup "status" fields))
        λ status known.
          complete_record-IsRecord by_id plan_id plan status (count_of (lookup "latency_ns" fields))
            (samples_field (lookup "samples_ns" fields)) h known
            (samples_field-some (lookup "samples_ns" fields))

  record_with-Tame :
      (by_id : Dict String Plan) (j : Json) (fields : Fields)
      → Tame
          (Holds (IsRecord identity dumps loads by_id))
          (record_with identity dumps loads by_id j fields)
  record_with-Tame by_id (Json.text plan_id) fields =
      record_for-Tame by_id plan_id (get plan_id by_id) fields refl
  record_with-Tame by_id _ fields = tt

  pub record_of-Tame :
      (by_id : Dict String Plan) (j : Json)
      → Tame (Holds (IsRecord identity dumps loads by_id)) (record_of identity dumps loads by_id j)
  unfolding record_of
  record_of-Tame by_id (Json.object fields) =
      record_with-Tame by_id (lookup "plan_id" fields) fields
  record_of-Tame by_id _ = tt
