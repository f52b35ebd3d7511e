-- ===== src/Tuning/Cache/Checks.antt =====
-- src/cpuattn/tuning/cache.py: whatever a file holds, a read neither raises nor gives a selection that
-- was not checked.
use cpuattn.Prelude.{
  ◌≡◌, refl, String, true, string_eq, Option, none, some, List, [], ◌∷◌, map, contains, Result, ok,
  err, os_error, All, traverse, Bool-cases, inl, inr,
}
use cpuattn.Prelude.Dict.{Dict, get, put, index_by}
use cpuattn.Tuning.Cache.{
  Json, lookup, items, PlanRecord, all_some, path, SelectionCache, CachedSelection, record_of,
  winner_of, is_key, accept, accept_records, read_records, read_data, read_text, read,
  get_selection,
}
use cpuattn.Tuning.Cache.Restart.{IsRecord}
use cpuattn.Tuning.Cache.Tame.{Holds, Tame, Tame-bind, Tame-traverse, caught-Holds, record_of-Tame}

module _ {Plan : Type 0} (identity : Plan → String) (dumps : Json → String)
    (loads : String → Result Json) where
  -- A checked selection: a candidate, with checked records, one of them its own.
  pub record IsChecked (by_id : Dict String Plan) (c : CachedSelection identity dumps loads)
      : Type 0 where
    pub key : String
    pub legal : get key by_id ≡ some c.0
    pub records : All (IsRecord identity dumps loads by_id) c.1
    pub measured : contains (map (λ r. r.plan_id) c.1) (identity c.0) ≡ true

  all_some-All :
      (P : PlanRecord → Type 0) (xs : List (Option PlanRecord))
      → All (Holds P) xs
      → Holds (All P) (all_some xs)
  all_some-All P [] h = tt
  all_some-All P (none ∷ xs) h = tt
  all_some-All P (some x ∷ xs) h = go (all_some xs) (all_some-All P xs h.1)
    where
      go :
          (o : Option (List PlanRecord))
          → Holds (All P) o
          → Holds (All P) (elim o [ none ↦ none | some ys ↦ some (x ∷ ys) ])
      go none k = tt
      go (some ys) k = (h.0, k)

  accept_records-IsChecked :
      (by_id : Dict String Plan) (key : String) (w : Plan) (o : Option (List PlanRecord))
      → get key by_id ≡ some w
      → Holds (All (IsRecord identity dumps loads by_id)) o
      → Holds (IsChecked by_id) (accept_records identity dumps loads w o)
  accept_records-IsChecked by_id key w none legal h = tt
  accept_records-IsChecked by_id key w (some rs) legal h =
      elim (Bool-cases (contains (map (λ r. r.plan_id) rs) (identity w))) [
        | inr absent ↦ rw absent tt
        | inl there ↦ rw there (record { key = key; legal = legal; records = h; measured = there })
      ]

  accept-IsChecked :
      (by_id : Dict String Plan) (key : String) (w : Plan) (xs : List (Option PlanRecord))
      → get key by_id ≡ some w
      → All (Holds (IsRecord identity dumps loads by_id)) xs
      → Holds (IsChecked by_id) (accept identity dumps loads w xs)
  unfolding accept
  accept-IsChecked by_id key w [] legal h = tt
  accept-IsChecked by_id key w (x ∷ xs) legal h =
      accept_records-IsChecked by_id key w (all_some (x ∷ xs)) legal
        (all_some-All (IsRecord identity dumps loads by_id) (x ∷ xs) h)

  read_records-Tame :
      (by_id : Dict String Plan) (winner : Option Plan) (j : Json)
      → Holds (λ w. (key : String) × (get key by_id ≡ some w)) winner
      → Tame (Holds (IsChecked by_id)) (read_records identity dumps loads by_id winner j)
  unfolding read_records
  read_records-Tame by_id none j h = tt
  read_records-Tame by_id (some w) (Json.array js) (key, legal) =
      Tame-bind (All (Holds (IsRecord identity dumps loads by_id))) _
        (traverse (record_of identity dumps loads by_id) (items js)) _
        (Tame-traverse _ (record_of identity dumps loads by_id) (items js)
          (record_of-Tame identity dumps loads by_id))
        λ rs good. accept-IsChecked by_id key w rs legal good
  read_records-Tame by_id (some w) _ h = tt

  winner_of-Tame :
      (by_id : Dict String Plan) (j : Json)
      → Tame
          (Holds (λ w. (key : String) × (get key by_id ≡ some w)))
          (winner_of identity dumps loads by_id j)
  winner_of-Tame by_id (Json.text id) = go (get id by_id) refl
    where
      go :
          (o : Option Plan)
          → get id by_id ≡ o
          → Holds (λ w. (key : String) × (get key by_id ≡ some w)) o
      go none h = tt
      go (some w) h = (id, h)
  winner_of-Tame by_id (Json.array _) = tt
  winner_of-Tame by_id (Json.object _) = tt
  winner_of-Tame by_id _ = tt

  read_data-Tame :
      (key : String) (candidates : List Plan) (j : Json)
      → Tame
          (Holds (IsChecked (index_by identity [] candidates)))
          (read_data identity dumps loads key candidates j)
  unfolding read_data
  read_data-Tame key candidates (Json.object fields) =
      elim (Bool-cases (is_key identity dumps loads key (lookup "key" fields))) [
        | inr other ↦ rw other tt
        | inl same ↦
            let by_id = index_by identity [] candidates in
            rw same (
              Tame-bind (Holds (λ w. (k : String) × (get k by_id ≡ some w))) _
                (winner_of identity dumps loads by_id (lookup "winner_plan_id" fields)) _
                (winner_of-Tame by_id (lookup "winner_plan_id" fields))
                (λ winner legal. read_records-Tame by_id winner (lookup "records" fields) legal))
      ]
  read_data-Tame key candidates _ = tt

  -- The parser gives a value or raises a ValueError.
  abbrev pub IsParser : Type 0
  IsParser = (content : String) → Tame (λ (j : Json). Unit {0}) (loads content)

  read_text-Tame :
      (files : Dict String String) (name : String)
      → Tame (λ (content : String). Unit {0}) (read_text identity dumps loads files name)
  read_text-Tame files name = go (get name files)
    where
      go :
          (o : Option String)
          → Tame
              (λ (content : String). Unit {0})
              (elim o [ none ↦ err (os_error "no such file") | some content ↦ ok content ])
      go none = tt
      go (some content) = tt

  read-IsChecked :
      (files : Dict String String) (key : String) (candidates : List Plan)
      → IsParser
      → (found : Option (CachedSelection identity dumps loads)) × (read identity dumps loads files
            key candidates
          ≡ ok found)
        × Holds (IsChecked (index_by identity [] candidates)) found
  unfolding read
  read-IsChecked files key candidates parses =
      caught-Holds (IsChecked (index_by identity [] candidates)) _ (
        Tame-bind (λ (content : String). Unit {0}) _
          (read_text identity dumps loads files (path key)) _ (read_text-Tame files (path key))
          λ content u.
            Tame-bind (λ (j : Json). Unit {0}) _ (loads content) _ (parses content)
              λ j v. read_data-Tame key candidates j)

  -- For a key that is not in memory, whatever the files hold and a parser that gives a value or raises
  -- what _read catches: get does not raise, and gives nothing or a checked selection. Its winner is a
  -- candidate, and each of its records, one of them the winner's, is of a candidate and has a known
  -- status, a latency and samples. The files stay.
  pub get_selection-IsChecked :
      (cache : SelectionCache identity dumps loads) (key : String) (candidates : List Plan)
      → IsParser
      → get key cache.memory ≡ none
      → (found : Option (CachedSelection identity dumps loads)) × (next : SelectionCache identity
          dumps loads)
        × (get_selection identity dumps loads cache key candidates ≡ ok (found, next))
        × (next.files ≡ cache.files)
        × Holds (IsChecked (index_by identity [] candidates)) found
  unfolding get_selection
  get_selection-IsChecked cache key candidates parses missing =
      let (found, returned, checked) = read-IsChecked cache.files key candidates parses in
      go found returned checked
    where
      go :
          (found : Option (CachedSelection identity dumps loads))
          → read identity dumps loads cache.files key candidates ≡ ok found
          → Holds (IsChecked (index_by identity [] candidates)) found
          → (result : Option (CachedSelection identity dumps loads)) × (next : SelectionCache
              identity dumps loads)
            × (get_selection identity dumps loads cache key candidates ≡ ok (result, next))
            × (next.files ≡ cache.files)
            × Holds (IsChecked (index_by identity [] candidates)) result
      go none returned checked = (none, cache, rw (missing, returned, get_selection), refl, tt)
      go (some c) returned checked = (
        some c,
        record { files = cache.files; memory = put key c cache.memory },
        rw (missing, returned, get_selection),
        refl,
        checked,
      )
