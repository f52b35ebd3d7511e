-- ===== src/Tuning/Cache/History.antt =====
-- src/cpuattn/tuning/cache.py over a history: selections are published, asked for, and the process
-- starts again on the same files.
use text.Mathlib.TextLemmas.{append_cancel_right}
use cpuattn.Prelude.{
  ◌≡◌, refl, sym, ◌∙◌, ap, String, ◌==◌, string_eq, Option, none, some, List, [], ◌∷◌, Result, ok,
  ◌>>=◌, ◌⊎◌, inl, inr, Bool-cases,
}
use cpuattn.Prelude.Dict.{Dict, get, put, get-put}
use cpuattn.Tuning.Cache.{
  Json, path, CachedSelection, SelectionCache, Selection, restart, get_selection, payload, publish,
}
use cpuattn.Tuning.Cache.Restart.{IsSelection}
use cpuattn.Tuning.Cache.Tame.{Holds}

same-path : (j k : String) → (path j == path k) ≡ (j == k)
same-path j k = elim (Bool-cases (j == k)) [
  | inl same ↦
      let at_path = ap path ((string_eq.beq_iff j k).0 same) in
      (string_eq.beq_iff (path j) (path k)).1 at_path ∙ sym same
  | inr other ↦ elim (Bool-cases (path j == path k)) [
    | inl same ↦
        let keys = append_cancel_right j k ".json" ((string_eq.beq_iff (path j) (path k)).0 same) in
        same ∙ sym ((string_eq.beq_iff j k).1 keys)
    | inr differ ↦ differ ∙ sym other
  ]
]

module _ {Plan : Type 0} (identity : Plan → String) (dumps : Json → String)
    (loads : String → Result Json) (candidates : List Plan) where
  pub data Event : Type 0 where
    published : Selection identity dumps loads → Event
    asked : String → Event
    restarted : Event

  -- What the cache answers to each question.
  unfoldable pub answers :
      List Event
      → SelectionCache identity dumps loads
      → Result (List (Option (CachedSelection identity dumps loads)))
  unfolding get_selection publish
  answers [] cache = ok []
  answers (Event.published s ∷ events) cache = answers events (publish identity dumps loads cache s)
  answers (Event.restarted ∷ events) cache = answers events (restart identity dumps loads cache)
  answers (Event.asked key ∷ events) cache = do
    (found, next) ← get_selection identity dumps loads cache key candidates
    rest ← answers events next
    ok (found ∷ rest)

  abbrev pub pair_of :
      Option (Selection identity dumps loads) → Option (CachedSelection identity dumps loads)
  pair_of none = none
  pair_of (some s) = some (s.winner, s.records)

  -- What a map from keys to the last published selections answers.
  unfoldable pub promised :
      List Event
      → Dict String (Selection identity dumps loads)
      → List (Option (CachedSelection identity dumps loads))
  unfolding get put
  promised [] latest = []
  promised (Event.published s ∷ events) latest = promised events (put s.key s latest)
  promised (Event.restarted ∷ events) latest = promised events latest
  promised (Event.asked key ∷ events) latest = pair_of (get key latest) ∷ promised events latest

  -- A selection among the candidates whose JSON is read back.
  pub record IsPublished (s : Selection identity dumps loads) : Type 0 where
    pub selection : IsSelection identity dumps loads candidates s
    pub parsed :
        loads (dumps (payload identity dumps loads s)) ≡ ok (payload identity dumps loads s)

  abbrev pub Published : Event → Type 0
  Published (Event.published s) = IsPublished s
  Published _ = Unit

  abbrev pub content_of : Option (Selection identity dumps loads) → Option String
  content_of none = none
  content_of (some s) = some (dumps (payload identity dumps loads s))

  abbrev pub IsStored : String → Selection identity dumps loads → Type 0
  IsStored key s = (s.key ≡ key) × IsPublished s

  -- The cache holds the map: its files all of it, its memory a part.
  pub record Agrees (cache : SelectionCache identity dumps loads)
      (latest : Dict String (Selection identity dumps loads)) : Type 0 where
    pub stored : (key : String) → Holds (IsStored key) (get key latest)
    pub files : (key : String) → get (path key) cache.files ≡ content_of (get key latest)
    pub memory :
        (key : String)
        → (get key cache.memory ≡ none) ⊎ (get key cache.memory ≡ pair_of (get key latest))

  pub restart-Agrees :
      (cache : SelectionCache identity dumps loads)
      (latest : Dict String (Selection identity dumps loads))
      → Agrees cache latest
      → Agrees (restart identity dumps loads cache) latest
  unfolding get
  restart-Agrees cache latest a = record {
    stored = a.stored;
    files = a.files;
    memory = λ key. inl refl;
  }

  pub publish-Agrees :
      (cache : SelectionCache identity dumps loads)
      (latest : Dict String (Selection identity dumps loads)) (s : Selection identity dumps loads)
      → IsPublished s
      → Agrees cache latest
      → Agrees (publish identity dumps loads cache s) (put s.key s latest)
  unfolding publish
  publish-Agrees cache latest s h a = record {
    stored = λ key. elim (Bool-cases (key == s.key)) [
      | inl here ↦
          rw (get-put key s.key s latest, here) (sym ((string_eq.beq_iff key s.key).0 here), h)
      | inr there ↦ rw (get-put key s.key s latest, there) (a.stored key)
    ];
    files = λ key. elim (Bool-cases (key == s.key)) [
      | inl here ↦ rw (
        get-put key s.key s latest,
        get-put (path key) (path s.key) (dumps (payload identity dumps loads s)) cache.files,
        same-path key s.key,
        here,
      )
      | inr there ↦
          rw
            (
              get-put key s.key s latest,
              get-put (path key) (path s.key) (dumps (payload identity dumps loads s)) cache.files,
              same-path key s.key,
              there,
            )
            (a.files key)
    ];
    memory = λ key. elim (Bool-cases (key == s.key)) [
      | inl here ↦ inr (
          rw (
            get-put key s.key s latest,
            get-put key s.key (s.winner, s.records) cache.memory,
            here,
          ))
      | inr there ↦
          rw
            (
              get-put key s.key s latest,
              get-put key s.key (s.winner, s.records) cache.memory,
              there,
            )
            (a.memory key)
    ];
  }

  pub keep-Agrees :
      (cache : SelectionCache identity dumps loads)
      (latest : Dict String (Selection identity dumps loads)) (key : String)
      (c : CachedSelection identity dumps loads)
      → pair_of (get key latest) ≡ some c
      → Agrees cache latest
      → Agrees (record { files = cache.files; memory = put key c cache.memory }) latest
  keep-Agrees cache latest key c h a = record {
    stored = a.stored;
    files = a.files;
    memory = λ k. elim (Bool-cases (k == key)) [
      | inl here ↦
          inr (rw (get-put k key c cache.memory, here, (string_eq.beq_iff k key).0 here, h))
      | inr there ↦ rw (get-put k key c cache.memory, there) (a.memory k)
    ];
  }
