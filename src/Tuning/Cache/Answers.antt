-- ===== src/Tuning/Cache/Answers.antt =====
-- src/cpuattn/tuning/cache.py: what the cache answers over a history.
use cpuattn.Prelude.{
  ◌≡◌, refl, sym, ◌∙◌, ap, String, string_eq, none, some, List, [], ◌∷◌, Result, ok, inl, inr,
  Option-cases, All,
}
use cpuattn.Prelude.Dict.{Dict, get, put}
use cpuattn.Tuning.Cache.{
  Json, path, SelectionCache, Selection, restart, read, read_text, get_selection, payload, publish,
}
use cpuattn.Tuning.Cache.Restart.{read-stored}
use cpuattn.Tuning.Cache.History.{
  Event, answers, promised, pair_of, content_of, Published, Agrees, restart-Agrees, publish-Agrees,
  keep-Agrees,
}

module _ {Plan : Type 0} (identity : Plan → String) (dumps : Json → String)
    (loads : String → Result Json) (candidates : List Plan) where
  read-latest :
      (cache : SelectionCache identity dumps loads)
      (latest : Dict String (Selection identity dumps loads)) (key : String)
      → Agrees identity dumps loads candidates cache latest
      → read identity dumps loads cache.files key candidates
        ≡ ok (pair_of identity dumps loads candidates (get key latest))
  unfolding read
  read-latest cache latest key a = elim (Option-cases (get key latest)) [
    | inl nothing ↦
        let absent : get (path key) cache.files ≡ none =
          a.files key ∙ ap (content_of identity dumps loads candidates) nothing in
        rw (nothing, absent, read_text)
    | inr (s, here) ↦
        let (named, h) = rw here at (a.stored key) in
        let there : get (path s.key) cache.files ≡ some (dumps (payload identity dumps loads s)) =
          ap (λ k. get (path k) cache.files) named
          ∙ a.files key
          ∙ ap (content_of identity dumps loads candidates) here in
        ap (λ k. read identity dumps loads cache.files k candidates) (sym named)
        ∙ read-stored identity dumps loads cache.files candidates s h.selection h.parsed there
        ∙ sym (ap (λ o. ok (pair_of identity dumps loads candidates o)) here)
  ]

  read-Agrees :
      (cache : SelectionCache identity dumps loads)
      (latest : Dict String (Selection identity dumps loads)) (key : String)
      → get key cache.memory ≡ none
      → Agrees identity dumps loads candidates cache latest
      → (next : SelectionCache identity dumps loads) × (get_selection identity dumps loads cache key
            candidates
          ≡ ok (pair_of identity dumps loads candidates (get key latest), next))
        × Agrees identity dumps loads candidates next latest
  unfolding get_selection
  read-Agrees cache latest key unread a =
      let found = read-latest cache latest key a in
      elim (Option-cases (pair_of identity dumps loads candidates (get key latest))) [
        | inl nothing ↦ (cache, rw (unread, found, nothing, get_selection), a)
        | inr (c, here) ↦ (
          record { files = cache.files; memory = put key c cache.memory },
          rw (unread, found, here, get_selection),
          keep-Agrees identity dumps loads candidates cache latest key c here a,
        )
      ]

  get-Agrees :
      (cache : SelectionCache identity dumps loads)
      (latest : Dict String (Selection identity dumps loads)) (key : String)
      → Agrees identity dumps loads candidates cache latest
      → (next : SelectionCache identity dumps loads) × (get_selection identity dumps loads cache key
            candidates
          ≡ ok (pair_of identity dumps loads candidates (get key latest), next))
        × Agrees identity dumps loads candidates next latest
  unfolding get_selection
  get-Agrees cache latest key a = elim (Option-cases (get key cache.memory)) [
    | inl unread ↦ read-Agrees cache latest key unread a
    | inr (c, known) ↦ elim (a.memory key) [
      | inl unread ↦ read-Agrees cache latest key unread a
      | inr same ↦ (cache, rw (known, sym same ∙ known, get_selection), a)
    ]
  ]

  answers-Agrees :
      (events : List (Event identity dumps loads candidates))
      (cache : SelectionCache identity dumps loads)
      (latest : Dict String (Selection identity dumps loads))
      → All (Published identity dumps loads candidates) events
      → Agrees identity dumps loads candidates cache latest
      → answers identity dumps loads candidates events cache
        ≡ ok (promised identity dumps loads candidates events latest)
  unfolding answers promised
  answers-Agrees [] cache latest h a = refl
  answers-Agrees (Event.published s ∷ events) cache latest h a =
      answers-Agrees events (publish identity dumps loads cache s) (put s.key s latest) h.1
        (publish-Agrees identity dumps loads candidates cache latest s h.0 a)
  answers-Agrees (Event.restarted ∷ events) cache latest h a =
      answers-Agrees events (restart identity dumps loads cache) latest h.1
        (restart-Agrees identity dumps loads candidates cache latest a)
  answers-Agrees (Event.asked key ∷ events) cache latest h a =
      let (next, found, b) = get-Agrees cache latest key a in
      rw (found, answers-Agrees events next latest h.1 b)

  -- A cache that starts on an empty directory answers every question, in whatever order selections
  -- are published, asked for and the process is started again, with the selection that was last
  -- published under the key, and with none if there is no such selection, as a map in memory does
  -- that is never lost. The candidates are the same at each question, every selection that is
  -- published is among them, its records have a known status, a latency and samples, its winner is
  -- recorded, and JSON reads back what it wrote.
  pub answers-promised :
      (events : List (Event identity dumps loads candidates))
      → All (Published identity dumps loads candidates) events
      → answers identity dumps loads candidates events (record { files = []; memory = [] })
        ≡ ok (promised identity dumps loads candidates events [])
  unfolding get
  answers-promised events h =
      answers-Agrees events (record { files = []; memory = [] }) [] h
        (record { stored = λ key. tt; files = λ key. refl; memory = λ key. inl refl })
