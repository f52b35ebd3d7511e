-- ===== src/Prelude/Groups.antt =====
-- Python's d.setdefault(k, []).append(v): a dictionary of lists, and what it holds in all.
use cpuattn.Prelude.Tests.{Eq, ◌==◌, if◌then◌else◌, Bool-cases}
use cpuattn.Prelude.Lists.{All, concat}
use cpuattn.Prelude.Members.{count, count-append}
use cpuattn.Prelude.Sort.{sort, insert_sorted}
use cpuattn.Prelude.Dict.{Dict, values}
use Prim.Native.Nat.{◌+◌}
use mathlib.Core.Logic.{inl, inr}
use mathlib.Core.Path.{◌≡◌, refl, sym, subst}
use mathlib.Core.Bool.{Bool}
use mathlib.Core.List.{List, [], ◌∷◌, ◌++◌}
use native.Mathlib.Omega.{arith}

module _ {ℓ κ} {K : Type ℓ} {V : Type κ} ⦃e : Eq K⦄ where
  unfoldable pub append_to : K → V → Dict K (List V) → Dict K (List V)
  append_to k v [] = (k, v ∷ []) ∷ []
  append_to k v ((j, vs) ∷ d) = if k == j then (j, vs ++ v ∷ []) ∷ d else (j, vs) ∷ append_to k v d

  -- Every key's list is of the values that belong to it.
  pub All-append_to {u} :
      (P : K × List V → Type u) (k : K) (v : V) (d : Dict K (List V))
      → P (k, v ∷ [])
      → ((vs : List V) → P (k, vs) → P (k, vs ++ v ∷ []))
      → All P d
      → All P (append_to k v d)
  unfolding append_to
  All-append_to P k v [] new more h = (new, tt)
  All-append_to P k v ((j, vs) ∷ d) new more h = elim (Bool-cases (k == j)) [
    | inl here ↦
        let same = (e.beq_iff k j).0 here in
        rw here (
          subst (λ i. P (i, vs ++ v ∷ [])) same (more vs (subst (λ i. P (i, vs)) (sym same) h.0)),
          h.1,
        )
    | inr there ↦ rw there (h.0, All-append_to P k v d new more h.1)
  ]

  -- All the values, key by key.
  abbrev pub spread : Dict K (List V) → List V
  spread d = concat (values d)

  module _ ⦃f : Eq V⦄ where
    pub count-append_to :
        (a : V) (k : K) (v : V) (d : Dict K (List V))
        → count a (spread (append_to k v d)) ≡ count a (spread d) + (if a == v then 1 else 0)
    unfolding append_to
    count-append_to a k v [] = omega arith
    count-append_to a k v ((j, vs) ∷ d) = elim (Bool-cases (k == j)) [
      | inl here ↦ rw here (
          omega (
            arith,
            count-append a vs (v ∷ []),
            count-append a (vs ++ v ∷ []) (spread d),
            count-append a vs (spread d),
          ))
      | inr there ↦ rw there (
          omega (
            arith,
            count-append_to a k v d,
            count-append a vs (spread (append_to k v d)),
            count-append a vs (spread d),
          ))
    ]

    module _ (le : K × List V → K × List V → Bool) where
      count-insert :
          (a : V) (k : K) (vs : List V) (d : Dict K (List V))
          → count a (spread (insert_sorted le (k, vs) d)) ≡ count a vs + count a (spread d)
      unfolding insert_sorted
      count-insert a k vs [] = count-append a vs []
      count-insert a k vs ((j, ws) ∷ d) = elim (Bool-cases (le (k, vs) (j, ws))) [
        | inl first ↦ rw first (count-append a vs (ws ++ spread d))
        | inr later ↦ rw later (
            omega (
              arith,
              count-append a ws (spread (insert_sorted le (k, vs) d)),
              count-insert a k vs d,
              count-append a ws (spread d),
            ))
      ]

      pub count-spread-sort :
          (a : V) (d : Dict K (List V)) → count a (spread (sort le d)) ≡ count a (spread d)
      unfolding sort
      count-spread-sort a [] = refl
      count-spread-sort a ((k, vs) ∷ d) = omega (
        arith,
        count-insert a k vs (sort le d),
        count-spread-sort a d,
        count-append a vs (spread d),
      )
