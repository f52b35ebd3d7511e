-- ===== src/Prelude/Dict.antt =====
-- Python's dict: an association list in insertion order. A write to a key that is there keeps its
-- place.
use cpuattn.Prelude.Tests.{Eq, ◌==◌, if◌then◌else◌, Bool-cases}
use cpuattn.Prelude.Members.{contains}
use cpuattn.Prelude.Lists.{All}
use mathlib.Core.Logic.{inl, inr}
use mathlib.Core.Path.{◌≡◌, refl}
use mathlib.Core.Bool.{true, ◌||◌}
use mathlib.Core.Option.{Option, none, some}
use mathlib.Core.List.{List, [], ◌∷◌, map}
use native.Mathlib.Omega.{arith}

abbrev pub Dict {ℓ κ} : Type ℓ → Type κ → Type (ℓ ⊔ κ)
Dict K V = List (K × V)

module _ {ℓ κ} {K : Type ℓ} {V : Type κ} where
  abbrev pub keys : Dict K V → List K
  keys d = map (λ e. e.0) d

  abbrev pub values : Dict K V → List V
  values d = map (λ e. e.1) d

module _ {ℓ κ} {K : Type ℓ} {V : Type κ} ⦃e : Eq K⦄ where
  -- d.get(k)
  unfoldable pub get : K → Dict K V → Option V
  get k [] = none
  get k ((j, v) ∷ d) = if k == j then some v else get k d

  -- d[k] = v
  unfoldable pub put : K → V → Dict K V → Dict K V
  put k v [] = (k, v) ∷ []
  put k v ((j, w) ∷ d) = if k == j then (j, v) ∷ d else (j, w) ∷ put k v d

  pub get-put :
      (j k : K) (v : V) (d : Dict K V) → get j (put k v d) ≡ (if j == k then some v else get j d)
  unfolding get put
  get-put j k v [] = refl
  get-put j k v ((i, w) ∷ d) =
      ground (arith, e.beq_iff j k, e.beq_iff j i, e.beq_iff k i, get-put j k v d)

  pub get_of_key :
      (k : K) (d : Dict K V) → contains (keys d) k ≡ true → (v : V) × (get k d ≡ some v)
  unfolding get
  get_of_key k ((j, v) ∷ d) h = elim (Bool-cases (k == j)) [
    | inl here ↦ (v, rw here)
    | inr there ↦ let (w, q) = get_of_key k d (rw there at h) in (w, rw there q)
  ]
  get_of_key k [] h = cc

  pub keys-put :
      (k : K) (v : V) (d : Dict K V) (j : K)
      → contains (keys (put k v d)) j ≡ (j == k || contains (keys d) j)
  unfolding put
  keys-put k v [] j = refl
  keys-put k v ((i, w) ∷ d) j =
      ground (arith, e.beq_iff k i, e.beq_iff j i, e.beq_iff j k, keys-put k v d j)

-- What holds of the values of a dictionary holds after a write.
pub All-put {ℓ κ u} :
    {K : Type ℓ} {V : Type κ} ⦃e : Eq K⦄ (P : V → Type u) (k : K) (v : V) (d : Dict K V)
    → P v
    → All (λ i. P i.1) d
    → All (λ i. P i.1) (put k v d)
unfolding put
All-put P k v [] p h = (p, tt)
All-put P k v ((j, w) ∷ d) p h = elim (Bool-cases (k == j)) [
  | inl here ↦ rw here (p, h.1)
  | inr there ↦ rw there (h.0, All-put P k v d p h.1)
]

pub All-values {ℓ κ u} :
    {K : Type ℓ} {V : Type κ} (P : V → Type u) (d : Dict K V)
    → All (λ i. P i.1) d
    → All P (values d)
All-values P [] h = tt
All-values P (i ∷ d) h = (h.0, All-values P d h.1)

-- {key(x): x for x in xs}, added to what is there.
unfoldable pub index_by {ℓ κ} :
    {K : Type ℓ} {A : Type κ} ⦃e : Eq K⦄ → (A → K) → Dict K A → List A → Dict K A
unfolding put
index_by key d [] = d
index_by key d (x ∷ xs) = index_by key (put (key x) x d) xs

pub All-index_by {ℓ κ u} :
    {K : Type ℓ} {A : Type κ} ⦃e : Eq K⦄ (P : A → Type u) (key : A → K) (d : Dict K A) (xs : List A)
    → All (λ i. P i.1) d
    → All P xs
    → All (λ i. P i.1) (index_by key d xs)
unfolding index_by
All-index_by P key d [] h k = h
All-index_by P key d (x ∷ xs) h k =
    All-index_by P key (put (key x) x d) xs (All-put P (key x) x d k.0 h) k.1
