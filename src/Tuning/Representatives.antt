-- ===== src/Tuning/Representatives.antt =====
-- src/cpuattn/tuning/worker_count.py: the tuner measures plans of the context, of the largest number of
-- workers among others, and none twice.
use mathlib.Core.Path.{subst}
use cpuattn.Prelude.{
  ℕ, ◌<◌, ◌≡◌, refl, sym, ap, ◌∙◌, String, Bool, true, false, not, ◌==◌, nat_eq, pair_eq, string_eq,
  contains, find?, map, All, All-append, Option, none, some, List, [], ◌∷◌, ◌++◌, length, ok,
  >>=-eq-ok, arith, Bool-cases, inl, inr, ◌⊎◌, ok-injective, some-injective,
}
use cpuattn.Prelude.Dict.{get}
use cpuattn.Prelude.Groups.{append_to, All-append_to}
use cpuattn.Schedule.Plan.{PackingKind, ExecutionPlan, workers}
use cpuattn.Tuning.Tuner.{Measurement}
use cpuattn.Tuning.Anchors.{worker_anchors}
use cpuattn.Tuning.WorkerCount.{
  TuningContext, Preference, Groups, key_of, packing_eq, group_plans, legal_workers,
  plan_preference, preferred, first_preferred, represent, represent_all, representatives,
  choose_from, choose_next,
}

-- A plan of a list.
abbrev pub Among : ExecutionPlan → List ExecutionPlan → Type 0
Among p [] = ⊥
Among p (q ∷ qs) = (p ≡ q) ⊎ Among p qs

-- A group holds plans of the context, all under their key.
abbrev IsGrouped : List ExecutionPlan → (ℕ × PackingKind) × List ExecutionPlan → Type 0
IsGrouped candidates entry = All (λ p. Among p candidates × (key_of p ≡ entry.0)) entry.1

group_plans-IsGrouped :
    (candidates ps : List ExecutionPlan) (d : Groups)
    → All (λ p. Among p candidates) ps
    → All (IsGrouped candidates) d
    → All (IsGrouped candidates) (group_plans ps d)
unfolding group_plans
group_plans-IsGrouped candidates [] d h g = g
group_plans-IsGrouped candidates (p ∷ ps) d h g =
    group_plans-IsGrouped candidates ps (append_to (key_of p) p d) h.1 (
      All-append_to (IsGrouped candidates) (key_of p) p d ((h.0, refl), tt)
        (λ vs k. All-append _ vs (p ∷ []) k ((h.0, refl), tt)) g)

All-Among : (ps : List ExecutionPlan) → All (λ p. Among p ps) ps
All-Among ps = go ps (λ p a. a)
  where
    go :
        (qs : List ExecutionPlan)
        → ((p : ExecutionPlan) → Among p qs → Among p ps)
        → All (λ p. Among p ps) qs
    go [] k = tt
    go (q ∷ qs) k = (k q (inl refl), go qs (λ p a. k p (inr a)))

get-IsGrouped :
    (candidates : List ExecutionPlan) (k : ℕ × PackingKind) (d : Groups) (vs : List ExecutionPlan)
    → All (IsGrouped candidates) d
    → get k d ≡ some vs
    → IsGrouped candidates (k, vs)
unfolding get
get-IsGrouped candidates k [] vs g h = cc
get-IsGrouped candidates k ((j, ws) ∷ d) vs g h = elim (Bool-cases (k == j)) [
  | inl here ↦
      let same : ws ≡ vs = some-injective (rw here at h) in
      subst (λ i. IsGrouped candidates (i, vs)) (sym ((pair_eq.beq_iff k j).0 here))
        (subst (λ xs. IsGrouped candidates (j, xs)) same g.0)
  | inr there ↦ get-IsGrouped candidates k d vs g.1 (rw there at h)
]

find_here :
    (p : ExecutionPlan → Bool) (x : ExecutionPlan) (xs : List ExecutionPlan)
    → p x ≡ true
    → find? p (x ∷ xs) ≡ some x
find_here p x xs h = rw (h, find?)

find_there :
    (p : ExecutionPlan → Bool) (x : ExecutionPlan) (xs : List ExecutionPlan)
    → p x ≡ false
    → find? p (x ∷ xs) ≡ find? p xs
find_there p x xs h = rw (h, find?)

module _ (identity : ExecutionPlan → String) (text_le : String → String → Bool)
    (context : TuningContext) where
  first_preferred-keeps :
      (P : ExecutionPlan → Type 0) (best : ExecutionPlan) (key : Preference)
      (ps : List ExecutionPlan) (r : ExecutionPlan)
      → P best
      → All P ps
      → first_preferred identity text_le context (best, key) ps ≡ ok r
      → P r
  unfolding first_preferred
  first_preferred-keeps P best key [] r b h e = subst P (ok-injective best r e) b
  first_preferred-keeps P best key (p ∷ ps) r b h e =
      let (next, q, rest) = >>=-eq-ok (plan_preference identity text_le context p) _ e in
      elim (Bool-cases (preferred identity text_le next key)) [
        | inl less ↦ first_preferred-keeps P p next ps r h.0 h.1 (rw less at rest)
        | inr more ↦ first_preferred-keeps P best key ps r b h.1 (rw more at rest)
      ]

  -- Of a group that is not empty there is one representative.
  represent-keeps :
      (P : ExecutionPlan → Type 0) (group : Option (List ExecutionPlan)) (rs : List ExecutionPlan)
      → ((vs : List ExecutionPlan) → group ≡ some vs → All P vs)
      → represent identity text_le context group ≡ ok rs
      → All P rs × ((vs : List ExecutionPlan) → group ≡ some vs → 0 < length vs → 0 < length rs)
  unfolding represent
  represent-keeps P none rs h e =
      (subst (All P) (ok-injective [] rs e) tt, λ vs same some_plan. absurd (cc same))
  represent-keeps P (some []) rs h e = (
    subst (All P) (ok-injective [] rs e) tt,
    λ vs same some_plan. absurd (ground (arith, ap length (some-injective same), some_plan)),
  )
  represent-keeps P (some (p ∷ ps)) rs h e =
      let (key, q, e1) = >>=-eq-ok (plan_preference identity text_le context p) _ e in
      let (best, b, e2) = >>=-eq-ok (first_preferred identity text_le context (p, key) ps) _ e1 in
      let all = h (p ∷ ps) refl in
      let good = first_preferred-keeps P p key ps best all.0 all.1 b in
      let one = ok-injective (best ∷ []) rs e2 in
      (
        subst (All P) one (good, tt),
        λ vs same some_plan. subst (λ l. 0 < length l) one (omega arith),
      )

  -- A representative: a plan of the context with one of the numbers of workers.
  abbrev pub IsRepresentative : List ℕ → ExecutionPlan → Type 0
  IsRepresentative ws p = Among p context.candidates × (contains ws (workers p.launch) ≡ true)

  weaken :
      (w : ℕ) (ws : List ℕ) (rs : List ExecutionPlan)
      → All (IsRepresentative ws) rs
      → All (IsRepresentative (w ∷ ws)) rs
  weaken w ws [] h = tt
  weaken w ws (r ∷ rs) h = ((h.0.0, ground (arith, h.0.1)), weaken w ws rs h.1)

  represent_all-IsRepresentative :
      (groups : Groups) (ws : List ℕ) (rs : List ExecutionPlan)
      → All (IsGrouped context.candidates) groups
      → represent_all identity text_le context groups ws ≡ ok rs
      → All (IsRepresentative ws) rs
  unfolding represent_all
  represent_all-IsRepresentative groups [] rs g e =
      subst (All (IsRepresentative [])) (ok-injective [] rs e) tt
  represent_all-IsRepresentative groups (w ∷ ws) rs g e =
      let (plain, q1, e1) =
        >>=-eq-ok (represent identity text_le context (get (w, PackingKind.unpacked) groups)) _ e in
      let (packed, q2, e2) =
        >>=-eq-ok (represent identity text_le context (get (w, PackingKind.k_transposed) groups)) _
          e1 in
      let (rest, q3, e3) = >>=-eq-ok (represent_all identity text_le context groups ws) _ e2 in
      let later = weaken w ws rest (represent_all-IsRepresentative groups ws rest g q3) in
      let here =
        λ (k : PackingKind) (xs : List ExecutionPlan)
            (q : represent identity text_le context (get (w, k) groups) ≡ ok xs).
          (represent-keeps (IsRepresentative (w ∷ ws)) (get (w, k) groups) xs
            (λ vs found.
              grouped-IsRepresentative w ws k vs
                (get-IsGrouped context.candidates (w, k) groups vs g found))
            q).0 in
      subst (All (IsRepresentative (w ∷ ws))) (ok-injective (plain ++ packed ++ rest) rs e3) (
        All-append _ (plain ++ packed) rest
          (All-append _ plain packed (here PackingKind.unpacked plain q1)
            (here PackingKind.k_transposed packed q2))
          later)
    where
      grouped-IsRepresentative :
          (w : ℕ) (ws : List ℕ) (k : PackingKind) (vs : List ExecutionPlan)
          → IsGrouped context.candidates ((w, k), vs)
          → All (IsRepresentative (w ∷ ws)) vs
      grouped-IsRepresentative w ws k [] h = tt
      grouped-IsRepresentative w ws k (v ∷ vs) h = (
        (
          h.0.0,
          ground
              (arith, nat_eq.beq_iff w w, ap (λ i. i.0) h.0.1, nat_eq.beq_iff (workers v.launch) w),
        ),
        grouped-IsRepresentative w ws k vs h.1,
      )

  -- The anchors of the context.
  abbrev pub anchors : Option ℕ → List ℕ
  anchors limit =
      worker_anchors context.cpus limit (legal_workers (group_plans context.candidates []))

  representatives-IsRepresentative :
      (limit : Option ℕ) (plans : List ExecutionPlan)
      → representatives identity text_le context limit ≡ ok plans
      → All (IsRepresentative (anchors limit)) plans
  unfolding representatives
  representatives-IsRepresentative limit plans e =
      represent_all-IsRepresentative (group_plans context.candidates []) (anchors limit) plans
        (group_plans-IsGrouped context.candidates context.candidates []
          (All-Among context.candidates) tt)
        e

  choose_from-new :
      (P : ExecutionPlan → Type 0) (plans : List ExecutionPlan)
      (history : List (Measurement ExecutionPlan)) (p : ExecutionPlan)
      → All P plans
      → choose_from identity text_le plans history ≡ some p
      → P p × (contains (map (λ m. identity m.plan) history) (identity p) ≡ false)
  unfolding choose_from
  choose_from-new P [] history p h e = cc
  choose_from-new P (q ∷ qs) history p h e =
      let fresh : ExecutionPlan → Bool =
        λ r. not (contains (map (λ m. identity m.plan) history) (identity r)) in
      elim (Bool-cases (contains (map (λ m. identity m.plan) history) (identity q))) [
        | inl measured ↦
            choose_from-new P qs history p h.1
              (sym (find_there fresh q qs (ground (arith, measured))) ∙ e)
        | inr new ↦
            let same : q ≡ p =
              some-injective (sym (find_here fresh q qs (ground (arith, new))) ∙ e) in
            subst (λ r. P r × (contains (map (λ m. identity m.plan) history) (identity r) ≡ false))
              same (h.0, new)
      ]

  -- A plan that is chosen is a plan of the context with one of the anchors as its number of workers,
  -- and is not measured.
  pub choose_next-new :
      (limit : Option ℕ) (history : List (Measurement ExecutionPlan)) (p : ExecutionPlan)
      → choose_next identity text_le context limit history ≡ ok (some p)
      → IsRepresentative (anchors limit) p
        × (contains (map (λ m. identity m.plan) history) (identity p) ≡ false)
  unfolding choose_next
  choose_next-new limit history p h =
      let (plans, found, chosen) = >>=-eq-ok (representatives identity text_le context limit) _ h in
      choose_from-new (IsRepresentative (anchors limit)) plans history p
        (representatives-IsRepresentative limit plans found)
        (ok-injective (choose_from identity text_le plans history) (some p) chosen)

  -- The first of the plans that is not measured, if there is one.
  abbrev pub IsFirst :
      List ExecutionPlan → List (Measurement ExecutionPlan) → Option ExecutionPlan → Type 0
  IsFirst plans history none =
      All (λ r. contains (map (λ m. identity m.plan) history) (identity r) ≡ true) plans
  IsFirst plans history (some p) =
      (before : List ExecutionPlan) × (after : List ExecutionPlan) × (plans ≡ before ++ p ∷ after)
      × All (λ r. contains (map (λ m. identity m.plan) history) (identity r) ≡ true) before
      × (contains (map (λ m. identity m.plan) history) (identity p) ≡ false)

  IsFirst-there :
      (q : ExecutionPlan) (plans : List ExecutionPlan) (history : List (Measurement ExecutionPlan))
      (found : Option ExecutionPlan)
      → contains (map (λ m. identity m.plan) history) (identity q) ≡ true
      → IsFirst plans history found
      → IsFirst (q ∷ plans) history found
  IsFirst-there q plans history none measured h = (measured, h)
  IsFirst-there q plans history (some p) measured (before, after, parts, all, new) =
      (q ∷ before, after, ap (λ l. q ∷ l) parts, (measured, all), new)

  choose_from-IsFirst :
      (plans : List ExecutionPlan) (history : List (Measurement ExecutionPlan))
      → IsFirst plans history (choose_from identity text_le plans history)
  unfolding choose_from
  choose_from-IsFirst [] history = tt
  choose_from-IsFirst (q ∷ qs) history =
      let fresh : ExecutionPlan → Bool =
        λ r. not (contains (map (λ m. identity m.plan) history) (identity r)) in
      elim (Bool-cases (contains (map (λ m. identity m.plan) history) (identity q))) [
        | inl measured ↦
            subst (IsFirst (q ∷ qs) history)
              (sym (find_there fresh q qs (ground (arith, measured))))
              (IsFirst-there q qs history (choose_from identity text_le qs history) measured
                (choose_from-IsFirst qs history))
        | inr new ↦
            subst (IsFirst (q ∷ qs) history) (sym (find_here fresh q qs (ground (arith, new))))
              ([], qs, refl, tt, new)
      ]

  -- Where the representatives of a context are found, the choice after any history returns. It is a
  -- representative that is not measured, and all that stand before it are measured. Where it is no
  -- plan, every representative is measured.
  pub choose_next-IsFirst :
      (limit : Option ℕ) (plans : List ExecutionPlan) (history : List (Measurement ExecutionPlan))
      → representatives identity text_le context limit ≡ ok plans
      → (choice : Option ExecutionPlan) × (choose_next identity text_le context limit history
          ≡ ok choice)
        × IsFirst plans history choice
  unfolding choose_next
  choose_next-IsFirst limit plans history found =
      (choose_from identity text_le plans history, rw found refl, choose_from-IsFirst plans history)
