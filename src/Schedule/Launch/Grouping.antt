-- ===== src/Schedule/Launch/Grouping.antt =====
-- src/cpuattn/schedule/planning.py: what is found under a processor's number, and which processors
-- share a core.
use cpuattn.Prelude.{
  ℕ, ◌≡◌, refl, sym, ◌∙◌, ap, true, false, some, List, [], ◌∷◌, map, ◌==◌, Eq, nat_eq, pair_eq,
  contains, distinct, ok, arith, All, ◌⊎◌, inl, inr, Bool-cases,
}
use mathlib.Core.Path.{subst}
use cpuattn.Prelude.Dict.{Dict, get, put, get-put}
use cpuattn.Schedule.Host.{LogicalCpu, Host, cpu_ids, core_of}
use cpuattn.Schedule.Launch.{by_id, cpu_of}

by_id_other :
    (cpus : List LogicalCpu) (d : Dict ℕ LogicalCpu) (id : ℕ)
    → contains (cpu_ids cpus) id ≡ false
    → get id (by_id cpus d) ≡ get id d
unfolding by_id
by_id_other [] d id h = refl
by_id_other (c ∷ cpus) d id h =
    by_id_other cpus (put c.cpu_id c d) id (ground arith) ∙ (get-put id c.cpu_id c d ∙ ground arith)

by_id_own :
    (cpus : List LogicalCpu) (d : Dict ℕ LogicalCpu)
    → distinct (cpu_ids cpus) ≡ true
    → All (λ c. get c.cpu_id (by_id cpus d) ≡ some c) cpus
unfolding by_id
by_id_own [] d h = tt
by_id_own (c ∷ cpus) d h = (
  by_id_other cpus (put c.cpu_id c d) c.cpu_id (ground arith)
      ∙ (get-put c.cpu_id c.cpu_id c d ∙ ground (arith, nat_eq.beq_iff c.cpu_id c.cpu_id)),
  by_id_own cpus (put c.cpu_id c d) (ground arith),
)

-- A processor of a host whose numbers are unique is found under its number.
abbrev pub IsFound : Host → LogicalCpu → Type 0
IsFound host c = cpu_of host c.cpu_id ≡ ok c

cpu_of-get :
    (host : Host) (id : ℕ) (c : LogicalCpu)
    → get id (by_id host.cpus []) ≡ some c
    → cpu_of host id ≡ ok c
unfolding cpu_of
cpu_of-get host id c h = rw (h, cpu_of)

All-IsFound :
    (host : Host) (cpus : List LogicalCpu)
    → All (λ c. get c.cpu_id (by_id host.cpus []) ≡ some c) cpus
    → All (IsFound host) cpus
unfolding cpu_of
All-IsFound host [] h = tt
All-IsFound host (c ∷ cpus) h = (cpu_of-get host c.cpu_id c h.0, All-IsFound host cpus h.1)

pub cpus-IsFound :
    (host : Host) → distinct (cpu_ids host.cpus) ≡ true → All (IsFound host) host.cpus
cpus-IsFound host h = All-IsFound host host.cpus (by_id_own host.cpus [] h)

-- Membership of a processor.
abbrev pub In : LogicalCpu → List LogicalCpu → Type 0
In c [] = ⊥
In c (p ∷ ps) = (c ≡ p) ⊎ In c ps

module _ {V : Type 0} ⦃e : Eq V⦄ (f : LogicalCpu → V) where
  pub contains_of_In :
      (c : LogicalCpu) (ps : List LogicalCpu) → In c ps → contains (map f ps) (f c) ≡ true
  contains_of_In c [] i = elim i [ ]
  contains_of_In c (p ∷ ps) (inl same) = ground (arith, e.beq_iff (f c) (f p), ap f same)
  contains_of_In c (p ∷ ps) (inr later) = ground (arith, contains_of_In c ps later)

  pub In-of_contains :
      (v : V) (ps : List LogicalCpu)
      → contains (map f ps) v ≡ true
      → (c : LogicalCpu) × In c ps × (f c ≡ v)
  In-of_contains v (p ∷ ps) h = elim (Bool-cases (v == f p)) [
    | inl here ↦ (p, inl refl, sym ((e.beq_iff v (f p)).0 here))
    | inr there ↦ let (c, i, q) = In-of_contains v ps (rw there at h) in (c, inr i, q)
  ]
  In-of_contains v [] h = cc

  -- Processors that f tells apart.
  pub same_of_distinct :
      (ps : List LogicalCpu) (c d : LogicalCpu)
      → distinct (map f ps) ≡ true
      → In c ps
      → In d ps
      → f c ≡ f d
      → c ≡ d
  same_of_distinct [] c d h i j q = elim i [ ]
  same_of_distinct (p ∷ ps) c d h (inl i) (inl j) q = i ∙ sym j
  same_of_distinct (p ∷ ps) c d h (inr i) (inr j) q = same_of_distinct ps c d (ground arith) i j q
  same_of_distinct (p ∷ ps) c d h (inl i) (inr j) q =
      absurd (ground (arith, contains_of_In d ps j, ap f i, q))
  same_of_distinct (p ∷ ps) c d h (inr i) (inl j) q =
      absurd (ground (arith, contains_of_In c ps i, ap f j, q))

pub distinct_cores :
    (ps cs : List LogicalCpu)
    → distinct (map core_of ps) ≡ true
    → distinct (cpu_ids cs) ≡ true
    → All (λ c. In c ps) cs
    → distinct (map core_of cs) ≡ true
distinct_cores ps [] cores ids h = refl
distinct_cores ps (c ∷ cs) cores ids h = elim (Bool-cases (contains (map core_of cs) (core_of c))) [
  | inr apart ↦ rw apart (distinct_cores ps cs cores (ground arith) h.1)
  | inl shared ↦
      let (d, i, q) = In-of_contains core_of (core_of c) cs shared in
      let same = same_of_distinct core_of ps c d cores h.0 (All-In cs d i h.1) (sym q) in
      absurd (ground (arith, contains_of_In (λ x. x.cpu_id) d cs i, ap (λ x. x.cpu_id) same))
]
  where
    All-In : (xs : List LogicalCpu) (d : LogicalCpu) → In d xs → All (λ x. In x ps) xs → In d ps
    All-In [] d i a = elim i [ ]
    All-In (x ∷ xs) d (inl s) a = subst (λ z. In z ps) (sym s) a.0
    All-In (x ∷ xs) d (inr i) a = All-In xs d i a.1
