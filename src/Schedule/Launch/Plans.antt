-- ===== src/Schedule/Launch/Plans.antt =====
-- src/cpuattn/schedule/planning.py: every launch of the planner runs on physical cores of the host.
use cpuattn.Prelude.{
  set_of, ℕ, ◌+◌, ◌<◌, ◌≤◌, ◌≡◌, sym, leb→le, true, ◌&&◌, List, [], ◌∷◌, ◌++◌, map, nat_eq, list_eq,
  pair_eq, ltb, leb, min, distinct, take, count, count-append, count-take-le, count_of_distinct,
  length, length-take, All-keep, ok, arith, All, Bool-cases, inl, inr, fold-keeps,
}
use cpuattn.Prelude.Sort.{sort, All-sort}
use cpuattn.Prelude.Dict.{Dict, put, values, All-put, All-values}
use cpuattn.Prelude.Groups.{spread}
use cpuattn.Schedule.Host.{LogicalCpu, Host, cpu_ids}
use cpuattn.Schedule.Plan.{LaunchPlan, workers}
use cpuattn.Schedule.Launch.{
  physical_cpus_by_node, by_key, sorted_items, Launches, sizes, add_launch, node_launch,
  balanced_cpus, balanced_launch, size_launches, in_launch_order, spans, doublings,
}
use cpuattn.Schedule.Launch.Choice.{all_launches}
use cpuattn.Schedule.Launch.Grouping.{cpus-IsFound}
use cpuattn.Schedule.Launch.Nodes.{
  ids-IsLocated, physical, physical_cores, count-physical_loop, count-physical-le, All-physical,
}
use cpuattn.Schedule.Launch.Groups.{IsPlaced, launch_on-IsPlaced}
use cpuattn.Schedule.Launch.Balance.{count-balanced_cpus-le, length-balanced_cpus}

-- Each list of a dictionary is part of them all.
All-part : (d : Dict ℕ (List ℕ)) → All (λ i. (a : ℕ) → count a i.1 ≤ count a (spread d)) d
All-part d = go d (λ a. 0) (λ a. omega arith)
  where
    go :
        (e : Dict ℕ (List ℕ)) (more : ℕ → ℕ)
        → ((a : ℕ) → more a + count a (spread e) ≤ count a (spread d))
        → All (λ i. (a : ℕ) → count a i.1 ≤ count a (spread d)) e
    go [] more h = tt
    go (i ∷ e) more h = (
      λ a. omega (arith, h a, count-append a i.1 (spread e)),
      go e (λ a. more a + count a i.1) (λ a. omega (arith, h a, count-append a i.1 (spread e))),
    )

-- Processors that span nodes are not none.
spans-some :
    (cpus : List LogicalCpu) (ids : List ℕ)
    → cpu_ids cpus ≡ ids
    → spans cpus ≡ true
    → 0 < length ids
unfolding spans
spans-some [] ids same h = ground arith
spans-some (c ∷ cpus) ids same h = rw (sym same) (omega arith)

All-Unit : (xs : List ℕ) → All (λ x. Unit {0}) xs
All-Unit [] = tt
All-Unit (x ∷ xs) = (tt, All-Unit xs)

-- A launch on physical cores, of at most `limit` workers.
abbrev pub IsLegalFor : Host → ℕ → LaunchPlan → Type 0
IsLegalFor host limit launch = IsPlaced host launch × (workers launch ≤ limit)

module _ (host : Host) (unique_ids : distinct (cpu_ids host.cpus) ≡ true) (limit : ℕ) where
  abbrev by_node : Dict ℕ (List ℕ)
  by_node = physical_cpus_by_node host

  abbrev IsLegal : LaunchPlan → Type 0
  IsLegal = IsLegalFor host limit

  add_launch-IsLegal :
      (ids : List ℕ) (launches : Launches)
      → 0 < length ids
      → length ids ≤ limit
      → ((a : ℕ) → count a ids ≤ count a (spread by_node))
      → All (λ i. IsLegal i.1) launches
      → (next : Launches) × (add_launch host ids launches ≡ ok next) × All (λ i. IsLegal i.1) next
  unfolding add_launch
  add_launch-IsLegal ids launches some_id bounded part legal =
      let ps = physical [] host.cpus in
      let own : (a : ℕ) → count a ids ≤ count a (cpu_ids ps) =
        λ a. omega (arith, part a, count-physical_loop a [] [] host.cpus) in
      let single : (a : ℕ) → count a ids ≤ 1 = λ a. omega (
        arith,
        own a,
        count-physical-le a [] host.cpus,
        count_of_distinct a (cpu_ids host.cpus) unique_ids,
      ) in
      let known = All-physical _ [] host.cpus (cpus-IsFound host unique_ids) in
      let located = ids-IsLocated host ps known ids (λ a p. omega (arith, own a)) in
      let (launch, made, same, placed) =
        launch_on-IsPlaced host ps ids (physical_cores [] host.cpus) some_id single located in
      (
        put launch.cpu_ids launch launches,
        rw made,
        All-put IsLegal launch.cpu_ids launch launches (placed, rw same bounded) legal,
      )

  node_launch-IsLegal :
      (w : ℕ) (launches : Launches) (item : ℕ × List ℕ)
      → 0 < w
      → w ≤ limit
      → All (λ i. IsLegal i.1) launches
      → ((a : ℕ) → count a item.1 ≤ count a (spread by_node))
      → (next : Launches) × (node_launch host w launches item ≡ ok next)
        × All (λ i. IsLegal i.1) next
  unfolding node_launch
  node_launch-IsLegal w launches item pos bounded legal part =
      elim (Bool-cases (leb w (length item.1))) [
        | inr short ↦ (launches, rw short, legal)
        | inl enough ↦
            let size = length-take w item.1 in
            rw enough (
              add_launch-IsLegal (take w item.1) launches
                (ground (arith, size, leb→le w (length item.1) enough)) (ground (arith, size))
                (λ a. omega (arith, part a, count-take-le a w item.1)) legal)
      ]

  balanced_launch-IsLegal :
      (w : ℕ) (launches : Launches)
      → w ≤ limit
      → All (λ i. IsLegal i.1) launches
      → (next : Launches) × (balanced_launch host by_node w launches ≡ ok next)
        × All (λ i. IsLegal i.1) next
  unfolding balanced_launch
  balanced_launch-IsLegal w launches bounded legal =
      let ids = balanced_cpus by_node w in
      let ps = physical [] host.cpus in
      let part : (a : ℕ) → count a ids ≤ count a (spread by_node) =
        λ a. count-balanced_cpus-le a by_node w in
      let known = All-physical _ [] host.cpus (cpus-IsFound host unique_ids) in
      let located =
        ids-IsLocated host ps known ids
          (λ a p. omega (arith, part a, count-physical_loop a [] [] host.cpus)) in
      elim (Bool-cases (ltb 1 (length by_node) && leb 2 w)) [
        | inr single ↦ (launches, rw single, legal)
        | inl several ↦ elim (Bool-cases (spans located.cpus)) [
          | inr near ↦ (launches, rw (several, located.found, near), legal)
          | inl far ↦
              let some_id : 0 < length ids = spans-some located.cpus ids located.same far in
              let (next, added, legal') =
                add_launch-IsLegal ids launches some_id
                  (omega (arith, length-balanced_cpus by_node w)) part legal in
              (next, rw (several, located.found, far) added, legal')
        ]
      ]

  size_launches-IsLegal :
      (w : ℕ) (launches : Launches)
      → (0 < w) × (w ≤ limit)
      → All (λ i. IsLegal i.1) launches
      → (next : Launches) × (size_launches host by_node launches w ≡ ok next)
        × All (λ i. IsLegal i.1) next
  unfolding size_launches
  size_launches-IsLegal w launches (pos, bounded) legal =
      let (local, nodes, legal_nodes) =
        fold-keeps (λ item. (a : ℕ) → count a item.1 ≤ count a (spread by_node))
          (λ ls. All (λ i. IsLegal i.1) ls) (node_launch host w)
          (λ ls item h part. node_launch-IsLegal w ls item pos bounded h part) launches
          (sorted_items by_node) legal (All-sort by_key _ by_node (All-part by_node)) in
      let (next, done, legal') = balanced_launch-IsLegal w local bounded legal_nodes in
      (next, rw nodes done, legal')

  All-sizes : All (λ w. (0 < w) × (w ≤ limit)) (sizes by_node limit)
  unfolding sizes
  All-sizes =
      let candidates =
        1 ∷ limit ∷ doublings limit 2 limit
        ++ map (λ cpus. min limit (length cpus)) (values by_node) in
      All-keep (λ v. ltb 0 v && leb v limit) (λ v. Unit {0}) (λ w. (0 < w) × (w ≤ limit))
        (λ v p u. (ground (arith, p), ground (arith, p))) (sort leb (set_of candidates))
        (All-Unit (sort leb (set_of candidates)))

  pub all_launches-IsLegal :
      (launches : List LaunchPlan) × (all_launches host limit ≡ ok launches) × All IsLegal launches
  unfolding all_launches
  all_launches-IsLegal =
      let (found, looped, legal) =
        fold-keeps (λ w. (0 < w) × (w ≤ limit)) (λ ls. All (λ i. IsLegal i.1) ls)
          (size_launches host by_node) (λ ls w h q. size_launches-IsLegal w ls q h) []
          (sizes by_node limit) tt All-sizes in
      (
        values (sort in_launch_order found),
        rw looped,
        All-values IsLegal (sort in_launch_order found) (All-sort in_launch_order _ found legal),
      )
