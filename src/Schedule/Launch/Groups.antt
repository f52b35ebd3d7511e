-- ===== src/Schedule/Launch/Groups.antt =====
-- src/cpuattn/schedule/planning.py: the worker groups of a launch are its processors, node by node.
use cpuattn.Prelude.{
  ℕ, ◌+◌, ◌<◌, ◌≤◌, ◌≡◌, refl, ◌∙◌, ap, true, false, List, [], ◌∷◌, ◌++◌, map, pair_eq, nat_eq,
  nat_beq, distinct, count, length, length-append, distinct_of_count, subset_of_count, count-append,
  ok, arith, All, All-append, traverse, >>=-eq-ok,
}
use cpuattn.Prelude.Sort.{All-sort}
use cpuattn.Prelude.Dict.{Dict}
use cpuattn.Prelude.Groups.{append_to, All-append_to, spread, count-append_to, count-spread-sort}
use cpuattn.Schedule.Host.{LogicalCpu, Host, core_of}
use cpuattn.Schedule.Plan.{
  WorkerGroup, LaunchPlan, grouped, workers, make_worker_group, make_launch,
}
use cpuattn.Schedule.Launch.{cpu_of, group_cpus, worker_group, sorted_items, by_key, launch_on}
use cpuattn.Schedule.Launch.Grouping.{distinct_cores}
use cpuattn.Schedule.Launch.Nodes.{IsLocated}

-- A processor of a node.
abbrev pub IsOwned : Host → ℕ → ℕ → Type 0
IsOwned host node id = (c : LogicalCpu) × (cpu_of host id ≡ ok c) × (c.numa_node ≡ node)

-- A group to be: it has processors, all of its node.
abbrev IsGroup : Host → ℕ × List ℕ → Type 0
IsGroup host item = (0 < length item.1) × All (IsOwned host item.0) item.1

module _ (host : Host) where
  group_cpus-returns :
      (ids : List ℕ) (cpus : List LogicalCpu) (d : Dict ℕ (List ℕ))
      → traverse (cpu_of host) ids ≡ ok cpus
      → All (IsGroup host) d
      → (groups : Dict ℕ (List ℕ)) × (group_cpus host d ids ≡ ok groups)
        × All (IsGroup host) groups
        × ((a : ℕ) → count a (spread groups) ≡ count a (spread d) + count a ids)
  unfolding group_cpus
  group_cpus-returns [] cpus d found h = (d, refl, h, λ a. omega arith)
  group_cpus-returns (id ∷ ids) cpus d found h =
      let (c, here, later) = >>=-eq-ok (cpu_of host id) _ found in
      let (cs, rest, done) = >>=-eq-ok (traverse (cpu_of host) ids) _ later in
      let owned : IsOwned host c.numa_node id = (c, here, refl) in
      let grown : All (IsGroup host) (append_to c.numa_node id d) =
        All-append_to (IsGroup host) c.numa_node id d (omega arith, (owned, tt))
          (λ vs g.
            (omega (arith, length-append vs (id ∷ [])), All-append _ vs (id ∷ []) g.1 (owned, tt)))
          h in
      let (groups, returns, local, counts) =
        group_cpus-returns ids cs (append_to c.numa_node id d) rest grown in
      (
        groups,
        rw (here, returns),
        local,
        λ a. omega (arith, counts a, count-append_to a c.numa_node id d),
      )

abbrev to_group : ℕ × List ℕ → WorkerGroup
to_group item = record { numa_node = item.0; cpu_ids = item.1 }

grouped-to_group : (items : Dict ℕ (List ℕ)) → grouped (map to_group items) ≡ spread items
grouped-to_group [] = refl
grouped-to_group (item ∷ items) = ap (λ xs. item.1 ++ xs) (grouped-to_group items)

worker_groups-return :
    (host : Host) (items : Dict ℕ (List ℕ))
    → All (IsGroup host) items
    → ((a : ℕ) → count a (spread items) ≤ 1)
    → traverse worker_group items ≡ ok (map to_group items)
unfolding make_worker_group
worker_groups-return host [] h c = refl
worker_groups-return host ((node, ids) ∷ items) h c =
    let single =
      distinct_of_count ids (λ a. omega (arith, c a, count-append a ids (spread items))) in
    let rest =
      worker_groups-return host items h.1
        (λ a. omega (arith, c a, count-append a ids (spread items))) in
    let some_id : nat_beq (length ids) 0 ≡ false = ground (arith, h.0.0) in
    rw (some_id, single, rest)

-- A launch of workers on different cores, in groups of one node each.
pub record IsPlaced (host : Host) (launch : LaunchPlan) : Type 0 where
  pub staffed : 0 < workers launch
  pub unique : distinct launch.cpu_ids ≡ true
  pub cpus : List LogicalCpu
  pub found : traverse (cpu_of host) launch.cpu_ids ≡ ok cpus
  pub cores : distinct (map core_of cpus) ≡ true
  pub partition : (id : ℕ) → count id (grouped launch.groups) ≡ count id launch.cpu_ids
  pub local :
      All (λ g. (0 < length g.cpu_ids) × All (IsOwned host g.numa_node) g.cpu_ids) launch.groups
  pub accepted : make_launch launch.cpu_ids launch.groups ≡ ok launch

All-to_group :
    (host : Host) (items : Dict ℕ (List ℕ))
    → All (IsGroup host) items
    → All
        (λ g. (0 < length g.cpu_ids) × All (IsOwned host g.numa_node) g.cpu_ids)
        (map to_group items)
All-to_group host [] h = tt
All-to_group host (item ∷ items) h = (h.0, All-to_group host items h.1)

make_launch-returns :
    (ids : List ℕ) (groups : List WorkerGroup)
    → 0 < length ids
    → ((a : ℕ) → count a ids ≤ 1)
    → ((a : ℕ) → count a (grouped groups) ≡ count a ids)
    → make_launch ids groups ≡ ok (record { cpu_ids = ids; groups = groups })
unfolding make_launch
make_launch-returns ids groups some_id single same =
    let left = subset_of_count (grouped groups) ids (λ a p. omega (arith, same a)) in
    let right = subset_of_count ids (grouped groups) (λ a p. omega (arith, same a)) in
    let alone = distinct_of_count ids single in
    let alone_too = distinct_of_count (grouped groups) (λ a. omega (arith, same a, single a)) in
    let filled : nat_beq (length ids) 0 ≡ false = ground arith in
    rw (filled, alone, alone_too, left, right)

pub launch_on-IsPlaced :
    (host : Host) (ps : List LogicalCpu) (ids : List ℕ)
    → distinct (map core_of ps) ≡ true
    → 0 < length ids
    → ((a : ℕ) → count a ids ≤ 1)
    → IsLocated host ps ids
    → (launch : LaunchPlan) × (launch_on host ids ≡ ok launch)
      × (launch.cpu_ids ≡ ids)
      × IsPlaced host launch
unfolding launch_on
launch_on-IsPlaced host ps ids cores some_id single located =
    let (d, returns, local, counts) =
      group_cpus-returns host ids located.cpus [] located.found tt in
    let items = sorted_items d in
    let total : (a : ℕ) → count a (spread items) ≡ count a ids =
      λ a. omega (arith, counts a, count-spread-sort by_key a d) in
    let ordered = All-sort by_key (IsGroup host) d local in
    let groups = worker_groups-return host items ordered (λ a. omega (arith, total a, single a)) in
    let partition : (a : ℕ) → count a (grouped (map to_group items)) ≡ count a ids =
      λ a. ap (count a) (grouped-to_group items) ∙ total a in
    let made = make_launch-returns ids (map to_group items) some_id single partition in
    let unique = distinct_of_count ids single in
    (
      record { cpu_ids = ids; groups = map to_group items },
      rw (returns, groups) made,
      refl,
      record {
        staffed = some_id;
        unique = unique;
        cpus = located.cpus;
        found = located.found;
        cores = distinct_cores ps located.cpus cores (rw located.same unique) located.among;
        partition = partition;
        local = All-to_group host items ordered;
        accepted = made;
      },
    )
