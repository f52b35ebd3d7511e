-- ===== src/Schedule/Launch.antt =====
-- src/cpuattn/schedule/planning.py: which processors a plan runs on.
pub mod Grouping
pub mod Nodes
pub mod Balance
pub mod Choice
pub mod Groups
pub mod Plans
pub mod Chosen
use Prim.Native.Nat.{bit_and}
use cpuattn.Prelude.{
  set_of, ℕ, zero, suc, ◌+◌, ◌-◌, ◌*◌, ◌/◌, ◌%◌, min, Bool, true, false, not, ◌&&◌, ◌||◌, Option,
  none, some, List, [], ◌∷◌, ◌++◌, map, ◌==◌, nat_eq, list_eq, pair_eq, nat_beq, ltb, leb, length,
  get_elem?, take, contains, distinct, concat, any, keep, range_from, Result, ok, err, value_error,
  key_error, assertion_error, ◌>>=◌, ◌>>◌, raise_if, if◌then◌else◌, traverse, fold,
}
use cpuattn.Prelude.Sort.{sort}
use cpuattn.Prelude.Dict.{Dict, get, put, keys, values}
use cpuattn.Prelude.Groups.{append_to}
use cpuattn.Core.Operator.{Operator}
use cpuattn.Core.Validate.{Shape4, shape4, ParallelCall, LinearCall, ValidatedCall}
use cpuattn.Schedule.Host.{LogicalCpu, Host, core_of}
use cpuattn.Schedule.Plan.{
  DecompositionKind, CodePlan, WorkerGroup, LaunchPlan, workers, make_worker_group, make_launch,
}

pub record PlanBuilder : Type 0 where
  pub host : Host
  pub page_size : ℕ

-- page_size or os.sysconf("SC_PAGE_SIZE")
abbrev pub chosen_page : Option ℕ → ℕ → ℕ
chosen_page none system_page = system_page
chosen_page (some n) system_page = if nat_beq n 0 then system_page else n

-- PlanBuilder.__init__, where the page size of the system is a parameter.
unfoldable pub make_builder : Host → Option ℕ → ℕ → Result PlanBuilder
make_builder host page_size system_page = do
  let page = chosen_page page_size system_page
  raise_if (leb page 0 || not (nat_beq (bit_and page (page - 1)) 0))
      (value_error "system page size must be a positive power of two")
  ok (record { host = host; page_size = page })

-- self._by_id
unfoldable pub by_id : List LogicalCpu → Dict ℕ LogicalCpu → Dict ℕ LogicalCpu
by_id [] d = d
by_id (c ∷ cpus) d = by_id cpus (put c.cpu_id c d)

-- self._by_id[cpu_id]
unfoldable pub cpu_of : Host → ℕ → Result LogicalCpu
unfolding by_id
cpu_of host id = elim (get id (by_id host.cpus [])) [ none ↦ err (key_error "cpu") | some c ↦ ok c ]

-- _physical_cpus_by_node: the loop with the cores seen so far.
unfoldable pub physical_loop : List (ℕ × ℕ) → Dict ℕ (List ℕ) → List LogicalCpu → Dict ℕ (List ℕ)
unfolding append_to
physical_loop seen result [] = result
physical_loop seen result (c ∷ cpus) =
    let rest = physical_loop (core_of c ∷ seen) (append_to c.numa_node c.cpu_id result) cpus in
    let skipped = physical_loop seen result cpus in
    if contains seen (core_of c) then skipped else rest

abbrev pub physical_cpus_by_node : Host → Dict ℕ (List ℕ)
physical_cpus_by_node host = physical_loop [] [] host.cpus

-- sorted(by_node.items())
abbrev pub by_key : {A : Type 0} → ℕ × A → ℕ × A → Bool
by_key p q = leb p.0 q.0

abbrev pub sorted_items : {A : Type 0} → Dict ℕ A → Dict ℕ A
sorted_items d = sort by_key d

-- The inner loop of _balanced_cpus: one processor of each node, until there are enough.
unfoldable pub one_round : ℕ → ℕ → List ℕ → List (List ℕ) → List ℕ
one_round offset enough result [] = result
one_round offset enough result (cpus ∷ nodes) = elim (get_elem? cpus offset) [
  | none ↦ one_round offset enough result nodes
  | some cpu ↦
      let more = result ++ cpu ∷ [] in
      let rest = one_round offset enough more nodes in
      if nat_beq (length more) enough then more else rest
]

-- The while loop of _balanced_cpus. A round that adds nothing ends it.
unfoldable pub rounds : ℕ → ℕ → ℕ → List ℕ → List (List ℕ) → List ℕ
unfolding one_round
rounds zero offset enough result nodes = result
rounds (suc fuel) offset enough result nodes =
    let more = one_round offset enough result nodes in
    let rest = rounds fuel (offset + 1) enough more nodes in
    if ltb (length result) enough
    then (if nat_beq (length more) (length result) then result else rest)
    else result

-- PlanBuilder._balanced_cpus
unfoldable pub balanced_cpus : Dict ℕ (List ℕ) → ℕ → List ℕ
unfolding rounds sort
balanced_cpus by_node workers = rounds workers 0 workers [] (values (sorted_items by_node))

-- The loop of _launch over the processors.
unfoldable pub group_cpus : Host → Dict ℕ (List ℕ) → List ℕ → Result (Dict ℕ (List ℕ))
unfolding cpu_of append_to
group_cpus host groups [] = ok groups
group_cpus host groups (id ∷ ids) = do
  cpu ← cpu_of host id
  group_cpus host (append_to cpu.numa_node id groups) ids

abbrev pub worker_group : ℕ × List ℕ → Result WorkerGroup
worker_group item = make_worker_group item.0 item.1

-- PlanBuilder._launch
unfoldable pub launch_on : Host → List ℕ → Result LaunchPlan
unfolding group_cpus make_worker_group make_launch sort
launch_on host ids = do
  grouped ← group_cpus host [] ids
  groups ← traverse worker_group (sorted_items grouped)
  make_launch ids groups

-- sizes: 1, the powers of two up to the limit, the limit, and what a node can take.
unfoldable pub doublings : ℕ → ℕ → ℕ → List ℕ
doublings zero size limit = []
doublings (suc fuel) size limit =
    let rest = doublings fuel (size * 2) limit in if leb size limit then size ∷ rest else []

unfoldable pub sizes : Dict ℕ (List ℕ) → ℕ → List ℕ
unfolding doublings sort
sizes by_node limit =
    keep (λ v. ltb 0 v && leb v limit)
      (sort leb (
        set_of (
          1 ∷ limit ∷ doublings limit 2 limit
          ++ map (λ cpus. min limit (length cpus)) (values by_node))))

abbrev pub Launches : Type 0
Launches = Dict (List ℕ) LaunchPlan

-- launches[launch.cpu_ids] = launch
unfoldable pub add_launch : Host → List ℕ → Launches → Result Launches
unfolding launch_on put
add_launch host ids launches = do
  launch ← launch_on host ids
  ok (put launch.cpu_ids launch launches)

-- One node for one number of workers.
unfoldable pub node_launch : Host → ℕ → Launches → ℕ × List ℕ → Result Launches
unfolding add_launch
node_launch host workers launches item =
    if leb workers (length item.1)
    then add_launch host (take workers item.1) launches
    else ok launches

-- More than one NUMA node in a list of processors.
unfoldable pub spans : List LogicalCpu → Bool
spans cpus = ltb 1 (length (set_of (map (λ c. c.numa_node) cpus)))

unfoldable pub balanced_launch : Host → Dict ℕ (List ℕ) → ℕ → Launches → Result Launches
unfolding balanced_cpus cpu_of spans add_launch
balanced_launch host by_node workers launches =
    if ltb 1 (length by_node) && leb 2 workers
    then (do
      let ids = balanced_cpus by_node workers
      cpus ← traverse (cpu_of host) ids
      if spans cpus then add_launch host ids launches else ok launches)
    else ok launches

-- The body of the loop over the numbers of workers.
unfoldable pub size_launches : Host → Dict ℕ (List ℕ) → Launches → ℕ → Result Launches
unfolding node_launch balanced_launch sort
size_launches host by_node launches workers = do
  local ← fold (node_launch host workers) launches (sorted_items by_node)
  balanced_launch host by_node workers local

-- key=lambda ids: (len(ids), ids)
unfoldable pub ids_le : List ℕ → List ℕ → Bool
ids_le [] ys = true
ids_le (x ∷ xs) [] = false
ids_le (x ∷ xs) (y ∷ ys) = let rest = ids_le xs ys in ltb x y || (nat_beq x y && rest)

unfoldable pub in_launch_order : List ℕ × LaunchPlan → List ℕ × LaunchPlan → Bool
unfolding ids_le
in_launch_order p q =
    ltb (length p.0) (length q.0) || (nat_beq (length p.0) (length q.0) && ids_le p.0 q.0)

-- _has_nontrivial_factorization
unfoldable pub has_nontrivial_factorization : ℕ → Bool
has_nontrivial_factorization value =
    any (λ divisor. nat_beq (value % divisor) 0) (range_from 2 (value / 2 + 1 - 2))
