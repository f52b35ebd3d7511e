-- ===== src/Tuning/WorkerCount.antt =====
-- src/cpuattn/tuning/worker_count.py: the tuner that measures one plan for each number of workers and
-- each packing.
use cpuattn.Prelude.{
  ℕ, ◌+◌, ◌-◌, ◌*◌, ◌/◌, min, String, Bool, true, false, not, ◌&&◌, ◌||◌, ◌==◌, Eq, nat_eq, pair_eq,
  string_eq, ◌≡◌, ◌↔◌, arith, nat_beq, ltb, leb, length, contains, set_of, find?, map, Option, none,
  some, List, [], ◌∷◌, ◌++◌, Result, ok, err, key_error, attribute_error, ◌>>=◌, if◌then◌else◌,
}
use cpuattn.Prelude.Dict.{Dict, get, keys}
use cpuattn.Prelude.Groups.{append_to}
use cpuattn.Schedule.Host.{LogicalCpu}
use cpuattn.Schedule.Plan.{
  LoweringKind, PackingKind, PlacementKind, CodePlan, MemoryRegion, MemoryPlan, ExecutionPlan,
  workers, crosses_numa, is_packed, is_dynamic, differ,
}
use cpuattn.Tuning.Tuner.{Measurement}
use cpuattn.Tuning.Anchors.{worker_anchors}

-- A Python integer of a preference: minus n or n.
pub data Whole : Type 0 where
  minus plus : ℕ → Whole

abbrev whole_eq : Whole → Whole → Bool
whole_eq (Whole.minus a) (Whole.minus b) = nat_beq a b
whole_eq (Whole.plus a) (Whole.plus b) = nat_beq a b
whole_eq (Whole.minus a) (Whole.plus b) = nat_beq a 0 && nat_beq b 0
whole_eq (Whole.plus a) (Whole.minus b) = nat_beq a 0 && nat_beq b 0

abbrev whole_lt : Whole → Whole → Bool
whole_lt (Whole.minus a) (Whole.minus b) = ltb b a
whole_lt (Whole.plus a) (Whole.plus b) = ltb a b
whole_lt (Whole.minus a) (Whole.plus b) = ltb 0 a || ltb 0 b
whole_lt (Whole.plus a) (Whole.minus b) = false

-- A bool among the integers of a tuple.
abbrev flag : Bool → Whole
flag true = Whole.plus 1
flag false = Whole.plus 0

-- abs(a - b)
abbrev distance : ℕ → ℕ → Whole
distance a b = Whole.plus ((a - b) + (b - a))

pub record Preference : Type 0 where
  pub numbers : List Whole
  pub cpu_ids : List ℕ
  pub identity : String

-- What plan_preference reads of a context: the pattern, and the shape and kv_cache of the workload.
pub record TuningContext : Type 0 where
  pub cpus : List LogicalCpu
  pub pattern : String
  pub shape : Dict String ℕ
  pub kv_cache : Bool
  pub candidates : List ExecutionPlan

-- shape[axis]
abbrev pub extent : TuningContext → String → Result ℕ
extent context axis = elim (get axis context.shape) [ none ↦ err (key_error axis) | some n ↦ ok n ]

unfoldable pub parallel_rank : LoweringKind → Result ℕ
parallel_rank LoweringKind.parallel_blocked = ok 0
parallel_rank LoweringKind.parallel_2d = ok 1
parallel_rank LoweringKind.parallel_split_k = ok 2
parallel_rank _ = err (key_error "lowering")

unfoldable pub linear_rank : LoweringKind → Result ℕ
linear_rank LoweringKind.linear_chunked = ok 0
linear_rank LoweringKind.linear_delta = ok 0
linear_rank LoweringKind.linear_scan = ok 1
linear_rank LoweringKind.linear_2d = ok 2
linear_rank _ = err (key_error "lowering")

-- a if lanes >= 16 else b
abbrev wide : ℕ → ℕ → ℕ → ℕ
wide lanes a b = if leb 16 lanes then a else b

unfoldable pub parallel_key : TuningContext → CodePlan → Result (List Whole)
unfolding parallel_rank
parallel_key context code = do
  let lanes = code.vector_bytes / 4
  lowering ← parallel_rank code.lowering
  query ← extent context "query"
  query_head ← extent context "query_head"
  kv_head ← extent context "kv_head"
  let prefer_packed = context.kv_cache && leb 32 (query * (query_head / kv_head))
  ok (
      Whole.plus lowering
      ∷ flag (differ (is_dynamic code.schedule) (leb 256 query))
      ∷ flag (differ (is_packed code.packing) prefer_packed)
      ∷ distance code.tile.q (wide lanes 8 4)
      ∷ distance code.microkernel.qk_vectors 2
      ∷ distance code.tile.k (wide lanes 4 2 * lanes)
      ∷ distance code.tile.dv (wide lanes 2 1 * lanes)
      ∷ [])

abbrev is_delta : LoweringKind → Bool
is_delta LoweringKind.linear_delta = true
is_delta _ = false

unfoldable pub block_key : TuningContext → CodePlan → Result Whole
block_key context code =
    if is_delta code.lowering
    then ok (Whole.minus code.tile.q)
    else (do sequence ← extent context "sequence"; ok (distance code.tile.q (min 4 sequence)))

unfoldable pub linear_key : TuningContext → CodePlan → Result (List Whole)
unfolding linear_rank block_key
linear_key context code = do
  let lanes = code.vector_bytes / 4
  lowering ← linear_rank code.lowering
  block ← block_key context code
  ok (
      Whole.plus lowering
      ∷ block
      ∷ distance code.tile.d lanes
      ∷ distance code.tile.dv (2 * lanes)
      ∷ [])

-- MemoryRegion.replica_count
unfoldable pub replica_count : MemoryRegion → Result ℕ
replica_count region = elim region.placement [
  | PlacementKind.numa_local ↦ ok (length region.owner_groups)
  | PlacementKind.worker_local ↦
      err (attribute_error "worker-local replicas are defined by the LaunchPlan")
]

unfoldable pub replicas : MemoryPlan → Result ℕ
unfolding replica_count
replicas memory = elim (find? (λ r. r.name == "packed_k") memory.regions) [
  | none ↦ ok 0
  | some region ↦ replica_count region
]

unfoldable pub code_key : TuningContext → CodePlan → Result (List Whole)
unfolding parallel_key linear_key
code_key context code =
    if context.pattern == "parallel" then parallel_key context code else linear_key context code

abbrev pub packing_beq : PackingKind → PackingKind → Bool
packing_beq PackingKind.unpacked PackingKind.unpacked = true
packing_beq PackingKind.k_transposed PackingKind.k_transposed = true
packing_beq _ _ = false

pub packing_beq_iff : (a b : PackingKind) → (packing_beq a b ≡ true) ↔ (a ≡ b)
packing_beq_iff a b = ground arith

instance abbrev pub packing_eq : Eq PackingKind
packing_eq = record { beq = packing_beq; beq_iff = packing_beq_iff }

abbrev pub Groups : Type 0
Groups = Dict (ℕ × PackingKind) (List ExecutionPlan)

abbrev pub key_of : ExecutionPlan → ℕ × PackingKind
key_of plan = (workers plan.launch, plan.code.packing)

-- by_key
unfoldable pub group_plans : List ExecutionPlan → Groups → Groups
unfolding append_to
group_plans [] d = d
group_plans (p ∷ ps) d = group_plans ps (append_to (key_of p) p d)

abbrev pub legal_workers : Groups → List ℕ
legal_workers groups = set_of (map (λ k. k.0) (keys groups))

-- The plan's identity and the order of texts are parameters.
module _ (identity : ExecutionPlan → String) (text_le : String → String → Bool) where
  -- _plan_preference
  unfoldable pub plan_preference : TuningContext → ExecutionPlan → Result Preference
  unfolding code_key replicas
  plan_preference context plan = do
    code ← code_key context plan.code
    copies ← replicas plan.memory
    ok (record {
      numbers =
          code
          ++ flag (crosses_numa plan.launch)
            ∷ Whole.minus copies
            ∷ Whole.plus plan.memory.total_bytes
            ∷ [];
      cpu_ids = plan.launch.cpu_ids;
      identity = identity plan;
    })

  -- The order of tuples: the first difference decides, and a proper beginning is less.
  unfoldable pub ids_lt : List ℕ → List ℕ → Bool → Bool
  ids_lt [] [] tie = tie
  ids_lt [] (y ∷ ys) tie = true
  ids_lt (x ∷ xs) [] tie = false
  ids_lt (x ∷ xs) (y ∷ ys) tie = let rest = ids_lt xs ys tie in ltb x y || (nat_beq x y && rest)

  unfoldable pub numbers_lt : List Whole → List Whole → Bool → Bool
  numbers_lt [] [] tie = tie
  numbers_lt [] (y ∷ ys) tie = true
  numbers_lt (x ∷ xs) [] tie = false
  numbers_lt (x ∷ xs) (y ∷ ys) tie =
      let rest = numbers_lt xs ys tie in if whole_eq x y then rest else whole_lt x y

  unfoldable pub preferred : Preference → Preference → Bool
  unfolding ids_lt numbers_lt
  preferred p r =
      numbers_lt p.numbers r.numbers
        (ids_lt p.cpu_ids r.cpu_ids (not (text_le r.identity p.identity)))

  -- min(group, key=...): the first one of the least keys.
  unfoldable pub first_preferred :
      TuningContext → ExecutionPlan × Preference → List ExecutionPlan → Result ExecutionPlan
  unfolding plan_preference preferred
  first_preferred context (best, key) [] = ok best
  first_preferred context (best, key) (p ∷ ps) = do
    next ← plan_preference context p
    if preferred next key
        then first_preferred context (p, next) ps
        else first_preferred context (best, key) ps

  -- The representative of one number of workers and packing, if there is a plan for them.
  unfoldable pub represent :
      TuningContext → Option (List ExecutionPlan) → Result (List ExecutionPlan)
  unfolding plan_preference first_preferred
  represent context none = ok []
  represent context (some []) = ok []
  represent context (some (p ∷ ps)) = do
    key ← plan_preference context p
    best ← first_preferred context (p, key) ps
    ok (best ∷ [])

  -- The two loops of _representatives.
  unfoldable pub represent_all : TuningContext → Groups → List ℕ → Result (List ExecutionPlan)
  unfolding represent
  represent_all context groups [] = ok []
  represent_all context groups (w ∷ ws) = do
    plain ← represent context (get (w, PackingKind.unpacked) groups)
    packed ← represent context (get (w, PackingKind.k_transposed) groups)
    rest ← represent_all context groups ws
    ok ((plain ++ packed) ++ rest)

  -- _representatives
  unfoldable pub representatives : TuningContext → Option ℕ → Result (List ExecutionPlan)
  unfolding represent_all group_plans worker_anchors
  representatives context limit =
      let groups = group_plans context.candidates [] in
      represent_all context groups (worker_anchors context.cpus limit (legal_workers groups))

  -- The first representative that is not measured.
  unfoldable pub choose_from :
      List ExecutionPlan → List (Measurement ExecutionPlan) → Option ExecutionPlan
  choose_from plans history =
      find? (λ p. not (contains (map (λ m. identity m.plan) history) (identity p))) plans

  -- WorkerCountTuner.choose_next
  unfoldable pub choose_next :
      TuningContext → Option ℕ → List (Measurement ExecutionPlan) → Result (Option ExecutionPlan)
  unfolding representatives choose_from
  choose_next context limit history = do
    plans ← representatives context limit
    ok (choose_from plans history)
