-- ===== src/Tests/Workers.antt =====
-- src/cpuattn/tuning/worker_count.py at three plans with one, two and four workers.
use cpuattn.Prelude.{
  string_eq, nat_eq, ℕ, ◌≡◌, refl, String, Bool, true, false, Option, some, List, [], ◌∷◌, ok,
  contains, arith, if◌then◌else◌, nat_beq,
}
use cpuattn.Prelude.Dict.{get}
use cpuattn.Schedule.Host.{LogicalCpu}
use cpuattn.Schedule.Plan.{PlacementKind, MemoryPlan, ExecutionPlan, workers}
use cpuattn.Tuning.Anchors.{worker_anchors}
use cpuattn.Tuning.Anchored.{IsAnchors, worker_anchors-IsAnchors}
use cpuattn.Tuning.WorkerCount.{TuningContext, representatives, choose_next}
use cpuattn.Tuning.Representatives.{
  IsRepresentative, anchors, IsFirst, choose_next-new, choose_next-IsFirst,
}
use cpuattn.Tests.Memories.{code}

-- Two nodes of two cores.
abbrev cpus : List LogicalCpu
cpus =
    record { cpu_id = 0; core_id = 0; socket_id = 0; numa_node = 0 }
    ∷ record { cpu_id = 1; core_id = 1; socket_id = 0; numa_node = 0 }
    ∷ record { cpu_id = 8; core_id = 0; socket_id = 1; numa_node = 1 }
    ∷ record { cpu_id = 9; core_id = 1; socket_id = 1; numa_node = 1 }
    ∷ []

-- The largest, then the cores of a node, then a power of two.
anchored : worker_anchors cpus (some 3) (1 ∷ 2 ∷ 3 ∷ 4 ∷ []) ≡ 4 ∷ 2 ∷ 1 ∷ []
unfolding worker_anchors
anchored = refl

worker_anchors-IsAnchors_example :
    IsAnchors (1 ∷ 2 ∷ 3 ∷ 4 ∷ []) (some 3) (worker_anchors cpus (some 3) (1 ∷ 2 ∷ 3 ∷ 4 ∷ []))
worker_anchors-IsAnchors_example =
    worker_anchors-IsAnchors cpus (some 3) 1 (2 ∷ 3 ∷ 4 ∷ []) (omega arith)

abbrev memory : MemoryPlan
memory = record {
  regions =
      record {
        name = "packed_k";
        offset = 0;
        size_bytes = 4096;
        alignment = 4096;
        placement = PlacementKind.numa_local;
        owner_groups = 0 ∷ [];
      }
      ∷ [];
  total_bytes = 4096;
}

abbrev plan : List ℕ → ExecutionPlan
plan ids = record {
  code = code;
  launch = record { cpu_ids = ids; groups = record { numa_node = 0; cpu_ids = ids } ∷ [] };
  memory = memory;
}

abbrev name : ExecutionPlan → String
name p =
    if nat_beq (workers p.launch) 1
    then "one"
    else if nat_beq (workers p.launch) 2
    then "two"
    else "four"

abbrev text_le : String → String → Bool
text_le s t = true

abbrev context : TuningContext
context = record {
  cpus = cpus;
  pattern = "parallel";
  shape = ("query", 2) ∷ ("query_head", 2) ∷ ("kv_head", 1) ∷ [];
  kv_cache = false;
  candidates = plan (0 ∷ []) ∷ plan (0 ∷ 1 ∷ []) ∷ plan (0 ∷ 1 ∷ 8 ∷ 9 ∷ []) ∷ [];
}

abbrev chosen : List ExecutionPlan
chosen = plan (0 ∷ 1 ∷ 8 ∷ 9 ∷ []) ∷ plan (0 ∷ 1 ∷ []) ∷ plan (0 ∷ []) ∷ []

represented : representatives name text_le context (some 6) ≡ ok chosen
unfolding representatives get
represented = refl

first_choice : choose_next name text_le context (some 6) [] ≡ ok (some (plan (0 ∷ 1 ∷ 8 ∷ 9 ∷ [])))
unfolding choose_next get
first_choice = refl

choose_next-new_example :
    IsRepresentative name text_le context
      (anchors name text_le context (some 6))
      (plan (0 ∷ 1 ∷ 8 ∷ 9 ∷ []))
    × (contains {A = String} [] "four" ≡ false)
choose_next-new_example =
    choose_next-new name text_le context (some 6) [] (plan (0 ∷ 1 ∷ 8 ∷ 9 ∷ [])) first_choice

choose_next-IsFirst_example :
    (choice : Option ExecutionPlan) × (choose_next name text_le context (some 6) [] ≡ ok choice)
    × IsFirst name text_le context chosen [] choice
choose_next-IsFirst_example =
    choose_next-IsFirst name text_le context (some 6) chosen [] represented
