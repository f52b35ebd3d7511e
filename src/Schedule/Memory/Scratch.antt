-- ===== src/Schedule/Memory/Scratch.antt =====
-- src/cpuattn/schedule/planning.py: the memory plan of a validated Linear call.
use cpuattn.Prelude.{ℕ, ◌<◌, ◌≡◌, [], ◌∷◌, string_eq, list_eq, length}
use cpuattn.Prelude.Bits.{IsPowerOfTwo}
use cpuattn.Core.Operator.{Operator}
use cpuattn.Schedule.Plan.{CodePlan, LaunchPlan, MemoryPlan, workers}
use cpuattn.Schedule.Memory.{private_region}

abbrev alone : LaunchPlan → ℕ → ℕ → MemoryPlan
alone launch page size = record {
  regions = private_region page launch "scratch" 0 size ∷ [];
  total_bytes = size;
}

-- A launch of a worker and a group at least, for a code plan with a scratch region only.
pub record IsLinearPlannable (page : ℕ) (code : CodePlan) (launch : LaunchPlan) : Type 0 where
  pub page_power : IsPowerOfTwo page
  pub names : code.region_names ≡ "scratch" ∷ []
  pub groups : 0 < length launch.groups
  pub staffed : 0 < workers launch
  pub tile_q : 0 < code.tile.q
