-- ===== src/Native/Backend.antt =====
-- src/cpuattn/native/backends: the backends, which hosts they support, and the one that is
-- selected. The search for the compiler's path is not modelled.
pub mod Enumerate
pub mod Accepted
pub mod Kernels
pub mod Offers
use Prim.Native.String.{◌++◌ as append_text}
use cpuattn.Prelude.{
  ℕ, ◌*◌, ◌/◌, String, Bool, true, false, ◌&&◌, Option, none, some, List, [], ◌∷◌, ◌++◌, ◌==◌,
  string_eq, nat_beq, leb, subset, keep, Result, ok, err, unsupported_error, assertion_error, ◌>>=◌,
  ◌>>◌, if◌then◌else◌,
}
use cpuattn.Prelude.Sort.{sort}
use cpuattn.Prelude.Dict.{index_by, values}
use cpuattn.Core.RowNorm.{supports_split_k}
use cpuattn.Core.Operator.{Operator, Parallel, Linear}
use cpuattn.Core.Validate.{shape4, ValidatedCall}
use cpuattn.Schedule.Host.{Host}
use cpuattn.Schedule.Plan.{
  LoweringKind, ScheduleKind, DecompositionKind, PackingKind, MergeKind, TileShape, make_tile,
  MicrokernelSpec, make_microkernel, make_workspace_abi, CodePlan, code_post_init, is_packed,
}
use cpuattn.Native.Lowering.{linear_block_plan, delta_block_plan}

pub record Backend : Type 0 where
  pub backend_id : String
  pub architecture : String
  pub required_features : List String
  pub vector_bytes : ℕ
  pub compiler : String
  pub cflags : List String
  pub sve_vector_bytes : Option ℕ

abbrev pub x86_avx2 : Backend
x86_avx2 = record {
  backend_id = "x86_avx2_fma";
  architecture = "x86_64";
  required_features = "avx2" ∷ "fma" ∷ [];
  vector_bytes = 32;
  compiler = "gcc";
  cflags = "-mavx2" ∷ "-mfma" ∷ [];
  sve_vector_bytes = none;
}

abbrev pub x86_avx512 : Backend
x86_avx512 = record {
  backend_id = "x86_avx512";
  architecture = "x86_64";
  required_features = "avx512f" ∷ "fma" ∷ [];
  vector_bytes = 64;
  compiler = "gcc";
  cflags = "-mavx512f" ∷ "-mfma" ∷ [];
  sve_vector_bytes = none;
}

abbrev pub arm_neon : Backend
arm_neon = record {
  backend_id = "arm64_neon";
  architecture = "aarch64";
  required_features = "asimd" ∷ [];
  vector_bytes = 16;
  compiler = "aarch64-linux-gnu-gcc";
  cflags = "-march=armv8-a+simd" ∷ [];
  sve_vector_bytes = none;
}

abbrev pub arm_sve : Backend
arm_sve = record {
  backend_id = "arm64_sve";
  architecture = "aarch64";
  required_features = "sve" ∷ [];
  vector_bytes = 32;
  compiler = "aarch64-linux-gnu-gcc";
  cflags = "-march=armv8.2-a+sve" ∷ "-msve-vector-bits=256" ∷ [];
  sve_vector_bytes = some 32;
}

abbrev pub backends : List Backend
backends = x86_avx512 ∷ x86_avx2 ∷ arm_sve ∷ arm_neon ∷ []

-- sve_vector_bytes is None, or the host's is the same.
abbrev vectors_fit : Option ℕ → Option ℕ → Bool
vectors_fit none found = true
vectors_fit (some n) none = false
vectors_fit (some n) (some m) = nat_beq m n

-- Backend.supports
unfoldable pub supports : Backend → Host → Bool
supports b host =
    host.architecture == b.architecture
    && subset b.required_features host.features
    && vectors_fit b.sve_vector_bytes host.sve_vector_bytes

unfoldable pub compatible_backends : Host → List Backend
unfolding supports
compatible_backends host = keep (λ b. supports b host) backends

unfoldable pub select_backend : Host → Result Backend
unfolding compatible_backends
select_backend host = elim (compatible_backends host) [
  | [] ↦ err (unsupported_error "no compiled backend supports the host")
  | b ∷ _ ↦ ok b
]

-- Backend._code_plan, whose result CodePlan.__post_init__ checks.
unfoldable pub code_plan :
    Backend
    → LoweringKind
    → DecompositionKind
    → TileShape
    → MicrokernelSpec
    → List String
    → PackingKind
    → MergeKind
    → ScheduleKind
    → Result CodePlan
unfolding code_post_init
code_plan b lowering decomposition tile microkernel abi packing merge schedule = do
  let plan : CodePlan = record {
    backend_id = b.backend_id;
    lowering = lowering;
    microkernel = microkernel;
    tile = tile;
    vector_bytes = b.vector_bytes;
    decomposition = decomposition;
    packing = packing;
    merge = merge;
    region_names = abi;
    schedule = schedule;
  }
  code_post_init plan
  ok plan
