-- ===== src/Schedule/Host.antt =====
-- src/cpuattn/hardware/host.py: the immutable facts about a host that plans depend on.
use cpuattn.Prelude.{
  ℕ, String, Bool, false, not, ◌||◌, Option, none, some, List, map, ◌==◌, string_eq, nat_eq,
  pair_eq, nat_beq, length, distinct, Result, ok, err, value_error, unsupported_error, ◌>>◌,
  raise_if, if◌then◌else◌,
}

pub record LogicalCpu : Type 0 where
  pub cpu_id : ℕ
  pub core_id : ℕ
  pub socket_id : ℕ
  pub numa_node : ℕ

pub record Host : Type 0 where
  pub architecture : String
  pub features : List String
  pub cpus : List LogicalCpu
  pub sve_vector_bytes : Option ℕ

abbrev pub cpu_ids : List LogicalCpu → List ℕ
cpu_ids cpus = map (λ c. c.cpu_id) cpus

-- (cpu.socket_id, cpu.core_id): the physical core.
abbrev pub core_of : LogicalCpu → ℕ × ℕ
core_of c = (c.socket_id, c.core_id)

abbrev zero_vector : Option ℕ → Bool
zero_vector none = false
zero_vector (some n) = nat_beq n 0

-- Host.__post_init__
unfoldable pub host_post_init : Host → Result (Unit {0})
host_post_init host = do
  raise_if (not (host.architecture == "x86_64" || host.architecture == "aarch64"))
      (unsupported_error "unsupported CPU architecture")
  raise_if (nat_beq (length host.cpus) 0 || not (distinct (cpu_ids host.cpus)))
      (value_error "Host must contain a non-empty unique allowed CPU set")
  raise_if (zero_vector host.sve_vector_bytes) (value_error "SVE vector length must be positive")

-- _normalize_architecture, on the lower-cased name.
unfoldable pub normalize_architecture : String → Result String
normalize_architecture normalized =
    if normalized == "x86_64" || normalized == "amd64"
    then ok "x86_64"
    else if normalized == "aarch64" || normalized == "arm64"
    then ok "aarch64"
    else err (unsupported_error "unsupported CPU architecture")
