-- ===== src/Schedule/Memory/Regions.antt =====
-- src/cpuattn/schedule/planning.py: the constructors of regions and plans accept what the planner
-- builds.
use cpuattn.Prelude.{
  ℕ, zero, suc, ◌+◌, ◌*◌, ◌/◌, ◌%◌, ◌≤◌, ◌<◌, String, ◌≡◌, refl, true, false, List, [], ◌∷◌, ◌==◌,
  nat_eq, string_eq, list_eq, leb, length, any, range_from, length-range_from, distinct, contains,
  ok, arith,
}
use native.Mathlib.Nat.{div-add-mod, mul-mod_right, mul-mod_left, mul_assoc}
use cpuattn.Prelude.Bits.{IsPowerOfTwo}
use cpuattn.Prelude.Sort.{sort}
use cpuattn.Schedule.Align.{test_of_power}
use cpuattn.Schedule.Plan.{PlacementKind, LaunchPlan, MemoryRegion}
use cpuattn.Schedule.Memory.{make_region, make_memory, private_region}

range-contains : (start n x : ℕ) → x < start → contains (range_from start n) x ≡ false
range-contains start zero x h = refl
range-contains start (suc n) x h = ground (arith, range-contains (start + 1) n x)

pub range-distinct : (start n : ℕ) → distinct (range_from start n) ≡ true
range-distinct start zero = refl
range-distinct start (suc n) =
    ground (arith, range-contains (start + 1) n start (omega arith), range-distinct (start + 1) n)

pub range_below :
    (start n bound : ℕ) → start + n ≤ bound → any (λ o. leb bound o) (range_from start n) ≡ false
range_below start zero bound h = refl
range_below start (suc n) bound h = ground (arith, range_below (start + 1) n bound)

-- A multiple of the page stays one.
pub multiple_times : (copy page n : ℕ) → copy % page ≡ 0 → (copy * n) % page ≡ 0
multiple_times copy page n h =
    let q = copy / page in
    let e : copy ≡ page * q = omega (arith, div-add-mod copy page) in
    rw e (rw mul_assoc (mul-mod_right page (q * n)))

pub times_mod : (copy n : ℕ) → (copy * n) % n ≡ 0
times_mod copy n = mul-mod_left copy n

pub private_region_accepted :
    (page : ℕ) (launch : LaunchPlan) (name : String) (offset size : ℕ)
    → IsPowerOfTwo page
    → (name == "") ≡ false
    → 0 < size
    → offset % page ≡ 0
    → 0 < length launch.groups
    → make_region (private_region page launch name offset size)
      ≡ ok (private_region page launch name offset size)
unfolding make_region
private_region_accepted page launch name offset size p named pos aligned groups =
    let (p0, p1) = test_of_power page p in
    ground (
      arith,
      p0,
      p1,
      range-distinct 0 (length launch.groups),
      length-range_from 0 (length launch.groups),
    )

abbrev pub packed_region : ℕ → ℕ → List ℕ → MemoryRegion
packed_region page copy owners = record {
  name = "packed_k";
  offset = 0;
  size_bytes = copy * length owners;
  alignment = page;
  placement = PlacementKind.numa_local;
  owner_groups = owners;
}

pub packed_region_accepted :
    (page copy g : ℕ) (gs : List ℕ)
    → IsPowerOfTwo page
    → 0 < copy
    → distinct (g ∷ gs) ≡ true
    → make_region (packed_region page copy (g ∷ gs)) ≡ ok (packed_region page copy (g ∷ gs))
unfolding make_region
packed_region_accepted page copy g gs p pos owners =
    let (p0, p1) = test_of_power page p in
    let big : 0 < copy * suc (length gs) = grind arith in
    let zero_mod : 0 % page ≡ 0 = grind arith in
    ground (arith, p0, p1, big, zero_mod, times_mod copy (suc (length gs)))

-- One region from 0 to the total.
pub single_memory_accepted :
    (r : MemoryRegion)
    → r.offset ≡ 0
    → 0 < r.size_bytes
    → make_memory (r ∷ []) r.size_bytes
      ≡ ok (record { regions = r ∷ []; total_bytes = r.size_bytes })
unfolding make_memory
single_memory_accepted r start pos = ground arith

-- Two regions, the second behind the first.
pub double_memory_accepted :
    (r s : MemoryRegion)
    → (r.name == s.name) ≡ false
    → r.offset ≡ 0
    → s.offset ≡ r.size_bytes
    → 0 < s.size_bytes
    → make_memory (r ∷ s ∷ []) (r.size_bytes + s.size_bytes)
      ≡ ok (record { regions = r ∷ s ∷ []; total_bytes = r.size_bytes + s.size_bytes })
unfolding make_memory sort
double_memory_accepted r s names start next pos = ground arith
