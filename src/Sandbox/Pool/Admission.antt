-- ===== src/Sandbox/Pool/Admission.antt =====
-- What the admission test promises.
use agent_platform_api.Common.{ℕ, ◌+◌, ◌≤◌, ◌≡◌, refl, ◌↔◌, false, Option, none, some, arith}
use agent_platform_api.Sandbox.Pool.{
  ResourceQuota, ResourcePoolSnapshot, SchedulingPolicy, admitted, try_schedule, exceeds, is_full,
}

-- An amount of disk is within a total, where no total is without a limit.
abbrev pub FitsDisk : ℕ → Option ℕ → Type 0
FitsDisk amount none = Unit
FitsDisk amount (some total) = amount ≤ total

-- The file system has the free bytes of the floor, or its free bytes are not known.
abbrev pub HasFree : Option ℕ → ℕ → Type 0
HasFree none floor = Unit
HasFree (some bytes) floor = floor ≤ bytes

-- The request fits into what the pool has left, and the file system has not run low.
abbrev pub Fits : ResourceQuota → ResourcePoolSnapshot → Option ℕ → SchedulingPolicy → Type 0
Fits q pool available policy =
    (pool.used_cores + q.cores ≤ pool.total_cores)
    × (pool.used_ram_mb + q.ram_mb ≤ pool.total_ram_mb)
    × FitsDisk (pool.used_disk_mb + q.disk_mb) pool.total_disk_mb
    × HasFree available policy.min_free_disk_bytes

exceeds-FitsDisk :
    (amount : ℕ) (total : Option ℕ) → (exceeds amount total ≡ false) ↔ FitsDisk amount total
exceeds-FitsDisk amount none = (λ h. tt, λ h. refl)
exceeds-FitsDisk amount (some total) = ground arith

is_full-HasFree :
    (available : Option ℕ) (floor : ℕ) → (is_full available floor ≡ false) ↔ HasFree available floor
is_full-HasFree none floor = (λ h. tt, λ h. refl)
is_full-HasFree (some bytes) floor = ground arith

pub FitsDisk-exceeds :
    (amount : ℕ) (total : Option ℕ) → FitsDisk amount total → exceeds amount total ≡ false
FitsDisk-exceeds amount total = (exceeds-FitsDisk amount total).1

guards :
    (q : ResourceQuota) (pool : ResourcePoolSnapshot) (available : Option ℕ)
    (policy : SchedulingPolicy)
    → (try_schedule q pool available policy ≡ admitted) ↔ (
        (pool.used_cores + q.cores ≤ pool.total_cores)
        × (pool.used_ram_mb + q.ram_mb ≤ pool.total_ram_mb)
        × (exceeds (pool.used_disk_mb + q.disk_mb) pool.total_disk_mb ≡ false)
        × (is_full available policy.min_free_disk_bytes ≡ false))
unfolding try_schedule
guards q pool available policy = ground arith

-- A request is admitted exactly when it fits in all three dimensions and the file system has its free
-- bytes.
pub try_schedule-Fits :
    (q : ResourceQuota) (pool : ResourcePoolSnapshot) (available : Option ℕ)
    (policy : SchedulingPolicy)
    → (try_schedule q pool available policy ≡ admitted) ↔ Fits q pool available policy
try_schedule-Fits q pool available policy =
    let (there, back) = guards q pool available policy in
    let disk = exceeds-FitsDisk (pool.used_disk_mb + q.disk_mb) pool.total_disk_mb in
    let free = is_full-HasFree available policy.min_free_disk_bytes in
    (
      λ h. let (a, b, c, d) = there h in (a, b, disk.0 c, free.0 d),
      λ (a, b, c, d). back (a, b, disk.1 c, free.1 d),
    )
