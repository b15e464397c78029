-- ===== src/Sandbox/Pool.antt =====
-- packages/modules/sandbox/src/domain/services/resource-pool.domain-service.ts and
-- value-objects/resource-quota.vo.ts. Exact arithmetic stands for the floating-point one: processor
-- amounts are counted in billionths of a core, and the two ratios of the policy in thousandths. The
-- wording of a refusal is left out, its cause is kept.
pub mod Admission
use agent_platform_api.Common.{
  ℕ, ◌+◌, ◌-◌, ◌*◌, ◌/◌, max, Text, Bool, false, ltb, if◌then◌else◌, Option, none, some, get_or,
  List, map, sum_by,
}

pub record ResourceQuota : Type 0 where
  pub cores : ℕ
  pub ram_mb : ℕ
  pub disk_mb : ℕ

pub record ResourcePoolSnapshot : Type 0 where
  pub total_cores : ℕ
  pub total_ram_mb : ℕ
  pub total_disk_mb : Option ℕ
  pub used_cores : ℕ
  pub used_ram_mb : ℕ
  pub used_disk_mb : ℕ

-- `cores` is a whole number of processors.
pub record HostCapacity : Type 0 where
  pub cores : ℕ
  pub ram_mb : ℕ
  pub disk_total_bytes : Option ℕ
  pub disk_available_bytes : Option ℕ

pub data Shortage : Type 0 where
  no_cpu no_memory no_disk filesystem_full : Shortage

-- `{ ok: true }` or `{ ok: false, reason }`
pub data SchedulingVerdict : Type 0 where
  admitted : SchedulingVerdict
  refused : Shortage → SchedulingVerdict

-- `safetyMargin` and `cpuOvercommitRatio`, in thousandths.
pub record SchedulingPolicy : Type 0 where
  pub safety_margin : ℕ
  pub cpu_overcommit_ratio : ℕ
  pub min_free_disk_bytes : ℕ

abbrev pub default_scheduling_policy : SchedulingPolicy
default_scheduling_policy = record {
  safety_margin = 150;
  cpu_overcommit_ratio = 1500;
  min_free_disk_bytes = 1024 * 1024 * 1024;
}

abbrev pub mib : ℕ
mib = 1024 * 1024

-- `Math.ceil((bytes * 1.2) / MIB)`, as a quotient rounded up.
unfoldable pub disk_mb_for_baseline : Option ℕ → ℕ → ℕ
disk_mb_for_baseline baseline_size_bytes floor_mb =
    let bytes = get_or baseline_size_bytes 0 in
    max floor_mb ((bytes * 12 + (10 * mib - 1)) / (10 * mib))

unfoldable pub plan_quota : ResourceQuota → Option ℕ → ℕ → ResourceQuota
unfolding disk_mb_for_baseline
plan_quota image_defaults baseline_size_bytes disk_floor_mb = record {
  cores = image_defaults.cores;
  ram_mb = image_defaults.ram_mb;
  disk_mb = disk_mb_for_baseline baseline_size_bytes disk_floor_mb;
}

pub record PoolReservation : Type 0 where
  pub label : Text
  pub quota : ResourceQuota

unfoldable pub sum_quotas : List ResourceQuota → ResourceQuota
sum_quotas quotas = record {
  cores = sum_by (λ q. q.cores) quotas;
  ram_mb = sum_by (λ q. q.ram_mb) quotas;
  disk_mb = sum_by (λ q. q.disk_mb) quotas;
}

-- The total of the disk, `none` for `Infinity`.
total_disk : Option ℕ → ℕ → ℕ → Option ℕ
total_disk none usable held = none
total_disk (some bytes) usable held = some ((bytes * usable) / (1000 * mib) - held)

unfoldable pub snapshot_of :
    List ResourceQuota
    → HostCapacity
    → SchedulingPolicy
    → List PoolReservation
    → ResourcePoolSnapshot
unfolding sum_quotas total_disk
snapshot_of active_quotas host policy reserved =
    let usable = 1000 - policy.safety_margin in
    let held = sum_quotas (map (λ r. r.quota) reserved) in
    record {
      total_cores = host.cores * usable * policy.cpu_overcommit_ratio * 1000 - held.cores;
      total_ram_mb = (host.ram_mb * usable) / 1000 - held.ram_mb;
      total_disk_mb = total_disk host.disk_total_bytes usable held.disk_mb;
      used_cores = sum_by (λ q. q.cores) active_quotas;
      used_ram_mb = sum_by (λ q. q.ram_mb) active_quotas;
      used_disk_mb = sum_by (λ q. q.disk_mb) active_quotas;
    }

-- Whether an amount is over a total, where no total is without a limit.
abbrev pub exceeds : ℕ → Option ℕ → Bool
exceeds amount none = false
exceeds amount (some total) = ltb total amount

-- `hostAvailableDiskBytes !== null && hostAvailableDiskBytes < policy.minFreeDiskBytes`
abbrev pub is_full : Option ℕ → ℕ → Bool
is_full none floor = false
is_full (some bytes) floor = ltb bytes floor

unfoldable pub try_schedule :
    ResourceQuota → ResourcePoolSnapshot → Option ℕ → SchedulingPolicy → SchedulingVerdict
try_schedule request pool host_available_disk_bytes policy =
    if ltb pool.total_cores (pool.used_cores + request.cores)
    then refused no_cpu
    else if ltb pool.total_ram_mb (pool.used_ram_mb + request.ram_mb)
    then refused no_memory
    else if exceeds (pool.used_disk_mb + request.disk_mb) pool.total_disk_mb
    then refused no_disk
    else if is_full host_available_disk_bytes policy.min_free_disk_bytes
    then refused filesystem_full
    else admitted
