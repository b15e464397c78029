-- ===== src/Sandbox/Examples/Ledgers.antt =====
-- A host of two processors: a reservation, one that is refused, a release.
use Prim.{tt}
use agent_platform_api.Common.{◌*◌, ◌≡◌, ◌↔◌, refl, true, some, List, [], ◌∷◌, arith}
use agent_platform_api.Sandbox.Pool.{
  ResourceQuota, default_scheduling_policy, mib, snapshot_of, try_schedule, admitted, sum_quotas,
}
use agent_platform_api.Sandbox.Ledger.{
  Context, ReserveInput, Job, reserves, releases, confirms_active, run_jobs, snapshot, step,
  reserve, reservation, evaluate, allocate, save, list_active,
}
use agent_platform_api.Common.{none, if◌then◌else◌, ◌==◌}
use agent_platform_api.Sandbox.Ledger.{
  ResourceAllocation, ReconciliationStatus, find_active_by_sandbox, release_as_orphan,
  mark_orphaned, release_allocation,
}
use agent_platform_api.Sandbox.Reconciler.{
  Round, Judge, gone, unknown, reconcile, reconcile_incremental, due_rows,
}
use agent_platform_api.Sandbox.Reconciler.Spared.{NeverGone, IsSpared, reconcile-IsSpared}
use agent_platform_api.Sandbox.Pool.Admission.{Fits, try_schedule-Fits}
use agent_platform_api.Sandbox.Ledger.Unique.{OneActive, run_jobs-OneActive}
use agent_platform_api.Sandbox.Ledger.Bounds.{WithinTotals, run_jobs-WithinTotals, IsFresh}

abbrev context : Context
context = record {
  node_id = 0;
  policy = default_scheduling_policy;
  reservations = [];
  host = record {
    cores = 2;
    ram_mb = 4000;
    disk_total_bytes = some (10000 * mib);
    disk_available_bytes = some (5000 * mib);
  };
}

abbrev quota : ResourceQuota
quota = record { cores = 2000000000; ram_mb = 1000; disk_mb = 512 }

abbrev input : ReserveInput
input = record { id = 1; sandbox_id = 7; quota = quota; caller_succeeds = true; now = 3 }

abbrev jobs : List Job
jobs =
    reserves input
    ∷ reserves (record input { id = 2; sandbox_id = 8 })
    ∷ confirms_active 7
    ∷ releases 7 9
    ∷ []

jobs-IsFresh : IsFresh context [] jobs
unfolding step reserve reservation evaluate snapshot snapshot_of sum_quotas try_schedule allocate
    save list_active
jobs-IsFresh = (refl, (refl, tt))

empty_within : WithinTotals (snapshot context [])
unfolding snapshot snapshot_of sum_quotas list_active
empty_within = ground arith

run_jobs-WithinTotals_example : WithinTotals (snapshot context (run_jobs context [] jobs))
run_jobs-WithinTotals_example = run_jobs-WithinTotals context [] jobs jobs-IsFresh tt empty_within

try_schedule-Fits_example :
    (try_schedule quota (snapshot context []) (some (5000 * mib)) default_scheduling_policy
      ≡ admitted)
    ↔ Fits quota (snapshot context []) (some (5000 * mib)) default_scheduling_policy
try_schedule-Fits_example =
    try_schedule-Fits quota (snapshot context []) (some (5000 * mib)) default_scheduling_policy

empty_one : OneActive 0 []
unfolding list_active
empty_one s = omega arith

run_jobs-OneActive_example : OneActive 0 (run_jobs context [] jobs)
run_jobs-OneActive_example = run_jobs-OneActive context [] jobs jobs-IsFresh tt empty_one

-- Sandbox 7 holds a quota and its instance is there; sandbox 8 is unknown to the repository.
abbrev held_row : ResourceAllocation
held_row = record {
  id = 1;
  sandbox_id = 7;
  node_id = 0;
  cores_reserved = 2000000000;
  ram_mb_reserved = 1000;
  disk_mb_reserved = 512;
  allocated_at = 3;
  released_at = none;
  reconciliation_status = ReconciliationStatus.pending;
}

abbrev round : Round
round = record {
  ledger = held_row ∷ record held_row { id = 2; sandbox_id = 8 } ∷ [];
  last_checked_at = [];
  confirmed = 0;
  orphaned = 0;
}

abbrev judge : Judge
judge a = (if a.sandbox_id == 8 then gone else unknown, 50)

orphan_released : (reconcile 0 judge round).0.orphaned ≡ 1
unfolding reconcile list_active find_active_by_sandbox release_as_orphan release_allocation save
    mark_orphaned
orphan_released = refl

held_due : NeverGone 7 judge (due_rows 0 100 10 20 round)
unfolding due_rows list_active
held_due = (refl, (refl, tt))

held_listed : NeverGone 7 judge (list_active 0 round.ledger)
unfolding list_active
held_listed = (refl, (refl, tt))

reconcile-IsSpared_example :
    IsSpared 7 (reconcile 0 judge round).0.ledger
    × IsSpared 7 (reconcile_incremental 0 100 10 20 judge round).0.ledger
reconcile-IsSpared_example =
    reconcile-IsSpared 7 0 100 10 20 judge round held_listed held_due ((refl, (refl, tt)), refl)
