-- ===== src/Sandbox/Ledger.antt =====
-- packages/modules/sandbox/src/application/resource-allocator.ts, domain/entities/resource-allocation.entity.ts
-- and infrastructure/persistence/sqlite/resource-allocation.repository.impl.ts. The queue of the allocator
-- runs its jobs one after another, so each is one step on the rows of the table. Identifiers are opaque
-- numbers. What the caller writes in the same transaction (`alsoInTx`) succeeds or throws.
pub mod Rows
pub mod Jobs
pub mod Bounds
pub mod Unique
use agent_platform_api.Common.{
  ℕ, Bool, true, false, not, ◌&&◌, ◌||◌, ◌==◌, any, map, length, if◌then◌else◌, Option, none, some,
  is_some, is_none, List, [], ◌∷◌, ◌++◌, Result, ok, err, ◌>>=◌, Outcome,
}
use agent_platform_api.Sandbox.Pool.{
  ResourceQuota, HostCapacity, SchedulingPolicy, PoolReservation, ResourcePoolSnapshot,
  SchedulingVerdict, Shortage, admitted, refused, snapshot_of, try_schedule,
}

pub data ReconciliationStatus : Type 0 where
  confirmed pending orphaned : ReconciliationStatus

pub data LedgerError : Type 0 where
  resource_exhausted : Shortage → LedgerError
  not_positive already_released unique_violation caller_failed : LedgerError

pub record ResourceAllocation : Type 0 where
  pub id : ℕ
  pub sandbox_id : ℕ
  pub node_id : ℕ
  pub cores_reserved : ℕ
  pub ram_mb_reserved : ℕ
  pub disk_mb_reserved : ℕ
  pub allocated_at : ℕ
  pub released_at : Option ℕ
  pub reconciliation_status : ReconciliationStatus

unfoldable pub allocate : ℕ → ℕ → ℕ → ResourceQuota → ℕ → Result LedgerError ResourceAllocation
allocate id sandbox_id node_id quota now =
    if quota.cores == 0 || quota.ram_mb == 0 || quota.disk_mb == 0
    then err not_positive
    else ok (record {
      id = id;
      sandbox_id = sandbox_id;
      node_id = node_id;
      cores_reserved = quota.cores;
      ram_mb_reserved = quota.ram_mb;
      disk_mb_reserved = quota.disk_mb;
      allocated_at = now;
      released_at = none;
      reconciliation_status = pending;
    })

abbrev pub is_active : ResourceAllocation → Bool
is_active a = is_none a.released_at

abbrev pub quota_of : ResourceAllocation → ResourceQuota
quota_of a = record {
  cores = a.cores_reserved;
  ram_mb = a.ram_mb_reserved;
  disk_mb = a.disk_mb_reserved;
}

unfoldable pub release_allocation : ResourceAllocation → ℕ → Result LedgerError ResourceAllocation
release_allocation a at =
    if is_some a.released_at then err already_released else ok (record a { released_at = some at })

unfoldable pub confirm : ResourceAllocation → ResourceAllocation
confirm a = record a { reconciliation_status = confirmed }

unfoldable pub mark_orphaned : ResourceAllocation → ResourceAllocation
mark_orphaned a = record a { reconciliation_status = orphaned }

-- The rows of the table, of which the primary key and `uq_alloc_active` are kept by the database.
abbrev pub Ledger : Type 0
Ledger = List ResourceAllocation

abbrev pub is_active_of : ℕ → ResourceAllocation → Bool
is_active_of sandbox_id a = a.sandbox_id == sandbox_id && is_active a

-- The order, by `allocatedAt`, is left out: the pool adds the rows up.
unfoldable pub list_active : ℕ → Ledger → Ledger
list_active node_id [] = []
list_active node_id (a ∷ rest) =
    let others = list_active node_id rest in
    if a.node_id == node_id && is_active a then a ∷ others else others

unfoldable pub find_active_by_sandbox : ℕ → Ledger → Option ResourceAllocation
find_active_by_sandbox sandbox_id [] = none
find_active_by_sandbox sandbox_id (a ∷ rest) =
    let later = find_active_by_sandbox sandbox_id rest in
    if is_active_of sandbox_id a then some a else later

-- `uq_alloc_active`: another row of the sandbox is active.
abbrev pub violates_active : ResourceAllocation → Ledger → Bool
violates_active a rows =
    is_active a && any (λ r. not (r.id == a.id) && is_active_of a.sandbox_id r) rows

-- `onConflictDoUpdate`: the two columns that an update writes.
abbrev pub overwrite : ResourceAllocation → ResourceAllocation → ResourceAllocation
overwrite a r =
    if r.id == a.id
    then record r { released_at = a.released_at; reconciliation_status = a.reconciliation_status }
    else r

abbrev pub has_id : ℕ → Ledger → Bool
has_id id rows = any (λ r. r.id == id) rows

unfoldable pub save : ResourceAllocation → Ledger → Result LedgerError Ledger
save a rows =
    if violates_active a rows
    then err unique_violation
    else if has_id a.id rows
    then ok (map (overwrite a) rows)
    else ok (rows ++ a ∷ [])

-- What the allocator is configured with and what it asks of the host.
pub record Context : Type 0 where
  pub node_id : ℕ
  pub policy : SchedulingPolicy
  pub reservations : List PoolReservation
  pub host : HostCapacity

-- `snapshot`: the pool as the active rows of the node leave it.
unfoldable pub snapshot : Context → Ledger → ResourcePoolSnapshot
snapshot c rows =
    snapshot_of (map quota_of (list_active c.node_id rows)) c.host c.policy c.reservations

unfoldable pub evaluate : Context → ResourceQuota → Ledger → SchedulingVerdict
unfolding snapshot
evaluate c quota rows = try_schedule quota (snapshot c rows) c.host.disk_available_bytes c.policy

-- The error of a verdict that refuses.
abbrev admission : SchedulingVerdict → Result LedgerError (Unit {0})
admission admitted = ok tt
admission (refused shortage) = err (resource_exhausted shortage)

-- `alsoInTx` of the caller, which throws or not.
abbrev pub also_in_tx : Bool → Result LedgerError (Unit {0})
also_in_tx true = ok tt
also_in_tx false = err caller_failed

-- A transaction that throws is rolled back.
abbrev pub committed : Ledger → Result LedgerError Ledger → Outcome Ledger LedgerError
committed rows (ok written) = (written, none)
committed rows (err e) = (rows, some e)

pub record ReserveInput : Type 0 where
  pub id : ℕ
  pub sandbox_id : ℕ
  pub quota : ResourceQuota
  pub caller_succeeds : Bool
  pub now : ℕ

-- The job of a reservation, up to its commit.
unfoldable pub reservation : Context → ReserveInput → Ledger → Result LedgerError Ledger
reservation c input rows = do
  done ← admission (evaluate c input.quota rows)
  a ← allocate input.id input.sandbox_id c.node_id input.quota input.now
  also ← also_in_tx input.caller_succeeds
  save a rows

unfoldable pub reserve : Context → ReserveInput → Ledger → Outcome Ledger LedgerError
reserve c input rows = committed rows (reservation c input rows)

-- The body of a job on the row that was found; without one it does nothing.
abbrev pub on_found :
    Option ResourceAllocation
    → Ledger
    → (ResourceAllocation → Result LedgerError Ledger)
    → Outcome Ledger LedgerError
on_found none rows body = (rows, none)
on_found (some active) rows body = committed rows (body active)

abbrev pub on_active :
    ℕ → Ledger → (ResourceAllocation → Result LedgerError Ledger) → Outcome Ledger LedgerError
on_active sandbox_id rows body = on_found (find_active_by_sandbox sandbox_id rows) rows body

-- What `release` catches, it logs.
unfoldable pub release : ℕ → ℕ → Ledger → Outcome Ledger LedgerError
release sandbox_id now rows =
    let (written, thrown) =
      on_active sandbox_id rows
        (λ active. do released ← release_allocation active now; save released rows) in
    (written, none)

unfoldable pub release_as_orphan : ℕ → Bool → ℕ → Ledger → Outcome Ledger LedgerError
release_as_orphan sandbox_id caller_succeeds now rows = on_active sandbox_id rows (λ active. do
  released ← release_allocation (mark_orphaned active) now
  written ← save released rows
  also ← also_in_tx caller_succeeds
  ok written)

unfoldable pub confirm_active : ℕ → Ledger → Outcome Ledger LedgerError
confirm_active sandbox_id rows = on_active sandbox_id rows (λ active. save (confirm active) rows)

unfoldable pub reserved_quota_of : ℕ → Ledger → Option ResourceQuota
reserved_quota_of sandbox_id rows = elim (find_active_by_sandbox sandbox_id rows) [
  | none ↦ none
  | some active ↦ some (quota_of active)
]

-- A job of the queue, with what it is given.
pub data Job : Type 0 where
  reserves : ReserveInput → Job
  releases : ℕ → ℕ → Job
  releases_as_orphan : ℕ → Bool → ℕ → Job
  confirms_active : ℕ → Job

unfoldable pub step : Context → Ledger → Job → Outcome Ledger LedgerError
step c rows (reserves input) = reserve c input rows
step c rows (releases sandbox_id now) = release sandbox_id now rows
step c rows (releases_as_orphan sandbox_id caller_succeeds now) =
    release_as_orphan sandbox_id caller_succeeds now rows
step c rows (confirms_active sandbox_id) = confirm_active sandbox_id rows

-- The jobs in the order of the queue, also past those that throw.
unfoldable pub run_jobs : Context → Ledger → List Job → Ledger
run_jobs c rows [] = rows
run_jobs c rows (j ∷ js) = run_jobs c (step c rows j).0 js
