-- ===== src/Sandbox/Reconciler.antt =====
-- packages/modules/sandbox/src/application/quota-reconciler.ts: the rows of the ledger against the
-- instances of the providers. What `findById` and `inspect` answer is an argument, for the time at which
-- a row is checked; both answers may differ from row to row. A read that rejects is left out: it ends
-- the round.
pub mod Spared
use agent_platform_api.Common.{
  ℕ, ◌+◌, ◌-◌, Text, Bool, true, false, not, ◌||◌, leb, ltb, ◌==◌, if◌then◌else◌, Option, none,
  some, get_or, is_some, List, [], ◌∷◌, ◌++◌, take, map, length, ◌&&◌, is_none, Outcome, ◌then_do◌,
}
use agent_platform_api.Sandbox.Status.{SandboxStatus, status_eq}
use agent_platform_api.Sandbox.Aggregate.{Sandbox}
use agent_platform_api.Sandbox.Provision.{Handle}
use agent_platform_api.Sandbox.Provision.Pipeline.{truthy}
use agent_platform_api.Sandbox.Provision.Restart.{handle_of}
use agent_platform_api.Sandbox.Ledger.{
  ResourceAllocation, Ledger, LedgerError, list_active, find_active_by_sandbox, confirm_active,
  release_as_orphan,
}

pub data Verdict : Type 0 where
  alive gone unknown : Verdict

-- What `inspect` comes to.
pub data Inspection : Type 0 where
  missing present unreachable : Inspection

unfoldable pub inspected : Inspection → Verdict
inspected missing = gone
inspected present = alive
inspected unreachable = unknown

-- The registry and its providers.
pub record Providers : Type 0 where
  pub has : Text → Bool
  pub inspect : Handle → Inspection

-- `TERMINAL`
abbrev pub is_over : SandboxStatus → Bool
is_over status = status_eq status SandboxStatus.destroyed || status_eq status SandboxStatus.failed

unfoldable pub verdict_of_handle : Providers → Sandbox → Option Handle → Verdict
unfolding inspected
verdict_of_handle providers sandbox none = unknown
verdict_of_handle providers sandbox (some handle) =
    if not (providers.has sandbox.provider) then unknown else inspected (providers.inspect handle)

unfoldable pub verdict_for : Providers → Option Sandbox → Verdict
unfolding verdict_of_handle handle_of
verdict_for providers none = gone
verdict_for providers (some sandbox) =
    if is_over sandbox.status
    then gone
    else verdict_of_handle providers sandbox
        (handle_of sandbox (truthy sandbox.provider_sandbox_id))

-- The ledger, the times at which rows were last checked, and the report.
pub record Round : Type 0 where
  pub ledger : Ledger
  pub last_checked_at : List (ℕ × ℕ)
  pub confirmed : ℕ
  pub orphaned : ℕ

abbrev pub count_if : Bool → ℕ → ℕ
count_if b n = if b then n + 1 else n

-- Whether the job finds an active row of the sandbox.
abbrev pub has_active : ℕ → Ledger → Bool
has_active sandbox_id rows = is_some (find_active_by_sandbox sandbox_id rows)

abbrev set_checked : ResourceAllocation → ℕ → Round → Round
set_checked a now r = record r { last_checked_at = (a.id, now) ∷ r.last_checked_at }

-- One row: an unknown verdict leaves it, and the time of its check, as they are. A job that throws
-- ends the round.
unfoldable pub settle_verdict : Verdict → ℕ → ResourceAllocation → Round → Outcome Round LedgerError
unfolding confirm_active release_as_orphan
settle_verdict unknown now a r = (r, none)
settle_verdict alive now a r =
    let (ledger, thrown) = confirm_active a.sandbox_id r.ledger in
    (
      record (set_checked a now r) {
        ledger = ledger;
        confirmed = count_if (has_active a.sandbox_id r.ledger && is_none thrown) r.confirmed;
      },
      thrown,
    )
settle_verdict gone now a r =
    let (ledger, thrown) = release_as_orphan a.sandbox_id true now r.ledger in
    (
      record (set_checked a now r) {
        ledger = ledger;
        orphaned = count_if (has_active a.sandbox_id r.ledger && is_none thrown) r.orphaned;
      },
      thrown,
    )

-- The verdict on the sandbox of a row, and the time of its check.
abbrev pub Judge : Type 0
Judge = ResourceAllocation → Verdict × ℕ

unfoldable pub judge_by : (ℕ → Option Sandbox) → Providers → (ResourceAllocation → ℕ) → Judge
unfolding verdict_for
judge_by find_by_id providers clock a = (verdict_for providers (find_by_id a.sandbox_id), clock a)

unfoldable pub check : Judge → List ResourceAllocation → Round → Outcome Round LedgerError
unfolding settle_verdict
check judge [] r = (r, none)
check judge (a ∷ rest) r = settle_verdict (judge a).0 (judge a).1 a r then_do check judge rest

-- `this.lastCheckedAt.get(a.id)`
unfoldable pub checked_at : ℕ → List (ℕ × ℕ) → Option ℕ
checked_at id [] = none
checked_at id ((key, at) ∷ rest) =
    let older = checked_at id rest in if key == id then some at else older

abbrev pub since_of : List (ℕ × ℕ) → ResourceAllocation → ℕ
since_of checks a = get_or (checked_at a.id checks) a.allocated_at

-- `.sort((x, y) => x.since - y.since)`, which keeps equal ones in order.
unfoldable pub insert_by_since :
    (ResourceAllocation → ℕ)
    → ResourceAllocation
    → List ResourceAllocation
    → List ResourceAllocation
insert_by_since since a [] = a ∷ []
insert_by_since since a (b ∷ rest) =
    let later = insert_by_since since a rest in
    if leb (since a) (since b) then a ∷ b ∷ rest else b ∷ later

unfoldable pub sort_by_since :
    (ResourceAllocation → ℕ) → List ResourceAllocation → List ResourceAllocation
unfolding insert_by_since
sort_by_since since [] = []
sort_by_since since (a ∷ rest) = insert_by_since since a (sort_by_since since rest)

-- `now - since >= stale`; a row that was checked later than now is not due.
unfoldable pub stale_rows :
    (ResourceAllocation → ℕ) → ℕ → ℕ → List ResourceAllocation → List ResourceAllocation
stale_rows since now stale [] = []
stale_rows since now stale (a ∷ rest) =
    let others = stale_rows since now stale rest in
    if leb (since a + stale) now then a ∷ others else others

unfoldable pub due_rows : ℕ → ℕ → ℕ → ℕ → Round → List ResourceAllocation
unfolding stale_rows sort_by_since checked_at
due_rows node_id now stale batch r =
    let since = since_of r.last_checked_at in
    take batch (sort_by_since since (stale_rows since now stale (list_active node_id r.ledger)))

-- The round at start-up, and the one of the timer.
unfoldable pub reconcile : ℕ → Judge → Round → Outcome Round LedgerError
unfolding check
reconcile node_id judge r = check judge (list_active node_id r.ledger) r

unfoldable pub reconcile_incremental : ℕ → ℕ → ℕ → ℕ → Judge → Round → Outcome Round LedgerError
unfolding due_rows check
reconcile_incremental node_id now stale batch judge r =
    check judge (due_rows node_id now stale batch r) r
