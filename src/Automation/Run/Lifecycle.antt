-- ===== src/Automation/Run/Lifecycle.antt =====
-- What one call does to a run (AutomationRun's invariants I-AUR-1 to I-AUR-4).
use agent_platform_api.Common.{
  ℕ, ◌≤◌, ◌≡◌, Bool, true, false, Option, none, some, is_some, Text, arith, not, ◌||◌,
}
use agent_platform_api.Automation.Policies.{AutomationError, max_attempts}
use agent_platform_api.Automation.Run.{
  AutomationRun, RunStatus, RunErrorCode, Call, log_bytes_limit, is_terminal, is_terminal_status,
  open_pending, open_skipped, open_missed, step,
}

abbrev is_retrying : RunStatus → Bool
is_retrying RunStatus.resource_exhausted = true
is_retrying _ = false

abbrev is_running : RunStatus → Bool
is_running RunStatus.running = true
is_running _ = false

abbrev LogFits : Option ℕ → Type 0
LogFits none = Unit
LogFits (some bytes) = bytes ≤ log_bytes_limit

-- What the status says of the other columns of the row.
pub record IsConsistent (run : AutomationRun) : Type 0 where
  pub within_budget : run.retry_count ≤ max_attempts
  pub log_within : LogFits run.log_bytes
  pub retry_iff : is_some run.retry_at ≡ is_retrying run.status
  pub completed_iff : is_some run.completed_at ≡ is_terminal run
  pub duration_iff : is_some run.duration_sec ≡ is_terminal run
  pub running_started : (not (is_running run.status) || is_some run.started_at) ≡ true
  pub running_placed : (not (is_running run.status) || is_some run.sandbox_id) ≡ true

pub open_pending-IsConsistent :
    (id automation_id : Text) (now : ℕ) → IsConsistent (open_pending id automation_id now)
unfolding open_pending is_terminal
open_pending-IsConsistent id automation_id now = ground arith

pub open_skipped-IsConsistent :
    (id automation_id : Text) (reason : RunErrorCode) (message : Text) (now : ℕ)
    → IsConsistent (open_skipped id automation_id reason message now)
unfolding open_skipped is_terminal
open_skipped-IsConsistent id automation_id reason message now = ground arith

pub open_missed-IsConsistent :
    (id automation_id message : Text) (now : ℕ)
    → IsConsistent (open_missed id automation_id message now)
unfolding open_missed is_terminal
open_missed-IsConsistent id automation_id message now = ground arith

pub step-IsConsistent :
    (run : AutomationRun) (c : Call) → IsConsistent run → IsConsistent (step run c).0
unfolding step is_terminal
step-IsConsistent run c v = ground arith

-- The transitions of I-AUR-1, with the retries of I-AUR-2.
infix 40 ◌⟶◌
pub data ◌⟶◌ : RunStatus → RunStatus → Type 0 where
  stay : {s : RunStatus} → s ⟶ s
  start : RunStatus.pending ⟶ RunStatus.running
  restart : RunStatus.resource_exhausted ⟶ RunStatus.running
  wait : {s : RunStatus} → is_terminal_status s ≡ false → s ⟶ RunStatus.resource_exhausted
  succeed : {s : RunStatus} → is_terminal_status s ≡ false → s ⟶ RunStatus.success
  fail : {s : RunStatus} → is_terminal_status s ≡ false → s ⟶ RunStatus.failed
  expire : {s : RunStatus} → is_terminal_status s ≡ false → s ⟶ RunStatus.timeout

ruleset edges = (stay, start, restart, wait, succeed, fail, expire)

-- Every call moves the status along an edge of the diagram, whether it throws or not.
pub step-⟶ : (run : AutomationRun) (c : Call) → run.status ⟶ (step run c).0.status
unfolding step is_terminal_status
step-⟶ run c = grind (arith, edges)

-- A call that throws writes nothing.
step_error_unchanged :
    (run : AutomationRun) (c : Call) {e : AutomationError}
    → (step run c).1 ≡ some e
    → (step run c).0 ≡ run
unfolding step
step_error_unchanged run c h = ground arith

-- The columns that a terminal run keeps: all but the log pointer and the two marks.
pub record SameVerdict (r s : AutomationRun) : Type 0 where
  pub status : s.status ≡ r.status
  pub sandbox_id : s.sandbox_id ≡ r.sandbox_id
  pub error_code : s.error_code ≡ r.error_code
  pub error_message : s.error_message ≡ r.error_message
  pub retry_count : s.retry_count ≡ r.retry_count
  pub retry_at : s.retry_at ≡ r.retry_at
  pub started_at : s.started_at ≡ r.started_at
  pub completed_at : s.completed_at ≡ r.completed_at
  pub duration_sec : s.duration_sec ≡ r.duration_sec
  pub output_summary : s.output_summary ≡ r.output_summary

pub step-SameVerdict :
    (run : AutomationRun) (c : Call) → is_terminal run ≡ true → SameVerdict run (step run c).0
unfolding step is_terminal
step-SameVerdict run c h = ground arith
