-- ===== src/Automation/Run.antt =====
-- packages/modules/automation/src/domain/entities/automation-run.entity.ts.
-- A method that throws after a write keeps the write; none of these does.
pub mod Lifecycle
pub mod Traces
use agent_platform_api.Common.{
  ℕ, ◌+◌, ◌-◌, ◌/◌, Text, Bool, true, false, not, ◌&&◌, ltb, if◌then◌else◌, Option, none, some,
  get_or, or_else, Outcome, ◌then_do◌,
}
use agent_platform_api.Automation.Policies.{AutomationError, run_state, can_retry, next_attempt_at}

pub data RunStatus : Type 0 where
  pending running success failed timeout resource_exhausted skipped missed : RunStatus

pub data RunErrorCode : Type 0 where
  previous_running auth_expired resource_exhausted : RunErrorCode

pub data WebhookStatus : Type 0 where
  sent failed skipped : WebhookStatus

-- The three statuses that `finalize` takes.
pub data Verdict : Type 0 where
  success failed timeout : Verdict

abbrev pub log_bytes_limit : ℕ
log_bytes_limit = 31457280

-- `TERMINAL.has(status)`
unfoldable pub is_terminal_status : RunStatus → Bool
is_terminal_status RunStatus.success = true
is_terminal_status RunStatus.failed = true
is_terminal_status RunStatus.timeout = true
is_terminal_status RunStatus.skipped = true
is_terminal_status RunStatus.missed = true
is_terminal_status _ = false

pub record AutomationRun : Type 0 where
  pub id : Text
  pub automation_id : Text
  pub sandbox_id : Option Text
  pub triggered_at : ℕ
  pub status : RunStatus
  pub error_code : Option RunErrorCode
  pub error_message : Option Text
  pub retry_count : ℕ
  pub retry_at : Option ℕ
  pub started_at : Option ℕ
  pub completed_at : Option ℕ
  pub duration_sec : Option ℕ
  pub output_summary : Option Text
  pub log_path : Option Text
  pub log_bytes : Option ℕ
  pub webhook_status : Option WebhookStatus
  pub outcome_applied : Bool

base : Text → Text → ℕ → RunStatus → AutomationRun
base id automation_id now status = record {
  id = id;
  automation_id = automation_id;
  sandbox_id = none;
  triggered_at = now;
  status = status;
  error_code = none;
  error_message = none;
  retry_count = 0;
  retry_at = none;
  started_at = none;
  completed_at = none;
  duration_sec = none;
  output_summary = none;
  log_path = none;
  log_bytes = none;
  webhook_status = none;
  outcome_applied = false;
}

-- `AutomationRun.pending`
unfoldable pub open_pending : Text → Text → ℕ → AutomationRun
unfolding base
open_pending id automation_id now = base id automation_id now RunStatus.pending

-- `AutomationRun.skipped`
unfoldable pub open_skipped : Text → Text → RunErrorCode → Text → ℕ → AutomationRun
unfolding base
open_skipped id automation_id reason message now =
    record (base id automation_id now RunStatus.skipped) {
      error_code = some reason;
      error_message = some message;
      completed_at = some now;
      duration_sec = some 0;
      outcome_applied = true;
    }

-- `AutomationRun.missed`
unfoldable pub open_missed : Text → Text → Text → ℕ → AutomationRun
unfolding base
open_missed id automation_id message now = record (base id automation_id now RunStatus.missed) {
  error_message = some message;
  completed_at = some now;
  duration_sec = some 0;
  outcome_applied = true;
}

-- `get isTerminal`
unfoldable pub is_terminal : AutomationRun → Bool
unfolding is_terminal_status
is_terminal run = is_terminal_status run.status

assert_mutable : AutomationRun → Outcome AutomationRun AutomationError
unfolding is_terminal
assert_mutable run = if is_terminal run then (run, some run_state) else (run, none)

abbrev awaits_start : RunStatus → Bool
awaits_start RunStatus.pending = true
awaits_start RunStatus.resource_exhausted = true
awaits_start _ = false

unfoldable pub mark_running : AutomationRun → Text → ℕ → Outcome AutomationRun AutomationError
unfolding assert_mutable
mark_running run sandbox_id now = assert_mutable run then_do λ r.
    if not (awaits_start r.status) then (r, some run_state) else (
      record r {
        sandbox_id = some sandbox_id;
        status = RunStatus.running;
        started_at = some now;
        retry_at = none;
      },
      none,
    )

unfoldable pub queue_retry : AutomationRun → ℕ → Outcome AutomationRun AutomationError
unfolding assert_mutable can_retry next_attempt_at
queue_retry run now = assert_mutable run then_do λ r.
    if not (can_retry r.retry_count) then (r, some run_state) else (
      record r {
        retry_count = r.retry_count + 1;
        status = RunStatus.resource_exhausted;
        retry_at = some (next_attempt_at now);
      },
      none,
    )

abbrev verdict_status : Verdict → RunStatus
verdict_status Verdict.success = RunStatus.success
verdict_status Verdict.failed = RunStatus.failed
verdict_status Verdict.timeout = RunStatus.timeout

pub record Detail : Type 0 where
  pub error_code : Option RunErrorCode
  pub error_message : Option Text
  pub output_summary : Option Text

-- `Math.max(0, Math.round(ms / 1000))`: a negative difference rounds to 0 or below.
round_sec : ℕ → ℕ → ℕ
round_sec now from = (now - from + 500) / 1000

unfoldable pub finalize :
    AutomationRun → Verdict → ℕ → Detail → Outcome AutomationRun AutomationError
unfolding assert_mutable round_sec
finalize run verdict now detail = assert_mutable run then_do λ r. (
  record r {
    status = verdict_status verdict;
    completed_at = some now;
    duration_sec = some (round_sec now (get_or r.started_at r.triggered_at));
    retry_at = none;
    error_code = or_else detail.error_code r.error_code;
    error_message = or_else detail.error_message r.error_message;
    output_summary = or_else detail.output_summary r.output_summary;
  },
  none,
)

unfoldable pub attach_log : AutomationRun → Text → ℕ → Outcome AutomationRun AutomationError
attach_log run log_path log_bytes =
    if ltb log_bytes_limit log_bytes
    then (run, some run_state)
    else (record run { log_path = some log_path; log_bytes = some log_bytes }, none)

unfoldable pub record_webhook_status : AutomationRun → WebhookStatus → AutomationRun
record_webhook_status run status = record run { webhook_status = some status }

unfoldable pub mark_outcome_applied : AutomationRun → AutomationRun
mark_outcome_applied run = record run { outcome_applied = true }

-- Every method that writes, for histories of calls.
pub data Call : Type 0 where
  marks_running : Text → ℕ → Call
  queues_retry : ℕ → Call
  finalizes : Verdict → ℕ → Detail → Call
  attaches_log : Text → ℕ → Call
  records_webhook : WebhookStatus → Call
  marks_applied : Call

unfoldable pub step : AutomationRun → Call → Outcome AutomationRun AutomationError
unfolding mark_running queue_retry finalize attach_log record_webhook_status mark_outcome_applied
step run (marks_running sandbox_id now) = mark_running run sandbox_id now
step run (queues_retry now) = queue_retry run now
step run (finalizes verdict now detail) = finalize run verdict now detail
step run (attaches_log path bytes) = attach_log run path bytes
step run (records_webhook status) = (record_webhook_status run status, none)
step run marks_applied = (mark_outcome_applied run, none)
