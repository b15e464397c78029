-- ===== src/Automation/Decision.antt =====
-- packages/modules/automation/src/domain/services/trigger-decision.domain-service.ts and
-- value-objects/trigger-decision.vo.ts: what to do with a slot that is due.
pub mod Table
use agent_platform_api.Common.{
  ℕ, ◌+◌, ◌-◌, ◌*◌, Bool, true, false, not, ◌&&◌, ltb, if◌then◌else◌, Option, none, some, get_or,
  minute_ms,
}
use agent_platform_api.Automation.Policies.{
  can_retry, next_attempt_at, default_missed_threshold_min,
}
use agent_platform_api.Automation.Run.{AutomationRun, is_terminal}
use agent_platform_api.Automation.Rule.{Automation}

pub data SkipReason : Type 0 where
  previous_running auth_expired : SkipReason

pub data TriggerDecision : Type 0 where
  trigger fail missed : TriggerDecision
  skip : SkipReason → TriggerDecision
  retry : ℕ → TriggerDecision

pub data CredentialState : Type 0 where
  absent active expiring expired : CredentialState

pub data SchedulingDecision : Type 0 where
  available resource_exhausted : SchedulingDecision

pub record TriggerDecisionInput : Type 0 where
  pub automation : Automation
  pub previous_run : Option AutomationRun
  pub previous_task_active : Bool
  pub credential_state : CredentialState
  pub scheduling_decision : SchedulingDecision
  pub now : ℕ
  pub missed_threshold_min : Option ℕ

-- Row 0: `now - due` in milliseconds is above the threshold.
is_missed : Option ℕ → ℕ → ℕ → Bool
is_missed none now threshold_min = false
is_missed (some due) now threshold_min = ltb (due + threshold_min * minute_ms) now

-- The previous run, if it is not terminal.
abbrev pub is_open : Option AutomationRun → Bool
is_open none = false
is_open (some run) = not (is_terminal run)

abbrev is_unusable : CredentialState → Bool
is_unusable absent = true
is_unusable expired = true
is_unusable _ = false

abbrev is_exhausted : SchedulingDecision → Bool
is_exhausted available = false
is_exhausted SchedulingDecision.resource_exhausted = true

abbrev retries_of : Option AutomationRun → ℕ
retries_of none = 0
retries_of (some run) = if not (is_terminal run) then run.retry_count else 0

unfoldable pub decide : TriggerDecisionInput → TriggerDecision
unfolding is_missed can_retry next_attempt_at
decide input =
    let threshold_min = get_or input.missed_threshold_min default_missed_threshold_min in
    if is_missed input.automation.next_trigger_at input.now threshold_min
    then missed
    else if is_open input.previous_run && input.previous_task_active
    then skip previous_running
    else if is_unusable input.credential_state
    then skip auth_expired
    else if is_exhausted input.scheduling_decision
    then (if can_retry (retries_of input.previous_run)
        then retry (next_attempt_at input.now)
        else fail)
    else trigger
