-- ===== src/Automation/Rule.antt =====
-- packages/modules/automation/src/domain/entities/automation.entity.ts.
-- `Host` is what the rule uses of the JavaScript runtime. A method keeps what it wrote before a throw.
pub mod Creation
pub mod Updates
pub mod Failures
pub mod Slots
use agent_platform_api.Common.{
  ℕ, suc, ◌+◌, Text, trim, Bool, true, false, ◌||◌, ltb, leb, ◌==◌, length, if◌then◌else◌, Option,
  none, some, is_some, get_or, List, [], ◌∷◌, ◌++◌, Outcome, ◌then_do◌, Result, ok, err, ◌>>=◌,
  assign, when_given,
}
use agent_platform_api.Automation.Policies.{
  AutomationError, invariant, validation_failed, timeout_of, assert_retention_days, should_degrade,
  should_disable,
}
use agent_platform_api.Automation.Schedule.{
  Intl, Schedule, ScheduleKind, ScheduleConfig, next_occurrence, next_daily_occurrence,
}
use agent_platform_api.Automation.Schedule
use agent_platform_api.Automation.Webhook.{WebhookTarget, TriggerOn}
use agent_platform_api.Automation.Webhook

pub record Host : Type 0 where
  pub intl : Intl
  pub url_protocol : Text → Option Text

pub data ConcurrencyMode : Type 0 where
  skip queue concurrent : ConcurrencyMode

pub data AutomationOutcome : Type 0 where
  success failed timeout skipped missed : AutomationOutcome

-- `AutomationDegraded`, `AutomationDisabled` (name, failure count, time), `AutomationReenabled`.
pub data AutomationEvent : Type 0 where
  degraded : Text → Text → ℕ → ℕ → AutomationEvent
  disabled : Text → Text → ℕ → ℕ → AutomationEvent
  reenabled : Text → Text → ℕ → AutomationEvent

abbrev pub prompt_max_length : ℕ
prompt_max_length = 8000

pub record Automation : Type 0 where
  pub id : Text
  pub project_id : Text
  pub name : Text
  pub description : Option Text
  pub runtime_id : Text
  pub prompt : Text
  pub schedule : Schedule
  pub enabled : Bool
  pub is_degraded : Bool
  pub concurrency : ConcurrencyMode
  pub timeout_minutes : ℕ
  pub retention_days : ℕ
  pub webhook : Option WebhookTarget
  pub failure_count : ℕ
  pub last_triggered_at : Option ℕ
  pub next_trigger_at : Option ℕ
  pub created_at : ℕ
  pub updated_at : ℕ
  pub events : List AutomationEvent

-- `this.raise(event)`
raise : Automation → AutomationEvent → Automation
raise a event = record a { events = a.events ++ event ∷ [] }

unfoldable pub assert_name : Text → Result AutomationError Text
assert_name name =
    let trimmed = trim name in
    if length trimmed == 0 || ltb 60 (length trimmed)
    then err (invariant validation_failed)
    else ok trimmed

unfoldable pub assert_prompt : Text → Result AutomationError Text
assert_prompt prompt =
    if length (trim prompt) == 0
    then err (invariant validation_failed)
    else if ltb prompt_max_length (length prompt)
    then err (invariant validation_failed)
    else ok prompt

unfoldable pub compute_next_trigger : Host → Automation → ℕ → Result AutomationError ℕ
compute_next_trigger host a after =
    if a.is_degraded
    then next_daily_occurrence host.intl a.schedule after
    else next_occurrence host.intl a.schedule after

pub record CreateInput : Type 0 where
  pub id : Text
  pub project_id : Text
  pub name : Text
  pub description : Option Text
  pub runtime_id : Text
  pub prompt : Text
  pub schedule_kind : ScheduleKind
  pub schedule_config : ScheduleConfig
  pub timezone : Text
  pub timeout_minutes : ℕ
  pub artifact_retention_days : ℕ
  pub webhook_url : Option Text
  pub trigger_on : Option TriggerOn
  pub now : ℕ

create_webhook :
    Host → Option Text → Option TriggerOn → Result AutomationError (Option WebhookTarget)
create_webhook host none trigger_on = ok none
create_webhook host (some url) trigger_on = do
  target ← Webhook.create host.url_protocol url (get_or trigger_on TriggerOn.failure)
  ok (some target)

unfoldable pub create : Host → CreateInput → Result AutomationError Automation
unfolding create_webhook compute_next_trigger
create host input = do
  name ← assert_name input.name
  prompt ← assert_prompt input.prompt
  schedule ← Schedule.create host.intl input.schedule_kind input.schedule_config input.timezone
  minutes ← timeout_of input.timeout_minutes
  retention ← assert_retention_days input.artifact_retention_days
  webhook ← create_webhook host input.webhook_url input.trigger_on
  let a : Automation = record {
    id = input.id;
    project_id = input.project_id;
    name = name;
    description = input.description;
    runtime_id = input.runtime_id;
    prompt = prompt;
    schedule = schedule;
    enabled = true;
    is_degraded = false;
    concurrency = skip;
    timeout_minutes = minutes;
    retention_days = retention;
    webhook = webhook;
    failure_count = 0;
    last_triggered_at = none;
    next_trigger_at = none;
    created_at = input.now;
    updated_at = input.now;
    events = [];
  }
  next ← compute_next_trigger host a input.now
  ok (record a { next_trigger_at = some next })

-- `this._nextTriggerAt !== null && this._nextTriggerAt.getTime() <= now.getTime()`
abbrev pub is_due : Option ℕ → ℕ → Bool
is_due none now = false
is_due (some slot) now = leb slot now

unfoldable pub recompute_future_trigger : Host → Automation → ℕ → Outcome Automation AutomationError
recompute_future_trigger host a now =
    if a.enabled
    then (if is_due a.next_trigger_at now
        then (a, none)
        else assign a (compute_next_trigger host a now)
            (λ next. record a { next_trigger_at = some next }))
    else (a, none)

unfoldable pub advance_trigger : Host → Automation → ℕ → Outcome Automation AutomationError
advance_trigger host a now =
    assign a (compute_next_trigger host a now)
      λ next. record a { next_trigger_at = some next; updated_at = now }

unfoldable pub mark_triggered : Automation → ℕ → Automation
mark_triggered a now = record a { last_triggered_at = some now; updated_at = now }

abbrev touch : ℕ → Automation → Outcome Automation AutomationError
touch now a = (record a { updated_at = now }, none)

record_success : Host → Automation → ℕ → Outcome Automation AutomationError
record_success host a now =
    let reset = record a { failure_count = 0; is_degraded = false } in
    (if a.is_degraded then recompute_future_trigger host reset now else (reset, none))
    then_do touch now

record_failure : Host → Automation → ℕ → Outcome Automation AutomationError
unfolding raise
record_failure host a now =
    let count = a.failure_count + 1 in
    let counted = record a { failure_count = count } in
    (if should_disable count
      then (
        raise (record counted { enabled = false; is_degraded = true; next_trigger_at = none })
            (disabled a.id a.name count now),
        none,
      )
      else if should_degrade count
      then (if a.is_degraded
          then (counted, none)
          else recompute_future_trigger host
              (raise (record counted { is_degraded = true }) (degraded a.id a.name count now)) now)
      else (counted, none))
    then_do touch now

unfoldable pub record_outcome :
    Host → Automation → AutomationOutcome → ℕ → Outcome Automation AutomationError
unfolding record_success record_failure
record_outcome host a AutomationOutcome.skipped now = (a, none)
record_outcome host a AutomationOutcome.missed now = (a, none)
record_outcome host a AutomationOutcome.success now = record_success host a now
record_outcome host a AutomationOutcome.failed now = record_failure host a now
record_outcome host a AutomationOutcome.timeout now = record_failure host a now

unfoldable pub enable : Host → Automation → ℕ → Outcome Automation AutomationError
unfolding raise
enable host a now =
    recompute_future_trigger host
      (record a { enabled = true; is_degraded = false; failure_count = 0 }) now
    then_do λ b. (raise (record b { updated_at = now }) (reenabled b.id b.name now), none)

unfoldable pub disable : Automation → ℕ → Automation
disable a now = record a { enabled = false; next_trigger_at = none; updated_at = now }

pub record Patch : Type 0 where
  pub name : Option Text
  pub description : Option Text
  pub runtime_id : Option Text
  pub prompt : Option Text
  pub schedule_kind : Option ScheduleKind
  pub schedule_config : Option ScheduleConfig
  pub timezone : Option Text
  pub timeout_minutes : Option ℕ
  pub artifact_retention_days : Option ℕ
  pub webhook_url : Option Text
  pub trigger_on : Option TriggerOn

abbrev trigger_of : Option WebhookTarget → TriggerOn
trigger_of none = TriggerOn.failure
trigger_of (some w) = w.trigger_on

set_webhook : Host → Automation → Text → TriggerOn → Outcome Automation AutomationError
set_webhook host a url trigger_on =
    assign a (Webhook.create host.url_protocol url trigger_on) λ w. record a { webhook = some w }

retarget : Host → Automation → Option WebhookTarget → TriggerOn → Outcome Automation AutomationError
unfolding set_webhook
retarget host a none trigger_on = (a, none)
retarget host a (some w) trigger_on = set_webhook host a w.url trigger_on

update_webhook :
    Host → Automation → Option Text → Option TriggerOn → Outcome Automation AutomationError
unfolding set_webhook retarget
update_webhook host a (some url) trigger_on =
    if length url == 0
    then (record a { webhook = none }, none)
    else set_webhook host a url (get_or trigger_on (trigger_of a.webhook))
update_webhook host a none (some trigger_on) = retarget host a a.webhook trigger_on
update_webhook host a none none = (a, none)

abbrev pub touches_schedule : Patch → Bool
touches_schedule p = is_some p.schedule_kind || is_some p.schedule_config || is_some p.timezone

pub update_schedule : Host → Patch → ℕ → Automation → Outcome Automation AutomationError
update_schedule host p now a =
    if touches_schedule p
    then (assign a
          (Schedule.create host.intl (get_or p.schedule_kind a.schedule.kind)
            (get_or p.schedule_config a.schedule.config) (get_or p.timezone a.schedule.timezone))
          (λ schedule. record a { schedule = schedule })
        then_do λ b. recompute_future_trigger host b now)
    else (a, none)

patch_name : Patch → Automation → Outcome Automation AutomationError
patch_name p a =
    when_given p.name a (λ name. assign a (assert_name name) λ n. record a { name = n })

patch_texts : Patch → Automation → Outcome Automation AutomationError
patch_texts p a = (
  record a {
    description = if is_some p.description then p.description else a.description;
    runtime_id = get_or p.runtime_id a.runtime_id;
  },
  none,
)

patch_prompt : Patch → Automation → Outcome Automation AutomationError
patch_prompt p a =
    when_given p.prompt a (λ prompt. assign a (assert_prompt prompt) λ q. record a { prompt = q })

patch_timeout : Patch → Automation → Outcome Automation AutomationError
patch_timeout p a =
    when_given p.timeout_minutes a
      λ minutes. assign a (timeout_of minutes) λ t. record a { timeout_minutes = t }

patch_retention : Patch → Automation → Outcome Automation AutomationError
patch_retention p a =
    when_given p.artifact_retention_days a
      λ days. assign a (assert_retention_days days) λ d. record a { retention_days = d }

unfoldable pub update : Host → Automation → Patch → ℕ → Outcome Automation AutomationError
unfolding patch_name patch_texts patch_prompt patch_timeout patch_retention update_webhook
    update_schedule
update host a p now =
    patch_name p a
    then_do patch_texts p
    then_do patch_prompt p
    then_do patch_timeout p
    then_do patch_retention p
    then_do (λ b. update_webhook host b p.webhook_url p.trigger_on)
    then_do update_schedule host p now
    then_do touch now

-- Every method that writes, for histories of calls.
pub data Call : Type 0 where
  updates : Patch → Call
  advances marks_triggered enables disables : Call
  records : AutomationOutcome → Call

unfoldable pub step : Host → Automation → ℕ → Call → Outcome Automation AutomationError
step host a now (updates p) = update host a p now
step host a now advances = advance_trigger host a now
step host a now marks_triggered = (mark_triggered a now, none)
step host a now enables = enable host a now
step host a now disables = (disable a now, none)
step host a now (records outcome) = record_outcome host a outcome now
