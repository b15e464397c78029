-- ===== src/Automation/Examples/Rules.antt =====
-- The rule of the data through its methods.
use agent_platform_api.Common.{
  ℕ, ◌+◌, ◌<◌, ◌≡◌, refl, true, false, some, none, [], ◌∷◌, List, arith, ok, day_ms, hour_ms,
  minute_ms, ◌*◌, trim, arith, day_ms, hour_ms, utc_weekday, date_utc, epoch_day,
}
use agent_platform_api.Automation.Rule.{
  Automation, AutomationOutcome, create, step, records, assert_name, assert_prompt,
}
use agent_platform_api.Automation.Schedule
use agent_platform_api.Automation.Rule.Creation.{IsWellFormed, create-IsWellFormed}
use agent_platform_api.Automation.Rule.Failures.{IsCounted, Counted, record_all, record_all-Counted}
use agent_platform_api.Automation.Rule.Slots.{SlotKept, step-SlotKept}
use agent_platform_api.Automation.Decision.{
  TriggerDecisionInput, active, resource_exhausted, decide,
}
use agent_platform_api.Automation.Decision.Table.{Row, decide-Row}
use agent_platform_api.Automation.Schedule.Create.{IsCreated}
use agent_platform_api.Automation.Examples.Data.{host, rule, input, noon}
use agent_platform_api.Automation.Policies.{timeout_of, assert_retention_days}

rule-IsCounted : IsCounted rule
rule-IsCounted = ground arith

-- A failure, a skipped run, and a second failure: four in all.
abbrev history : List (AutomationOutcome × ℕ)
history =
    (AutomationOutcome.failed, 1)
    ∷ (AutomationOutcome.skipped, 2)
    ∷ (AutomationOutcome.timeout, 3)
    ∷ []

record_all-Counted_example : Counted (record_all host rule history) 4 true
record_all-Counted_example = record_all-Counted host rule history rule-IsCounted

step-SlotKept_example : SlotKept rule (step host rule noon (records AutomationOutcome.failed)).0
step-SlotKept_example = step-SlotKept host rule noon (records AutomationOutcome.failed) refl refl

abbrev created : Automation
created = record rule {
  failure_count = 0;
  next_trigger_at = some (8 * day_ms + 13 * hour_ms + 30 * minute_ms);
  created_at = noon;
  updated_at = noon;
}

create-input : create host input ≡ ok created
unfolding create assert_name assert_prompt trim timeout_of assert_retention_days Schedule.create
    Schedule.next_occurrence Schedule.search_from Schedule.wall_clock_to_utc Schedule.as_utc
    utc_weekday date_utc epoch_day
create-input = refl

create-IsWellFormed_example :
    IsWellFormed host created
    × IsCreated host.intl created.schedule
    × (created.enabled ≡ true)
    × (created.is_degraded ≡ false)
    × (created.failure_count ≡ 0)
    × (slot : ℕ) × (created.next_trigger_at ≡ some slot)
    × (noon < slot)
create-IsWellFormed_example = create-IsWellFormed host input create-input

abbrev due : TriggerDecisionInput
due = record {
  automation = rule;
  previous_run = none;
  previous_task_active = false;
  credential_state = active;
  scheduling_decision = resource_exhausted;
  now = noon;
  missed_threshold_min = none;
}

decide-Row_example : Row due (decide due)
decide-Row_example = decide-Row due
