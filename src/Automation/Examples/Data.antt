-- ===== src/Automation/Examples/Data.antt =====
-- A runtime that knows the zones UTC and America/Panama, which is five hours behind it the whole year,
-- and a rule in the second one. Its calendar writes a date as a day of one
-- long January 1970, which `Date.UTC` reads back.
use agent_platform_api.Common.{
  ℕ, ◌+◌, ◌-◌, ◌*◌, ◌||◌, if◌then◌else◌, ◌/◌, ◌%◌, ◌≤◌, ◌≡◌, refl, Text, codes, text_eq, true,
  false, none, some, [], ◌∷◌, arith, day_ms, hour_ms, minute_ms, date_utc, epoch_day, ok,
}
use agent_platform_api.Automation.Schedule.{
  Intl, DateParts, parts_in, as_utc, Schedule, ScheduleConfig, weekly, nat, create,
}
use agent_platform_api.Automation.Schedule.Search.{IsZone}
use agent_platform_api.Automation.Rule.{Host, Automation, CreateInput, skip, Patch}
use agent_platform_api.Automation.Rule.Slots.{IsDocumented}
use agent_platform_api.Automation.Schedule.Create.{IsCreated, create-IsCreated}

abbrev pub long_month : ℕ → DateParts
long_month t = record {
  year = 1970;
  month = 1;
  day = t / day_ms + 1;
  hour = t % day_ms / hour_ms;
  minute = t % hour_ms / minute_ms;
  second = t % minute_ms / 1000;
}

abbrev pub utc : Text
utc = codes "UTC"

abbrev pub panama : Text
panama = codes "America/Panama"

abbrev pub behind_utc : Text → ℕ
behind_utc timezone = if text_eq utc timezone then 0 else 5 * hour_ms

abbrev pub two_zones : Intl
two_zones = record {
  is_time_zone = λ timezone. text_eq utc timezone || text_eq panama timezone;
  format_parts = λ timezone t. long_month (t - behind_utc timezone);
}

hour_below : (t : ℕ) → t % day_ms / hour_ms ≤ 23
hour_below t = omega arith

behind_le : (timezone : Text) → behind_utc timezone ≤ 5 * hour_ms
behind_le timezone = ground arith

pub known_IsZone : (timezone : Text) → IsZone two_zones timezone
unfolding as_utc parts_in date_utc epoch_day
known_IsZone timezone =
    let back = behind_utc timezone in
    let le = behind_le timezone in
    record {
      ahead = λ t from. ground (arith, hour_below (t - back), le);
      behind = λ t from. ground (arith, hour_below (t - back), le);
      hour_bound = λ t. ground (arith, hour_below (t - back));
      minute_bound = λ t. omega arith;
      second_bound = λ t. omega arith;
    }

abbrev pub host : Host
host = record { intl = two_zones; url_protocol = λ url. some (codes "https:") }

pub host-IsDocumented : IsDocumented host
host-IsDocumented = record { zones = λ timezone _. known_IsZone timezone }

abbrev pub weekly_config : ScheduleConfig
weekly_config = record {
  minute = none;
  time = some (codes "08:30");
  days = some (nat 1 ∷ nat 5 ∷ []);
}

abbrev pub weekly_schedule : Schedule
weekly_schedule = record { kind = weekly; config = weekly_config; timezone = panama }

pub weekly_made : create two_zones weekly weekly_config panama ≡ ok weekly_schedule
unfolding create
weekly_made = refl

pub weekly-IsCreated : IsCreated two_zones weekly_schedule
weekly-IsCreated = (create-IsCreated two_zones weekly weekly_config panama weekly_made).0

-- Thursday, 1970-01-08, noon of UTC; the rule is due on Fridays and Mondays.
abbrev pub noon : ℕ
noon = 7 * day_ms + 12 * hour_ms

abbrev pub rule : Automation
rule = record {
  id = codes "rule";
  project_id = codes "project";
  name = codes "nightly";
  description = none;
  runtime_id = codes "codex";
  prompt = codes "run the tests";
  schedule = weekly_schedule;
  enabled = true;
  is_degraded = false;
  concurrency = skip;
  timeout_minutes = 120;
  retention_days = 7;
  webhook = none;
  failure_count = 2;
  last_triggered_at = none;
  next_trigger_at = some noon;
  created_at = 0;
  updated_at = 0;
  events = [];
}

abbrev pub input : CreateInput
input = record {
  id = codes "rule";
  project_id = codes "project";
  name = codes " nightly ";
  description = none;
  runtime_id = codes "codex";
  prompt = codes "run the tests";
  schedule_kind = weekly;
  schedule_config = weekly_config;
  timezone = panama;
  timeout_minutes = 120;
  artifact_retention_days = 7;
  webhook_url = none;
  trigger_on = none;
  now = noon;
}

abbrev pub rename_patch : Patch
rename_patch = record {
  name = some (codes "weekly");
  description = none;
  runtime_id = none;
  prompt = none;
  schedule_kind = none;
  schedule_config = none;
  timezone = none;
  timeout_minutes = some 60;
  artifact_retention_days = none;
  webhook_url = none;
  trigger_on = none;
}
