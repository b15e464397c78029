-- ===== src/Automation/Examples/Schedules.antt =====
-- The weekly schedule of the data: asked on Thursday noon, it fires on Friday at 08:30 of
-- Panama.
use agent_platform_api.Common.{
  ◌-◌, ◌/◌, ◌%◌, arith, ℕ, ◌+◌, ◌*◌, ◌≡◌, refl, ok, day_ms, hour_ms, minute_ms, get_or, [],
  utc_weekday, date_utc, epoch_day,
}
use agent_platform_api.Automation.Schedule.{
  next_occurrence, parts_in, weekly, has_day, search_from, wall_clock_to_utc, as_utc,
}
use agent_platform_api.Automation.Schedule.Create.{IsCreated, HasTime, create-IsCreated}
use agent_platform_api.Automation.Schedule.Next.{next_occurrence-total}
use agent_platform_api.Automation.Schedule.Wall.{rule_days}
use agent_platform_api.Automation.Schedule.Clock.{IsSteady, IsNext, next_occurrence-IsNext}
use agent_platform_api.Automation.Examples.Data.{
  panama, two_zones, known_IsZone, weekly_config, weekly_schedule, weekly_made, weekly-IsCreated,
  noon,
}

abbrev friday : ℕ
friday = 8 * day_ms + 13 * hour_ms + 30 * minute_ms

fires_on_friday : next_occurrence two_zones weekly_schedule noon ≡ ok friday
unfolding next_occurrence search_from utc_weekday date_utc epoch_day wall_clock_to_utc as_utc
fires_on_friday = refl

has_time : HasTime weekly_config
has_time = weekly-IsCreated.valid.0

next_occurrence-total_example : (t : ℕ) × (next_occurrence two_zones weekly_schedule noon ≡ ok t)
next_occurrence-total_example =
    next_occurrence-total two_zones weekly_schedule noon weekly-IsCreated (known_IsZone panama)
      (omega arith)

second_of :
    (t : ℕ)
    → t / day_ms * day_ms
        + t % day_ms / hour_ms * hour_ms
        + t % hour_ms / minute_ms * minute_ms
        + t % minute_ms / 1000 * 1000
      ≡ t / 1000 * 1000
second_of t = omega arith

-- Panama keeps its five hours.
panama-IsSteady : IsSteady two_zones panama (noon - 2 * day_ms) (friday + 2 * day_ms)
unfolding as_utc date_utc epoch_day parts_in
panama-IsSteady = record {
  ahead = 0;
  behind = 5 * hour_ms;
  ahead_whole = refl;
  behind_whole = refl;
  shown = λ t low high. ground (arith, second_of (t - 5 * hour_ms), low);
}

next_occurrence-IsNext_example :
    IsNext two_zones panama (rule_days weekly_schedule) noon has_time.hour has_time.minute friday
next_occurrence-IsNext_example =
    next_occurrence-IsNext two_zones weekly_schedule noon friday has_time (λ e. cc)
      (known_IsZone panama) (omega arith) panama-IsSteady fires_on_friday

create-IsCreated_example :
    IsCreated two_zones weekly_schedule
    × (weekly_schedule.kind ≡ weekly)
    × (weekly_schedule.timezone ≡ panama)
    × (weekly ≡ weekly
        → (w : ℕ)
        → has_day (get_or weekly_config.days []) w ≡ has_day (get_or weekly_config.days []) w)
create-IsCreated_example = create-IsCreated two_zones weekly weekly_config panama weekly_made
