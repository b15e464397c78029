-- ===== src/Automation/Schedule/Next.antt =====
-- `nextOccurrence` and `nextDailyOccurrence` find a next time, and it is later than the given one.
use agent_platform_api.Common.{
  ℕ, ◌+◌, ◌-◌, ◌*◌, ◌/◌, ◌%◌, ◌≤◌, ◌<◌, ◌≡◌, refl, Text, Bool, true, none, arith, utc_weekday,
  hour_ms, day_ms, lt→ltb, ok, date_utc,
}
use agent_platform_api.Automation.Schedule.{
  Intl, Schedule, ScheduleKind, ScheduleConfig, hourly, daily, weekly, parts_in, as_utc,
  wall_clock_to_utc, search_from, or_throw, max_steps, next_at_local_time, next_hourly, next_weekly,
  next_daily_occurrence, next_by_kind, next_occurrence, daily_wall_clock, has_day, value_of,
}
use agent_platform_api.Automation.Schedule.Search.{
  IsZone, Found, qualifies, wall_clock_to_utc-ge, search_from-Found, search_from-total,
}
use agent_platform_api.Automation.Schedule.Create.{HasTime, HasDays, IsValidConfig, IsCreated}

-- `hour:minute` on the local day of `after`, as a wall clock.
abbrev pub wall_at : Intl → Text → ℕ → ℕ → ℕ → ℕ
wall_at intl timezone after hour minute =
    let p = parts_in intl timezone after in date_utc p.year p.month p.day hour minute 0

module _ (intl : Intl) (timezone : Text) (after : ℕ) (z : IsZone intl timezone)
    (from : day_ms ≤ after) where
  -- From the third day on every candidate lies after the given instant.
  late_day :
      (hour minute k : ℕ)
      → 3 ≤ k
      → after
        < wall_clock_to_utc intl timezone (wall_at intl timezone after hour minute + k * day_ms)
  unfolding as_utc date_utc
  late_day hour minute k h = omega (
    arith,
    wall_clock_to_utc-ge intl timezone (wall_at intl timezone after hour minute + k * day_ms) z (
        omega (
          arith,
          z.behind after from,
          z.hour_bound after,
          z.minute_bound after,
          z.second_bound after,
        )),
    z.behind after from,
    z.hour_bound after,
    z.minute_bound after,
    z.second_bound after,
  )

  late_hour :
      (minute k : ℕ)
      → 30 ≤ k
      → after
        < wall_clock_to_utc intl timezone
            (wall_at intl timezone after (parts_in intl timezone after).hour minute + k * hour_ms)
  unfolding as_utc date_utc
  late_hour minute k h = omega (
    arith,
    wall_clock_to_utc-ge intl timezone
        (wall_at intl timezone after (parts_in intl timezone after).hour minute + k * hour_ms) z,
    z.behind after from,
    z.minute_bound after,
    z.second_bound after,
  )

-- Every weekday comes round within a week.
weekday_reach : (c w : ℕ) → w ≤ 6 → (k : ℕ) × (3 ≤ k) × (k ≤ 9) × (utc_weekday (c + k * day_ms) ≡ w)
unfolding utc_weekday
weekday_reach c w h =
    let k = 3 + (w + 14 - (c / day_ms + 7) % 7) % 7 in (k, omega arith, omega arith, omega arith)

reached :
    (intl : Intl) (timezone : Text) (day_matches : ℕ → Bool) (after stride steps k cursor : ℕ)
    → k < steps
    → day_matches (utc_weekday (cursor + k * stride)) ≡ true
    → after < wall_clock_to_utc intl timezone (cursor + k * stride)
    → (utc : ℕ) × (or_throw (search_from intl timezone day_matches after stride steps cursor)
        ≡ ok utc)
unfolding or_throw
reached intl timezone day_matches after stride steps k cursor fits day late =
    let qualified : qualifies intl timezone day_matches after (cursor + k * stride) ≡ true =
      rw (day, lt→ltb after _ late) in
    let (utc, e) =
      search_from-total intl timezone day_matches after stride steps k cursor fits qualified in
    (utc, rw e)

pub timed_clock :
    (config : ScheduleConfig) (t : HasTime config) → daily_wall_clock config ≡ ok (t.hour, t.minute)
unfolding daily_wall_clock
timed_clock config t = rw (t.stored, daily_wall_clock) (rw (t.parsed, daily_wall_clock))

total_at :
    (intl : Intl) (s : Schedule) (after : ℕ) (day_matches : ℕ → Bool) (hour minute k : ℕ)
    → IsZone intl s.timezone
    → day_ms ≤ after
    → 3 ≤ k
    → k ≤ 9
    → day_matches (utc_weekday (wall_at intl s.timezone after hour minute + k * day_ms)) ≡ true
    → (utc : ℕ) × (next_at_local_time intl s.timezone after day_matches (hour, minute) ≡ ok utc)
unfolding next_at_local_time
total_at intl s after day_matches hour minute k z from low high day =
    reached intl s.timezone day_matches after day_ms max_steps k _ (omega arith) day
      (late_day intl s.timezone after z from hour minute k low)

total_daily :
    (intl : Intl) (s : Schedule) (after : ℕ)
    → IsZone intl s.timezone
    → day_ms ≤ after
    → (h m : ℕ) → daily_wall_clock s.config ≡ ok (h, m)
    → (utc : ℕ) × (next_daily_occurrence intl s after ≡ ok utc)
unfolding next_daily_occurrence
total_daily intl s after z from h m e =
    rw e (total_at intl s after (λ _. true) h m 3 z from (omega arith) (omega arith) refl)

untimed_clock :
    (config : ScheduleConfig)
    → config.time ≡ none
    → daily_wall_clock config ≡ ok (0, value_of config.minute)
unfolding daily_wall_clock
untimed_clock config e = rw (e, daily_wall_clock)

total_weekly :
    (intl : Intl) (s : Schedule) (after : ℕ)
    → IsZone intl s.timezone
    → day_ms ≤ after
    → HasTime s.config
    → HasDays s.config
    → (utc : ℕ) × (next_weekly intl s after ≡ ok utc)
unfolding next_weekly
total_weekly intl s after z from t d =
    let (k, low, high, day) =
      weekday_reach (wall_at intl s.timezone after t.hour t.minute) d.weekday d.in_week in
    rw (timed_clock s.config t, d.stored)
      (total_at intl s after (has_day d.list) t.hour t.minute k z from low high (rw day d.listed))

total_hourly :
    (intl : Intl) (s : Schedule) (after : ℕ)
    → IsZone intl s.timezone
    → day_ms ≤ after
    → (utc : ℕ) × (next_hourly intl s after ≡ ok utc)
unfolding next_hourly
total_hourly intl s after z from =
    reached intl s.timezone (λ _. true) after hour_ms max_steps 30 _ (omega arith) refl
      (late_hour intl s.timezone after z from (value_of s.config.minute) 30 (omega arith))

total_by_kind :
    (intl : Intl) (kind : ScheduleKind) (s : Schedule) (after : ℕ)
    → IsValidConfig kind s.config
    → IsZone intl s.timezone
    → day_ms ≤ after
    → (utc : ℕ) × (next_by_kind intl kind s after ≡ ok utc)
unfolding next_by_kind
total_by_kind intl hourly s after v z from = total_hourly intl s after z from
total_by_kind intl daily s after v z from =
    total_daily intl s after z from v.hour v.minute (timed_clock s.config v)
total_by_kind intl weekly s after v z from = total_weekly intl s after z from v.0 v.1

-- For a schedule that `create` returned, in a zone as the runtime documents it, and from the second
-- day of 1970 on, `nextOccurrence` returns a time: none of its loops runs out of its 72 steps.
pub next_occurrence-total :
    (intl : Intl) (s : Schedule) (after : ℕ)
    → IsCreated intl s
    → IsZone intl s.timezone
    → day_ms ≤ after
    → (utc : ℕ) × (next_occurrence intl s after ≡ ok utc)
unfolding next_occurrence
next_occurrence-total intl s after c z from = total_by_kind intl s.kind s after c.valid z from

daily_total_by_kind :
    (intl : Intl) (kind : ScheduleKind) (s : Schedule) (after : ℕ)
    → IsValidConfig kind s.config
    → IsZone intl s.timezone
    → day_ms ≤ after
    → (utc : ℕ) × (next_daily_occurrence intl s after ≡ ok utc)
daily_total_by_kind intl hourly s after v z from =
    total_daily intl s after z from 0 _ (untimed_clock s.config v.untimed)
daily_total_by_kind intl daily s after v z from =
    total_daily intl s after z from v.hour v.minute (timed_clock s.config v)
daily_total_by_kind intl weekly s after v z from =
    total_daily intl s after z from v.0.hour v.0.minute (timed_clock s.config v.0)

-- So does the daily computation of a degraded rule, whatever the kind of its schedule.
pub next_daily_occurrence-total :
    (intl : Intl) (s : Schedule) (after : ℕ)
    → IsCreated intl s
    → IsZone intl s.timezone
    → day_ms ≤ after
    → (utc : ℕ) × (next_daily_occurrence intl s after ≡ ok utc)
next_daily_occurrence-total intl s after c z from =
    daily_total_by_kind intl s.kind s after c.valid z from

pub next_hourly-Found :
    (intl : Intl) (s : Schedule) (after : ℕ) {utc : ℕ}
    → next_hourly intl s after ≡ ok utc
    → Found intl s.timezone
        (λ _. true)
        after
        hour_ms
        max_steps
        (wall_at intl s.timezone after
          (parts_in intl s.timezone after).hour
          (value_of s.config.minute))
        utc
unfolding next_hourly or_throw
next_hourly-Found intl s after h =
    search_from-Found intl s.timezone (λ _. true) after hour_ms max_steps _ (ground arith)

pub at_local_time-Found :
    (intl : Intl) (timezone : Text) (after : ℕ) (day_matches : ℕ → Bool) (h m : ℕ) {utc : ℕ}
    → next_at_local_time intl timezone after day_matches (h, m) ≡ ok utc
    → Found intl timezone day_matches after day_ms max_steps (wall_at intl timezone after h m) utc
unfolding next_at_local_time
at_local_time-Found intl timezone after day_matches h m e =
    search_from-Found intl timezone day_matches after day_ms max_steps _ (ground arith)
