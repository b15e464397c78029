-- ===== src/Automation/Schedule/Wall.antt =====
-- The wall clock on which a timed rule fires: the first one of its time and weekdays.
use agent_platform_api.Common.{
  ℕ, ◌+◌, ◌-◌, ◌*◌, ◌/◌, ◌%◌, ◌≤◌, ◌<◌, ◌≡◌, refl, ◌≢◌, Text, Bool, true, false, [], get_or, arith,
  utc_weekday, hour_ms, day_ms, minute_ms, ok, date_utc, >>=-eq-ok,
}
use agent_platform_api.Automation.Schedule.{
  Intl, Schedule, ScheduleKind, hourly, daily, weekly, wall_clock_to_utc, next_at_local_time,
  value_of, max_steps, next_daily_occurrence, next_weekly, next_by_kind, next_occurrence, has_day,
  daily_wall_clock,
}
use agent_platform_api.Automation.Schedule.Search.{Found, qualifies}
use agent_platform_api.Automation.Schedule.Create.{HasTime, parse_time_bounds}
use agent_platform_api.Automation.Schedule.Next.{
  wall_at, next_hourly-Found, at_local_time-Found, timed_clock,
}

module _ (intl : Intl) (timezone : Text) (day_matches : ℕ → Bool) (after hour minute utc : ℕ) where
  pub record FiresAt : Type 0 where
    pub wall : ℕ
    pub is_wall : utc ≡ wall_clock_to_utc intl timezone wall
    pub time_of_day : wall % day_ms ≡ hour * hour_ms + minute * minute_ms
    pub listed : day_matches (utc_weekday wall) ≡ true
    pub later : after < utc
    pub first :
        (earlier : ℕ)
        → wall_at intl timezone after hour minute ≤ earlier
        → earlier < wall
        → earlier % day_ms ≡ wall % day_ms
        → day_matches (utc_weekday earlier) ≡ true
        → wall_clock_to_utc intl timezone earlier ≤ after

  Found-first :
      (start rounds earlier : ℕ)
      → ((j : ℕ)
          → j < rounds
          → qualifies intl timezone day_matches after (start + j * day_ms) ≡ false)
      → start ≤ earlier
      → earlier < start + rounds * day_ms
      → earlier % day_ms ≡ (start + rounds * day_ms) % day_ms
      → day_matches (utc_weekday earlier) ≡ true
      → wall_clock_to_utc intl timezone earlier ≤ after
  Found-first start rounds earlier miss low high same day =
      let j = (earlier - start) / day_ms in
      let e : start + j * day_ms ≡ earlier = omega arith in
      let missed = rw e at (miss j (omega arith)) in ground arith

  pub Found-FiresAt :
      hour < 24
      → minute < 60
      → Found intl timezone day_matches after day_ms max_steps
          (wall_at intl timezone after hour minute)
          utc
      → FiresAt
  unfolding date_utc
  Found-FiresAt h m f = record {
    wall = wall_at intl timezone after hour minute + f.rounds * day_ms;
    is_wall = f.is_wall;
    time_of_day = omega arith;
    listed = let hit = f.hit in ground arith;
    later = let hit = f.hit in let w = f.is_wall in ground arith;
    first = λ earlier. Found-first _ f.rounds earlier f.first;
  }

-- The weekdays of a rule: every day, or those that a weekly rule lists.
abbrev rule_days_of : ScheduleKind → Schedule → ℕ → Bool
rule_days_of weekly s = has_day (get_or s.config.days [])
rule_days_of _ s = λ _. true

abbrev pub rule_days : Schedule → ℕ → Bool
rule_days s = rule_days_of s.kind s

timed_FiresAt :
    (intl : Intl) (s : Schedule) (after : ℕ) (day_matches : ℕ → Bool) {utc : ℕ}
    (t : HasTime s.config)
    → next_at_local_time intl s.timezone after day_matches (t.hour, t.minute) ≡ ok utc
    → FiresAt intl s.timezone day_matches after t.hour t.minute utc
timed_FiresAt intl s after day_matches {utc} t e =
    let bounds = parse_time_bounds t.text t.parsed in
    Found-FiresAt intl s.timezone day_matches after t.hour t.minute utc bounds.0 bounds.1
      (at_local_time-Found intl s.timezone after day_matches t.hour t.minute e)

-- The daily time of a timed schedule, which is also that of a degraded rule: a wall clock with the
-- hour and the minute of the schedule, later than `after`, and the first such from the local day of
-- `after` on.
pub next_daily_occurrence-FiresAt :
    (intl : Intl) (s : Schedule) (after : ℕ) {utc : ℕ} (t : HasTime s.config)
    → next_daily_occurrence intl s after ≡ ok utc
    → FiresAt intl s.timezone (λ _. true) after t.hour t.minute utc
unfolding next_daily_occurrence
next_daily_occurrence-FiresAt intl s after t e =
    timed_FiresAt intl s after (λ _. true) t (rw (timed_clock s.config t) at e)

next_weekly-FiresAt :
    (intl : Intl) (s : Schedule) (after : ℕ) {utc : ℕ} (t : HasTime s.config)
    → next_weekly intl s after ≡ ok utc
    → FiresAt intl s.timezone (has_day (get_or s.config.days [])) after t.hour t.minute utc
unfolding next_weekly
next_weekly-FiresAt intl s after t e =
    timed_FiresAt intl s after _ t (rw (timed_clock s.config t) at e)

by_kind-FiresAt :
    (intl : Intl) (kind : ScheduleKind) (s : Schedule) (after : ℕ) {utc : ℕ} (t : HasTime s.config)
    → kind ≢ hourly
    → next_by_kind intl kind s after ≡ ok utc
    → FiresAt intl s.timezone (rule_days_of kind s) after t.hour t.minute utc
unfolding next_by_kind
by_kind-FiresAt intl hourly s after t k e = absurd (k refl)
by_kind-FiresAt intl daily s after t k e = next_daily_occurrence-FiresAt intl s after t e
by_kind-FiresAt intl weekly s after t k e = next_weekly-FiresAt intl s after t e

-- The next time of a daily or weekly schedule is later than `after`; on the zone's wall clock it has
-- the hour and the minute of the schedule and falls on one of its weekdays; and no earlier such wall
-- clock, from the local day of `after` on, comes later than `after`.
pub next_occurrence-FiresAt :
    (intl : Intl) (s : Schedule) (after : ℕ) {utc : ℕ} (t : HasTime s.config)
    → s.kind ≢ hourly
    → next_occurrence intl s after ≡ ok utc
    → FiresAt intl s.timezone (rule_days s) after t.hour t.minute utc
unfolding next_occurrence
next_occurrence-FiresAt intl s after t k e = by_kind-FiresAt intl s.kind s after t k e

-- The next time of an hourly schedule is later than `after`, and on the zone's wall clock it falls on
-- the minute of the schedule.
pub next_hourly_lem :
    (intl : Intl) (s : Schedule) (after minute : ℕ) {utc : ℕ}
    → s.kind ≡ hourly
    → value_of s.config.minute ≡ minute
    → minute < 60
    → next_occurrence intl s after ≡ ok utc
    → (after < utc)
      × (wall : ℕ) × (utc ≡ wall_clock_to_utc intl s.timezone wall)
      × (wall % hour_ms ≡ minute * minute_ms)
unfolding next_occurrence next_by_kind date_utc
next_hourly_lem intl s after minute k v b e =
    let f = next_hourly-Found intl s after (rw (k, next_by_kind) at e) in
    let hit = f.hit in let w = f.is_wall in (ground arith, _, f.is_wall, omega arith)

Found-later :
    (intl : Intl) (timezone : Text) (day_matches : ℕ → Bool) (after stride steps cursor utc : ℕ)
    → Found intl timezone day_matches after stride steps cursor utc
    → after < utc
Found-later intl timezone day_matches after stride steps cursor utc f =
    let hit = f.hit in let w = f.is_wall in ground arith

timed_later :
    (intl : Intl) (s : Schedule) (after : ℕ) (day_matches : ℕ → Bool) (hm : ℕ × ℕ) {utc : ℕ}
    → next_at_local_time intl s.timezone after day_matches hm ≡ ok utc
    → after < utc
timed_later intl s after day_matches (h, m) {utc} e =
    Found-later intl s.timezone day_matches after day_ms max_steps _ utc
      (at_local_time-Found intl s.timezone after day_matches h m e)

pub next_daily_occurrence_later :
    (intl : Intl) (s : Schedule) (after : ℕ) {utc : ℕ}
    → next_daily_occurrence intl s after ≡ ok utc
    → after < utc
unfolding next_daily_occurrence
next_daily_occurrence_later intl s after e =
    let (hm, _, found) = >>=-eq-ok (daily_wall_clock s.config) _ e in
    timed_later intl s after (λ _. true) hm found

weekly_later :
    (intl : Intl) (s : Schedule) (after : ℕ) {utc : ℕ}
    → next_weekly intl s after ≡ ok utc
    → after < utc
unfolding next_weekly
weekly_later intl s after e =
    let (hm, _, found) = >>=-eq-ok (daily_wall_clock s.config) _ e in
    timed_later intl s after _ hm found

later_by_kind :
    (intl : Intl) (kind : ScheduleKind) (s : Schedule) (after : ℕ) {utc : ℕ}
    → next_by_kind intl kind s after ≡ ok utc
    → after < utc
unfolding next_by_kind
later_by_kind intl hourly s after {utc} e =
    Found-later intl s.timezone (λ _. true) after _ max_steps _ utc
      (next_hourly-Found intl s after e)
later_by_kind intl daily s after e = next_daily_occurrence_later intl s after e
later_by_kind intl weekly s after e = weekly_later intl s after e

-- What `nextOccurrence` returns is strictly later than the time it was asked about.
pub next_occurrence_later :
    (intl : Intl) (s : Schedule) (after : ℕ) {utc : ℕ}
    → next_occurrence intl s after ≡ ok utc
    → after < utc
unfolding next_occurrence
next_occurrence_later intl s after e = later_by_kind intl s.kind s after e
