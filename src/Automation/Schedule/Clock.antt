-- ===== src/Automation/Schedule/Clock.antt =====
-- What the clock of the zone shows when a timed rule fires, where the zone keeps its offset for two days
-- before and after: no change to or from daylight saving time lies in between.
use agent_platform_api.Common.{
  ℕ, ◌+◌, ◌-◌, ◌*◌, ◌/◌, ◌%◌, ◌≤◌, ◌<◌, ◌≡◌, refl, ◌≢◌, ◌∙◌, ap, sym, subst, Text, Bool, true, ◌==◌,
  if◌then◌else◌, arith, utc_weekday, hour_ms, day_ms, minute_ms, ok, date_utc, epoch_day,
}
use agent_platform_api.Automation.Schedule.{
  Intl, Schedule, hourly, parts_in, as_utc, wall_clock_to_utc, next_occurrence,
}
use agent_platform_api.Automation.Schedule.Search.{IsZone, wall_clock_to_utc-ge}
use agent_platform_api.Automation.Schedule.Create.{HasTime, parse_time_bounds}
use agent_platform_api.Automation.Schedule.Next.{wall_at}
use agent_platform_api.Automation.Schedule.Wall.{FiresAt, rule_days, next_occurrence-FiresAt}

-- The zone is `ahead` of UTC, or `behind` it, by the same whole seconds from `start` to `end`. Its clock
-- shows no milliseconds.
pub record IsSteady (intl : Intl) (timezone : Text) (start end : ℕ) : Type 0 where
  pub ahead : ℕ
  pub behind : ℕ
  pub ahead_whole : ahead % 1000 ≡ 0
  pub behind_whole : behind % 1000 ≡ 0
  pub shown :
      (t : ℕ) → start ≤ t → t ≤ end → as_utc intl timezone t + behind ≡ t / 1000 * 1000 + ahead

-- The clock of the zone shows the time of day, to the second, on a listed weekday.
abbrev pub Shows : Intl → Text → (ℕ → Bool) → ℕ → ℕ → ℕ → Type 0
Shows intl timezone day_matches hour minute t =
    ((intl.format_parts timezone t).hour % 24 ≡ hour)
    × ((intl.format_parts timezone t).minute ≡ minute)
    × ((intl.format_parts timezone t).second ≡ 0)
    × (day_matches (
          utc_weekday (
            date_utc (intl.format_parts timezone t).year (intl.format_parts timezone t).month
              (intl.format_parts timezone t).day 0 0 0))
        ≡ true)

-- The first whole second after the given time at which the clock shows the time on a listed weekday.
pub record IsNext (intl : Intl) (timezone : Text) (day_matches : ℕ → Bool)
    (after hour minute utc : ℕ) : Type 0 where
  pub later : after < utc
  pub shows : Shows intl timezone day_matches hour minute utc
  pub first :
      (t : ℕ)
      → after < t
      → t < utc
      → t % 1000 ≡ 0
      → Shows intl timezone day_matches hour minute t
      → ⊥

normal_hour : (h : ℕ) → (if h == 24 then 0 else h) ≤ 23 → (if h == 24 then 0 else h) ≡ h % 24
normal_hour h le = ground (arith, le)

-- The wall clock, from the parts that the runtime gives.
as_utc-parts :
    (intl : Intl) (timezone : Text) (t : ℕ)
    → IsZone intl timezone
    → as_utc intl timezone t
      ≡ date_utc
          (intl.format_parts timezone t).year
          (intl.format_parts timezone t).month
          (intl.format_parts timezone t).day
          ((intl.format_parts timezone t).hour % 24)
          (intl.format_parts timezone t).minute
          (intl.format_parts timezone t).second
unfolding as_utc parts_in
as_utc-parts intl timezone t z =
    let p = intl.format_parts timezone t in
    ap (λ h. date_utc p.year p.month p.day h p.minute p.second)
      (normal_hour p.hour (z.hour_bound t))

-- Two readings of a zone with a steady offset undo it.
undone :
    (wall instant seen again ahead behind : ℕ)
    → instant ≡ wall + wall - seen
    → seen + behind ≡ wall / 1000 * 1000 + ahead
    → again + behind ≡ instant / 1000 * 1000 + ahead
    → wall % 1000 ≡ 0
    → ahead % 1000 ≡ 0
    → behind % 1000 ≡ 0
    → seen ≤ wall + wall
    → wall + instant - again + ahead ≡ wall + behind
undone wall instant seen again ahead behind i a b w x y le = omega arith

module _ (intl : Intl) (timezone : Text) (start end : ℕ) (z : IsZone intl timezone)
    (steady : IsSteady intl timezone start end) where
  wall_clock_to_utc_steady :
      (wall : ℕ)
      → wall % 1000 ≡ 0
      → 2 * day_ms ≤ wall
      → start + 14 * hour_ms ≤ wall
      → wall + 14 * hour_ms ≤ end
      → wall_clock_to_utc intl timezone wall + steady.ahead ≡ wall + steady.behind
  unfolding wall_clock_to_utc
  wall_clock_to_utc_steady wall whole from low high =
      let seen = as_utc intl timezone wall in
      let instant = wall + wall - seen in
      let le : seen ≤ wall + 14 * hour_ms = z.ahead wall (omega arith) in
      let ge : wall ≤ seen + 14 * hour_ms = z.behind wall (omega arith) in
      let above : start ≤ instant = omega (arith, le, low, from) in
      let below : instant ≤ end = omega (arith, ge, high, from) in
      undone wall instant seen (as_utc intl timezone instant) steady.ahead steady.behind refl
        (steady.shown wall (omega arith) (omega arith)) (steady.shown instant above below) whole
        steady.ahead_whole steady.behind_whole (omega (arith, le, from))

-- A wall clock lies within the offset of the instant that the code finds for it.
wall_clock_to_utc-near :
    (intl : Intl) (timezone : Text) (wall : ℕ)
    → IsZone intl timezone
    → 7 * day_ms < wall_clock_to_utc intl timezone wall
    → (2 * day_ms ≤ wall)
      × (wall_clock_to_utc intl timezone wall ≤ wall + 14 * hour_ms)
      × (wall ≤ wall_clock_to_utc intl timezone wall + 14 * hour_ms)
unfolding wall_clock_to_utc
wall_clock_to_utc-near intl timezone wall z late =
    let instant = wall + wall - as_utc intl timezone wall in
    let low : 2 * day_ms ≤ wall = omega (arith, late) in
    let le = z.ahead wall (omega (arith, low)) in
    let near = z.behind instant (omega (arith, low, le)) in
    (
      low,
      omega (arith, near, low, le),
      wall_clock_to_utc-ge intl timezone wall z (omega (arith, low)),
    )

-- The clock shows a wall clock's time and weekday exactly where it shows that wall clock's second.
wall-Shows :
    (intl : Intl) (timezone : Text) (day_matches : ℕ → Bool) (hour minute wall t : ℕ)
    → IsZone intl timezone
    → hour < 24
    → minute < 60
    → as_utc intl timezone t ≡ wall
    → wall % day_ms ≡ hour * hour_ms + minute * minute_ms
    → day_matches (utc_weekday wall) ≡ true
    → Shows intl timezone day_matches hour minute t
unfolding date_utc utc_weekday parts_in
wall-Shows intl timezone day_matches hour minute wall t z h m same time day =
    let p = intl.format_parts timezone t in
    let date = epoch_day p.year p.month p.day in
    let read = sym (as_utc-parts intl timezone t z) ∙ same in
    let low = z.minute_bound t in
    let second = z.second_bound t in
    let weekday : (date * day_ms + 0 * hour_ms + 0 * minute_ms + 0 * 1000) / day_ms
        ≡ wall / day_ms =
      omega (arith, read, low, second) in
    (
      omega (arith, read, low, second, time),
      omega (arith, read, low, second, time),
      omega (arith, read, low, second, time),
      subst (λ d. day_matches ((d + 4) % 7) ≡ true) (sym weekday) day,
    )

wall_shown :
    (intl : Intl) (timezone : Text) (day_matches : ℕ → Bool) (hour minute t : ℕ)
    → IsZone intl timezone
    → hour < 24
    → minute < 60
    → Shows intl timezone day_matches hour minute t
    → (as_utc intl timezone t % day_ms ≡ hour * hour_ms + minute * minute_ms)
      × (day_matches (utc_weekday (as_utc intl timezone t)) ≡ true)
unfolding date_utc utc_weekday parts_in
wall_shown intl timezone day_matches hour minute t z h m (e, f, g, day) =
    let p = intl.format_parts timezone t in
    let date = epoch_day p.year p.month p.day in
    let read = as_utc-parts intl timezone t z in
    let weekday : (date * day_ms + 0 * hour_ms + 0 * minute_ms + 0 * 1000) / day_ms
        ≡ as_utc intl timezone t / day_ms =
      omega (arith, read, e, f, g) in
    (omega (arith, read, e, f, g), subst (λ d. day_matches ((d + 4) % 7) ≡ true) weekday day)

-- The time of the local day does not come after a wall clock of that time, from that day on.
wall_at-le :
    (intl : Intl) (timezone : Text) (after hour minute wall : ℕ)
    → hour < 24
    → minute < 60
    → as_utc intl timezone after ≤ wall
    → wall % day_ms ≡ hour * hour_ms + minute * minute_ms
    → wall_at intl timezone after hour minute ≤ wall
unfolding as_utc date_utc
wall_at-le intl timezone after hour minute wall h m le time = omega (arith, le, time)

module _ (intl : Intl) (timezone : Text) (day_matches : ℕ → Bool) (after hour minute utc : ℕ)
    (z : IsZone intl timezone) (from : 7 * day_ms ≤ after) (h : hour < 24) (m : minute < 60)
    (steady : IsSteady intl timezone (after - 2 * day_ms) (utc + 2 * day_ms))
    (fires : FiresAt intl timezone day_matches after hour minute utc) where
  -- The instant of a wall clock between the two.
  instant_of :
      (wall : ℕ)
      → wall % 1000 ≡ 0
      → after ≤ wall + 14 * hour_ms
      → wall ≤ utc + 14 * hour_ms
      → wall_clock_to_utc intl timezone wall + steady.ahead ≡ wall + steady.behind
  instant_of wall whole low high =
      wall_clock_to_utc_steady intl timezone (after - 2 * day_ms) (utc + 2 * day_ms) z steady wall
        whole (omega (arith, low, from)) (omega (arith, low, from)) (omega (arith, high))

  instant_fires : utc + steady.ahead ≡ fires.wall + steady.behind
  instant_fires =
      let late = fires.later in
      let e = fires.is_wall in
      let (low, above, below) =
        wall_clock_to_utc-near intl timezone fires.wall z (omega (arith, late, e, from)) in
      ap (λ t. t + steady.ahead) e
      ∙ instant_of fires.wall (omega (arith, fires.time_of_day)) (omega (arith, above, e, late))
          (omega (arith, below, e))

  shown_at_utc : as_utc intl timezone utc ≡ fires.wall
  shown_at_utc =
      let time = fires.time_of_day in
      let late = fires.later in
      let seen = steady.shown utc (omega (arith, late)) (omega arith) in
      omega (arith, seen, instant_fires, time, steady.ahead_whole, steady.behind_whole)

  earlier_shown :
      (t : ℕ)
      → after < t
      → t < utc
      → t % 1000 ≡ 0
      → Shows intl timezone day_matches hour minute t
      → ⊥
  earlier_shown t low high whole shows =
      let wall = as_utc intl timezone t in
      let (time, day) = wall_shown intl timezone day_matches hour minute t z h m shows in
      let seen : wall + steady.behind ≡ t / 1000 * 1000 + steady.ahead =
        steady.shown t (omega (arith, low)) (omega (arith, high)) in
      let start = steady.shown after (omega arith) (omega (arith, low, high)) in
      let starts : as_utc intl timezone after ≤ wall = omega (arith, seen, start, low, whole) in
      let before : wall < fires.wall = omega (arith, seen, instant_fires, high, whole) in
      let at : wall_clock_to_utc intl timezone wall + steady.ahead ≡ wall + steady.behind =
        instant_of wall (omega (arith, time))
          (omega (arith, z.behind t (omega (arith, low, from)), low))
          (omega (arith, z.ahead t (omega (arith, low, from)), high)) in
      let missed : wall_clock_to_utc intl timezone wall ≤ after =
        fires.first wall (wall_at-le intl timezone after hour minute wall h m starts time) before
          (time ∙ sym fires.time_of_day) day in
      absurd (omega (arith, at, missed, seen, whole, low))

  FiresAt-IsNext : IsNext intl timezone day_matches after hour minute utc
  FiresAt-IsNext = record {
    later = fires.later;
    shows =
        wall-Shows intl timezone day_matches hour minute fires.wall utc z h m shown_at_utc
          fires.time_of_day fires.listed;
    first = earlier_shown;
  }

-- In a zone as the runtime documents it, which keeps its offset from two days before the given time to
-- two days after the result, and from 8 January 1970 on: the next time of a daily or weekly schedule is
-- later than the given one; at it the clock of the zone shows the hour and the minute of the schedule and
-- second 0, on one of its weekdays; and it is the first whole second after the given time at which the
-- clock does.
pub next_occurrence-IsNext :
    (intl : Intl) (s : Schedule) (after utc : ℕ) (t : HasTime s.config)
    → s.kind ≢ hourly
    → IsZone intl s.timezone
    → 7 * day_ms ≤ after
    → IsSteady intl s.timezone (after - 2 * day_ms) (utc + 2 * day_ms)
    → next_occurrence intl s after ≡ ok utc
    → IsNext intl s.timezone (rule_days s) after t.hour t.minute utc
next_occurrence-IsNext intl s after utc t timed z from steady found =
    let bounds = parse_time_bounds t.text t.parsed in
    FiresAt-IsNext intl s.timezone (rule_days s) after t.hour t.minute utc z from bounds.0 bounds.1
      steady (next_occurrence-FiresAt intl s after t timed found)
