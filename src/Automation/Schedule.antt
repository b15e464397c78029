-- ===== src/Automation/Schedule.antt =====
-- packages/modules/automation/src/domain/value-objects/schedule.vo.ts.
-- The time zone data of the JavaScript runtime (`Intl.DateTimeFormat`) is a parameter. Instants and
-- wall clocks lie after 1970-01-02, so that the differences below are those of the source.
pub mod Search
pub mod Create
pub mod Next
pub mod Wall
pub mod Clock
use agent_platform_api.Common.{
  ℕ, zero, suc, ◌+◌, ◌-◌, ◌*◌, Text, codes, text_eq, trim, Bool, true, false, not, ◌&&◌, ◌||◌, ltb,
  leb, ◌==◌, if◌then◌else◌, Option, none, some, get_or, List, [], ◌∷◌, map, any, Result, ok, err,
  ◌>>=◌, date_utc, utc_weekday, day_ms, hour_ms, is_blank,
}
use agent_platform_api.Automation.Policies.{
  AutomationError, invariant, invalid_timezone, invalid_schedule, validation_failed,
}

pub record DateParts : Type 0 where
  pub year : ℕ
  pub month : ℕ
  pub day : ℕ
  pub hour : ℕ
  pub minute : ℕ
  pub second : ℕ

-- The runtime: does `new Intl.DateTimeFormat('en-US', { timeZone })` succeed, and the numbers that
-- `formatToParts` gives for an instant in a zone.
pub record Intl : Type 0 where
  pub is_time_zone : Text → Bool
  pub format_parts : Text → ℕ → DateParts

pub data ScheduleKind : Type 0 where
  hourly daily weekly : ScheduleKind

-- A JavaScript number that a caller sends: a natural number, or any other.
pub data Number : Type 0 where
  nat : ℕ → Number
  other : Number

pub record ScheduleConfig : Type 0 where
  pub minute : Option Number
  pub time : Option Text
  pub days : Option (List Number)

pub record Schedule : Type 0 where
  pub kind : ScheduleKind
  pub config : ScheduleConfig
  pub timezone : Text

abbrev pub max_steps : ℕ
max_steps = 72

-- The value of a decimal digit.
digit? : ℕ → Option ℕ
digit? c = if leb b'0' c && leb c b'9' then some (c - b'0') else none

hour_minute : Option ℕ → Option ℕ → Option ℕ → Option ℕ → Option (ℕ × ℕ)
hour_minute (some a) (some b) (some c) (some d) =
    if (ltb a 2 || (a == 2 && ltb b 4)) && ltb c 6 then some (a * 10 + b, c * 10 + d) else none
hour_minute _ _ _ _ = none

-- `HHMM_RE.exec(raw)`, with the two numbers read.
unfoldable pub parse_time : Text → Option (ℕ × ℕ)
unfolding digit? hour_minute
parse_time (a ∷ b ∷ colon ∷ c ∷ d ∷ []) =
    if colon == b':' then hour_minute (digit? a) (digit? b) (digit? c) (digit? d) else none
parse_time _ = none

require_time : Option Text → Result AutomationError Text
unfolding parse_time
require_time none = err (invariant invalid_schedule)
require_time (some time) = elim (parse_time time) [
  | none ↦ err (invariant invalid_schedule)
  | some _ ↦ ok time
]

abbrev is_nat_le : ℕ → Number → Bool
is_nat_le bound (nat n) = leb n bound
is_nat_le bound other = false

abbrev number_eq : Number → Number → Bool
number_eq (nat m) (nat n) = m == n
number_eq _ _ = false

-- `sort((a, b) => a - b)` after `new Set`, on the numbers that passed the check.
insert_number : Number → List Number → List Number
insert_number x [] = x ∷ []
insert_number (nat m) (nat n ∷ ns) =
    if ltb m n
    then nat m ∷ nat n ∷ ns
    else if m == n
    then nat n ∷ ns
    else nat n ∷ insert_number (nat m) ns
insert_number x (y ∷ ns) = x ∷ y ∷ ns

unfoldable pub sort_unique : List Number → List Number
unfolding insert_number
sort_unique [] = []
sort_unique (x ∷ xs) = insert_number x (sort_unique xs)

normalize_days : Text → List Number → Result AutomationError ScheduleConfig
unfolding sort_unique
normalize_days time [] = err (invariant invalid_schedule)
normalize_days time (d ∷ ds) =
    if any (λ n. not (is_nat_le 6 n)) (d ∷ ds)
    then err (invariant invalid_schedule)
    else ok (record { minute = none; time = some time; days = some (sort_unique (d ∷ ds)) })

normalize_config : ScheduleKind → ScheduleConfig → Result AutomationError ScheduleConfig
unfolding require_time normalize_days
normalize_config hourly config =
    let minute = get_or config.minute (nat 0) in
    if not (is_nat_le 59 minute)
    then err (invariant invalid_schedule)
    else ok (record { minute = some minute; time = none; days = none })
normalize_config daily config = do
  time ← require_time config.time
  ok (record { minute = none; time = some time; days = none })
normalize_config weekly config = do
  time ← require_time config.time
  normalize_days time (get_or config.days [])

unfoldable pub create :
    Intl → ScheduleKind → ScheduleConfig → Text → Result AutomationError Schedule
unfolding normalize_config trim
create intl kind config timezone =
    if is_blank (trim timezone) || not (intl.is_time_zone timezone)
    then err (invariant invalid_timezone)
    else (do
      normalized ← normalize_config kind config
      ok (record { kind = kind; config = normalized; timezone = timezone }))

-- `partsIn`
unfoldable pub parts_in : Intl → Text → ℕ → DateParts
parts_in intl timezone instant =
    let parts = intl.format_parts timezone instant in
    record parts { hour = if parts.hour == 24 then 0 else parts.hour }

-- The wall clock of an instant, as if it were UTC: `asUtc` of `offsetAt`.
unfoldable pub as_utc : Intl → Text → ℕ → ℕ
as_utc intl timezone instant =
    let p = parts_in intl timezone instant in date_utc p.year p.month p.day p.hour p.minute p.second

-- `wallClockToUtc`: `wall - offsetAt(t)` is `wall - (asUtc(t) - t)`.
unfoldable pub wall_clock_to_utc : Intl → Text → ℕ → ℕ
wall_clock_to_utc intl timezone wall =
    let instant = wall + wall - as_utc intl timezone wall in
    wall + instant - as_utc intl timezone instant

-- The loops of `nextHourly` and `nextAtLocalTime`: `none` is the throw after the last step.
unfoldable pub search_from : Intl → Text → (ℕ → Bool) → ℕ → ℕ → ℕ → ℕ → Option ℕ
search_from intl timezone day_matches after stride zero cursor = none
search_from intl timezone day_matches after stride (suc steps) cursor =
    let rest = search_from intl timezone day_matches after stride steps (cursor + stride) in
    let utc = wall_clock_to_utc intl timezone cursor in
    if day_matches (utc_weekday cursor) && ltb after utc then some utc else rest

or_throw : Option ℕ → Result AutomationError ℕ
or_throw none = err (invariant validation_failed)
or_throw (some utc) = ok utc

abbrev value_of : Option Number → ℕ
value_of (some (nat n)) = n
value_of _ = 0

pub daily_wall_clock : ScheduleConfig → Result AutomationError (ℕ × ℕ)
unfolding parse_time
daily_wall_clock config = elim config.time [
  | none ↦ ok (0, value_of config.minute)
  | some raw ↦ elim (parse_time raw) [ none ↦ err (invariant invalid_schedule) | some hm ↦ ok hm ]
]

-- `nextAtLocalTime`, from the hour and the minute of `dailyWallClock`.
pub next_at_local_time : Intl → Text → ℕ → (ℕ → Bool) → ℕ × ℕ → Result AutomationError ℕ
unfolding or_throw parts_in
next_at_local_time intl timezone after day_matches (hour, minute) =
    let parts = parts_in intl timezone after in
    or_throw (
      search_from intl timezone day_matches after day_ms max_steps
        (date_utc parts.year parts.month parts.day hour minute 0))

pub next_hourly : Intl → Schedule → ℕ → Result AutomationError ℕ
unfolding or_throw
next_hourly intl s after =
    let parts = parts_in intl s.timezone after in
    or_throw (
      search_from intl s.timezone (λ _. true) after hour_ms max_steps
        (date_utc parts.year parts.month parts.day parts.hour (value_of s.config.minute) 0))

-- `days.has(weekday)`
unfoldable pub has_day : List Number → ℕ → Bool
has_day days weekday = any (λ n. number_eq n (nat weekday)) days

-- `nextDailyOccurrence`, and `nextDaily`, which is the same text.
unfoldable pub next_daily_occurrence : Intl → Schedule → ℕ → Result AutomationError ℕ
unfolding daily_wall_clock next_at_local_time
next_daily_occurrence intl s after =
    daily_wall_clock s.config >>= next_at_local_time intl s.timezone after (λ _. true)

next_weekly : Intl → Schedule → ℕ → Result AutomationError ℕ
unfolding daily_wall_clock next_at_local_time has_day
next_weekly intl s after =
    daily_wall_clock s.config
    >>= next_at_local_time intl s.timezone after (has_day (get_or s.config.days []))

next_by_kind : Intl → ScheduleKind → Schedule → ℕ → Result AutomationError ℕ
unfolding next_hourly next_daily_occurrence next_weekly
next_by_kind intl hourly s after = next_hourly intl s after
next_by_kind intl daily s after = next_daily_occurrence intl s after
next_by_kind intl weekly s after = next_weekly intl s after

unfoldable pub next_occurrence : Intl → Schedule → ℕ → Result AutomationError ℕ
unfolding next_by_kind
next_occurrence intl s after = next_by_kind intl s.kind s after
