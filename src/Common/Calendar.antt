-- ===== src/Common/Calendar.antt =====
-- `Date.UTC` and `getUTCDay` of the JavaScript library, for dates from 1970 on.
use Prim.Native.Nat.{ℕ, ◌+◌, ◌-◌, ◌*◌, ◌/◌, ◌%◌}
use mathlib.Core.Bool.{Bool, ◌&&◌, ◌||◌, not}
use agent_platform_api.Common.Tests.{ltb, ◌==◌, if◌then◌else◌}

abbrev pub day_ms : ℕ
day_ms = 86400000

abbrev pub hour_ms : ℕ
hour_ms = 3600000

abbrev pub minute_ms : ℕ
minute_ms = 60000

is_leap : ℕ → Bool
is_leap y = (y % 4 == 0 && not (y % 100 == 0)) || y % 400 == 0

-- Leap days in the years before `y`.
leap_days_before : ℕ → ℕ
leap_days_before y = (y - 1) / 4 - (y - 1) / 100 + (y - 1) / 400

-- Days of the year before the month, in a common year.
days_before_month : ℕ → ℕ
days_before_month m =
    if m == 1
    then 0
    else if m == 2
    then 31
    else if m == 3
    then 59
    else if m == 4
    then 90
    else if m == 5
    then 120
    else if m == 6
    then 151
    else if m == 7
    then 181
    else if m == 8
    then 212
    else if m == 9
    then 243
    else if m == 10
    then 273
    else if m == 11
    then 304
    else 334

-- Days from 1970-01-01 to the date, the month counted from 1.
unfoldable pub epoch_day : ℕ → ℕ → ℕ → ℕ
unfolding is_leap leap_days_before days_before_month
epoch_day y m d =
    365 * (y - 1970)
    + (leap_days_before y - leap_days_before 1970)
    + days_before_month m
    + (if ltb 2 m && is_leap y then 1 else 0)
    + (d - 1)

-- `Date.UTC(year, month - 1, day, hour, minute, second, 0)`
unfoldable pub date_utc : ℕ → ℕ → ℕ → ℕ → ℕ → ℕ → ℕ
date_utc y m d hour minute second =
    epoch_day y m d * day_ms + hour * hour_ms + minute * minute_ms + second * 1000

-- `new Date(ms).getUTCDay()`: 1970-01-01 was a Thursday.
unfoldable pub utc_weekday : ℕ → ℕ
utc_weekday ms = (ms / day_ms + 4) % 7
