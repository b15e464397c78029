-- ===== src/Automation/Schedule/Create.antt =====
-- What `Schedule.create` lets through.
use agent_platform_api.Common.{
  ℕ, ◌≤◌, ◌<◌, ◌≡◌, refl, ◌∙◌, ap, Text, true, false, not, ◌||◌, none, some, List, [], ◌∷◌, any,
  arith, if◌then◌else◌, ok, err, get_or, Option-cases, inl, inr, Result-cases, >>=-eq-ok,
}
use agent_platform_api.Automation.Policies.{invariant, invalid_schedule}
use agent_platform_api.Automation.Schedule.{
  Intl, Schedule, ScheduleKind, ScheduleConfig, Number, nat, other, create, parse_time, has_day,
  sort_unique, insert_number, is_nat_le, number_eq, normalize_config, normalize_days, require_time,
  daily, hourly, weekly,
}

-- Whether some weekday of the week occurs in the list.
has_day-insert :
    (x : Number) (xs : List Number) (w : ℕ)
    → has_day (insert_number x xs) w ≡ (number_eq x (nat w) || has_day xs w)
unfolding has_day insert_number
has_day-insert x [] w = refl
has_day-insert (nat m) (nat n ∷ ns) w = ground (arith, has_day-insert (nat m) ns w)
has_day-insert (nat m) (other ∷ ns) w = refl
has_day-insert other (y ∷ ns) w = refl

-- Sorting the weekdays without repeats keeps which weekdays occur.
pub has_day-sort_unique : (xs : List Number) (w : ℕ) → has_day (sort_unique xs) w ≡ has_day xs w
unfolding has_day sort_unique
has_day-sort_unique [] w = refl
has_day-sort_unique (x ∷ xs) w =
    has_day-insert x (sort_unique xs) w
    ∙ ap (λ b. number_eq x (nat w) || b) (has_day-sort_unique xs w)

-- A time that parses is one of a day.
pub parse_time_bounds : (t : Text) {h m : ℕ} → parse_time t ≡ some (h, m) → (h < 24) × (m < 60)
unfolding parse_time
parse_time_bounds (a ∷ b ∷ colon ∷ c ∷ d ∷ []) e = ground arith
parse_time_bounds [] e = cc
parse_time_bounds (a ∷ []) e = cc
parse_time_bounds (a ∷ b ∷ []) e = cc
parse_time_bounds (a ∷ b ∷ c ∷ []) e = cc
parse_time_bounds (a ∷ b ∷ c ∷ d ∷ []) e = cc
parse_time_bounds (a ∷ b ∷ c ∷ d ∷ e' ∷ f ∷ g) e = cc

-- The config names a time of day.
pub record HasTime (config : ScheduleConfig) : Type 0 where
  pub text : Text
  pub hour : ℕ
  pub minute : ℕ
  pub stored : config.time ≡ some text
  pub parsed : parse_time text ≡ some (hour, minute)

pub record HasDays (config : ScheduleConfig) : Type 0 where
  pub list : List Number
  pub stored : config.days ≡ some list
  pub weekday : ℕ
  pub in_week : weekday ≤ 6
  pub listed : has_day list weekday ≡ true

pub record HasMinute (config : ScheduleConfig) : Type 0 where
  pub minute : ℕ
  pub stored : config.minute ≡ some (nat minute)
  pub in_hour : minute ≤ 59
  pub untimed : config.time ≡ none

-- What a config of each kind holds after validation.
abbrev pub IsValidConfig : ScheduleKind → ScheduleConfig → Type 0
IsValidConfig hourly config = HasMinute config
IsValidConfig daily config = HasTime config
IsValidConfig weekly config = HasTime config × HasDays config

time_HasTime :
    (config c : ScheduleConfig) {t : Text}
    → require_time config.time ≡ ok t
    → c.time ≡ some t
    → HasTime c
unfolding require_time
time_HasTime config c {t} h e = elim (Option-cases config.time) [
  | inl absent ↦ ground arith
  | inr (raw, given) ↦ elim (Option-cases (parse_time raw)) [
    | inl bad ↦ ground arith
    | inr (hm, good) ↦ record {
      text = raw;
      hour = hm.0;
      minute = hm.1;
      stored = ground arith;
      parsed = good;
    }
  ]
]

weekdays_HasDays :
    (c : ScheduleConfig) (d : Number) (ds : List Number)
    → c.days ≡ some (sort_unique (d ∷ ds))
    → any (λ n. not (is_nat_le 6 n)) (d ∷ ds) ≡ false
    → HasDays c
unfolding has_day
weekdays_HasDays c other ds e h = absurd (ground arith)
weekdays_HasDays c (nat n) ds e h = record {
  list = sort_unique (nat n ∷ ds);
  stored = e;
  weekday = n;
  in_week = ground arith;
  listed = rw (has_day-sort_unique (nat n ∷ ds) n) (ground arith);
}

hourly_valid :
    (minute : Number) {c : ScheduleConfig}
    → (if not (is_nat_le 59 minute)
        then err (invariant invalid_schedule)
        else ok (record { minute = some minute; time = none; days = none }))
      ≡ ok c
    → HasMinute c
hourly_valid other h = absurd (ground arith)
hourly_valid (nat n) h = record {
  minute = n;
  stored = ground arith;
  in_hour = ground arith;
  untimed = ground arith;
}

weekly_valid :
    (config : ScheduleConfig) (t : Text) (days : List Number) {c : ScheduleConfig}
    → require_time config.time ≡ ok t
    → normalize_days t days ≡ ok c
    → IsValidConfig weekly c × ((w : ℕ) → has_day (get_or c.days []) w ≡ has_day days w)
unfolding normalize_days
weekly_valid config t [] r h = absurd (ground arith)
weekly_valid config t (d ∷ ds) {c} r h =
    let valid : any (λ n. not (is_nat_le 6 n)) (d ∷ ds) ≡ false = ground arith in
    let at : c.time ≡ some t = ground arith in
    let on : c.days ≡ some (sort_unique (d ∷ ds)) = ground arith in
    (
      (time_HasTime config c r at, weekdays_HasDays c d ds on valid),
      λ w. rw on (has_day-sort_unique (d ∷ ds) w),
    )

normalize-IsValidConfig :
    (kind : ScheduleKind) (config : ScheduleConfig) {c : ScheduleConfig}
    → normalize_config kind config ≡ ok c
    → IsValidConfig kind c
unfolding normalize_config
normalize-IsValidConfig hourly config h = hourly_valid (get_or config.minute (nat 0)) h
normalize-IsValidConfig daily config {c} h =
    let (t, r, e) = >>=-eq-ok (require_time config.time) _ h in
    time_HasTime config c r (ground arith)
normalize-IsValidConfig weekly config h =
    let (t, r, e) = >>=-eq-ok (require_time config.time) _ h in
    (weekly_valid config t (get_or config.days []) r e).0

normalize_weekdays :
    (config : ScheduleConfig) {c : ScheduleConfig}
    → normalize_config weekly config ≡ ok c
    → (w : ℕ) → has_day (get_or c.days []) w ≡ has_day (get_or config.days []) w
unfolding normalize_config
normalize_weekdays config h =
    let (t, r, e) = >>=-eq-ok (require_time config.time) _ h in
    (weekly_valid config t (get_or config.days []) r e).1

-- A schedule that `create` returned.
pub record IsCreated (intl : Intl) (s : Schedule) : Type 0 where
  pub zone_known : intl.is_time_zone s.timezone ≡ true
  pub valid : IsValidConfig s.kind s.config

create_inv :
    (intl : Intl) (kind : ScheduleKind) (config : ScheduleConfig) (timezone : Text) {s : Schedule}
    → create intl kind config timezone ≡ ok s
    → (c : ScheduleConfig) × (normalize_config kind config ≡ ok c)
      × (s ≡ record { kind = kind; config = c; timezone = timezone })
      × (intl.is_time_zone timezone ≡ true)
unfolding create
create_inv intl kind config timezone h = elim (Result-cases (normalize_config kind config)) [
  | inl (c, e) ↦ (c, e, ground arith, ground arith)
  | inr (x, e) ↦ absurd (ground arith)
]

-- `create` returns only valid schedules: a zone that the runtime knows, and a minute below 60, or a
-- time of day, and for a weekly one at least one weekday of the week. Kind and zone are the caller's,
-- and the weekdays are those that the caller listed.
pub create-IsCreated :
    (intl : Intl) (kind : ScheduleKind) (config : ScheduleConfig) (timezone : Text) {s : Schedule}
    → create intl kind config timezone ≡ ok s
    → IsCreated intl s
      × (s.kind ≡ kind)
      × (s.timezone ≡ timezone)
      × (kind ≡ weekly
          → (w : ℕ) → has_day (get_or s.config.days []) w ≡ has_day (get_or config.days []) w)
create-IsCreated intl kind config timezone {s} h =
    let (c, n, e, z) = create_inv intl kind config timezone h in
    rw e (
      record { zone_known = z; valid = normalize-IsValidConfig kind config n },
      refl,
      refl,
      λ k. normalize_weekdays config (rw k at n),
    )
