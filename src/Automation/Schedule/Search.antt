-- ===== src/Automation/Schedule/Search.antt =====
-- The search loop of the schedule: what it finds, and when it finds something.
use agent_platform_api.Common.{
  ℕ, zero, suc, ◌+◌, ◌-◌, ◌*◌, ◌≤◌, ◌<◌, ◌≡◌, Text, Bool, true, false, ◌&&◌, ltb, some, arith,
  Bool-cases, inl, inr, utc_weekday, hour_ms, day_ms,
}
use agent_platform_api.Automation.Schedule.{Intl, parts_in, as_utc, wall_clock_to_utc, search_from}

-- What the runtime documents of a zone: from the second day of 1970 on an offset of at most fourteen
-- hours either way, and a clock time. (Before, a wall clock of the first day may lie in 1969.)
pub record IsZone (intl : Intl) (timezone : Text) : Type 0 where
  pub ahead : (t : ℕ) → day_ms ≤ t → as_utc intl timezone t ≤ t + 14 * hour_ms
  pub behind : (t : ℕ) → day_ms ≤ t → t ≤ as_utc intl timezone t + 14 * hour_ms
  pub hour_bound : (t : ℕ) → (parts_in intl timezone t).hour ≤ 23
  pub minute_bound : (t : ℕ) → (parts_in intl timezone t).minute ≤ 59
  pub second_bound : (t : ℕ) → (parts_in intl timezone t).second ≤ 59

pub wall_clock_to_utc-ge :
    (intl : Intl) (timezone : Text) (wall : ℕ)
    → IsZone intl timezone
    → 38 * hour_ms ≤ wall
    → wall ≤ wall_clock_to_utc intl timezone wall + 14 * hour_ms
unfolding wall_clock_to_utc
wall_clock_to_utc-ge intl timezone wall z from =
    let instant = wall + wall - as_utc intl timezone wall in
    let first = z.ahead wall (omega arith) in
    omega (arith, first, z.ahead instant (omega (arith, first)))

module _ (intl : Intl) (timezone : Text) (day_matches : ℕ → Bool) (after : ℕ) where
  -- A wall clock is a candidate if its day is one of the rule's and it lies after `after`.
  abbrev pub qualifies : ℕ → Bool
  qualifies wall =
      day_matches (utc_weekday wall) && ltb after (wall_clock_to_utc intl timezone wall)

  -- The result is the first candidate from `cursor` on, in steps of `stride`.
  pub record Found (stride steps cursor utc : ℕ) : Type 0 where
    pub rounds : ℕ
    pub in_time : rounds < steps
    pub hit : qualifies (cursor + rounds * stride) ≡ true
    pub is_wall : utc ≡ wall_clock_to_utc intl timezone (cursor + rounds * stride)
    pub first : (j : ℕ) → j < rounds → qualifies (cursor + j * stride) ≡ false

  cursor_zero : (cursor stride : ℕ) → cursor + 0 * stride ≡ cursor
  cursor_zero cursor stride = omega arith

  cursor_suc : (cursor stride k : ℕ) → cursor + stride + k * stride ≡ cursor + suc k * stride
  cursor_suc cursor stride k = omega arith

  first_suc :
      (stride cursor k : ℕ)
      → qualifies cursor ≡ false
      → ((j : ℕ) → j < k → qualifies (cursor + stride + j * stride) ≡ false)
      → (j : ℕ) → j < suc k
      → qualifies (cursor + j * stride) ≡ false
  first_suc stride cursor k now later zero h = rw (cursor_zero cursor stride) now
  first_suc stride cursor k now later (suc j) h =
      rw (← cursor_suc cursor stride j) (later j (omega arith))

  pub search_from-Found :
      (stride steps cursor : ℕ) {utc : ℕ}
      → search_from intl timezone day_matches after stride steps cursor ≡ some utc
      → Found stride steps cursor utc
  unfolding search_from
  search_from-Found stride zero cursor h = cc
  search_from-Found stride (suc steps) cursor {utc} h = elim (Bool-cases (qualifies cursor)) [
    | inl hit ↦ record {
      rounds = 0;
      in_time = omega arith;
      hit = rw (cursor_zero cursor stride) hit;
      is_wall =
          rw (cursor_zero cursor stride)
            (let e : some (wall_clock_to_utc intl timezone cursor) ≡ some utc = rw hit at h in cc);
      first = λ j lt. absurd (omega arith);
    }
    | inr miss ↦
        let later = search_from-Found stride steps (cursor + stride) {utc = utc} (rw miss at h) in
        record {
          rounds = suc later.rounds;
          in_time = omega (arith, later.in_time);
          hit = rw (← cursor_suc cursor stride later.rounds) later.hit;
          is_wall = rw (← cursor_suc cursor stride later.rounds) later.is_wall;
          first = first_suc stride cursor later.rounds miss later.first;
        }
  ]

  -- With a candidate among the steps the loop does not throw.
  pub search_from-total :
      (stride steps k cursor : ℕ)
      → k < steps
      → qualifies (cursor + k * stride) ≡ true
      → (utc : ℕ) × (search_from intl timezone day_matches after stride steps cursor ≡ some utc)
  unfolding search_from
  search_from-total stride zero k cursor h q = elim h [ ]
  search_from-total stride (suc steps) zero cursor h q =
      (wall_clock_to_utc intl timezone cursor, rw (rw (cursor_zero cursor stride) at q))
  search_from-total stride (suc steps) (suc k) cursor h q = elim (Bool-cases (qualifies cursor)) [
    | inl hit ↦ (wall_clock_to_utc intl timezone cursor, rw hit)
    | inr miss ↦
        let (utc, found) =
          search_from-total stride steps k (cursor + stride) (omega arith)
            (rw (cursor_suc cursor stride k) q) in
        (utc, rw miss found)
  ]
