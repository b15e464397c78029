-- ===== src/Automation/Scheduler/Sweep/Streaks.antt =====
-- The streaks of rows that are skipped: how often they are told, and that they are forgotten.
use agent_platform_api.Common.{
  ℕ, zero, suc, ◌+◌, ◌/◌, ◌≡◌, refl, ◌∙◌, ap, Text, true, ◌==◌, ==_iff, text_eq, text_eq_refl, none,
  some, List, [], ◌∷◌, ◌++◌, sum_by, arith, if◌then◌else◌, Bool-cases, inl, inr,
}
use agent_platform_api.Automation.Scheduler.Sweep.{
  Sweep, SkipScope, SkipStreak, Streaks, LogLine, get, set, keep_seen, skip_key, next_sweeps,
  skip_line, note_skipped, forget_healed_skips, warned, skip_warn_repeat_sweeps,
}

-- One sweep in which the row is skipped.
abbrev failing_sweep : SkipScope → Text → Text → Sweep → Sweep
failing_sweep scope id message s =
    forget_healed_skips (note_skipped scope id message (record s { sweep_seq = s.sweep_seq + 1 }))

-- The row is skipped in `n` sweeps on end, with the same message.
abbrev pub skipped_for : SkipScope → Text → Text → ℕ → Sweep → Sweep
skipped_for scope id message zero s = s
skipped_for scope id message (suc n) s =
    failing_sweep scope id message (skipped_for scope id message n s)

-- The warnings among the lines.
abbrev warning : LogLine → ℕ
warning (warned scope id message sweeps) = 1
warning _ = 0

abbrev pub warnings : List LogLine → ℕ
warnings log = sum_by warning log

warnings-append : (xs ys : List LogLine) → warnings (xs ++ ys) ≡ warnings xs + warnings ys
warnings-append [] ys = omega arith
warnings-append (x ∷ xs) ys = omega (arith, warnings-append xs ys)

get-set : (xs : Streaks) (key : Text) (v : SkipStreak) → get (set xs key v) key ≡ some v
get-set [] key v = rw (text_eq_refl key)
get-set ((k, w) ∷ xs) key v = elim (Bool-cases (text_eq k key)) [
  | inl hit ↦ rw hit (rw hit)
  | inr miss ↦ rw miss (rw miss (get-set xs key v))
]

some_injective : {v w : SkipStreak} → some v ≡ some w → v ≡ w
some_injective h = cc

-- A streak of this sweep stays.
get-keep_seen :
    (seq : ℕ) (xs : Streaks) (key : Text) (v : SkipStreak)
    → get xs key ≡ some v
    → v.last_sweep ≡ seq
    → get (keep_seen seq xs) key ≡ some v
get-keep_seen seq [] key v h e = h
get-keep_seen seq ((k, w) ∷ xs) key v h e = elim (Bool-cases (text_eq k key)) [
  | inl hit ↦
      let same : w ≡ v = some_injective (rw hit at h) in
      let seen : (w.last_sweep == seq) ≡ true =
        (==_iff w.last_sweep seq).1 (ap (λ x. x.last_sweep) same ∙ e) in
      rw seen (rw hit (ap some same))
  | inr miss ↦
      let later = get-keep_seen seq xs key v (rw miss at h) e in
      elim (Bool-cases (w.last_sweep == seq)) [
        | inl seen ↦ rw seen (rw miss later)
        | inr old ↦ rw old later
      ]
]

-- The warnings for a streak of `n` sweeps: the first, and one in every sixty.
abbrev pub told : ℕ → ℕ
told n = if n == 0 then 0 else 1 + n / skip_warn_repeat_sweeps

skip_line-warning :
    (scope : SkipScope) (id message : Text) (n : ℕ)
    → told n + warning (skip_line scope id message (suc n)) ≡ told (suc n)
unfolding skip_line
skip_line-warning scope id message n = ground arith

module _ (scope : SkipScope) (id message : Text) where
  -- The streak of the row after `n` sweeps.
  abbrev Streak : ℕ → Sweep → Type 0
  Streak zero s = get s.skip_streaks (skip_key scope id) ≡ none
  Streak (suc n) s =
      (seq : ℕ) × (get s.skip_streaks (skip_key scope id)
        ≡ some (record { message = message; sweeps = suc n; last_sweep = seq }))

  next_sweeps-Streak :
      (n : ℕ) (s : Sweep)
      → Streak n s
      → next_sweeps (get s.skip_streaks (skip_key scope id)) message ≡ suc n
  unfolding next_sweeps
  next_sweeps-Streak zero s h = rw h
  next_sweeps-Streak (suc n) s (seq, h) = rw h (rw (text_eq_refl message) (omega arith))

  failing_sweep-Streak :
      (n : ℕ) (s : Sweep)
      → Streak n s
      → Streak (suc n) (failing_sweep scope id message s)
        × (warnings (failing_sweep scope id message s).log + told n ≡ warnings s.log + told (suc n))
  unfolding note_skipped forget_healed_skips
  failing_sweep-Streak n s h =
      let key = skip_key scope id in
      let streak : SkipStreak = record {
        message = message;
        sweeps = suc n;
        last_sweep = s.sweep_seq + 1;
      } in
      rw (next_sweeps-Streak n s h) (
        (
          s.sweep_seq + 1,
          get-keep_seen (s.sweep_seq + 1) (set s.skip_streaks key streak) key streak
              (get-set s.skip_streaks key streak) refl,
        ),
        omega (
          arith,
          warnings-append s.log (skip_line scope id message (suc n) ∷ []),
          skip_line-warning scope id message n,
        ),
      )

  skipped_for-Streak :
      (n : ℕ) (s : Sweep)
      → Streak zero s
      → Streak n (skipped_for scope id message n s)
        × (warnings (skipped_for scope id message n s).log ≡ warnings s.log + told n)
  skipped_for-Streak zero s h = (h, omega arith)
  skipped_for-Streak (suc n) s h =
      let before = skipped_for-Streak n s h in
      let after = failing_sweep-Streak n (skipped_for scope id message n s) before.0 in
      (after.0, omega (arith, before.1, after.1))

-- A row that was not in the ledger and is then skipped in `n` sweeps on end with the same message is
-- warned of in the first sweep, and again in every sixtieth: the log gains `1 + n / 60` warnings, and none
-- where `n` is 0.
pub skipped_for-warnings :
    (scope : SkipScope) (id message : Text) (n : ℕ) (s : Sweep)
    → get s.skip_streaks (skip_key scope id) ≡ none
    → warnings (skipped_for scope id message n s).log ≡ warnings s.log + told n
skipped_for-warnings scope id message n s h = (skipped_for-Streak scope id message n s h).1
