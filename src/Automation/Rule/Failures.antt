-- ===== src/Automation/Rule/Failures.antt =====
-- The failure counter: degrading, disabling and recovering (I-AUT-1, I-AUT-2, I-AUT-4).
use agent_platform_api.Common.{
  ℕ, ◌+◌, ◌<◌, ◌≡◌, Bool, true, false, not, ◌&&◌, ◌||◌, leb, List, [], ◌∷◌, arith, ltb,
}
use agent_platform_api.Automation.Policies.{degrade_at, disable_at, should_degrade, should_disable}
use agent_platform_api.Automation.Rule.{
  Host, Automation, AutomationOutcome, recompute_future_trigger, record_outcome, enable, disable,
  advance_trigger, mark_triggered, update_schedule, Patch, step, Call, updates, advances, enables,
  disables, records, marks_triggered,
}
use agent_platform_api.Automation.Rule.Updates.{SameTiming, update_keeps}

abbrev is_failure : AutomationOutcome → Bool
is_failure AutomationOutcome.failed = true
is_failure AutomationOutcome.timeout = true
is_failure _ = false

-- The specification of the counter: failures and timeouts since the last success, a skipped or
-- missed run counting neither way.
abbrev pub streak_after : ℕ → AutomationOutcome → ℕ
streak_after n AutomationOutcome.failed = n + 1
streak_after n AutomationOutcome.timeout = n + 1
streak_after n AutomationOutcome.success = 0
streak_after n _ = n

abbrev pub streak : ℕ → List AutomationOutcome → ℕ
streak n [] = n
streak n (o ∷ os) = streak (streak_after n o) os

-- Whether some failure brings the streak to the limit.
abbrev pub reaches_limit : ℕ → List AutomationOutcome → Bool
reaches_limit n [] = false
reaches_limit n (o ∷ os) =
    (is_failure o && leb disable_at (streak_after n o)) || reaches_limit (streak_after n o) os

-- The counter and the two flags agree.
pub record IsCounted (a : Automation) : Type 0 where
  pub degraded_iff : a.is_degraded ≡ leb degrade_at a.failure_count
  pub enabled_below : (not a.enabled || ltb a.failure_count disable_at) ≡ true

pub record Counted (b : Automation) (count : ℕ) (enabled : Bool) : Type 0 where
  pub count_is : b.failure_count ≡ count
  pub enabled_is : b.enabled ≡ enabled
  pub degraded_is : b.is_degraded ≡ leb degrade_at count

-- What a recomputation leaves alone.
pub recompute_keeps :
    (host : Host) (a : Automation) (now : ℕ)
    → let b = (recompute_future_trigger host a now).0 in
      (b.failure_count ≡ a.failure_count)
      × (b.enabled ≡ a.enabled)
      × (b.is_degraded ≡ a.is_degraded)
unfolding recompute_future_trigger
recompute_keeps host a now = ground arith

pub record_outcome-Counted :
    (host : Host) (a : Automation) (o : AutomationOutcome) (now : ℕ)
    → IsCounted a
    → Counted
        (record_outcome host a o now).0
        (streak_after a.failure_count o)
        (a.enabled && not (is_failure o && leb disable_at (streak_after a.failure_count o)))
unfolding record_outcome recompute_future_trigger should_degrade should_disable
record_outcome-Counted host a o now v = ground arith

record_outcome-IsCounted :
    (host : Host) (a : Automation) (o : AutomationOutcome) (now : ℕ)
    → IsCounted a
    → IsCounted (record_outcome host a o now).0
unfolding record_outcome recompute_future_trigger should_degrade should_disable
record_outcome-IsCounted host a o now v = ground arith

-- The outcomes of a rule's runs, each with the time at which it is recorded.
pub record_all : Host → Automation → List (AutomationOutcome × ℕ) → Automation
record_all host a [] = a
record_all host a ((o, now) ∷ os) = record_all host (record_outcome host a o now).0 os

abbrev pub outcomes : List (AutomationOutcome × ℕ) → List AutomationOutcome
outcomes [] = []
outcomes ((o, now) ∷ os) = o ∷ outcomes os

-- After any sequence of outcomes the failure count of a rule is the number of failures and timeouts
-- since the last success, skipped and missed runs left out; the rule is degraded exactly when that
-- number is three or more; and it is still enabled exactly when it was enabled before and no failure
-- on the way brought the number to ten.
pub record_all-Counted :
    (host : Host) (a : Automation) (os : List (AutomationOutcome × ℕ))
    → IsCounted a
    → Counted
        (record_all host a os)
        (streak a.failure_count (outcomes os))
        (a.enabled && not (reaches_limit a.failure_count (outcomes os)))
unfolding record_all
record_all-Counted host a [] v = ground arith
record_all-Counted host a ((o, now) ∷ os) v =
    let b = (record_outcome host a o now).0 in
    let one = record_outcome-Counted host a o now v in
    let rest = record_all-Counted host b os (record_outcome-IsCounted host a o now v) in
    ground (arith, one.count_is, one.enabled_is, rest.count_is, rest.enabled_is, rest.degraded_is)

-- Re-enabling a rule sets the count to zero and takes it out of the degraded state (I-AUT-4), also
-- where the computation of its next time throws.
pub enable-Counted : (host : Host) (a : Automation) (now : ℕ) → Counted (enable host a now).0 0 true
unfolding enable recompute_future_trigger
enable-Counted host a now = ground arith

Counted-IsCounted :
    (b : Automation) {n : ℕ} {e : Bool} → Counted b n e → (e ≡ true → n < disable_at) → IsCounted b
Counted-IsCounted b c h = ground arith

same-IsCounted : (b c : Automation) → SameTiming b c → IsCounted b → IsCounted c
same-IsCounted b c s v = ground arith

update_schedule-IsCounted :
    (host : Host) (p : Patch) (now : ℕ) (b : Automation)
    → IsCounted b
    → IsCounted (update_schedule host p now b).0
unfolding update_schedule recompute_future_trigger
update_schedule-IsCounted host p now b v = ground arith

-- Every method of a rule keeps the counter and the two flags in agreement: degraded from three
-- failures on, and enabled only below ten.
pub step-IsCounted :
    (host : Host) (a : Automation) (now : ℕ) (c : Call)
    → IsCounted a
    → IsCounted (step host a now c).0
unfolding step advance_trigger mark_triggered disable
step-IsCounted host a now (updates p) v =
    update_keeps IsCounted host a p now same-IsCounted (update_schedule-IsCounted host p now) v
step-IsCounted host a now advances v = ground arith
step-IsCounted host a now marks_triggered v = ground arith
step-IsCounted host a now enables v =
    Counted-IsCounted (enable host a now).0 (enable-Counted host a now) (λ _. omega arith)
step-IsCounted host a now disables v = ground arith
step-IsCounted host a now (records o) v = record_outcome-IsCounted host a o now v
