-- ===== src/Automation/Rule/Slots.antt =====
-- The slot `nextTriggerAt`: it moves only forward, and a slot that is due does not vanish (I-AUT-8,
-- I-AUT-10).
use agent_platform_api.Common.{
  ℕ, ◌<◌, ◌≡◌, refl, ◌∙◌, ◌⊎◌, inl, inr, Text, Bool, true, false, Option, none, some, arith, ok,
  Result-cases, Bool-cases, ◌≤◌, day_ms,
}
use agent_platform_api.Automation.Policies.{AutomationError}
use agent_platform_api.Automation.Schedule.Search.{IsZone}
use agent_platform_api.Automation.Schedule.Create.{IsCreated}
use agent_platform_api.Automation.Schedule.Wall.{next_occurrence_later, next_daily_occurrence_later}
use agent_platform_api.Automation.Schedule.Next.{next_occurrence-total, next_daily_occurrence-total}
use agent_platform_api.Automation.Rule.{
  Host, Automation, Patch, is_due, compute_next_trigger, recompute_future_trigger, record_outcome,
  enable, disable, advance_trigger, mark_triggered, update_schedule, step, Call, updates, advances,
  enables, disables, records, marks_triggered,
}
use agent_platform_api.Automation.Rule.Updates.{update_keeps}

-- Where a slot that was due went: it stays, or the whole rule has left the scan.
abbrev pub SlotKept : Automation → Automation → Type 0
SlotKept a b =
    (b.next_trigger_at ≡ a.next_trigger_at) ⊎ ((b.enabled ≡ false) × (b.next_trigger_at ≡ none))

recompute-kept :
    (host : Host) (a : Automation) (now : ℕ)
    → is_due a.next_trigger_at now ≡ true
    → (recompute_future_trigger host a now).0.next_trigger_at ≡ a.next_trigger_at
unfolding recompute_future_trigger
recompute-kept host a now due = ground arith

update_schedule-kept :
    (host : Host) (p : Patch) (now : ℕ) (slot : Option ℕ) (b : Automation)
    → is_due slot now ≡ true
    → b.next_trigger_at ≡ slot
    → (update_schedule host p now b).0.next_trigger_at ≡ slot
unfolding update_schedule recompute_future_trigger
update_schedule-kept host p now slot b due e = ground arith

abbrev pub is_advance : Call → Bool
is_advance advances = true
is_advance _ = false

-- No method but `advanceTrigger` takes away a slot that is due: an edit, an outcome and a re-enabling
-- leave it in place, so that the next sweep still finds it, unless the rule as a whole is disabled and
-- its slot cleared. This holds also where the method throws.
pub step-SlotKept :
    (host : Host) (a : Automation) (now : ℕ) (c : Call)
    → is_due a.next_trigger_at now ≡ true
    → is_advance c ≡ false
    → SlotKept a (step host a now c).0
unfolding step mark_triggered disable record_outcome enable recompute_future_trigger
step-SlotKept host a now (updates p) due k = inl (
    update_keeps (λ b. b.next_trigger_at ≡ a.next_trigger_at) host a p now
      (λ b c s e. s.next_trigger_at ∙ e)
      (λ b e. update_schedule-kept host p now a.next_trigger_at b due e) refl)
step-SlotKept host a now advances due k = cc
step-SlotKept host a now marks_triggered due k = inl refl
step-SlotKept host a now enables due k = ground arith
step-SlotKept host a now disables due k = inr (refl, refl)
step-SlotKept host a now (records o) due k = ground arith

-- A runtime whose known zones are as documented.
pub record IsDocumented (host : Host) : Type 0 where
  pub zones : (timezone : Text) → host.intl.is_time_zone timezone ≡ true → IsZone host.intl timezone

compute_later :
    (host : Host) (a : Automation) (now : ℕ) {t : ℕ}
    → compute_next_trigger host a now ≡ ok t
    → now < t
unfolding compute_next_trigger
compute_later host a now e = elim (Bool-cases a.is_degraded) [
  | inl slow ↦ next_daily_occurrence_later host.intl a.schedule now (rw slow at e)
  | inr fast ↦ next_occurrence_later host.intl a.schedule now (rw fast at e)
]

-- `advanceTrigger` either throws and leaves the rule as it was, or moves the slot beyond the present,
-- so that one sweep does not find it again (I-AUT-8).
pub advance_trigger_later :
    (host : Host) (a : Automation) (now : ℕ)
    → let (b, thrown) = advance_trigger host a now in
      ((t : ℕ) × (thrown ≡ none) × (b.next_trigger_at ≡ some t) × (now < t))
      ⊎ ((e : AutomationError) × (thrown ≡ some e) × (b ≡ a))
unfolding advance_trigger
advance_trigger_later host a now = elim (Result-cases (compute_next_trigger host a now)) [
  | inl (t, e) ↦ inl (t, rw e, rw e, compute_later host a now e)
  | inr (x, e) ↦ inr (x, rw e, rw e)
]

pub compute_total :
    (host : Host) (a : Automation) (now : ℕ)
    → IsDocumented host
    → day_ms ≤ now
    → IsCreated host.intl a.schedule
    → (t : ℕ) × (compute_next_trigger host a now ≡ ok t)
unfolding compute_next_trigger
compute_total host a now d from c =
    let z = d.zones a.schedule.timezone c.zone_known in
    elim (Bool-cases a.is_degraded) [
      | inl slow ↦ rw slow (next_daily_occurrence-total host.intl a.schedule now c z from)
      | inr fast ↦ rw fast (next_occurrence-total host.intl a.schedule now c z from)
    ]

abbrev pub is_update : Call → Bool
is_update (updates p) = true
is_update _ = false
