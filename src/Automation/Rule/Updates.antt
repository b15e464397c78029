-- ===== src/Automation/Rule/Updates.antt =====
-- What the methods of a rule leave alone: one lemma for each part of `update`.
use agent_platform_api.Common.{
  ℕ, ◌≡◌, refl, ap, ◌∙◌, ◌⊎◌, inl, inr, Text, false, none, get_or, arith, ◌then_do◌, ok,
  Result-cases, Bool-cases, then_do_keeps,
}
use agent_platform_api.Automation.Schedule.{Schedule}
use agent_platform_api.Automation.Schedule
use agent_platform_api.Automation.Schedule.Create.{IsCreated, create-IsCreated}
use agent_platform_api.Automation.Rule.{
  Host, Automation, Patch, touches_schedule, update, patch_name, patch_texts, patch_prompt,
  patch_timeout, patch_retention, touch, update_webhook, update_schedule, recompute_future_trigger,
}

-- The state that the scheduler reads of a rule.
pub record SameTiming (a b : Automation) : Type 0 where
  pub id : b.id ≡ a.id
  pub enabled : b.enabled ≡ a.enabled
  pub is_degraded : b.is_degraded ≡ a.is_degraded
  pub failure_count : b.failure_count ≡ a.failure_count
  pub schedule : b.schedule ≡ a.schedule
  pub next_trigger_at : b.next_trigger_at ≡ a.next_trigger_at
  pub last_triggered_at : b.last_triggered_at ≡ a.last_triggered_at
  pub events : b.events ≡ a.events

patch_name-SameTiming : (p : Patch) (a : Automation) → SameTiming a (patch_name p a).0
unfolding patch_name
patch_name-SameTiming p a = ground arith

patch_texts-SameTiming : (p : Patch) (a : Automation) → SameTiming a (patch_texts p a).0
unfolding patch_texts
patch_texts-SameTiming p a = ground arith

patch_prompt-SameTiming : (p : Patch) (a : Automation) → SameTiming a (patch_prompt p a).0
unfolding patch_prompt
patch_prompt-SameTiming p a = ground arith

patch_timeout-SameTiming : (p : Patch) (a : Automation) → SameTiming a (patch_timeout p a).0
unfolding patch_timeout
patch_timeout-SameTiming p a = ground arith

patch_retention-SameTiming : (p : Patch) (a : Automation) → SameTiming a (patch_retention p a).0
unfolding patch_retention
patch_retention-SameTiming p a = ground arith

update_webhook-SameTiming :
    (host : Host) (a : Automation) (p : Patch)
    → SameTiming a (update_webhook host a p.webhook_url p.trigger_on).0
unfolding update_webhook
update_webhook-SameTiming host a p = ground arith

SameTiming-trans : (a b c : Automation) → SameTiming a b → SameTiming b c → SameTiming a c
SameTiming-trans a b c p q = ground arith

update_schedule-SameTiming :
    (host : Host) (p : Patch) (now : ℕ) (a : Automation)
    → touches_schedule p ≡ false
    → SameTiming a (update_schedule host p now a).0
unfolding update_schedule
update_schedule-SameTiming host p now a h = rw h (ground arith)

-- What the parts of `update` keep, the whole of it keeps.
pub update_keeps {ℓ} :
    (P : Automation → Type ℓ) (host : Host) (a : Automation) (p : Patch) (now : ℕ)
    → ((b c : Automation) → SameTiming b c → P b → P c)
    → ((b : Automation) → P b → P (update_schedule host p now b).0)
    → P a
    → P (update host a p now).0
unfolding update
update_keeps P host a p now same sched h =
    let named = patch_name p a in
    let texts = named then_do patch_texts p in
    let prompted = texts then_do patch_prompt p in
    let timed = prompted then_do patch_timeout p in
    let retained = timed then_do patch_retention p in
    let hook = λ (b : Automation). update_webhook host b p.webhook_url p.trigger_on in
    let hooked = retained then_do hook in
    let scheduled = hooked then_do update_schedule host p now in
    let h1 = same a _ (patch_name-SameTiming p a) h in
    let h2 =
      then_do_keeps P named (patch_texts p) h1 (λ b. same b _ (patch_texts-SameTiming p b)) in
    let h3 =
      then_do_keeps P texts (patch_prompt p) h2 (λ b. same b _ (patch_prompt-SameTiming p b)) in
    let h4 =
      then_do_keeps P prompted (patch_timeout p) h3
        (λ b. same b _ (patch_timeout-SameTiming p b)) in
    let h5 =
      then_do_keeps P timed (patch_retention p) h4
        (λ b. same b _ (patch_retention-SameTiming p b)) in
    let h6 =
      then_do_keeps P retained hook h5 (λ b. same b _ (update_webhook-SameTiming host b p)) in
    let h7 = then_do_keeps P hooked (update_schedule host p now) h6 sched in
    then_do_keeps P scheduled (touch now) h7
      λ b. same b (record b { updated_at = now }) (ground arith)

-- An edit that gives no schedule, config or time zone leaves the schedule, the next trigger time and
-- all else that the scheduler reads as they were, whether it succeeds or throws.
pub update-SameTiming :
    (host : Host) (a : Automation) (p : Patch) (now : ℕ)
    → touches_schedule p ≡ false
    → SameTiming a (update host a p now).0
update-SameTiming host a p now h =
    update_keeps (SameTiming a) host a p now (λ b c s t. SameTiming-trans a b c t s)
      (λ b t. SameTiming-trans a b _ t (update_schedule-SameTiming host p now b h)) (ground arith)

recompute_keeps_schedule :
    (host : Host) (a : Automation) (now : ℕ)
    → (recompute_future_trigger host a now).0.schedule ≡ a.schedule
unfolding recompute_future_trigger
recompute_keeps_schedule host a now = ground arith

-- The schedule after the schedule part of an edit: the old one, or one that `create` returned.
pub update_schedule_cases :
    (host : Host) (p : Patch) (now : ℕ) (b : Automation)
    → let c = (update_schedule host p now b).0 in
      (c.schedule ≡ b.schedule)
      ⊎ (Schedule.create host.intl
            (get_or p.schedule_kind b.schedule.kind)
            (get_or p.schedule_config b.schedule.config)
            (get_or p.timezone b.schedule.timezone)
          ≡ ok c.schedule)
unfolding update_schedule
update_schedule_cases host p now b = elim (Bool-cases (touches_schedule p)) [
  | inr untouched ↦ inl (rw untouched)
  | inl touched ↦
      elim (Result-cases (
        Schedule.create host.intl (get_or p.schedule_kind b.schedule.kind)
          (get_or p.schedule_config b.schedule.config) (get_or p.timezone b.schedule.timezone))) [
            | inr (e, failed) ↦ inl (rw (touched, failed))
            | inl (s, made) ↦ inr (
                rw (touched, made)
                  (rw (recompute_keeps_schedule host (record b { schedule = s }) now) refl))
          ]
]

update_schedule_timezone :
    (host : Host) (p : Patch) (now : ℕ) (b : Automation) (timezone : Text)
    → p.timezone ≡ none
    → b.schedule.timezone ≡ timezone
    → (update_schedule host p now b).0.schedule.timezone ≡ timezone
update_schedule_timezone host p now b timezone absent h =
    elim (update_schedule_cases host p now b) [
      | inl same ↦ rw same h
      | inr made ↦
          (create-IsCreated host.intl _ _ _ made).2
          ∙ (ap (λ o. get_or o b.schedule.timezone) absent ∙ h)
    ]

-- An edit that gives no time zone keeps the zone of the rule, whatever else it gives and whether it
-- succeeds or throws (I-AUT-9).
pub timezone-update :
    (host : Host) (a : Automation) (p : Patch) (now : ℕ)
    → p.timezone ≡ none
    → (update host a p now).0.schedule.timezone ≡ a.schedule.timezone
timezone-update host a p now absent =
    update_keeps (λ b. b.schedule.timezone ≡ a.schedule.timezone) host a p now
      (λ b c s h. ap (λ (t : Schedule). t.timezone) s.schedule ∙ h)
      (λ b. update_schedule_timezone host p now b a.schedule.timezone absent) refl

update_schedule-IsCreated :
    (host : Host) (p : Patch) (now : ℕ) (b : Automation)
    → IsCreated host.intl b.schedule
    → IsCreated host.intl (update_schedule host p now b).0.schedule
update_schedule-IsCreated host p now b h = elim (update_schedule_cases host p now b) [
  | inl same ↦ rw same h
  | inr made ↦ (create-IsCreated host.intl _ _ _ made).0
]

-- An edit leaves a valid schedule.
pub update-IsCreated :
    (host : Host) (a : Automation) (p : Patch) (now : ℕ)
    → IsCreated host.intl a.schedule
    → IsCreated host.intl (update host a p now).0.schedule
update-IsCreated host a p now h =
    update_keeps (λ b. IsCreated host.intl b.schedule) host a p now (λ b c s k. rw s.schedule k)
      (λ b. update_schedule-IsCreated host p now b) h
