-- ===== src/Automation/Rule/Creation.antt =====
-- What a rule that was created satisfies, and every edit keeps (I-AUT-5, I-AUT-6).
use agent_platform_api.Common.{
  ℕ, ◌≤◌, ◌<◌, ◌≡◌, refl, ◌⊎◌, inl, inr, Text, codes, trim, true, false, length, Option, none, some,
  arith, ok, >>=-eq-ok, Option-cases, subst, ok_injective, text_eq_sound, get_or,
}
use agent_platform_api.Automation.Policies.{timeout_of, assert_retention_days}
use agent_platform_api.Automation.Schedule.{Schedule, next_occurrence}
use agent_platform_api.Automation.Schedule
use agent_platform_api.Automation.Schedule.Create.{IsCreated, create-IsCreated}
use agent_platform_api.Automation.Webhook.{WebhookTarget, TriggerOn}
use agent_platform_api.Automation.Webhook
use agent_platform_api.Automation.Rule.{
  Host, Automation, CreateInput, create, create_webhook, assert_name, assert_prompt,
  prompt_max_length,
}
use agent_platform_api.Automation.Schedule.Wall.{next_occurrence_later}

abbrev pub IsTier : ℕ → Type 0
IsTier m = (m ≡ 30) ⊎ ((m ≡ 60) ⊎ ((m ≡ 120) ⊎ (m ≡ 240)))

abbrev pub IsRetention : ℕ → Type 0
IsRetention d = (d ≡ 3) ⊎ ((d ≡ 7) ⊎ (d ≡ 30))

-- The runtime parses the URL, and its protocol is http or https.
abbrev pub IsHttp : Host → Option WebhookTarget → Type 0
IsHttp host none = Unit
IsHttp host (some w) =
    (host.url_protocol w.url ≡ some (codes "http:"))
    ⊎ (host.url_protocol w.url ≡ some (codes "https:"))

pub record IsWellFormed (host : Host) (a : Automation) : Type 0 where
  pub name_given : 0 < length a.name
  pub name_fits : length a.name ≤ 60
  pub prompt_given : 0 < length (trim a.prompt)
  pub prompt_fits : length a.prompt ≤ prompt_max_length
  pub timeout_tier : IsTier a.timeout_minutes
  pub retention_tier : IsRetention a.retention_days
  pub webhook_http : IsHttp host a.webhook

assert_name_lem :
    (name : Text) {n : Text} → assert_name name ≡ ok n → (0 < length n) × (length n ≤ 60)
unfolding assert_name
assert_name_lem name h = ground arith

assert_prompt_lem :
    (prompt : Text) {q : Text}
    → assert_prompt prompt ≡ ok q
    → (0 < length (trim q)) × (length q ≤ prompt_max_length)
unfolding assert_prompt
assert_prompt_lem prompt h = ground arith

timeout_of_lem : (m : ℕ) {t : ℕ} → timeout_of m ≡ ok t → IsTier t
unfolding timeout_of
timeout_of_lem m h = ground arith

retention_lem : (d : ℕ) {t : ℕ} → assert_retention_days d ≡ ok t → IsRetention t
unfolding assert_retention_days
retention_lem d h = ground arith

webhook_create_lem :
    (host : Host) (url : Text) (trigger_on : TriggerOn) {w : WebhookTarget}
    → Webhook.create host.url_protocol url trigger_on ≡ ok w
    → IsHttp host (some w)
unfolding Webhook.create
webhook_create_lem host url trigger_on h = elim (Option-cases (host.url_protocol url)) [
  | inl bad ↦ ground arith
  | inr (protocol, good) ↦
      ground
        (arith, text_eq_sound protocol (codes "http:"), text_eq_sound protocol (codes "https:"))
]

create_webhook_lem :
    (host : Host) (url : Option Text) (trigger_on : Option TriggerOn) {w : Option WebhookTarget}
    → create_webhook host url trigger_on ≡ ok w
    → IsHttp host w
unfolding create_webhook
create_webhook_lem host none trigger_on h = subst (IsHttp host) (ok_injective h) tt
create_webhook_lem host (some url) trigger_on h =
    let (t, e, made) =
      >>=-eq-ok (Webhook.create host.url_protocol url (get_or trigger_on TriggerOn.failure)) _ h in
    subst (IsHttp host) (ok_injective made) (webhook_create_lem host url _ e)

-- Every part that `create` checked, and what it computed from them.
record Parts (host : Host) (input : CreateInput) (a : Automation) : Type 0 where
  name_ok : assert_name input.name ≡ ok a.name
  prompt_ok : assert_prompt input.prompt ≡ ok a.prompt
  schedule_ok :
      Schedule.create host.intl input.schedule_kind input.schedule_config input.timezone
      ≡ ok a.schedule
  timeout_ok : timeout_of input.timeout_minutes ≡ ok a.timeout_minutes
  retention_ok : assert_retention_days input.artifact_retention_days ≡ ok a.retention_days
  webhook_ok : create_webhook host input.webhook_url input.trigger_on ≡ ok a.webhook
  enabled : a.enabled ≡ true
  not_degraded : a.is_degraded ≡ false
  no_failures : a.failure_count ≡ 0
  slot : ℕ
  slot_set : a.next_trigger_at ≡ some slot
  slot_ok : next_occurrence host.intl a.schedule input.now ≡ ok slot

create-Parts :
    (host : Host) (input : CreateInput) {a : Automation}
    → create host input ≡ ok a
    → Parts host input a
unfolding create
create-Parts host input {a} h0 =
    let (n, en, h1) = >>=-eq-ok (assert_name input.name) _ h0 in
    let (q, eq, h2) = >>=-eq-ok (assert_prompt input.prompt) _ h1 in
    let (s, es, h3) =
      >>=-eq-ok (Schedule.create host.intl input.schedule_kind input.schedule_config input.timezone)
        _ h2 in
    let (m, em, h4) = >>=-eq-ok (timeout_of input.timeout_minutes) _ h3 in
    let (r, er, h5) = >>=-eq-ok (assert_retention_days input.artifact_retention_days) _ h4 in
    let (w, ew, h6) = >>=-eq-ok (create_webhook host input.webhook_url input.trigger_on) _ h5 in
    let (t, et, h7) = >>=-eq-ok (next_occurrence host.intl s input.now) _ h6 in
    let e = ok_injective h7 in
    subst (Parts host input) e (record {
      name_ok = en;
      prompt_ok = eq;
      schedule_ok = es;
      timeout_ok = em;
      retention_ok = er;
      webhook_ok = ew;
      enabled = refl;
      not_degraded = refl;
      no_failures = refl;
      slot = t;
      slot_set = refl;
      slot_ok = et;
    })

-- A rule that `create` returned has a name of 1 to 60 characters, a prompt that is not blank and has
-- at most 8000, one of the four timeouts, one of the three retention periods, no webhook or one over
-- http or https, and a valid schedule; it is enabled, not degraded, with no failures counted, and its
-- first slot lies strictly after its creation.
pub create-IsWellFormed :
    (host : Host) (input : CreateInput) {a : Automation}
    → create host input ≡ ok a
    → IsWellFormed host a
      × IsCreated host.intl a.schedule
      × (a.enabled ≡ true)
      × (a.is_degraded ≡ false)
      × (a.failure_count ≡ 0)
      × (slot : ℕ) × (a.next_trigger_at ≡ some slot)
      × (input.now < slot)
create-IsWellFormed host input {a} h =
    let p = create-Parts host input h in
    (
      record {
        name_given = (assert_name_lem input.name p.name_ok).0;
        name_fits = (assert_name_lem input.name p.name_ok).1;
        prompt_given = (assert_prompt_lem input.prompt p.prompt_ok).0;
        prompt_fits = (assert_prompt_lem input.prompt p.prompt_ok).1;
        timeout_tier = timeout_of_lem input.timeout_minutes p.timeout_ok;
        retention_tier = retention_lem input.artifact_retention_days p.retention_ok;
        webhook_http = create_webhook_lem host input.webhook_url input.trigger_on p.webhook_ok;
      },
      (create-IsCreated host.intl _ _ _ p.schedule_ok).0,
      p.enabled,
      p.not_degraded,
      p.no_failures,
      p.slot,
      p.slot_set,
      next_occurrence_later host.intl a.schedule input.now p.slot_ok,
    )
