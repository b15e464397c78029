-- ===== src/Automation/Webhook.antt =====
-- packages/modules/automation/src/domain/value-objects/webhook-target.vo.ts.
-- The URL parser of the JavaScript runtime is the parameter `url_protocol`: the protocol of a
-- valid absolute URL (`https:`), and `none` where `new URL` throws.
use agent_platform_api.Common.{
  Text, codes, text_eq, Bool, true, false, ◌||◌, Option, none, some, Result, ok, err, if◌then◌else◌,
}
use agent_platform_api.Automation.Policies.{AutomationError, invariant, invalid_webhook_url}

pub data TriggerOn : Type 0 where
  failure success all : TriggerOn

pub data RunOutcome : Type 0 where
  success failed timeout : RunOutcome

pub record WebhookTarget : Type 0 where
  pub url : Text
  pub trigger_on : TriggerOn

unfoldable pub create :
    (Text → Option Text) → Text → TriggerOn → Result AutomationError WebhookTarget
create url_protocol url trigger_on = elim (url_protocol url) [
  | none ↦ err (invariant invalid_webhook_url)
  | some protocol ↦
      if text_eq protocol (codes "http:") || text_eq protocol (codes "https:")
      then ok (record { url = url; trigger_on = trigger_on })
      else err (invariant invalid_webhook_url)
]

matches_on : TriggerOn → RunOutcome → Bool
matches_on TriggerOn.all outcome = true
matches_on TriggerOn.success RunOutcome.success = true
matches_on TriggerOn.success _ = false
matches_on TriggerOn.failure RunOutcome.failed = true
matches_on TriggerOn.failure RunOutcome.timeout = true
matches_on TriggerOn.failure _ = false

unfoldable pub matches : WebhookTarget → RunOutcome → Bool
unfolding matches_on
matches w outcome = matches_on w.trigger_on outcome
