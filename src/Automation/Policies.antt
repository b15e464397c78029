-- ===== src/Automation/Policies.antt =====
-- packages/modules/automation/src/domain/value-objects/policies.vo.ts and errors/automation-errors.ts.
-- A `Date` is its epoch in milliseconds. The texts of error messages are left out.
use agent_platform_api.Common.{
  ℕ, ◌+◌, ◌*◌, Bool, ◌||◌, ltb, leb, ◌==◌, if◌then◌else◌, Result, ok, err,
}

pub data InvariantCode : Type 0 where
  invalid_timezone invalid_timeout invalid_schedule invalid_webhook_url : InvariantCode
  validation_failed : InvariantCode

-- `AutomationRunStateError` of the run, `AutomationInvariantError` of the rule and its values.
pub data AutomationError : Type 0 where
  run_state : AutomationError
  invariant : InvariantCode → AutomationError

-- `TimeoutPolicy.of`, the minutes standing for the policy.
unfoldable pub timeout_of : ℕ → Result AutomationError ℕ
timeout_of minutes =
    if minutes == 30 || minutes == 60 || minutes == 120 || minutes == 240
    then ok minutes
    else err (invariant invalid_timeout)

unfoldable pub assert_retention_days : ℕ → Result AutomationError ℕ
assert_retention_days days =
    if days == 3 || days == 7 || days == 30 then ok days else err (invariant validation_failed)

abbrev pub retry_interval_ms : ℕ
retry_interval_ms = 24 * 60000

abbrev pub max_attempts : ℕ
max_attempts = 5

unfoldable pub can_retry : ℕ → Bool
can_retry retry_count = ltb retry_count max_attempts

unfoldable pub next_attempt_at : ℕ → ℕ
next_attempt_at now = now + retry_interval_ms

abbrev pub degrade_at : ℕ
degrade_at = 3

abbrev pub disable_at : ℕ
disable_at = 10

unfoldable pub should_degrade : ℕ → Bool
should_degrade failure_count = leb degrade_at failure_count

unfoldable pub should_disable : ℕ → Bool
should_disable failure_count = leb disable_at failure_count

abbrev pub default_missed_threshold_min : ℕ
default_missed_threshold_min = 5
