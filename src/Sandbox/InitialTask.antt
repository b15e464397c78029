-- ===== src/Sandbox/InitialTask.antt =====
-- packages/modules/sandbox/src/domain/value-objects/initial-task.vo.ts.
use agent_platform_api.Common.{
  ℕ, Text, trim, Bool, false, ◌&&◌, ltb, length, if◌then◌else◌, Option, none, some, is_some,
  is_none, Result, ok, err, code_points, is_blank,
}

pub data SandboxError : Type 0 where
  invalid_transition invariant_violation : SandboxError

abbrev pub initial_prompt_max_length : ℕ
initial_prompt_max_length = 8000

pub record InitialTask : Type 0 where
  pub prompt : Option Text
  pub consumed_at : Option ℕ

unfoldable pub no_task : InitialTask
no_task = record { prompt = none; consumed_at = none }

-- A blank prompt is no prompt; any other is trimmed.
normalize : Option Text → Option Text
normalize none = none
normalize (some raw) = if is_blank (trim raw) then none else some (trim raw)

abbrev is_too_long : Option Text → Bool
is_too_long none = false
is_too_long (some prompt) = ltb initial_prompt_max_length (length (code_points prompt))

unfoldable pub create_task : Option Text → Option ℕ → Result SandboxError InitialTask
unfolding normalize
create_task raw consumed_at =
    let prompt = normalize raw in
    if is_too_long prompt
    then err invariant_violation
    else if is_some consumed_at && is_none prompt
    then err invariant_violation
    else ok (record { prompt = prompt; consumed_at = consumed_at })

unfoldable pub is_pending : InitialTask → Bool
is_pending t = is_some t.prompt && is_none t.consumed_at

unfoldable pub consume : InitialTask → ℕ → Result SandboxError InitialTask
consume t at =
    if is_none t.prompt
    then err invariant_violation
    else if is_some t.consumed_at
    then err invariant_violation
    else ok (record { prompt = t.prompt; consumed_at = some at })
