-- ===== src/Sandbox/Provision/Restart.antt =====
-- provision-sandbox.workflow.ts: `restartInstance`. The handle is the sandbox's.
use agent_platform_api.Common.{ℕ, Text, List, Option, none, some, Outcome, ◌then_do◌}
use agent_platform_api.Sandbox.Status.{SandboxStatus, status_eq}
use agent_platform_api.Sandbox.Aggregate.{Sandbox, FailureOperation}
use agent_platform_api.Sandbox.Provision.{
  Scene, Step, Env, Handle, Credential, Stage, ProvisionError, no_handle, ask, now, is_cancelled,
  advance_to, releases,
}
use agent_platform_api.Sandbox.Provision.Credentials.{prepare_credentials, finally_zeroize, choose}
use agent_platform_api.Sandbox.Provision.Steps.{
  Image, image_spec_of, ask_staged, run_starting_steps, record_stage,
}
use agent_platform_api.Sandbox.Provision.Pipeline.{split_failure, compensate, truthy}

abbrev pub handle_with : Sandbox → Text → Handle
handle_with s id = record {
  provider = s.provider;
  provider_sandbox_id = id;
  provider_state = s.provider_state;
}

-- `handleOf`; an empty id is none.
unfoldable pub handle_of : Sandbox → Option Text → Option Handle
handle_of s none = none
handle_of s (some id) = some (handle_with s id)

unfoldable pub enter_starting : Env → Step
unfolding advance_to
enter_starting env s =
    choose (status_eq s.sandbox.status SandboxStatus.starting) (λ t. (t, none))
      (advance_to env SandboxStatus.starting) s

unfoldable pub start_again : Env → Handle → Image → List Credential → Step
unfolding ask_staged run_starting_steps
start_again env handle image credentials s = ask_staged env.image_staged image.spec s λ staged t.
    run_starting_steps env handle image.spec credentials staged (record t { stage_detail = staged })

abbrev pub start_finally : Env → Handle → Image → List Credential → Step
start_finally env handle image credentials s =
    finally_zeroize credentials (start_again env handle image credentials s)

unfoldable pub start_with_image : Env → Handle → Image → Step
unfolding prepare_credentials finally_zeroize start_again
start_with_image env handle image s = prepare_credentials env s (start_finally env handle image)

unfoldable pub refresh : Env → Handle → Step
unfolding image_spec_of start_with_image
refresh env handle s = image_spec_of env s (start_with_image env handle)

abbrev pub finish_restart : Env → ℕ → Step
finish_restart env started_at s =
    (record_stage env Stage.restart started_at none s.stage_detail s, none)

unfoldable pub attempt_restart : Env → Handle → ℕ → Step
unfolding enter_starting advance_to refresh record_stage
attempt_restart env handle started_at s =
    enter_starting env s
    then_do refresh env handle
    then_do advance_to env SandboxStatus.running
    then_do finish_restart env started_at

unfoldable pub fail_restart : Env → ℕ → ProvisionError → Step
unfolding record_stage compensate
fail_restart env started_at e s =
    let failure = some (split_failure env e) in
    let recorded = record_stage env Stage.restart started_at failure s.stage_detail s in
    ask (compensate env FailureOperation.start e recorded) releases env.released λ _ t. (t, some e)

unfoldable pub catch_restart : Env → ℕ → Outcome Scene ProvisionError → Outcome Scene ProvisionError
unfolding fail_restart
catch_restart env started_at (s, none) = (s, none)
catch_restart env started_at (s, some e) =
    choose (is_cancelled env s) (λ t. (t, none)) (fail_restart env started_at e) s

unfoldable pub restart_with : Env → Option Handle → Step
unfolding attempt_restart catch_restart
restart_with env none s = (s, some no_handle)
restart_with env (some handle) s =
    catch_restart env (now env s) (attempt_restart env handle (now env s) s)

unfoldable pub restart_instance : Env → Step
unfolding handle_of restart_with
restart_instance env s =
    restart_with env (handle_of s.sandbox (truthy s.sandbox.provider_sandbox_id)) s
