-- ===== src/Sandbox/Provision/Steps.antt =====
-- provision-sandbox.workflow.ts: `imageSpecOf`, `imageStagedOf`, `runStartingSteps` with the seeding and
-- the agent session, `recordStage` and `recordWorkspacePrepared`.
use agent_platform_api.Common.{
  ℕ, ◌-◌, ◌==◌, Text, Bool, not, ◌||◌, if◌then◌else◌, is_blank, Option, none, some, get_or, List,
  [], Outcome, ◌then_do◌, ok, err,
}
use agent_platform_api.Sandbox.InitialTask.{is_pending}
use agent_platform_api.Sandbox.Aggregate.{consume_initial_task}
use agent_platform_api.Sandbox.Provision.{
  Scene, Step, Env, EnvMap, Answer, Handle, Credential, ImageSpec, TaskImage, PreparedWorkspace,
  SessionResult, SplitFailure, Stage, Phase, ProvisionError, rejected, emit, ask, now,
  assert_active, on_sandbox, persist, finds_image, asks_staged, audits_stage, audits_workspace,
  audits_session, broadcasts, starts, installs, seeds, bootstraps,
}
use agent_platform_api.Sandbox.Provision.Credentials.{inject_credentials, choose}

unfoldable pub record_stage : Env → Stage → ℕ → Option SplitFailure → Option Bool → Scene → Scene
record_stage env stage started_at failure detail s =
    emit s (audits_stage stage (now env s - started_at) failure detail)

-- The severity is `warn` where there was no baseline or nothing came of it.
unfoldable pub record_workspace : PreparedWorkspace → Scene → Scene
record_workspace ws s =
    emit s (audits_workspace (not ws.baseline_existed || ws.entry_count == 0) ws)

-- `enter(name)` and `done()`
unfoldable pub enter : Env → Stage → Scene → Scene
enter env stage s = record s { stage = stage; stage_started_at = now env s; stage_detail = none }

unfoldable pub finish_stage : Env → Scene → Scene
unfolding record_stage
finish_stage env s = record_stage env s.stage s.stage_started_at none s.stage_detail s

pub record Image : Type 0 where
  pub spec : ImageSpec
  pub env : EnvMap

unfoldable pub image_of : Env → Option TaskImage → Image
image_of env (some selected) = record { spec = selected.spec; env = get_or selected.env [] }
image_of env none = record {
  spec = record {
    ref = env.builtin_image;
    digest = [];
    entrypoint = none;
    supported_runtimes = none;
  };
  env = [];
}

unfoldable pub image_spec_of : Env → Scene → (Image → Step) → Outcome Scene ProvisionError
unfolding image_of
image_spec_of env s next =
    if is_blank s.sandbox.image_ref
    then next (image_of env none) s
    else ask s (finds_image s.sandbox.image_ref) (env.task_image s.sandbox.image_ref)
        (λ selected. next (image_of env selected))

settle_staged : Answer Bool → Option Bool
settle_staged (ok b) = some b
settle_staged (err r) = none

-- A provider that lacks the method, and one that fails, both give no answer.
unfoldable pub ask_staged :
    Option (Answer Bool) → ImageSpec → Scene → (Option Bool → Step) → Outcome Scene ProvisionError
unfolding settle_staged
ask_staged none image s next = next none s
ask_staged (some answer) image s next = next (settle_staged answer) (emit s (asks_staged image))

-- The adapter may be unknown, which throws; a failure of its hook does not.
unfoldable pub seed_with : Answer (Option (Answer Unit)) → Step
seed_with (err r) s = (s, some (rejected r))
seed_with (ok none) s = (s, none)
seed_with (ok (some answer)) s = (emit s (seeds s.sandbox.runtime), none)

unfoldable pub finish_session : Env → SessionResult → Step
unfolding on_sandbox persist
finish_session env result s =
    if result.prompt_consumed
    then on_sandbox s (consume_initial_task s.sandbox (now env s)) then_do persist env
    else (s, none)

-- The prompt that a session is given.
abbrev pub pending_prompt : Scene → Option Text
pending_prompt s = if is_pending s.sandbox.initial_task then s.sandbox.initial_task.prompt else none

unfoldable pub start_session : Env → Step
unfolding finish_session
start_session env s =
    ask s (bootstraps s.sandbox.runtime (pending_prompt s)) (env.session (pending_prompt s))
      (λ result t.
        finish_session env result (emit t (audits_session result (now env t - now env s))))

unfoldable pub bootstrap_agent_session : Env → Step
unfolding start_session
bootstrap_agent_session env s = choose s.sandbox.headless (λ t. (t, none)) (start_session env) s

unfoldable pub start_instance : Env → Handle → Step
start_instance env handle s = ask s (starts handle) env.start (λ _ t. (t, none))

unfoldable pub install_runtime : Env → ImageSpec → Step
install_runtime env image s =
    ask (emit s (broadcasts Phase.ready none)) (installs s.sandbox.runtime image) env.installation
      (λ _ t. (t, none))

-- The five steps of `starting`.
unfoldable pub run_starting_steps : Env → Handle → ImageSpec → List Credential → Option Bool → Step
unfolding assert_active start_instance install_runtime seed_with inject_credentials
    bootstrap_agent_session
run_starting_steps env handle image credentials staged s =
    assert_active env (emit s (broadcasts Phase.starting staged))
    then_do start_instance env handle
    then_do assert_active env
    then_do install_runtime env image
    then_do assert_active env
    then_do seed_with env.seeding
    then_do assert_active env
    then_do inject_credentials env credentials
    then_do assert_active env
    then_do bootstrap_agent_session env
