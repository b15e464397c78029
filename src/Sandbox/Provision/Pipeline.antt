-- ===== src/Sandbox/Provision/Pipeline.antt =====
-- provision-sandbox.workflow.ts: `provision` and `restartInstance`, with their compensation, and
-- `splitFailure`.
use agent_platform_api.Common.{
  ℕ, Text, codes, Bool, true, false, not, ◌&&◌, any, map, if◌then◌else◌, is_blank, text_eq, length,
  Option, none, some, get_or, List, [], ◌∷◌, Outcome, ◌then_do◌, Result, ok, err,
}
use agent_platform_api.Sandbox.Status.{SandboxStatus, scheduler, status_eq}
use agent_platform_api.Sandbox.Aggregate.{
  Sandbox, FailureOperation, Failure, fail_with, bind_runtime,
}
use agent_platform_api.Sandbox.Repository.{SaveError, save_sync}
use agent_platform_api.Sandbox.Provision.{
  Scene, Step, Env, EnvMap, Handle, Credential, Quota, CreateOptions, WorkspaceSource,
  PreparedWorkspace, SplitFailure, Stage, ProvisionError, revoked, rejected, unsaved, emit, ask,
  now, is_cancelled, assert_active, on_sandbox, persist, advance_to, prepares_workspace,
  reads_quota, creates, binds_late, finds_row, destroys, cleans_up, releases,
}
use agent_platform_api.Sandbox.Provision.Maps.{merge_credential_env, spread}
use agent_platform_api.Sandbox.Provision.Credentials.{
  prepare_credentials, reserve_injection, finally_zeroize, choose,
}
use agent_platform_api.Sandbox.Provision.Steps.{
  Image, image_spec_of, ask_staged, run_starting_steps, record_stage, record_workspace, enter,
  finish_stage,
}

-- `SANDBOX_FAILURE_CODES`
abbrev failure_codes : List Text
failure_codes = map codes (
    "IMAGE_PULL_FAILED" ∷ "IMAGE_DIGEST_GONE" ∷ "RESOURCE_EXHAUSTED" ∷ "NOT_FOUND"
    ∷ "ALREADY_EXISTS" ∷ "TIMEOUT" ∷ "PERMISSION_DENIED" ∷ "INVALID_STATE" ∷ "PROVIDER_UNAVAILABLE"
    ∷ "UNSUPPORTED_CAPABILITY" ∷ "INTERNAL" ∷ "INSTALL_FAILED" ∷ "AUTH_REJECTED"
    ∷ "IMAGE_CONTRACT_VIOLATION" ∷ "UNKNOWN_RUNTIME" ∷ "WORKSPACE_PREPARE_FAILED"
    ∷ "DISK_INSUFFICIENT" ∷ [])

unfoldable pub is_sandbox_failure_code : Text → Bool
is_sandbox_failure_code code = any (text_eq code) failure_codes

-- The `code` of an error, if it has one.
abbrev raw_code : ProvisionError → Option Text
raw_code revoked = some (codes "AUTH_REJECTED")
raw_code (rejected r) = r.code
raw_code e = none

abbrev registered_code : Option Text → Text
registered_code none = codes "INTERNAL"
registered_code (some raw) = if is_sandbox_failure_code raw then raw else codes "INTERNAL"

unfoldable pub split_failure : Env → ProvisionError → SplitFailure
split_failure env e = record { code = registered_code (raw_code e); message = env.message_of e }

unfoldable pub mark_failed : Env → FailureOperation → ProvisionError → Step
unfolding split_failure on_sandbox
mark_failed env operation e s =
    let split = split_failure env e in
    let failure : Failure = record {
      code = split.code;
      message = split.message;
      operation = some operation;
    } in
    on_sandbox s (fail_with s.sandbox failure scheduler (now env s))

-- What is thrown here is swallowed.
unfoldable pub compensate : Env → FailureOperation → ProvisionError → Scene → Scene
unfolding mark_failed persist
compensate env operation e s = (mark_failed env operation e s then_do persist env).0

abbrev pub fallback_quota : Quota
fallback_quota = record { cores = 1; ram_mb = 512; disk_mb = 1024 }

unfoldable pub env_or_throw :
    Result ProvisionError EnvMap → Scene → (EnvMap → Step) → Outcome Scene ProvisionError
env_or_throw (ok m) s next = next m s
env_or_throw (err e) s next = (s, some e)

abbrev pub bind_box : PreparedWorkspace → Handle → Step
bind_box ws handle s = (
  record s {
    sandbox = bind_runtime s.sandbox handle.provider_sandbox_id ws.host_path handle.provider_state;
  },
  none,
)

unfoldable pub mark_bound : Env → Step
unfolding finish_stage
mark_bound env s = (finish_stage env (record s { bound = true }), none)

-- From the end of `create` to the saved handle.
unfoldable pub bind_instance : Env → PreparedWorkspace → Handle → Step
unfolding assert_active persist mark_bound
bind_instance env ws handle s =
    assert_active env s then_do bind_box ws handle then_do persist env then_do mark_bound env

unfoldable pub start_stage : Env → Handle → Image → List Credential → Step
unfolding advance_to ask_staged run_starting_steps finish_stage enter
start_stage env handle image usable s = advance_to env SandboxStatus.starting s then_do λ t.
    ask_staged env.image_staged image.spec (enter env Stage.starting t) λ staged u.
      run_starting_steps env handle image.spec usable staged (record u { stage_detail = staged })
      then_do λ v. (finish_stage env v, none)

-- The image's variables go in first and the credentials' last.
abbrev pub create_options : Scene → PreparedWorkspace → Image → Quota → EnvMap → CreateOptions
create_options s ws image quota credential_env = record {
  sandbox_id = s.sandbox.id;
  quota = quota;
  image = image.spec;
  env = spread image.env credential_env;
  volume_source = ws.host_path;
}

-- The `try` whose `finally` wipes the credentials.
unfoldable pub create_and_start : Env → PreparedWorkspace → Image → List Credential → Quota → Step
unfolding reserve_injection assert_active env_or_throw bind_instance start_stage
create_and_start env ws image credentials quota s = reserve_injection env credentials s λ usable t.
    assert_active env t then_do λ u.
    env_or_throw (merge_credential_env usable) u λ credential_env v.
      ask v (creates (create_options v ws image quota credential_env))
        (env.creation (create_options v ws image quota credential_env))
        λ handle w.
          bind_instance env ws handle (record w { handle = some handle })
          then_do start_stage env handle image usable

unfoldable pub create_finally :
    Env → PreparedWorkspace → Image → List Credential → Option Quota → Step
unfolding finally_zeroize create_and_start
create_finally env ws image credentials quota s =
    finally_zeroize credentials
      (create_and_start env ws image credentials (get_or quota fallback_quota) s)

-- The quota is read before the `try`.
unfoldable pub read_quota : Env → PreparedWorkspace → Image → List Credential → Step
unfolding create_finally
read_quota env ws image credentials s =
    ask s reads_quota env.reserved_quota (create_finally env ws image credentials)

unfoldable pub create_with_image : Env → PreparedWorkspace → Image → Step
unfolding prepare_credentials read_quota
create_with_image env ws image s = prepare_credentials env s (read_quota env ws image)

unfoldable pub create_stage : Env → PreparedWorkspace → Step
unfolding image_spec_of create_with_image
create_stage env ws s = image_spec_of env s (create_with_image env ws)

unfoldable pub prepare_stage :
    Env → WorkspaceSource → Scene → (PreparedWorkspace → Step) → Outcome Scene ProvisionError
unfolding assert_active finish_stage record_workspace
prepare_stage env source s next = ask s (prepares_workspace source) env.workspace λ ws t.
    assert_active env (record t { workspace_path = some ws.host_path }) then_do λ u.
    next ws (record_workspace ws (finish_stage env u))

unfoldable pub enter_creating : Env → PreparedWorkspace → Step
unfolding create_stage enter
enter_creating env ws s = create_stage env ws (enter env Stage.creating s)

unfoldable pub after_prepare : Env → PreparedWorkspace → Step
unfolding advance_to enter_creating
after_prepare env ws s = advance_to env SandboxStatus.creating s then_do enter_creating env ws

-- From the preparation of the workspace to the end of `starting`.
unfoldable pub middle : Env → WorkspaceSource → Step
unfolding prepare_stage after_prepare enter
middle env source s =
    prepare_stage env source (enter env Stage.preparing_workspace s) (after_prepare env)

abbrev pub finish_provision : Env → ℕ → Step
finish_provision env started_at s = (record_stage env Stage.provision started_at none none s, none)

-- The outer `try`.
unfoldable pub attempt_provision : Env → WorkspaceSource → ℕ → Step
unfolding advance_to middle record_stage
attempt_provision env source started_at s =
    advance_to env SandboxStatus.scheduling s
    then_do advance_to env SandboxStatus.preparing_workspace
    then_do middle env source
    then_do advance_to env SandboxStatus.running
    then_do finish_provision env started_at

abbrev pub destroy_if : Option Handle → Scene → Scene
destroy_if none s = s
destroy_if (some handle) s = emit s (destroys handle)

abbrev pub release_and_throw : Env → ProvisionError → Step
release_and_throw env e s = ask s releases env.released (λ _ t. (t, some e))

-- The stage that failed, then the whole.
unfoldable pub audit_failure : Env → ℕ → SplitFailure → Scene → Scene
unfolding record_stage
audit_failure env started_at failure s =
    record_stage env Stage.provision started_at (some failure) none
      (record_stage env s.stage s.stage_started_at (some failure) s.stage_detail s)

abbrev pub tear_down : Scene → Scene
tear_down s = emit (destroy_if s.handle s) cleans_up

-- Its `catch`, without a cancellation.
unfoldable pub fail_provision : Env → ℕ → ProvisionError → Step
unfolding audit_failure compensate
fail_provision env started_at e s =
    let recorded = audit_failure env started_at (split_failure env e) s in
    release_and_throw env e (tear_down (compensate env FailureOperation.provision e recorded))

-- `current?.status === 'destroying'`
abbrev pub is_destroying : Option Sandbox → Bool
is_destroying none = false
is_destroying (some row) = status_eq row.status SandboxStatus.destroying

-- A path that is set, and not empty.
abbrev pub truthy : Option Text → Option Text
truthy none = none
truthy (some path) = if is_blank path then none else some path

unfoldable pub settle_late : Scene → Result SaveError Sandbox → Outcome Scene ProvisionError
settle_late s (err e) = (s, some (unsaved e))
settle_late s (ok saved) = (emit s (binds_late saved), none)

-- An instance that was made after the cancellation: the deletion gets its handle, or it is destroyed.
unfoldable pub bind_late : Env → Sandbox → Handle → Text → Step
unfolding settle_late
bind_late env row handle path s = settle_late s (
    save_sync (env.row (length s.done))
      (bind_runtime row handle.provider_sandbox_id path handle.provider_state))

abbrev pub destroy_late : Handle → Step
destroy_late handle s = (emit s (destroys handle), none)

unfoldable pub hand_over : Env → Option Sandbox → Handle → Text → Step
unfolding bind_late
hand_over env none handle path s = destroy_late handle s
hand_over env (some row) handle path s =
    choose (status_eq row.status SandboxStatus.destroying) (bind_late env row handle path)
      (destroy_late handle) s

unfoldable pub late_handle : Env → Option Sandbox → Option Handle → Bool → Option Text → Step
unfolding hand_over
late_handle env current (some handle) false (some path) s = hand_over env current handle path s
late_handle env current handle bound path s = (s, none)

unfoldable pub clean_if : Bool → Scene → Scene
clean_if true s = emit s cleans_up
clean_if false s = s

abbrev pub is_set : Option Text → Bool
is_set none = false
is_set (some path) = true

unfoldable pub settle_row : Env → Option Sandbox → Step
unfolding late_handle clean_if
settle_row env current s =
    late_handle env current s.handle s.bound (truthy s.workspace_path) s then_do λ t. (
      clean_if (not t.bound && is_set (truthy t.workspace_path) && not (is_destroying current)) t,
      none,
    )

-- Its `catch`, where the workflow was cancelled.
unfoldable pub settle_cancelled : Env → Step
unfolding settle_row
settle_cancelled env s = ask s finds_row env.current_row (settle_row env)

unfoldable pub catch_provision :
    Env → ℕ → Outcome Scene ProvisionError → Outcome Scene ProvisionError
unfolding fail_provision settle_cancelled
catch_provision env started_at (s, none) = (s, none)
catch_provision env started_at (s, some e) =
    choose (is_cancelled env s) (settle_cancelled env) (fail_provision env started_at e) s

unfoldable pub provision : Env → WorkspaceSource → Step
unfolding attempt_provision catch_provision
provision env source s =
    catch_provision env (now env s) (attempt_provision env source (now env s) s)

-- The locals before the first statement.
abbrev pub open_scene : Env → Sandbox → Scene
open_scene env sandbox = record {
  sandbox = sandbox;
  handle = none;
  workspace_path = none;
  bound = false;
  stage = Stage.scheduling;
  stage_started_at = env.clock 0;
  stage_detail = none;
  done = [];
}
