-- ===== src/Sandbox/Examples/Provisions.antt =====
-- A sandbox is provisioned, one is cancelled while its instance is created, and one is restarted.
use agent_platform_api.Common.{
  ℕ, ◌≡◌, refl, codes, leb, if◌then◌else◌, true, false, none, some, [], ◌∷◌, Option, ok, err,
}
use agent_platform_api.Sandbox.Status.{SandboxStatus, can_transition_to}
use agent_platform_api.Sandbox.Aggregate.{Sandbox, transition_to, bind_runtime, mark_persisted}
use agent_platform_api.Sandbox.Repository.{save_sync, row_of, write_conflict, second_save_conflicts}
use agent_platform_api.Sandbox.Provision.{
  Scene, Env, Credential, Handle, PreparedWorkspace, WorkspaceSource, prepared, advance_to,
}
use agent_platform_api.Sandbox.Provision.Maps.{lookup, put, merge_credential_env}
use agent_platform_api.Sandbox.Provision.Options.{create_options_env}
use agent_platform_api.Sandbox.Provision.Pipeline.{
  provision, attempt_provision, open_scene, create_options, fallback_quota,
}
use agent_platform_api.Sandbox.Provision.Steps.{Image, image_of}
use agent_platform_api.Sandbox.Provision.Laws.Ends.{Ends}
use agent_platform_api.Sandbox.Provision.Silence.{IsSilent, provision-IsSilent}
use agent_platform_api.Sandbox.Examples.Boxes.{box}

abbrev key : Credential
key = record {
  runtime_id = codes "codex";
  credential_id = codes "c1";
  env = (codes "OPENAI_API_KEY", codes "k") ∷ [];
}

abbrev instance : Handle
instance = record {
  provider = codes "docker";
  provider_sandbox_id = codes "i1";
  provider_state = none;
}

abbrev ready_workspace : PreparedWorkspace
ready_workspace = record { host_path = codes "/w/b1"; baseline_existed = true; entry_count = 3 }

abbrev source : WorkspaceSource
source = record { baseline_path = codes "/p/p1"; branch = none }

-- The version of the row, while only the workflow saves it.
abbrev version_at : ℕ → ℕ
version_at n =
    if leb n 0
    then 0
    else if leb n 1
    then 1
    else if leb n 5
    then 2
    else if leb n 12
    then 3
    else if leb n 14
    then 4
    else if leb n 23
    then 5
    else 6

abbrev env_with : Option ℕ → Env
env_with stop = record {
  clock = λ n. n;
  cancelled_after = stop;
  row = λ n. some (version_at n);
  workspace = ok ready_workspace;
  task_image = λ ref. ok none;
  builtin_image = codes "base:1";
  preparation = λ runtime. prepared key;
  reserved_quota = ok none;
  is_usable = λ n. ok true;
  injection_recorded = λ n. ok true;
  creation = λ options. ok instance;
  image_staged = none;
  start = ok tt;
  installation = ok tt;
  seeding = ok none;
  injection = λ n. ok tt;
  session = λ prompt. ok (record { reused_existing = false; prompt_consumed = false });
  current_row = ok (some (record box { status = SandboxStatus.destroying; version = 4 }));
  released = ok tt;
  message_of = λ e. codes "failed";
}

abbrev env : Env
env = env_with none

abbrev stopped_box : Sandbox
stopped_box = record box { status = SandboxStatus.stopped; provider_sandbox_id = some (codes "i1") }

-- The cancellation comes while `create` runs.
abbrev late_env : Env
late_env = env_with (some 12)

abbrev cancelled_scene : Scene
cancelled_scene = (attempt_provision late_env source 0 (open_scene late_env box)).0

provision_runs : (provision env source (open_scene env box)).1 ≡ none
unfolding provision advance_to can_transition_to transition_to save_sync mark_persisted
    merge_credential_env lookup bind_runtime
provision_runs = refl

abbrev ending_row : Sandbox
ending_row = record box { status = SandboxStatus.destroying; version = 4 }

provision-IsSilent_example :
    IsSilent (some 12) (provision late_env source (open_scene late_env box)).0.done
provision-IsSilent_example = provision-IsSilent late_env source box

merged : merge_credential_env (key ∷ []) ≡ ok ((codes "OPENAI_API_KEY", codes "k") ∷ [])
unfolding merge_credential_env lookup put
merged = refl

found_key : lookup (codes "OPENAI_API_KEY") key.env ≡ some (codes "k")
unfolding lookup
found_key = refl

abbrev own_image : Image
own_image = record (image_of env none) { env = (codes "OPENAI_API_KEY", codes "other") ∷ [] }

create_options_env_example :
    lookup
      (codes "OPENAI_API_KEY")
      (create_options
        (open_scene env box)
        ready_workspace
        own_image
        fallback_quota
        ((codes "OPENAI_API_KEY", codes "k") ∷ [])).env
    ≡ some (codes "k")
create_options_env_example =
    create_options_env (open_scene env box) ready_workspace own_image fallback_quota [] key []
      ((codes "OPENAI_API_KEY", codes "k") ∷ []) (codes "OPENAI_API_KEY") (codes "k") merged
      found_key

abbrev saved_box : Sandbox
saved_box = record box { version = 1; pending_transitions = [] }

box_saved : save_sync (some 0) box ≡ ok saved_box
unfolding save_sync mark_persisted
box_saved = refl

second_save_conflicts_example :
    (saved_box.version ≡ 1) × (save_sync (row_of saved_box) box ≡ err write_conflict)
second_save_conflicts_example = second_save_conflicts 0 box box saved_box refl refl box_saved
