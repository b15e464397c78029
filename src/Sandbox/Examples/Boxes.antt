-- ===== src/Sandbox/Examples/Boxes.antt =====
-- A sandbox without an instruction, from its creation to its run and a failure.
use agent_platform_api.Common.{
  ℕ, ◌≡◌, refl, Text, codes, true, none, some, List, [], ◌∷◌, ok, trim, code_points,
}
use agent_platform_api.Sandbox.InitialTask.{create_task, consume}
use agent_platform_api.Sandbox.TaskName.{derive_default_task_name}
use agent_platform_api.Sandbox.Status.{
  SandboxStatus, scheduler, user, can_transition_to, next_states,
}
use agent_platform_api.Sandbox.Aggregate.{
  Sandbox, CreateInput, create_sandbox, Call, run_calls, step, has_run, created, transitions_to,
  fails_with, consumes_initial_task, transition_to, consume_initial_task, fail_with,
}
use agent_platform_api.Sandbox.Aggregate.Chain.{IsRecorded}
use agent_platform_api.Sandbox.Aggregate.Histories.{
  create_sandbox-IsRecorded, has_run-WasProvisioned, WasProvisioned,
}
use agent_platform_api.Sandbox.Aggregate.Fields.{IsLasting, run_calls-IsLasting}

abbrev to_iso : ℕ → Text
to_iso at = codes "1970-01-01T00:00:00.000Z"

abbrev input : CreateInput
input = record {
  id = codes "b1";
  project_id = codes "p1";
  runtime = codes "codex";
  runtime_label = some (codes "Codex");
  provider = codes "docker";
  image_ref = codes "base:1";
  headless = true;
  initial_prompt = some (codes " Fix it ");
  timeout_minutes = some 30;
  idle_timeout_sec = 600;
  source_automation_id = none;
  source_automation_name = none;
  artifact_retention_days = none;
  now = 5;
}

abbrev pub box : Sandbox
box = record {
  id = codes "b1";
  project_id = codes "p1";
  runtime = codes "codex";
  injected_runtimes = [];
  provider = codes "docker";
  name = codes "Fix it";
  image_ref = codes "base:1";
  status = SandboxStatus.pending;
  headless = true;
  timeout_minutes = some 30;
  idle_timeout_sec = 600;
  workspace_path = none;
  provider_sandbox_id = none;
  provider_state = none;
  initial_task = record { prompt = some (codes "Fix it"); consumed_at = none };
  failure_code = none;
  failure_reason = none;
  failure_operation = none;
  source_automation_id = none;
  source_automation_name = none;
  artifact_retention_days = none;
  automation_finished_at = none;
  version = 0;
  transitions =
      (record { from = none; to = SandboxStatus.pending; at = 5; triggered_by = user }) ∷ [];
  pending_transitions =
      (record { from = none; to = SandboxStatus.pending; at = 5; triggered_by = user }) ∷ [];
  events = created (codes "b1") (codes "p1") (codes "Fix it") 5 ∷ [];
}

box_made : create_sandbox to_iso input ≡ ok box
unfolding create_sandbox create_task derive_default_task_name trim code_points
box_made = refl

abbrev moves : SandboxStatus → ℕ → Call
moves next now = transitions_to next scheduler now

-- Up to `running`, the instruction consumed twice, a move that is refused, a failure.
abbrev calls : List Call
calls =
    moves SandboxStatus.scheduling 6
    ∷ moves SandboxStatus.preparing_workspace 7
    ∷ moves SandboxStatus.creating 8
    ∷ moves SandboxStatus.starting 9
    ∷ consumes_initial_task 10
    ∷ consumes_initial_task 11
    ∷ moves SandboxStatus.running 12
    ∷ moves SandboxStatus.creating 13
    ∷ fails_with (record { code = codes "OOM"; message = codes "killed"; operation = none })
        scheduler 14
    ∷ []

create_sandbox-IsRecorded_example : IsRecorded (run_calls box calls)
create_sandbox-IsRecorded_example = create_sandbox-IsRecorded to_iso input calls box_made

box_ran : has_run (run_calls box calls) ≡ true
unfolding run_calls has_run step transition_to can_transition_to next_states consume_initial_task
    consume fail_with
box_ran = refl

has_run-WasProvisioned_example : WasProvisioned (run_calls box calls)
has_run-WasProvisioned_example = has_run-WasProvisioned to_iso input calls box_made box_ran

schedules_fine : (step box (moves SandboxStatus.scheduling 6)).1 ≡ none
unfolding step transition_to can_transition_to next_states
schedules_fine = refl

run_calls-IsLasting_example : IsLasting box (run_calls box calls)
run_calls-IsLasting_example = run_calls-IsLasting box calls
