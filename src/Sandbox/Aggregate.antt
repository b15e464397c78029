-- ===== src/Sandbox/Aggregate.antt =====
-- packages/modules/sandbox/src/domain/entities/sandbox.entity.ts.
-- `provider_state` is opaque. `events` holds all that was raised; their dispatch is left out.
pub mod Chain
pub mod Fields
pub mod Histories
pub mod Moves
use agent_platform_api.Common.{
  ℕ, Text, Bool, true, false, not, ◌||◌, any, map, if◌then◌else◌, Option, none, some, get_or,
  or_else, List, [], ◌∷◌, ◌++◌, get_last?, Outcome, ◌then_do◌, Result, ok, err, ◌>>=◌, assign,
}
use agent_platform_api.Sandbox.Status.{
  SandboxStatus, TriggeredBy, StateTransition, can_transition_to, status_eq, pending, running,
  failed, destroying, destroyed, user,
}
use agent_platform_api.Sandbox.InitialTask.{
  InitialTask, SandboxError, invalid_transition, create_task, consume,
}
use agent_platform_api.Sandbox.TaskName.{derive_default_task_name}

pub data FailureOperation : Type 0 where
  provision start stop destroy : FailureOperation

-- `SandboxCreated` (sandbox, project, name, time) and `SandboxStateChanged` (sandbox, from, to, by, time, failure code).
pub data SandboxEvent : Type 0 where
  created : Text → Text → Text → ℕ → SandboxEvent
  state_changed :
      Text → SandboxStatus → SandboxStatus → TriggeredBy → ℕ → Option Text → SandboxEvent

pub record Sandbox : Type 0 where
  pub id : Text
  pub project_id : Text
  pub runtime : Text
  pub injected_runtimes : List Text
  pub provider : Text
  pub name : Text
  pub image_ref : Text
  pub status : SandboxStatus
  pub headless : Bool
  pub timeout_minutes : Option ℕ
  pub idle_timeout_sec : ℕ
  pub workspace_path : Option Text
  pub provider_sandbox_id : Option Text
  pub provider_state : Option Text
  pub initial_task : InitialTask
  pub failure_code : Option Text
  pub failure_reason : Option Text
  pub failure_operation : Option FailureOperation
  pub source_automation_id : Option Text
  pub source_automation_name : Option Text
  pub artifact_retention_days : Option ℕ
  pub automation_finished_at : Option ℕ
  pub version : ℕ
  pub transitions : List StateTransition
  pub pending_transitions : List StateTransition
  pub events : List SandboxEvent

pub record CreateInput : Type 0 where
  pub id : Text
  pub project_id : Text
  pub runtime : Text
  pub runtime_label : Option Text
  pub provider : Text
  pub image_ref : Text
  pub headless : Bool
  pub initial_prompt : Option Text
  pub timeout_minutes : Option ℕ
  pub idle_timeout_sec : ℕ
  pub source_automation_id : Option Text
  pub source_automation_name : Option Text
  pub artifact_retention_days : Option ℕ
  pub now : ℕ

unfoldable pub create_sandbox : (ℕ → Text) → CreateInput → Result SandboxError Sandbox
create_sandbox to_iso input = do
  let first : StateTransition = record {
    from = none;
    to = pending;
    at = input.now;
    triggered_by = user;
  }
  task ← create_task input.initial_prompt none
  let label = get_or input.runtime_label input.runtime
  let name = derive_default_task_name to_iso task.prompt label input.now
  ok (record {
    id = input.id;
    project_id = input.project_id;
    runtime = input.runtime;
    injected_runtimes = [];
    provider = input.provider;
    name = name;
    image_ref = input.image_ref;
    status = pending;
    headless = input.headless;
    timeout_minutes = input.timeout_minutes;
    idle_timeout_sec = input.idle_timeout_sec;
    workspace_path = none;
    provider_sandbox_id = none;
    provider_state = none;
    initial_task = task;
    failure_code = none;
    failure_reason = none;
    failure_operation = none;
    source_automation_id = input.source_automation_id;
    source_automation_name = input.source_automation_name;
    artifact_retention_days = input.artifact_retention_days;
    automation_finished_at = none;
    version = 0;
    transitions = first ∷ [];
    pending_transitions = first ∷ [];
    events = created input.id input.project_id name input.now ∷ [];
  })

-- `next !== 'failed' && next !== 'destroying' && next !== 'destroyed'` is its negation.
abbrev pub keeps_failure : SandboxStatus → Bool
keeps_failure next = status_eq next failed || status_eq next destroying || status_eq next destroyed

-- The failure fields, once the sandbox has moved on.
clear_failure : SandboxStatus → Sandbox → Sandbox
clear_failure next s =
    if keeps_failure next
    then s
    else record s { failure_code = none; failure_reason = none; failure_operation = none }

-- A legal move: the history, the status, the failure fields and the event.
pub move_to : Sandbox → SandboxStatus → TriggeredBy → ℕ → Sandbox
unfolding clear_failure
move_to s next by now =
    let t : StateTransition = record {
      from = some s.status;
      to = next;
      at = now;
      triggered_by = by;
    } in
    let moved = record s {
      transitions = s.transitions ++ t ∷ [];
      pending_transitions = s.pending_transitions ++ t ∷ [];
      status = next;
    } in
    let cleared = clear_failure next moved in
    let code = if status_eq next failed then cleared.failure_code else none in
    record cleared { events = s.events ++ state_changed s.id s.status next by now code ∷ [] }

unfoldable pub transition_to :
    Sandbox → SandboxStatus → TriggeredBy → ℕ → Outcome Sandbox SandboxError
unfolding move_to
transition_to s next by now =
    if not (can_transition_to s.status next)
    then (s, some invalid_transition)
    else (move_to s next by now, none)

pub record Failure : Type 0 where
  pub code : Text
  pub message : Text
  pub operation : Option FailureOperation

-- The failure fields, which `failWith` writes before the move is checked.
abbrev pub mark_failure : Sandbox → Failure → Sandbox
mark_failure s failure = record s {
  failure_code = some failure.code;
  failure_reason = some failure.message;
  failure_operation = some (get_or failure.operation provision);
}

unfoldable pub fail_with : Sandbox → Failure → TriggeredBy → ℕ → Outcome Sandbox SandboxError
unfolding transition_to
fail_with s failure by now = transition_to (mark_failure s failure) failed by now

unfoldable pub bind_runtime : Sandbox → Text → Text → Option Text → Sandbox
bind_runtime s provider_sandbox_id workspace_path provider_state = record s {
  provider_sandbox_id = some provider_sandbox_id;
  workspace_path = some workspace_path;
  provider_state = provider_state;
}

unfoldable pub consume_initial_task : Sandbox → ℕ → Outcome Sandbox SandboxError
consume_initial_task s at =
    assign s (consume s.initial_task at) (λ task. record s { initial_task = task })

unfoldable pub record_injected_runtimes : Sandbox → List Text → Sandbox
record_injected_runtimes s ids = record s { injected_runtimes = ids }

-- `this._automationFinishedAt ??= at`
unfoldable pub record_automation_finished : Sandbox → ℕ → Sandbox
record_automation_finished s at = record s {
  automation_finished_at = some (get_or s.automation_finished_at at);
}

unfoldable pub mark_persisted : Sandbox → ℕ → Sandbox
mark_persisted s version = record s { version = version; pending_transitions = [] }

unfoldable pub has_run : Sandbox → Bool
has_run s = any (λ t. status_eq t.to running) s.transitions

-- A method of the aggregate that writes, with its arguments.
pub data Call : Type 0 where
  transitions_to : SandboxStatus → TriggeredBy → ℕ → Call
  fails_with : Failure → TriggeredBy → ℕ → Call
  binds_runtime : Text → Text → Option Text → Call
  consumes_initial_task : ℕ → Call
  records_injected_runtimes : List Text → Call
  records_automation_finished : ℕ → Call
  marks_persisted : ℕ → Call

unfoldable pub step : Sandbox → Call → Outcome Sandbox SandboxError
unfolding fail_with bind_runtime consume_initial_task record_injected_runtimes
    record_automation_finished mark_persisted
step s (transitions_to next by now) = transition_to s next by now
step s (fails_with failure by now) = fail_with s failure by now
step s (binds_runtime handle path state) = (bind_runtime s handle path state, none)
step s (consumes_initial_task at) = consume_initial_task s at
step s (records_injected_runtimes ids) = (record_injected_runtimes s ids, none)
step s (records_automation_finished at) = (record_automation_finished s at, none)
step s (marks_persisted version) = (mark_persisted s version, none)

-- The calls one after another, also past those that throw.
unfoldable pub run_calls : Sandbox → List Call → Sandbox
run_calls s [] = s
run_calls s (c ∷ cs) = run_calls (step s c).0 cs
