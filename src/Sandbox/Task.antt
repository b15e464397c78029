-- ===== src/Sandbox/Task.antt =====
-- packages/modules/sandbox/src/domain/entities/agent-task.entity.ts and
-- value-objects/agent-task-status.vo.ts. An exit code is a natural number here, and `none` where there is none.
pub mod Progress
pub mod Endings
use agent_platform_api.Common.{
  ℕ, ◌+◌, Text, text_eq, Bool, true, false, not, ◌&&◌, ltb, ◌==◌, length, if◌then◌else◌, Option,
  none, some, is_none, get_or, List, [], ◌∷◌, ◌++◌, Outcome,
}

pub data TaskStatus : Type 0 where
  running succeeded failed killed timed_out : TaskStatus

-- The error of every method of a task: each throws a plain `Error`.
pub data TaskError : Type 0 where
  seq_backwards bytes_backwards session_mismatch already_finished : TaskError

pub record JobHandle : Type 0 where
  pub provider : Text
  pub job_id : Text

pub record TaskArtifact : Type 0 where
  pub name : Text
  pub size : ℕ
  pub modified_at : Option Text

-- `AgentTaskStarted` (task, sandbox, runtime, resumed session, time) and `AgentTaskFinished` (task, sandbox, status, exit code, time).
pub data TaskEvent : Type 0 where
  started : Text → Text → Text → Option Text → ℕ → TaskEvent
  finished : Text → Text → TaskStatus → Option ℕ → ℕ → TaskEvent

pub record AgentTask : Type 0 where
  pub id : Text
  pub sandbox_id : Text
  pub runtime : Text
  pub job_handle : JobHandle
  pub cursor : Option Text
  pub status : TaskStatus
  pub exit_code : Option ℕ
  pub session_ref : Option Text
  pub last_seq : ℕ
  pub stdout_bytes : ℕ
  pub log_path : Text
  pub artifacts : List TaskArtifact
  pub error_code : Option Text
  pub timeout_ms : ℕ
  pub started_at : ℕ
  pub finished_at : Option ℕ
  pub cancel_requested_at : Option ℕ
  pub events : List TaskEvent

abbrev pub is_terminal_task_status : TaskStatus → Bool
is_terminal_task_status running = false
is_terminal_task_status _ = true

unfoldable pub verdict_from_exit_code : Option ℕ → TaskStatus
verdict_from_exit_code none = failed
verdict_from_exit_code (some code) =
    if code == 0 then succeeded else if code == 124 then timed_out else failed

pub record StartInput : Type 0 where
  pub id : Text
  pub sandbox_id : Text
  pub runtime : Text
  pub job_handle : JobHandle
  pub log_path : Text
  pub timeout_ms : ℕ
  pub resume_from : Option Text
  pub now : ℕ

unfoldable pub start : StartInput → AgentTask
start input = record {
  id = input.id;
  sandbox_id = input.sandbox_id;
  runtime = input.runtime;
  job_handle = input.job_handle;
  cursor = none;
  status = running;
  exit_code = none;
  session_ref = none;
  last_seq = 0;
  stdout_bytes = 0;
  log_path = input.log_path;
  artifacts = [];
  error_code = none;
  timeout_ms = input.timeout_ms;
  started_at = input.now;
  finished_at = none;
  cancel_requested_at = none;
  events = started input.id input.sandbox_id input.runtime input.resume_from input.now ∷ [];
}

abbrev pub is_running : AgentTask → Bool
is_running t = not (is_terminal_task_status t.status)

unfoldable pub advance : AgentTask → Text → ℕ → ℕ → Outcome AgentTask TaskError
advance t cursor last_seq stdout_bytes =
    if ltb last_seq t.last_seq
    then (t, some seq_backwards)
    else if ltb stdout_bytes t.stdout_bytes
    then (t, some bytes_backwards)
    else (record t { cursor = some cursor; last_seq = last_seq; stdout_bytes = stdout_bytes }, none)

-- `this._sessionRef !== null && this._sessionRef !== ref`
abbrev is_other_session : Option Text → Text → Bool
is_other_session none ref = false
is_other_session (some bound) ref = not (text_eq bound ref)

unfoldable pub bind_session_ref : AgentTask → Text → Outcome AgentTask TaskError
bind_session_ref t ref =
    if length ref == 0
    then (t, none)
    else if is_other_session t.session_ref ref
    then (t, some session_mismatch)
    else (record t { session_ref = some ref }, none)

unfoldable pub request_cancel : AgentTask → ℕ → Outcome AgentTask TaskError
request_cancel t now =
    if not (is_running t)
    then (t, some already_finished)
    else if is_none t.cancel_requested_at
    then (record t { cancel_requested_at = some now }, none)
    else (t, none)

pub record FinishInput : Type 0 where
  pub status : TaskStatus
  pub exit_code : Option ℕ
  pub artifacts : Option (List TaskArtifact)
  pub error_code : Option Text
  pub now : ℕ

-- The position in `TASK_STATUSES`, by which two statuses are compared.
abbrev task_status_index : TaskStatus → ℕ
task_status_index running = 0
task_status_index succeeded = 1
task_status_index failed = 2
task_status_index killed = 3
task_status_index timed_out = 4

-- The fields and the event of a task that was running.
abbrev pub close : AgentTask → FinishInput → AgentTask
close t input = record t {
  status = input.status;
  exit_code = input.exit_code;
  artifacts = get_or input.artifacts t.artifacts;
  error_code = input.error_code;
  finished_at = some input.now;
  events = t.events ++ finished t.id t.sandbox_id input.status input.exit_code input.now ∷ [];
}

unfoldable pub finish : AgentTask → FinishInput → Outcome AgentTask TaskError
finish t input =
    if not (is_running t)
    then if task_status_index t.status == task_status_index input.status
      then (t, none)
      else (t, some already_finished)
    else (close t input, none)

-- A method of the task that writes, with its arguments.
pub data Call : Type 0 where
  advances : Text → ℕ → ℕ → Call
  binds_session_ref : Text → Call
  requests_cancel : ℕ → Call
  finishes : FinishInput → Call

unfoldable pub step : AgentTask → Call → Outcome AgentTask TaskError
step t (advances cursor last_seq stdout_bytes) = advance t cursor last_seq stdout_bytes
step t (binds_session_ref ref) = bind_session_ref t ref
step t (requests_cancel now) = request_cancel t now
step t (finishes input) = finish t input

-- The calls one after another, also past those that throw.
unfoldable pub run_calls : AgentTask → List Call → AgentTask
run_calls t [] = t
run_calls t (c ∷ cs) = run_calls (step t c).0 cs
