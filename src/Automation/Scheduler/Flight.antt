-- ===== src/Automation/Scheduler/Flight.antt =====
-- `advanceOne`, `startTaskOn`, `finishTask` and the body of `applyPendingOutcomes` of
-- packages/modules/automation/src/application/automation.scheduler.ts: one run in flight, one step on.
-- Beside what was done a function returns the number that it adds to `touched`.
pub mod Outcomes
use agent_platform_api.Common.{
  ℕ, ◌+◌, Text, Bool, true, false, not, ◌&&◌, min, if◌then◌else◌, Option, none, some, get_or, List,
  [], ◌∷◌, ◌++◌, Outcome, ◌then_do◌, Result, ok, err, text_eq, any, is_some,
}
use agent_platform_api.Automation.Run.{
  AutomationRun, RunStatus, Verdict, Detail, mark_running, finalize, attach_log, log_bytes_limit,
  mark_outcome_applied,
}
use agent_platform_api.Automation.Rule.{Automation, AutomationOutcome}
use agent_platform_api.Automation.Scheduler.{
  Env, Clock, Scene, Effect, SchedulerError, collaborator, starts_task, finishes_task, notifies,
  commits, saves_run, emit, on_run, persist_run, apply_outcome, notify_finished, queue_or_give_up,
  fail_run, launch_input, message_detail,
}
use agent_platform_api.Automation.Scheduler.Fire.{
  TaskOutcome, TaskPhase, provisioning, ready, running, finished, gone,
}

-- What the collaborators answer about one run: the phase of its sandbox, the rule, whether `startTask`
-- and `finishTask` reject, and the summary. `capacity_codes` is `CAPACITY_FAILURE_CODES`.
pub record FlightAnswers : Type 0 where
  pub phase : Result Text TaskPhase
  pub rule : Result Text (Option Automation)
  pub start_rejects : Option Text
  pub finish_rejects : Option Text
  pub summary : Option Text
  pub capacity_codes : List Text

abbrev pub Touched : Type 0
Touched = Outcome (List Effect × ℕ) SchedulerError

-- A branch that returns the number, unless it throws.
abbrev pub counted : ℕ → Outcome Scene SchedulerError → Touched
counted n (s, none) = ((s.done, n), none)
counted n (s, some e) = ((s.done, 0), some e)

-- The body on the rule of a run; a rule that is gone is passed over.
abbrev pub with_rule : Result Text (Option Automation) → (Automation → Touched) → Touched
with_rule (err message) body = (([], 0), some (collaborator message))
with_rule (ok none) body = (([], 0), none)
with_rule (ok (some rule)) body = body rule

abbrev rejected : Option Text → Option SchedulerError
rejected none = none
rejected (some message) = some (collaborator message)

finish_of : Option Text → Option ℕ → Option Text → Scene → Outcome Scene SchedulerError
finish_of none completed_at rejects s = (s, none)
finish_of (some sandbox_id) none rejects s = (s, none)
finish_of (some sandbox_id) (some at) rejects s = (
  emit s (finishes_task sandbox_id s.rule.id s.rule.name s.rule.retention_days at),
  rejected rejects,
)

unfoldable pub finish_task : Option Text → Scene → Outcome Scene SchedulerError
unfolding finish_of
finish_task rejects s = finish_of s.run.sandbox_id s.run.completed_at rejects s

-- The `catch` of `startTaskOn`.
start_of : Env → Clock → FlightAnswers → Option Text → Scene → Outcome Scene SchedulerError
start_of env clock answers none s = (s, none)
start_of env clock answers (some message) s =
    on_run s (λ run. finalize run Verdict.failed clock.acted_at (message_detail message))
    then_do (λ t. (persist_run t, none))
    then_do finish_task answers.finish_rejects
    then_do apply_outcome env clock AutomationOutcome.failed
    then_do notify_finished

abbrev start_on : Env → Clock → FlightAnswers → Option Text → Scene → Outcome Scene SchedulerError
start_on env clock answers none s = (s, none)
start_on env clock answers (some sandbox_id) s =
    start_of env clock answers answers.start_rejects
      (emit s (starts_task sandbox_id (launch_input s.rule)))

unfoldable pub start_task_on : Env → Clock → FlightAnswers → Scene → Outcome Scene SchedulerError
unfolding start_of
start_task_on env clock answers s = start_on env clock answers s.run.sandbox_id s

abbrev is_pending : RunStatus → Bool
is_pending RunStatus.pending = true
is_pending _ = false

abbrev is_failure : Verdict → Bool
is_failure Verdict.failed = true
is_failure _ = false

-- `phase.status === 'failed' && isCapacityFailureCode(phase.errorCode)`
unfoldable pub lacks_capacity : List Text → TaskOutcome → Bool
lacks_capacity codes outcome =
    is_failure outcome.status
    && elim outcome.error_code [ none ↦ false | some code ↦ any (text_eq code) codes ]

-- `if (run.status === 'pending') run.markRunning(sandboxId, clock.now())`
run_if_pending : Clock → Text → Scene → Outcome Scene SchedulerError
run_if_pending clock sandbox_id s =
    if is_pending s.run.status
    then on_run s (λ run. mark_running run sandbox_id clock.acted_at)
    else (s, none)

attach_of : Option Text → ℕ → Scene → Outcome Scene SchedulerError
attach_of none bytes s = (s, none)
attach_of (some path) bytes s = on_run s (λ run. attach_log run path (min bytes log_bytes_limit))

attach_if_given : TaskOutcome → Scene → Outcome Scene SchedulerError
unfolding attach_of
attach_if_given outcome s = attach_of outcome.log_path (get_or outcome.log_bytes 0) s

abbrev outcome_of_verdict : Verdict → AutomationOutcome
outcome_of_verdict Verdict.success = AutomationOutcome.success
outcome_of_verdict Verdict.failed = AutomationOutcome.failed
outcome_of_verdict Verdict.timeout = AutomationOutcome.timeout

-- The run has ended: its log, its verdict, the row, the sandbox, and only then the outcome.
unfoldable pub conclude :
    Env → Clock → FlightAnswers → Text → TaskOutcome → Scene → Outcome Scene SchedulerError
unfolding run_if_pending attach_if_given
conclude env clock answers sandbox_id outcome s =
    run_if_pending clock sandbox_id s
    then_do attach_if_given outcome
    then_do (λ t. on_run t (λ run. finalize run outcome.status clock.acted_at (record {
      error_code = none;
      error_message = outcome.error_message;
      output_summary = answers.summary;
    })))
    then_do (λ t. (persist_run t, none))
    then_do finish_task answers.finish_rejects
    then_do apply_outcome env clock (outcome_of_verdict outcome.status)
    then_do notify_finished

finish_or_queue :
    Env → Clock → FlightAnswers → Text → TaskOutcome → Scene → Outcome Scene SchedulerError
finish_or_queue env clock answers sandbox_id outcome s =
    if lacks_capacity answers.capacity_codes outcome
    then queue_or_give_up env clock s
    else conclude env clock answers sandbox_id outcome s

-- The sandbox is gone: the run fails.
unfoldable pub conclude_gone : Env → Clock → Text → Scene → Outcome Scene SchedulerError
unfolding run_if_pending
conclude_gone env clock sandbox_id s =
    run_if_pending clock sandbox_id s
    then_do fail_run env clock (message_detail env.wording.sandbox_gone)

abbrev pub scene_of : AutomationRun → Automation → Scene
scene_of run rule = record { rule = rule; run = run; done = [] }

-- The `switch` on the phase.
on_phase : Env → Clock → FlightAnswers → AutomationRun → Text → TaskPhase → Touched
unfolding finish_or_queue
on_phase env clock answers run sandbox_id provisioning = (([], 0), none)
on_phase env clock answers run sandbox_id running = (([], 0), none)
on_phase env clock answers run sandbox_id ready =
    with_rule answers.rule λ rule. counted 1 (start_task_on env clock answers (scene_of run rule))
on_phase env clock answers run sandbox_id (finished outcome) =
    with_rule answers.rule
      λ rule. counted 1 (finish_or_queue env clock answers sandbox_id outcome (scene_of run rule))
on_phase env clock answers run sandbox_id gone =
    with_rule answers.rule
      λ rule. counted 1 (conclude_gone env clock sandbox_id (scene_of run rule))

abbrev on_answer :
    Env → Clock → FlightAnswers → AutomationRun → Text → Result Text TaskPhase → Touched
on_answer env clock answers run sandbox_id (err message) = (([], 0), some (collaborator message))
on_answer env clock answers run sandbox_id (ok phase) =
    on_phase env clock answers run sandbox_id phase

abbrev phase_then : Env → Clock → FlightAnswers → AutomationRun → Option Text → Touched
phase_then env clock answers run none = (([], 0), none)
phase_then env clock answers run (some sandbox_id) =
    on_answer env clock answers run sandbox_id answers.phase

unfoldable pub advance_one : Env → Clock → FlightAnswers → AutomationRun → Touched
unfolding on_phase
advance_one env clock answers run = phase_then env clock answers run run.sandbox_id

-- `run.status as AutomationOutcome`: `recordOutcome` treats every other status like a failure.
abbrev outcome_of_status : RunStatus → AutomationOutcome
outcome_of_status RunStatus.success = AutomationOutcome.success
outcome_of_status RunStatus.timeout = AutomationOutcome.timeout
outcome_of_status RunStatus.skipped = AutomationOutcome.skipped
outcome_of_status RunStatus.missed = AutomationOutcome.missed
outcome_of_status _ = AutomationOutcome.failed

recover : Env → Clock → FlightAnswers → Scene → Outcome Scene SchedulerError
recover env clock answers s =
    finish_task answers.finish_rejects s
    then_do apply_outcome env clock (outcome_of_status s.run.status)
    then_do notify_finished

-- The body of `applyPendingOutcomes`: a run with a verdict that has not reached its rule.
unfoldable pub apply_pending_outcome : Env → Clock → FlightAnswers → AutomationRun → Touched
unfolding recover
apply_pending_outcome env clock answers run = elim answers.rule [
  | err message ↦ (([], 0), some (collaborator message))
  | ok none ↦ ((commits (saves_run (mark_outcome_applied run) ∷ []) ∷ [], 0), none)
  | ok (some rule) ↦ counted 1 (recover env clock answers (scene_of run rule))
]
