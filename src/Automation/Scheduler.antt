-- ===== src/Automation/Scheduler.antt =====
-- packages/modules/automation/src/application/automation.scheduler.ts: what a sweep does with one rule
-- that is due or one run in flight. `Fire`, `Flight` and `Sweep` are the three stages.
--
-- A function returns what it did, in order, and the error if it throws. A transaction is one effect; it
-- is taken to commit. What the launcher, the credential reader and the repositories answer, and the
-- readings of the clock, are arguments. The sentences that end in rows are those of `Wording`.
pub mod Laws
pub mod Fire
pub mod Flight
pub mod Sweep
use agent_platform_api.Common.{
  ℕ, Text, Bool, true, false, not, if◌then◌else◌, Option, none, some, List, [], ◌∷◌, ◌++◌, map,
  Outcome, ◌then_do◌,
}
use agent_platform_api.Automation.Policies.{AutomationError, can_retry}
use agent_platform_api.Automation.Run.{
  AutomationRun, RunStatus, Verdict, RunErrorCode, Detail, mark_running, queue_retry, finalize,
  mark_outcome_applied,
}
use agent_platform_api.Automation.Rule.{
  Host, Automation, AutomationEvent, AutomationOutcome, record_outcome,
}

-- `AutomationTaskLaunchInput`
pub record LaunchInput : Type 0 where
  pub project_id : Text
  pub runtime_id : Text
  pub prompt : Text
  pub timeout_minutes : ℕ
  pub automation_id : Text
  pub automation_name : Text
  pub artifact_retention_days : ℕ

unfoldable pub launch_input : Automation → LaunchInput
launch_input a = record {
  project_id = a.project_id;
  runtime_id = a.runtime_id;
  prompt = a.prompt;
  timeout_minutes = a.timeout_minutes;
  automation_id = a.id;
  automation_name = a.name;
  artifact_retention_days = a.retention_days;
}

-- `AutomationTriggered` (rule, name, project, run, time), `AutomationRunFinished` (rule, name, run,
-- status, time) and the events of a rule.
pub data Publication : Type 0 where
  automation_triggered : Text → Text → Text → Text → ℕ → Publication
  automation_run_finished : Text → Text → Text → RunStatus → ℕ → Publication
  of_rule : AutomationEvent → Publication

-- What stands in one transaction.
pub data Write : Type 0 where
  saves_rule : Automation → Write
  saves_run : AutomationRun → Write
  publishes : Publication → Write

-- `afterRunFinished`, `afterAuthExpired`, `afterStateChange` of the notifier.
pub data Notice : Type 0 where
  run_finished : Automation → AutomationRun → Notice
  auth_expired : Automation → AutomationRun → Notice
  state_changed : Automation → Notice

pub data Effect : Type 0 where
  commits : List Write → Effect
  creates_sandbox : LaunchInput → Effect
  starts_task : Text → LaunchInput → Effect
  finishes_task : Text → Text → Text → ℕ → ℕ → Effect
  audits_disabled : Text → ℕ → Effect
  notifies : Notice → Effect

-- What a method of the domain throws, and what a collaborator rejects with.
pub data SchedulerError : Type 0 where
  domain : AutomationError → SchedulerError
  collaborator : Text → SchedulerError

pub record Wording : Type 0 where
  pub missed : Text
  pub previous_running : Text
  pub no_credential : Text
  pub no_capacity : Text
  pub no_capacity_left : Text
  pub sandbox_gone : Text
  pub of_error : AutomationError → Text

pub record Env : Type 0 where
  pub host : Host
  pub wording : Wording
  pub missed_threshold_min : ℕ

-- The readings of the clock: at the start of the stage, where the run is changed, where its outcome is
-- applied.
pub record Clock : Type 0 where
  pub now : ℕ
  pub acted_at : ℕ
  pub applied_at : ℕ

-- The rule and the run as the process holds them, and what it has done.
pub record Scene : Type 0 where
  pub rule : Automation
  pub run : AutomationRun
  pub done : List Effect

abbrev pub emit : Scene → Effect → Scene
emit s e = record s { done = s.done ++ e ∷ [] }

abbrev pub lift_error : Option AutomationError → Option SchedulerError
lift_error none = none
lift_error (some e) = some (domain e)

-- A method of the run, and one of the rule.
unfoldable pub on_run :
    Scene → (AutomationRun → Outcome AutomationRun AutomationError) → Outcome Scene SchedulerError
on_run s f = let (run, thrown) = f s.run in (record s { run = run }, lift_error thrown)

unfoldable pub on_rule :
    Scene → (Automation → Outcome Automation AutomationError) → Outcome Scene SchedulerError
on_rule s f = let (rule, thrown) = f s.rule in (record s { rule = rule }, lift_error thrown)

-- `persistRun`
unfoldable pub persist_run : Scene → Scene
persist_run s = emit s (commits (saves_run s.run ∷ []))

-- The transaction of `applyOutcome`, with the events that `pullEvents` drains.
pub commit_outcome : Clock → Scene → Scene
commit_outcome clock s =
    let run = mark_outcome_applied s.run in
    let rule = record s.rule { events = [] } in
    let events =
      map of_rule s.rule.events
      ++ automation_run_finished rule.id rule.name run.id run.status clock.applied_at ∷ [] in
    emit (record s { rule = rule; run = run })
      (commits (saves_run run ∷ saves_rule rule ∷ map publishes events))

-- `if (!automation.enabled)`: the audit.
audit_unless : Bool → Scene → Scene
audit_unless true s = s
audit_unless false s = emit s (audits_disabled s.rule.id s.rule.failure_count)

report_outcome : Scene → Scene
unfolding audit_unless
report_outcome s = emit (audit_unless s.rule.enabled s) (notifies (state_changed s.rule))

unfoldable pub apply_outcome :
    Env → Clock → AutomationOutcome → Scene → Outcome Scene SchedulerError
unfolding commit_outcome report_outcome
apply_outcome env clock outcome s =
    on_rule s (λ rule. record_outcome env.host rule outcome clock.applied_at) then_do λ t.
    (report_outcome (commit_outcome clock t), none)

abbrev pub notify_finished : Scene → Outcome Scene SchedulerError
notify_finished s = (emit s (notifies (run_finished s.rule s.run)), none)

-- `finalize`, `applyOutcome` and the notice, for a run that fails at once.
unfoldable pub fail_run : Env → Clock → Detail → Scene → Outcome Scene SchedulerError
fail_run env clock detail s =
    on_run s (λ run. finalize run Verdict.failed clock.acted_at detail)
    then_do apply_outcome env clock AutomationOutcome.failed
    then_do notify_finished

abbrev pub exhausted_detail : Text → Detail
exhausted_detail message = record {
  error_code = some RunErrorCode.resource_exhausted;
  error_message = some message;
  output_summary = none;
}

abbrev pub message_detail : Text → Detail
message_detail message = record {
  error_code = none;
  error_message = some message;
  output_summary = none;
}

unfoldable pub queue_or_give_up : Env → Clock → Scene → Outcome Scene SchedulerError
queue_or_give_up env clock s =
    if not (can_retry s.run.retry_count)
    then fail_run env clock (exhausted_detail env.wording.no_capacity_left) s
    else on_run s (λ run. queue_retry run clock.acted_at) then_do λ t. (persist_run t, none)

-- What `createSandbox` comes to: a sandbox, `AutomationResourceExhausted`, or another rejection.
pub data Creation : Type 0 where
  made : Text → Creation
  exhausted : Creation
  broken : Text → Creation

-- The `try` of `tryStartSandbox` after the creation: what it throws, the `catch` makes a failure.
settle_start :
    Env → Clock → Outcome AutomationRun AutomationError → Scene → Outcome Scene SchedulerError
settle_start env clock (run, none) s = (persist_run (record s { run = run }), none)
settle_start env clock (run, some e) s =
    fail_run env clock (message_detail (env.wording.of_error e)) (record s { run = run })

settle_creation : Env → Clock → Creation → Scene → Outcome Scene SchedulerError
unfolding settle_start
settle_creation env clock (made sandbox_id) s =
    settle_start env clock (mark_running s.run sandbox_id clock.acted_at) s
settle_creation env clock exhausted s = queue_or_give_up env clock s
settle_creation env clock (broken message) s = fail_run env clock (message_detail message) s

unfoldable pub try_start_sandbox : Env → Clock → Creation → Scene → Outcome Scene SchedulerError
unfolding settle_creation
try_start_sandbox env clock creation s =
    settle_creation env clock creation (emit s (creates_sandbox (launch_input s.rule)))
