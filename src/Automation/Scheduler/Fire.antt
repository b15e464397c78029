-- ===== src/Automation/Scheduler/Fire.antt =====
-- `fireOne` of packages/modules/automation/src/application/automation.scheduler.ts, with
-- `isPreviousStillGoing` and `openRun`.
pub mod Slot
pub mod Shortage
use agent_platform_api.Common.{
  ℕ, Text, Bool, true, false, not, if◌then◌else◌, Option, none, some, List, [], ◌∷◌, ◌++◌, Outcome,
  ◌then_do◌, Result, ok, err, ◌>>=◌,
}
use agent_platform_api.Automation.Policies.{AutomationError}
use agent_platform_api.Automation.Run.{
  AutomationRun, Verdict, RunErrorCode, queue_retry, open_pending, open_skipped, open_missed,
  is_terminal,
}
use agent_platform_api.Automation.Rule.{Automation, advance_trigger, mark_triggered}
use agent_platform_api.Automation.Decision.{
  TriggerDecision, SkipReason, CredentialState, SchedulingDecision, decide, trigger, fail, missed,
  skip, retry,
}
use agent_platform_api.Automation.Scheduler.{
  Env, Clock, Scene, Effect, SchedulerError, Creation, domain, collaborator, commits, notifies,
  auth_expired, saves_rule, saves_run, publishes, automation_triggered, emit, on_run, persist_run,
  fail_run, exhausted_detail, try_start_sandbox,
}

-- `AutomationTaskOutcome`
pub record TaskOutcome : Type 0 where
  pub status : Verdict
  pub error_code : Option Text
  pub error_message : Option Text
  pub log_path : Option Text
  pub log_bytes : Option ℕ

-- `AutomationTaskPhase`
pub data TaskPhase : Type 0 where
  provisioning ready running gone : TaskPhase
  finished : TaskOutcome → TaskPhase

-- What the collaborators answer while one rule is fired; `err` is a rejection.
pub record Answers : Type 0 where
  pub previous_run : Option AutomationRun
  pub previous_phase : Result Text TaskPhase
  pub credential : Result Text CredentialState
  pub capacity : Result Text SchedulingDecision
  pub run_id : Text
  pub creation : Creation

unfoldable pub asked {ℓ} : {A : Type ℓ} → Result Text A → Result SchedulerError A
asked (ok a) = ok a
asked (err message) = err (collaborator message)

abbrev is_going : TaskPhase → Bool
is_going gone = false
is_going (finished outcome) = false
is_going _ = true

going_on : Option Text → Result Text TaskPhase → Result SchedulerError Bool
unfolding asked
going_on none phase = ok true
going_on (some sandbox_id) phase = do p ← asked phase; ok (is_going p)

unfoldable pub is_previous_still_going :
    Option AutomationRun → Result Text TaskPhase → Result SchedulerError Bool
unfolding going_on
is_previous_still_going none phase = ok false
is_previous_still_going (some run) phase =
    if is_terminal run then ok false else going_on run.sandbox_id phase

unfoldable pub decision_of :
    Env → Clock → Answers → Automation → Result SchedulerError TriggerDecision
unfolding is_previous_still_going asked
decision_of env clock answers rule = do
  active ← is_previous_still_going answers.previous_run answers.previous_phase
  credential ← asked answers.credential
  capacity ← asked answers.capacity
  ok (
      decide (record {
        automation = rule;
        previous_run = answers.previous_run;
        previous_task_active = active;
        credential_state = credential;
        scheduling_decision = capacity;
        now = clock.now;
        missed_threshold_min = some env.missed_threshold_min;
      }))

unfoldable pub open_run : Clock → Text → Automation → List Effect → Scene
open_run clock run_id rule done =
    let run = open_pending run_id rule.id clock.now in
    let opened = mark_triggered rule clock.now in
    let published = automation_triggered opened.id opened.name opened.project_id run.id clock.now in
    emit (record { rule = opened; run = run; done = done })
      (commits (saves_rule opened ∷ saves_run run ∷ publishes published ∷ []))

abbrev skip_code : SkipReason → RunErrorCode
skip_code SkipReason.previous_running = RunErrorCode.previous_running
skip_code SkipReason.auth_expired = RunErrorCode.auth_expired

abbrev skip_message : Env → SkipReason → Text
skip_message env SkipReason.previous_running = env.wording.previous_running
skip_message env SkipReason.auth_expired = env.wording.no_credential

-- `if (decision.reason === 'AUTH_EXPIRED')`: the notice.
notify_skip : SkipReason → Scene → Scene
notify_skip SkipReason.previous_running s = s
notify_skip SkipReason.auth_expired s = emit s (notifies (auth_expired s.rule s.run))

-- The row of a slot that is skipped.
skip_run : Env → Clock → Text → SkipReason → Automation → List Effect → Scene
unfolding notify_skip
skip_run env clock run_id reason rule done = notify_skip reason (
    persist_run (record {
      rule = rule;
      run = open_skipped run_id rule.id (skip_code reason) (skip_message env reason) clock.now;
      done = done;
    }))

-- The `switch` on the decision, after the slot has been advanced.
unfoldable pub act :
    Env
    → Clock
    → Answers
    → Automation
    → List Effect
    → TriggerDecision
    → Outcome Scene SchedulerError
unfolding open_run skip_run
act env clock answers rule done missed = (
  persist_run (record {
    rule = rule;
    run = open_missed answers.run_id rule.id env.wording.missed clock.now;
    done = done;
  }),
  none,
)
act env clock answers rule done (skip reason) =
    (skip_run env clock answers.run_id reason rule done, none)
act env clock answers rule done (retry retry_at) =
    on_run (open_run clock answers.run_id rule done) (λ run. queue_retry run clock.now) then_do λ s.
    (persist_run s, none)
act env clock answers rule done fail =
    fail_run env clock (exhausted_detail env.wording.no_capacity)
      (open_run clock answers.run_id rule done)
act env clock answers rule done trigger =
    try_start_sandbox env clock answers.creation (open_run clock answers.run_id rule done)

abbrev pub done_of : Outcome Scene SchedulerError → Outcome (List Effect) SchedulerError
done_of (s, thrown) = (s.done, thrown)

-- The slot is advanced and saved before anything is done about it.
abbrev pub advance_then :
    Env
    → Clock
    → Answers
    → TriggerDecision
    → Outcome Automation AutomationError
    → Outcome (List Effect) SchedulerError
advance_then env clock answers decision (rule, some e) = ([], some (domain e))
advance_then env clock answers decision (rule, none) =
    done_of (act env clock answers rule (commits (saves_rule rule ∷ []) ∷ []) decision)

abbrev pub decided_then :
    Env
    → Clock
    → Answers
    → Automation
    → Result SchedulerError TriggerDecision
    → Outcome (List Effect) SchedulerError
decided_then env clock answers rule (err e) = ([], some e)
decided_then env clock answers rule (ok decision) =
    advance_then env clock answers decision (advance_trigger env.host rule clock.now)

unfoldable pub fire_one : Env → Clock → Answers → Automation → Outcome (List Effect) SchedulerError
fire_one env clock answers rule =
    decided_then env clock answers rule (decision_of env clock answers rule)
