-- ===== src/Automation/Examples/Firing.antt =====
-- A sweep over the rule of `Data`, and over a run that it opened.
use agent_platform_api.Common.{◌+◌, ◌≡◌, ◌≢◌, refl, codes, false, none, some, [], ◌∷◌, All, ok, err}
use agent_platform_api.Automation.Run.{AutomationRun, Verdict, open_pending, mark_running}
use agent_platform_api.Automation.Decision.{CredentialState, SchedulingDecision, decide, fail}
use agent_platform_api.Automation.Scheduler.{Env, Clock, exhausted, made}
use agent_platform_api.Automation.Scheduler.Fire.{
  Answers, is_previous_still_going, asked, TaskOutcome, finished, fire_one, decision_of,
}
use agent_platform_api.Automation.Scheduler.Fire.Slot.{FiresOnce, fire_one-FiresOnce}
use agent_platform_api.Automation.Scheduler.Fire.Shortage.{KeepsCount, fire_one-KeepsCount}
use agent_platform_api.Automation.Scheduler.Flight.{FlightAnswers, advance_one}
use agent_platform_api.Automation.Scheduler.Flight.Outcomes.{IsAtomic, advance_one-IsAtomic}
use agent_platform_api.Automation.Scheduler.Sweep.{Sweep, SweepAnswers, SkipScope, run_once}
use agent_platform_api.Automation.Scheduler.Sweep.Stages.{
  run_once-expected, expected_effects, expected_touched,
}
use agent_platform_api.Automation.Scheduler.Sweep.Streaks.{
  skipped_for, skipped_for-warnings, warnings,
}
use agent_platform_api.Automation.Examples.Data.{host, rule, noon}

abbrev env : Env
env = record {
  host = host;
  wording = record {
    missed = codes "missed";
    previous_running = codes "previous running";
    no_credential = codes "no credential";
    no_capacity = codes "no capacity";
    no_capacity_left = codes "no capacity left";
    sandbox_gone = codes "sandbox gone";
    of_error = λ e. codes "error";
  };
  missed_threshold_min = 5;
}

abbrev clock : Clock
clock = record { now = noon; acted_at = noon + 20; applied_at = noon + 40 }

abbrev answers : Answers
answers = record {
  previous_run = none;
  previous_phase = err (codes "unreachable");
  credential = ok CredentialState.active;
  capacity = ok SchedulingDecision.available;
  run_id = codes "run";
  creation = exhausted;
}

-- A run that has its sandbox, and the end of its task.
abbrev run : AutomationRun
run = (mark_running (open_pending (codes "run") rule.id noon) (codes "box") (noon + 20)).0

abbrev ending : TaskOutcome
ending = record {
  status = Verdict.failed;
  error_code = none;
  error_message = some (codes "exit 1");
  log_path = some (codes "/logs/run");
  log_bytes = some 100;
}

abbrev flight : FlightAnswers
flight = record {
  phase = ok (finished ending);
  rule = ok (some rule);
  start_rejects = none;
  finish_rejects = none;
  summary = none;
  capacity_codes = codes "DISK_INSUFFICIENT" ∷ [];
}

abbrev idle : Sweep
idle = record { sweep_seq = 7; skip_streaks = []; log = []; touched = 0; done = [] }

-- The orphan cannot be listed; one run is in flight and its rule cannot be read; one rule is due.
abbrev sweep : SweepAnswers
sweep = record {
  orphans = err (codes "row");
  retries = ok [];
  active = ok (run ∷ []);
  due = ok (rule ∷ []);
  of_run = λ r. record flight { rule = err (codes "timezone") };
  creation_of = λ r. made (codes "box");
  of_rule = λ r. answers;
  clock_of_run = λ r. clock;
  clock_of_rule = λ r. clock;
  due_now = noon;
}

fire_one-FiresOnce_example : FiresOnce clock answers (fire_one env clock answers rule)
fire_one-FiresOnce_example = fire_one-FiresOnce env clock answers rule

triggered : decision_of env clock answers rule ≢ ok fail
unfolding decision_of decide is_previous_still_going asked
triggered h = cc

fire_one-KeepsCount_example :
    All (KeepsCount rule.failure_count) (fire_one env clock answers rule).0
fire_one-KeepsCount_example = fire_one-KeepsCount env clock answers rule refl triggered

pending_run : run.outcome_applied ≡ false
unfolding open_pending mark_running
pending_run = refl

advance_one-IsAtomic_example : All IsAtomic (advance_one env clock flight run).0.0
advance_one-IsAtomic_example = advance_one-IsAtomic env clock flight run pending_run

run_once-expected_example :
    ((run_once env sweep false idle).done ≡ expected_effects env sweep)
    × ((run_once env sweep false idle).touched ≡ expected_touched env sweep)
run_once-expected_example = run_once-expected env sweep idle

skipped_for-warnings_example :
    warnings (skipped_for SkipScope.in_flight (codes "run") (codes "timezone") 130 idle).log ≡ 3
skipped_for-warnings_example =
    skipped_for-warnings SkipScope.in_flight (codes "run") (codes "timezone") 130 idle refl
