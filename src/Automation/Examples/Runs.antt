-- ===== src/Automation/Examples/Runs.antt =====
-- A run through retries to its end.
use agent_platform_api.Common.{◌≤◌, ◌≡◌, refl, Text, codes, some, none, List, [], ◌∷◌, true}
use agent_platform_api.Automation.Policies.{max_attempts, run_state}
use agent_platform_api.Automation.Run.{
  AutomationRun, Call, Verdict, marks_running, queues_retry, finalizes, attaches_log, open_pending,
  step, is_terminal,
}
use agent_platform_api.Automation.Run.Lifecycle.{IsConsistent, SameVerdict}
use agent_platform_api.Automation.Run.Traces.{
  run_calls, retries, run_calls-IsConsistent, retries-le, run_calls-SameVerdict,
}

abbrev id : Text
id = codes "run"

abbrev calls : List Call
calls =
    queues_retry 5
    ∷ marks_running (codes "box") 9
    ∷ attaches_log (codes "log") 40000000
    ∷ finalizes Verdict.success 12
        (record { error_code = none; error_message = none; output_summary = none })
    ∷ queues_retry 13
    ∷ []

run_calls-IsConsistent_example : IsConsistent (run_calls (open_pending id id 1) calls)
run_calls-IsConsistent_example = run_calls-IsConsistent id id 1 calls

retries-le_example : retries (open_pending id id 1) calls ≤ max_attempts
retries-le_example = retries-le id id 1 calls

ended : AutomationRun
ended = run_calls (open_pending id id 1) calls

ended_status : is_terminal ended ≡ true
unfolding ended run_calls open_pending step is_terminal
ended_status = refl

run_calls-SameVerdict_example : SameVerdict ended (run_calls ended calls)
run_calls-SameVerdict_example = run_calls-SameVerdict ended calls ended_status

thrown : (step ended (queues_retry 20)).1 ≡ some run_state
unfolding ended run_calls open_pending step
thrown = refl
