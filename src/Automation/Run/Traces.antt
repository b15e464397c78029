-- ===== src/Automation/Run/Traces.antt =====
-- What holds of a run over every history of calls.
use agent_platform_api.Common.{
  ℕ, ◌+◌, ◌≤◌, ◌≡◌, true, Option, none, some, List, [], ◌∷◌, Text, arith,
}
use agent_platform_api.Automation.Policies.{AutomationError, max_attempts}
use agent_platform_api.Automation.Run.{
  AutomationRun, Call, queues_retry, is_terminal, open_pending, step,
}
use agent_platform_api.Automation.Run.Lifecycle.{
  IsConsistent, SameVerdict, open_pending-IsConsistent, step-IsConsistent, step-SameVerdict,
}

-- A caller that goes on after a call has thrown.
unfoldable pub run_calls : AutomationRun → List Call → AutomationRun
run_calls run [] = run
run_calls run (c ∷ cs) = run_calls (step run c).0 cs

run_calls-IsConsistent_from :
    (run : AutomationRun) (cs : List Call) → IsConsistent run → IsConsistent (run_calls run cs)
unfolding run_calls
run_calls-IsConsistent_from run [] v = v
run_calls-IsConsistent_from run (c ∷ cs) v =
    run_calls-IsConsistent_from (step run c).0 cs (step-IsConsistent run c v)

-- After any calls at all on a new run, accepted or thrown, the row is consistent: at most five
-- retries, a log within its limit, a retry time exactly while it waits for resources, a completion
-- time and a duration exactly when it is terminal, a sandbox and a start time while it is running.
pub run_calls-IsConsistent :
    (id automation_id : Text) (now : ℕ) (cs : List Call)
    → IsConsistent (run_calls (open_pending id automation_id now) cs)
run_calls-IsConsistent id automation_id now cs =
    run_calls-IsConsistent_from _ cs (open_pending-IsConsistent id automation_id now)

abbrev accepted : Option AutomationError → ℕ
accepted none = 1
accepted (some e) = 0

-- How many of the calls are retries that were accepted.
abbrev accepted_retry : Call → Option AutomationError → ℕ
accepted_retry (queues_retry now) e = accepted e
accepted_retry c e = 0

pub retries : AutomationRun → List Call → ℕ
retries run [] = 0
retries run (c ∷ cs) = accepted_retry c (step run c).1 + retries (step run c).0 cs

step_retry_count :
    (run : AutomationRun) (c : Call)
    → (step run c).0.retry_count ≡ run.retry_count + accepted_retry c (step run c).1
unfolding step
step_retry_count run c = ground arith

retry_count-run_calls :
    (run : AutomationRun) (cs : List Call)
    → (run_calls run cs).retry_count ≡ run.retry_count + retries run cs
unfolding run_calls retries
retry_count-run_calls run [] = omega arith
retry_count-run_calls run (c ∷ cs) =
    omega (arith, step_retry_count run c, retry_count-run_calls (step run c).0 cs)

-- However the calls fall, a run accepts at most five retries over its whole life.
pub retries-le :
    (id automation_id : Text) (now : ℕ) (cs : List Call)
    → retries (open_pending id automation_id now) cs ≤ max_attempts
retries-le id automation_id now cs =
    let r = open_pending id automation_id now in
    omega (
      arith,
      retry_count-run_calls r cs,
      (run_calls-IsConsistent id automation_id now cs).within_budget,
    )

SameVerdict-trans : (r s t : AutomationRun) → SameVerdict r s → SameVerdict s t → SameVerdict r t
SameVerdict-trans r s t p q = ground arith

-- Once a run is terminal, no history of calls changes its verdict: its status, sandbox, error,
-- retry columns, times, duration and summary stay as they are.
pub run_calls-SameVerdict :
    (run : AutomationRun) (cs : List Call)
    → is_terminal run ≡ true
    → SameVerdict run (run_calls run cs)
unfolding run_calls is_terminal
run_calls-SameVerdict run [] h = ground arith
run_calls-SameVerdict run (c ∷ cs) h =
    let once = step-SameVerdict run c h in
    SameVerdict-trans run (step run c).0 _ once
      (run_calls-SameVerdict (step run c).0 cs (rw once.status h))
