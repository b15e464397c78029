-- ===== src/Sandbox/Examples/Tasks.antt =====
-- A task that makes progress, is cancelled and ends.
use Prim.{tt}
use agent_platform_api.Common.{refl, codes, none, some, List, [], ◌∷◌}
use agent_platform_api.Sandbox.Task.{
  StartInput, start, Call, run_calls, advances, binds_session_ref, requests_cancel, finishes,
  killed, succeeded,
}
use agent_platform_api.Sandbox.Task.Progress.{IsForward, run_calls-IsForward}
use agent_platform_api.Sandbox.Task.Endings.{IsAnnounced, start-IsAnnounced}

abbrev input : StartInput
input = record {
  id = codes "t1";
  sandbox_id = codes "b1";
  runtime = codes "codex";
  job_handle = record { provider = codes "docker"; job_id = codes "j1" };
  log_path = codes "/log";
  timeout_ms = 60000;
  resume_from = none;
  now = 1;
}

-- Progress, a step back that is refused, a session, a cancellation, an end and another one.
abbrev calls : List Call
calls =
    advances (codes "c1") 2 10
    ∷ advances (codes "c0") 1 5
    ∷ binds_session_ref (codes "s1")
    ∷ requests_cancel 7
    ∷ finishes
        (record { status = killed; exit_code = none; artifacts = none; error_code = none; now = 8 })
    ∷ finishes (record {
      status = succeeded;
      exit_code = some 0;
      artifacts = none;
      error_code = none;
      now = 9;
    })
    ∷ []

run_calls-IsForward_example : IsForward (start input) (run_calls (start input) calls)
run_calls-IsForward_example = run_calls-IsForward (start input) calls

start-IsAnnounced_example : IsAnnounced input (run_calls (start input) calls)
start-IsAnnounced_example = start-IsAnnounced input calls (tt, (tt, (tt, (tt, (refl, (refl, tt))))))
