-- ===== src/Sandbox/Provision/Fate/Restart.antt =====
-- How `restartInstance` ends.
use agent_platform_api.Common.{◌≡◌}
use agent_platform_api.Sandbox.Status.{SandboxStatus}
use agent_platform_api.Sandbox.Aggregate.{Sandbox}
use agent_platform_api.Sandbox.Provision.{Scene, Env, releases}
use agent_platform_api.Sandbox.Provision.Laws.Reached.{Reached}
use agent_platform_api.Sandbox.Provision.Laws.Ends.{Ends, Did}
use agent_platform_api.Sandbox.Provision.Laws.Failing.{IsOnRecord}

-- The failed sandbox: the release of its quota was asked for, after a restart that got under way.
abbrev pub IsReleased : Env → Scene → Scene → Type 0
IsReleased env from s =
    (s.sandbox.status ≡ SandboxStatus.failed)
    × IsOnRecord env SandboxStatus.failed s.sandbox s.done
    × Reached env from s
    × Did releases s.done
