-- ===== src/Sandbox/Provision/Orphans/Catch.antt =====
-- What the `catch` of `provision` does with an instance that was created.
use agent_platform_api.Common.{ℕ, Text, true, Option, none, some, Outcome, err, ◌≡◌, ◌⊎◌}
use agent_platform_api.Sandbox.Aggregate.{Sandbox, bind_runtime}
use agent_platform_api.Sandbox.Repository.{SaveError, save_sync}
use agent_platform_api.Sandbox.Provision.{Scene, Env, Handle, ProvisionError}
use agent_platform_api.Sandbox.Provision.Pipeline.{is_destroying}
use agent_platform_api.Sandbox.Provision.Orphans.{IsOwnedBy}

-- The row that is being destroyed got the handle, and its save was refused.
abbrev pub IsRefused : Env → Option Sandbox → Handle → Type 0
IsRefused env current handle =
    (row : Sandbox) × (current ≡ some row)
    × (is_destroying (some row) ≡ true)
    × (path : Text) × (n : ℕ) × (e : SaveError) × (save_sync (env.row n)
          (bind_runtime row handle.provider_sandbox_id path handle.provider_state)
        ≡ err e)

-- Owned when the `catch` is over, or refused.
abbrev pub IsSettledBy : Env → Option Sandbox → Outcome Scene ProvisionError → Handle → Type 0
IsSettledBy env current o handle = IsOwnedBy o.0.done handle ⊎ IsRefused env current handle

abbrev IsSettled : Env → Option Sandbox → Option Handle → Outcome Scene ProvisionError → Type 0
IsSettled env current none o = Unit
IsSettled env current (some handle) o = IsSettledBy env current o handle
