-- ===== src/Sandbox/Provision/Fate.antt =====
-- How `provision` and `restartInstance` end when nobody cancels them.
pub mod Restart
use agent_platform_api.Common.{
  ℕ, Text, Bool, true, false, Option, none, some, length, then_do_goes, Result, ok, err, ◌≡◌, refl,
  ◌⊎◌, inl, inr, Bool-cases, All,
}
use agent_platform_api.Sandbox.Status.{SandboxStatus, scheduler, status_eq, status_eq_sound}
use agent_platform_api.Sandbox.InitialTask.{SandboxError}
use agent_platform_api.Sandbox.Aggregate.{
  Sandbox, SandboxEvent, Failure, fail_with, transition_to, bind_runtime,
}
use agent_platform_api.Sandbox.Aggregate.Moves.{
  transition_to-cases, transition_to_legal, fail_with_goes,
}
use agent_platform_api.Sandbox.Provision.{
  Scene, Step, Env, Handle, WorkspaceSource, PreparedWorkspace, SplitFailure, ask, now,
  is_cancelled, was_cancelled, assert_active, on_sandbox, lift_error, persist, destroys, cleans_up,
  releases, creates, starts, commits, settle_commit, commit,
}
use agent_platform_api.Sandbox.Provision.Steps.{finish_stage}
use agent_platform_api.Sandbox.Provision.Pipeline.{
  mark_failed, bind_box, mark_bound, bind_instance, attempt_provision, destroy_if,
  release_and_throw, settle_cancelled, open_scene,
}
use agent_platform_api.Sandbox.Provision.Laws.{
  Rule, ask_goes, persist-keeps, assert_active-keeps, saved_scene,
}
use agent_platform_api.Sandbox.Provision.Laws.Steps.{finish_stage-keeps}
use agent_platform_api.Sandbox.Provision.Laws.Pipeline.{StageRule, attempt_provision-keeps}
use agent_platform_api.Sandbox.Provision.Laws.Created.{
  created, Matched, Matched-rule, Matched-stages, Uncreated-rule, bind_instance-keeps,
}
use agent_platform_api.Sandbox.Repository.{SaveError, save_sync}
use agent_platform_api.Sandbox.Provision.Laws.Failing.{IsOnRecord, can_fail_as}
use agent_platform_api.Sandbox.Provision.Laws.Ends.{
  Ends, Ends-of, Ends-then, Ends-weaken, Did, Did-last, IsDestroyed, saved_status, persist_status,
  persist_handle, persist-Ends,
}

-- The failed sandbox: every instance that was created was asked to go, the workspace too, and the
-- release of its quota was asked for.
abbrev pub IsBuried : Env → Scene → Type 0
IsBuried env s =
    (s.sandbox.status ≡ SandboxStatus.failed)
    × IsOnRecord env SandboxStatus.failed s.sandbox s.done
    × All (λ handle. Did (destroys handle) s.done) (created env s.done)
    × Did cleans_up s.done
    × Did releases s.done

pub destroy_if_buries :
    (handle : Option Handle) (s : Scene)
    → ((destroy_if handle s).sandbox.status ≡ s.sandbox.status)
      × ((destroy_if handle s).handle ≡ s.handle)
      × IsDestroyed handle (destroy_if handle s).done
destroy_if_buries none s = (refl, refl, tt)
destroy_if_buries (some handle) s = (refl, refl, Did-last (destroys handle) s.done)

pub attempt_provision-Matched :
    (env : Env) (source : WorkspaceSource) (at : ℕ) (box : Sandbox)
    → Matched env (attempt_provision env source at (open_scene env box)).0
attempt_provision-Matched env source at box =
    attempt_provision-keeps (Uncreated-rule env) (Uncreated-rule env) (Matched-rule env)
      (Matched-stages env) source at (open_scene env box) (refl, refl)
