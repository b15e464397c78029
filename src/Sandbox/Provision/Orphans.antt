-- ===== src/Sandbox/Provision/Orphans.antt =====
-- An instance that was created is bound to the sandbox's row, or asked to go: none is forgotten, also
-- where the cancellation comes while `create` is running.
pub mod Binding
pub mod Catch
use agent_platform_api.Common.{
  ℕ, Text, Bool, true, false, is_blank, Option, none, some, List, [], ◌∷◌, ◌++◌, length, Outcome,
  ◌then_do◌, then_do_goes, then_do_keeps, Result, ok, err, ◌≡◌, refl, ◌∙◌, ap, sym, subst, ◌⊎◌,
  Bool-cases, ok_injective,
}
use agent_platform_api.Sandbox.Aggregate.{Sandbox, SandboxEvent, FailureOperation, bind_runtime}
use agent_platform_api.Sandbox.Repository.{SaveError, save_sync}
use agent_platform_api.Sandbox.Provision.{
  Scene, Step, Env, Effect, Handle, Stage, WorkspaceSource, PreparedWorkspace, ProvisionError,
  unsaved, emit, ask, is_cancelled, assert_active, on_sandbox, persist, commits, binds_late,
  destroys, cleans_up, releases, creates, starts, finds_row,
}
use agent_platform_api.Sandbox.Provision.Steps.{record_stage, finish_stage}
use agent_platform_api.Sandbox.Provision.Pipeline.{
  split_failure, audit_failure, tear_down, compensate, mark_failed, bind_box, mark_bound,
  bind_instance, attempt_provision, fail_provision, destroy_if, destroy_late, bind_late,
  settle_late, hand_over, late_handle, settle_row, settle_cancelled, clean_if, catch_provision,
  open_scene, truthy, is_set, is_destroying, release_and_throw,
}
use agent_platform_api.Sandbox.Provision.Laws.{Rule, assert_active-keeps, saved_scene}
use agent_platform_api.Sandbox.Provision.Laws.Credentials.{choose_goes}
use agent_platform_api.Sandbox.Provision.Laws.Steps.{finish_stage-keeps}
use agent_platform_api.Sandbox.Provision.Laws.Pipeline.{StageRule, attempt_provision-keeps}
use agent_platform_api.Sandbox.Provision.Laws.Ends.{
  Ends, Ends-of, Ends_at, Ends-then, Ends_goes, Did, Did-last, Did-before, IsDestroyed,
  IsDestroyed-before, release_and_throw-Ends, saved_status, persist_handle, persist-Ends,
}
use agent_platform_api.Sandbox.Provision.Fate.{destroy_if_buries}

-- A row with the handle was saved by the workflow.
abbrev pub IsSaved : Handle → List Effect → Type 0
IsSaved handle done =
    (box : Sandbox) × (events : List SandboxEvent) × Did (commits box events) done
    × (box.provider_sandbox_id ≡ some handle.provider_sandbox_id)

-- The row that is being destroyed got the handle.
abbrev pub IsHandedOver : Handle → List Effect → Type 0
IsHandedOver handle done =
    (row : Sandbox) × Did (binds_late row) done
    × (row.provider_sandbox_id ≡ some handle.provider_sandbox_id)

abbrev pub IsOwnedBy : List Effect → Handle → Type 0
IsOwnedBy done handle = Did (destroys handle) done ⊎ IsSaved handle done ⊎ IsHandedOver handle done

abbrev pub IsOwned : Option Handle → List Effect → Type 0
IsOwned none done = Unit
IsOwned (some handle) done = IsOwnedBy done handle

-- While the `try` runs: an instance is saved, or its workspace is known.
IsHeld : Option Handle → Bool → Option Text → List Effect → Type 0
IsHeld none bound path done = Unit
IsHeld (some handle) true path done = IsSaved handle done
IsHeld (some handle) false path done = (p : Text) × (truthy path ≡ some p)

IsHeld-before :
    (handle : Option Handle) (bound : Bool) (path : Option Text) (x : Effect) (done : List Effect)
    → IsHeld handle bound path done
    → IsHeld handle bound path (done ++ x ∷ [])
unfolding IsHeld
IsHeld-before none bound path x done h = tt
IsHeld-before (some handle) true path x done (box, events, did, same) =
    (box, events, Did-before _ x done did, same)
IsHeld-before (some handle) false path x done h = h

pub Held : Scene → Type 0
unfolding IsHeld
Held s = IsHeld s.handle s.bound s.workspace_path s.done

-- Before the workspace is there, and before the instance is.
abbrev pub Fresh : Scene → Type 0
Fresh s = (s.handle ≡ none) × (s.bound ≡ false)

abbrev pub Prepared : Scene → Type 0
Prepared s = Fresh s × (p : Text) × (truthy s.workspace_path ≡ some p)

Held-emit : (s : Scene) (x : Effect) → Held s → Held (emit s x)
unfolding Held
Held-emit s x h = IsHeld-before s.handle s.bound s.workspace_path x s.done h

Held-rule : (env : Env) → Rule env Held
unfolding Held
Held-rule env = record {
  quiet = λ s e quiet h. Held-emit s e h;
  enters = λ s stage at detail h. h;
  writes = λ s box w h. h;
  saves = λ s saved on e h. IsHeld-before s.handle s.bound s.workspace_path _ s.done h;
}

Held-Fresh : (s : Scene) → Fresh s → Held s
unfolding Held IsHeld
Held-Fresh s h = subst (λ o. IsHeld o s.bound s.workspace_path s.done) (sym h.0) tt

-- The handle is known, and not saved yet; then it is.
abbrev Open : Handle → Scene → Type 0
Open handle s =
    (s.handle ≡ some handle) × (s.bound ≡ false) × (p : Text) × (truthy s.workspace_path ≡ some p)

Held-Open : (handle : Handle) (s : Scene) → Open handle s → Held s
unfolding Held IsHeld
Held-Open handle s (known, loose, p, path) =
    subst (λ o. IsHeld o s.bound s.workspace_path s.done) (sym known)
      (subst (λ b. IsHeld (some handle) b s.workspace_path s.done) (sym loose) (p, path))

abbrev Kept : Handle → Scene → Type 0
Kept handle s = (s.handle ≡ some handle) × IsSaved handle s.done

Held-Kept : (handle : Handle) (s : Scene) → Kept handle s → Held (record s { bound = true })
unfolding Held IsHeld
Held-Kept handle s (known, saved) =
    subst (λ o. IsHeld o true s.workspace_path s.done) (sym known) saved

abbrev Ready : Handle → Scene → Type 0
Ready handle s = Open handle s × (s.sandbox.provider_sandbox_id ≡ some handle.provider_sandbox_id)
