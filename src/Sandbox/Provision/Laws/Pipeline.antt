-- ===== src/Sandbox/Provision/Laws/Pipeline.antt =====
-- What the `try` of `provision` keeps: `O` until the workspace is there, `P` until the instance is created,
-- and `R` from then on.
use agent_platform_api.Common.{
  ℕ, none, some, get_or, List, [], ◌∷◌, ◌then_do◌, then_do_goes, then_do_keeps, Result, ok, err,
  ◌≡◌, refl,
}
use agent_platform_api.Sandbox.Status.{SandboxStatus}
use agent_platform_api.Sandbox.Provision.{
  Scene, Step, Env, EnvMap, Handle, Credential, Quota, CreateOptions, WorkspaceSource,
  PreparedWorkspace, Stage, ProvisionError, Rejection, emit, advance_to, prepares_workspace,
  reads_quota, creates, starts,
}
use agent_platform_api.Sandbox.Provision.Maps.{merge_credential_env}
use agent_platform_api.Sandbox.Provision.Credentials.{prepare_credentials}
use agent_platform_api.Sandbox.Provision.Steps.{Image, run_starting_steps, enter, finish_stage}
use agent_platform_api.Sandbox.Provision.Pipeline.{
  env_or_throw, fallback_quota, create_options, bind_instance, start_stage, create_and_start,
  create_stage, enter_creating, after_prepare, prepare_stage, attempt_provision, finish_provision,
  create_finally, read_quota, create_with_image, middle,
}
use agent_platform_api.Sandbox.Provision.Laws.{
  Rule, ask_goes, ask_then, active_goes, advance_to-keeps, boot_can_fail,
}
use agent_platform_api.Sandbox.Provision.Laws.Credentials.{
  prepare_each_goes, reserve_injection_goes, finally_zeroize-keeps,
}
use agent_platform_api.Sandbox.Provision.Laws.Steps.{
  image_spec_of_goes, ask_staged_goes, run_starting_steps-keeps, record_stage-keeps,
  finish_stage-keeps, record_workspace-keeps, enter-keeps,
}

-- The workspace, the instance and its handle.
pub record StageRule (env : Env) (O P R : Scene → Type 0) : Type 0 where
  pub early : (s : Scene) → O s → R s
  pub weaken : (s : Scene) → P s → R s
  pub prepares :
      (s : Scene) (ws : PreparedWorkspace)
      → env.workspace ≡ ok ws
      → O s
      → P (record s { workspace_path = some ws.host_path })
  pub rejects :
      (s : Scene) (o : CreateOptions) (r : Rejection)
      → env.creation o ≡ err r
      → P s
      → R (emit s (creates o))
  pub binds :
      (ws : PreparedWorkspace) (handle : Handle) (s : Scene) (o : CreateOptions)
      → env.workspace ≡ ok ws
      → env.creation o ≡ ok handle
      → P s
      → R (bind_instance env ws handle (record (emit s (creates o)) { handle = some handle })).0
  pub starting : (s : Scene) (handle : Handle) → R s → R (emit s (starts handle))

env_or_throw_goes :
    (P R : Scene → Type 0)
    → ((s : Scene) → P s → R s)
    → (r : Result ProvisionError EnvMap) (s : Scene) (next : EnvMap → Step) → P s
    → ((m : EnvMap) → R (next m s).0)
    → R (env_or_throw r s next).0
unfolding env_or_throw
env_or_throw_goes P R weaken (ok m) s next h k = k m
env_or_throw_goes P R weaken (err e) s next h k = weaken s h

module _ {env : Env} {O P R : Scene → Type 0} (first : Rule env O) (before : Rule env P)
    (after : Rule env R) (stages : StageRule env O P R) where
  start_stage-keeps :
      (handle : Handle) (image : Image) (usable : List Credential) (s : Scene)
      → R s
      → R (start_stage env handle image usable s).0
  unfolding start_stage
  start_stage-keeps handle image usable s h =
      then_do_keeps R (advance_to env SandboxStatus.starting s) _
        (advance_to-keeps after SandboxStatus.starting s boot_can_fail.3 h)
        λ t p.
          ask_staged_goes after (λ u q. q) env.image_staged image.spec (enter env Stage.starting t)
            _ (enter-keeps after Stage.starting t p)
            λ staged u q.
              then_do_keeps R
                (run_starting_steps env handle image.spec usable staged
                  (record u { stage_detail = staged }))
                (λ v. (finish_stage env v, none))
                (run_starting_steps-keeps after handle image.spec usable staged
                  (λ v r. stages.starting v handle r) _
                  (after.enters u u.stage u.stage_started_at staged q))
                (λ v r. finish_stage-keeps after v r)

  create_and_start_goes :
      (ws : PreparedWorkspace) (image : Image) (cs : List Credential) (quota : Quota) (s : Scene)
      → env.workspace ≡ ok ws
      → P s
      → R (create_and_start env ws image cs quota s).0
  unfolding create_and_start
  create_and_start_goes ws image cs quota s found h =
      reserve_injection_goes before stages.weaken cs s _ h λ usable t p.
        active_goes P R stages.weaken env t _ p λ on.
          env_or_throw_goes P R stages.weaken (merge_credential_env usable) t _ p λ m.
            let o = create_options t ws image quota m in
            ask_then (λ z. R z.0) t (creates o) (env.creation o) _
              (λ r refused. stages.rejects t o r refused p)
              λ handle given.
                then_do_keeps R
                  (bind_instance env ws handle
                    (record (emit t (creates o)) { handle = some handle }))
                  (start_stage env handle image usable) (stages.binds ws handle t o found given p)
                  (start_stage-keeps handle image usable)

  pub create_stage_goes :
      (ws : PreparedWorkspace) (s : Scene)
      → env.workspace ≡ ok ws
      → P s
      → R (create_stage env ws s).0
  unfolding create_stage create_with_image prepare_credentials read_quota create_finally
  create_stage_goes ws s found h =
      image_spec_of_goes before stages.weaken s (create_with_image env ws) h λ image t p.
        prepare_each_goes before stages.weaken (t.sandbox.runtime ∷ []) t (read_quota env ws image)
          p
          λ cs u q.
            ask_goes P R stages.weaken u reads_quota env.reserved_quota
              (create_finally env ws image cs) (before.quiet u reads_quota refl q)
              λ quota v _ r.
                finally_zeroize-keeps after cs
                  (create_and_start env ws image cs (get_or quota fallback_quota) v)
                  (create_and_start_goes ws image cs (get_or quota fallback_quota) v found r)

  prepare_stage_goes :
      (source : WorkspaceSource) (s : Scene) (next : PreparedWorkspace → Step)
      → O s
      → ((ws : PreparedWorkspace) (t : Scene) → env.workspace ≡ ok ws → P t → R (next ws t).0)
      → R (prepare_stage env source s next).0
  unfolding prepare_stage
  prepare_stage_goes source s next h k =
      ask_goes O R stages.early s (prepares_workspace source) env.workspace _
        (first.quiet s (prepares_workspace source) refl h)
        λ ws t found p. active_goes P R stages.weaken env _ _ (stages.prepares t ws found p) λ on.
          k ws _ found (
            record_workspace-keeps before ws _
              (finish_stage-keeps before _ (stages.prepares t ws found p)))

  -- From the start of the preparation to the end of `starting`.
  pub middle_goes : (source : WorkspaceSource) (s : Scene) → O s → R (middle env source s).0
  unfolding middle after_prepare enter_creating
  middle_goes source s h =
      prepare_stage_goes source (enter env Stage.preparing_workspace s) (after_prepare env)
        (enter-keeps first Stage.preparing_workspace s h)
        λ ws t found p.
          then_do_goes P R (advance_to env SandboxStatus.creating t) (enter_creating env ws)
            (advance_to-keeps before SandboxStatus.creating t boot_can_fail.2 p) stages.weaken
            λ u q.
              create_stage_goes ws (enter env Stage.creating u) found
                (enter-keeps before Stage.creating u q)

  -- The whole `try`, where `R` is kept from the first statement on.
  pub attempt_provision-keeps :
      (source : WorkspaceSource) (at : ℕ) (s : Scene)
      → O s
      → R (attempt_provision env source at s).0
  unfolding attempt_provision
  attempt_provision-keeps source at s h =
      let scheduled = advance_to env SandboxStatus.scheduling s in
      let entered = scheduled then_do advance_to env SandboxStatus.preparing_workspace in
      let ready = entered then_do middle env source in
      then_do_keeps R (ready then_do advance_to env SandboxStatus.running) (finish_provision env at)
        (then_do_keeps R ready (advance_to env SandboxStatus.running)
          (then_do_goes O R entered (middle env source)
            (then_do_keeps O scheduled (advance_to env SandboxStatus.preparing_workspace)
              (advance_to-keeps first SandboxStatus.scheduling s boot_can_fail.0 h)
              (λ t p. advance_to-keeps first SandboxStatus.preparing_workspace t boot_can_fail.1 p))
            stages.early (middle_goes source))
          (λ t p. advance_to-keeps after SandboxStatus.running t boot_can_fail.4 p))
        (λ t p. record_stage-keeps after Stage.provision at none none t p)
