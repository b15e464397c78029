-- ===== src/Sandbox/Provision/Laws/Steps.antt =====
-- What the steps of `Provision/Steps` keep.
use agent_platform_api.Common.{
  ℕ, Bool, is_blank, Option, none, some, List, then_do_keeps, Outcome, ◌then_do◌, assign_keeps, ok,
  err, refl, inl, inr, Bool-cases,
}
use agent_platform_api.Sandbox.InitialTask.{consume}
use agent_platform_api.Sandbox.Aggregate.{Sandbox, consume_initial_task}
use agent_platform_api.Sandbox.Provision.{
  Scene, Step, Env, Answer, Handle, Credential, ImageSpec, PreparedWorkspace, SessionResult,
  SplitFailure, Stage, Phase, ProvisionError, emit, now, assert_active, on_sandbox, persist,
  audits_stage, audits_session, finds_image, asks_staged, broadcasts, starts, installs, seeds,
  bootstraps,
}
use agent_platform_api.Sandbox.Provision.Credentials.{inject_credentials}
use agent_platform_api.Sandbox.Provision.Steps.{
  Image, image_of, image_spec_of, ask_staged, record_stage, record_workspace, enter, finish_stage,
  seed_with, finish_session, pending_prompt, start_session, start_instance, install_runtime,
  bootstrap_agent_session, run_starting_steps,
}
use agent_platform_api.Sandbox.Provision.Laws.{
  Rule, IsWrite, ask_goes, assert_active-keeps, on_sandbox-keeps, persist-keeps,
}
use agent_platform_api.Sandbox.Provision.Laws.Credentials.{choose_goes, inject_credentials-keeps}

module _ {env : Env} {P : Scene → Type 0} (rule : Rule env P) where
  pub record_stage-keeps :
      (stage : Stage) (at : ℕ) (f : Option SplitFailure) (detail : Option Bool) (s : Scene)
      → P s
      → P (record_stage env stage at f detail s)
  unfolding record_stage
  record_stage-keeps stage at f detail s h = rule.quiet s (audits_stage stage _ f detail) refl h

  pub finish_stage-keeps : (s : Scene) → P s → P (finish_stage env s)
  unfolding finish_stage
  finish_stage-keeps s h = record_stage-keeps s.stage s.stage_started_at none s.stage_detail s h

  pub record_workspace-keeps :
      (ws : PreparedWorkspace) (s : Scene) → P s → P (record_workspace ws s)
  unfolding record_workspace
  record_workspace-keeps ws s h = rule.quiet s _ refl h

  pub enter-keeps : (stage : Stage) (s : Scene) → P s → P (enter env stage s)
  unfolding enter
  enter-keeps stage s h = rule.enters s stage (now env s) none h

module _ {env : Env} {P R : Scene → Type 0} (rule : Rule env P)
    (weaken : (s : Scene) → P s → R s) where
  pub image_spec_of_goes :
      (s : Scene) (next : Image → Step)
      → P s
      → ((image : Image) (t : Scene) → P t → R (next image t).0)
      → R (image_spec_of env s next).0
  unfolding image_spec_of
  image_spec_of_goes s next h k = elim (Bool-cases (is_blank s.sandbox.image_ref)) [
    | inl blank ↦ rw blank (k (image_of env none) s h)
    | inr given ↦ rw given (
        ask_goes P R weaken s (finds_image s.sandbox.image_ref) (env.task_image s.sandbox.image_ref)
          _ (rule.quiet s _ refl h) (λ selected t _ p. k (image_of env selected) t p))
  ]

  pub ask_staged_goes :
      (answer : Option (Answer Bool)) (image : ImageSpec) (s : Scene) (next : Option Bool → Step)
      → P s
      → ((staged : Option Bool) (t : Scene) → P t → R (next staged t).0)
      → R (ask_staged answer image s next).0
  unfolding ask_staged
  ask_staged_goes none image s next h k = k none s h
  ask_staged_goes (some answer) image s next h k = k _ _ (rule.quiet s (asks_staged image) refl h)

consume_initial_task-IsWrite :
    (box : Sandbox) (at : ℕ) → IsWrite box (consume_initial_task box at).0
unfolding consume_initial_task
consume_initial_task-IsWrite box at =
    assign_keeps (IsWrite box) box (consume box.initial_task at) _ (refl, inl refl)
      (λ task e. (refl, inl refl))

module _ {env : Env} {P : Scene → Type 0} (rule : Rule env P) where
  seed_with-keeps :
      (answer : Answer (Option (Answer Unit))) (s : Scene) → P s → P (seed_with answer s).0
  unfolding seed_with
  seed_with-keeps (err r) s h = h
  seed_with-keeps (ok none) s h = h
  seed_with-keeps (ok (some answer)) s h = rule.quiet s (seeds s.sandbox.runtime) refl h

  finish_session-keeps :
      (result : SessionResult) (s : Scene) → P s → P (finish_session env result s).0
  unfolding finish_session
  finish_session-keeps result s h = elim (Bool-cases result.prompt_consumed) [
    | inl consumed ↦ rw consumed (
        then_do_keeps P (on_sandbox s (consume_initial_task s.sandbox (now env s))) (persist env)
          (on_sandbox-keeps rule s (consume_initial_task s.sandbox (now env s))
            (consume_initial_task-IsWrite s.sandbox (now env s)) h)
          (persist-keeps rule))
    | inr kept ↦ rw kept h
  ]

  start_session-keeps : (s : Scene) → P s → P (start_session env s).0
  unfolding start_session
  start_session-keeps s h =
      ask_goes P P (λ t p. p) s (bootstraps s.sandbox.runtime (pending_prompt s))
        (env.session (pending_prompt s)) _ (rule.quiet s _ refl h)
        (λ result t _ p.
          finish_session-keeps result _ (rule.quiet t (audits_session result _) refl p))

  bootstrap_agent_session-keeps : (s : Scene) → P s → P (bootstrap_agent_session env s).0
  unfolding bootstrap_agent_session
  bootstrap_agent_session-keeps s h =
      choose_goes P s.sandbox.headless (λ t. (t, none)) (start_session env) s h
        (start_session-keeps s h)

  install_runtime-keeps : (image : ImageSpec) (s : Scene) → P s → P (install_runtime env image s).0
  unfolding install_runtime
  install_runtime-keeps image s h =
      ask_goes P P (λ t p. p) (emit s (broadcasts Phase.ready none))
        (installs s.sandbox.runtime image) env.installation _
        (rule.quiet _ (installs s.sandbox.runtime image) refl
          (rule.quiet s (broadcasts Phase.ready none) refl h))
        (λ _ t _ p. p)

  -- A step, and the check that follows it.
  checked :
      (o : Outcome Scene ProvisionError) (f : Step)
      → P o.0
      → ((t : Scene) → P t → P (f t).0)
      → P (o then_do assert_active env then_do f).0
  checked o f h k =
      then_do_keeps P (o then_do assert_active env) f
        (then_do_keeps P o (assert_active env) h (assert_active-keeps rule)) k

  -- The steps keep `P` if the start of the instance does.
  pub run_starting_steps-keeps :
      (handle : Handle) (image : ImageSpec) (cs : List Credential) (staged : Option Bool)
      → ((t : Scene) → P t → P (emit t (starts handle)))
      → (s : Scene) → P s
      → P (run_starting_steps env handle image cs staged s).0
  unfolding run_starting_steps start_instance
  run_starting_steps-keeps handle image cs staged starting s h =
      let opened = assert_active env (emit s (broadcasts Phase.starting staged)) in
      let started = opened then_do start_instance env handle in
      let installed = started then_do assert_active env then_do install_runtime env image in
      let seeded = installed then_do assert_active env then_do seed_with env.seeding in
      let injected = seeded then_do assert_active env then_do inject_credentials env cs in
      checked injected (bootstrap_agent_session env)
        (checked seeded (inject_credentials env cs)
          (checked installed (seed_with env.seeding)
            (checked started (install_runtime env image)
              (then_do_keeps P opened (start_instance env handle)
                (assert_active-keeps rule _
                  (rule.quiet s (broadcasts Phase.starting staged) refl h))
                (λ t p.
                  ask_goes P P (λ u q. q) t (starts handle) env.start (λ _ u. (u, none))
                    (starting t p) (λ _ u _ q. q)))
              (install_runtime-keeps image))
            (seed_with-keeps env.seeding))
          (inject_credentials-keeps rule cs))
        bootstrap_agent_session-keeps
