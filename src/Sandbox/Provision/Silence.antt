-- ===== src/Sandbox/Provision/Silence.antt =====
-- After `cancel`, the workflows save nothing of the aggregate that they hold: the row is the deletion's.
use agent_platform_api.Common.{
  ℕ, zero, suc, leb, Bool, true, false, Option, none, some, List, [], ◌∷◌, ◌++◌, length, drop, All,
  Outcome, ◌then_do◌, then_do_keeps, Result, ok, err, ◌≡◌, refl, arith, Text,
}
use agent_platform_api.Sandbox.Aggregate.{Sandbox, FailureOperation}
use agent_platform_api.Sandbox.Repository.{SaveError}
use agent_platform_api.Sandbox.Provision.{
  Scene, Env, Effect, Handle, SplitFailure, Stage, WorkspaceSource, PreparedWorkspace,
  ProvisionError, emit, is_cancelled, was_cancelled, assert_active, on_sandbox, persist, binds_late,
  destroys, cleans_up, releases, finds_row, creates, starts,
}
use agent_platform_api.Sandbox.Provision.Steps.{record_stage}
use agent_platform_api.Sandbox.Provision.Pipeline.{
  split_failure, audit_failure, tear_down, compensate, bind_box, mark_bound, bind_instance,
  fail_provision, destroy_if, settle_cancelled, late_handle, hand_over, bind_late, destroy_late,
  settle_late, settle_row, release_and_throw, clean_if, catch_provision, provision, open_scene,
  truthy,
}
use agent_platform_api.Sandbox.Provision.Laws.{
  Rule, is_own_save, ask_goes, persist-keeps, assert_active-keeps,
}
use agent_platform_api.Sandbox.Provision.Laws.Credentials.{choose_goes}
use agent_platform_api.Sandbox.Provision.Laws.Steps.{record_stage-keeps, finish_stage-keeps}
use agent_platform_api.Sandbox.Provision.Laws.Pipeline.{StageRule, attempt_provision-keeps}

-- Nothing that was done after the cancellation is a save of the aggregate.
abbrev pub SavesNothing : List Effect → Type 0
SavesNothing = All (λ e. is_own_save e ≡ false)

abbrev pub IsSilent : Option ℕ → List Effect → Type 0
IsSilent none done = Unit
IsSilent (some k) done = SavesNothing (drop k done)

drop_append :
    (k : ℕ) (done : List Effect) (e : Effect)
    → (leb k (length done) ≡ true → is_own_save e ≡ false)
    → SavesNothing (drop k done)
    → SavesNothing (drop k (done ++ e ∷ []))
drop_append zero [] e new h = (new (ground arith), tt)
drop_append zero (d ∷ done) e new h = (h.0, drop_append zero done e (λ _. new (ground arith)) h.1)
drop_append (suc zero) [] e new h = tt
drop_append (suc (suc k)) [] e new h = tt
drop_append (suc k) (d ∷ done) e new h = drop_append k done e (λ le. new (ground (arith, le))) h

IsSilent-emit :
    (cancelled : Option ℕ) (done : List Effect) (e : Effect)
    → (was_cancelled cancelled (length done) ≡ true → is_own_save e ≡ false)
    → IsSilent cancelled done
    → IsSilent cancelled (done ++ e ∷ [])
IsSilent-emit none done e new h = tt
IsSilent-emit (some k) done e new h = drop_append k done e new h

IsSilent-nil : (cancelled : Option ℕ) → IsSilent cancelled []
IsSilent-nil none = tt
IsSilent-nil (some zero) = tt
IsSilent-nil (some (suc k)) = tt

module _ (env : Env) where
  abbrev Silent : Scene → Type 0
  Silent s = IsSilent env.cancelled_after s.done

  other-Silent : (s : Scene) (e : Effect) → is_own_save e ≡ false → Silent s → Silent (emit s e)
  other-Silent s e foreign h = IsSilent-emit env.cancelled_after s.done e (λ _. foreign) h

  Silent-rule : Rule env Silent
  Silent-rule = record {
    quiet = λ s e quiet h. other-Silent s e (ground (arith, quiet)) h;
    enters = λ s stage at detail h. h;
    writes = λ s box w h. h;
    saves = λ s saved on e h. IsSilent-emit env.cancelled_after s.done _ (λ off. cc) h;
  }

  bind_instance-Silent :
      (ws : PreparedWorkspace) (handle : Handle) (s : Scene)
      → Silent s
      → Silent (bind_instance env ws handle s).0
  unfolding bind_instance mark_bound
  bind_instance-Silent ws handle s h =
      then_do_keeps Silent (assert_active env s then_do bind_box ws handle then_do persist env)
        (mark_bound env)
        (then_do_keeps Silent (assert_active env s then_do bind_box ws handle) (persist env)
          (then_do_keeps Silent (assert_active env s) (bind_box ws handle)
            (assert_active-keeps Silent-rule s h) (λ t p. p))
          (persist-keeps Silent-rule))
        (λ t p. finish_stage-keeps Silent-rule (record t { bound = true }) p)

  Silent-stages : StageRule env Silent Silent Silent
  Silent-stages = record {
    early = λ s h. h;
    weaken = λ s h. h;
    prepares = λ s ws found h. h;
    rejects = λ s o r e h. other-Silent s (creates o) refl h;
    binds = λ ws handle s o found e h.
        bind_instance-Silent ws handle (record (emit s (creates o)) { handle = some handle })
          (other-Silent s (creates o) refl h);
    starting = λ s handle h. other-Silent s (starts handle) refl h;
  }

  compensate-Silent :
      (operation : FailureOperation) (e : ProvisionError) (s : Scene)
      → Silent s
      → Silent (compensate env operation e s)
  unfolding compensate on_sandbox
  compensate-Silent operation e s h =
      then_do_keeps Silent (on_sandbox s _) (persist env) h (persist-keeps Silent-rule)

  destroy_if-Silent : (handle : Option Handle) (s : Scene) → Silent s → Silent (destroy_if handle s)
  destroy_if-Silent none s h = h
  destroy_if-Silent (some handle) s h = other-Silent s (destroys handle) refl h

  audit_failure-Silent :
      (at : ℕ) (f : SplitFailure) (s : Scene) → Silent s → Silent (audit_failure env at f s)
  unfolding audit_failure
  audit_failure-Silent at f s h =
      record_stage-keeps Silent-rule Stage.provision at (some f) none
        (record_stage env s.stage s.stage_started_at (some f) s.stage_detail s)
        (record_stage-keeps Silent-rule s.stage s.stage_started_at (some f) s.stage_detail s h)

  tear_down-Silent : (s : Scene) → Silent s → Silent (tear_down s)
  tear_down-Silent s h =
      other-Silent (destroy_if s.handle s) cleans_up refl (destroy_if-Silent s.handle s h)

  release_and_throw-Silent :
      (e : ProvisionError) (s : Scene) → Silent s → Silent (release_and_throw env e s).0
  release_and_throw-Silent e s h =
      ask_goes Silent Silent (λ t p. p) s releases env.released (λ _ t. (t, some e))
        (other-Silent s releases refl h) (λ _ t _ p. p)

  fail_provision-Silent :
      (at : ℕ) (e : ProvisionError) (s : Scene) → Silent s → Silent (fail_provision env at e s).0
  unfolding fail_provision
  fail_provision-Silent at e s h =
      let recorded = audit_failure env at (split_failure env e) s in
      let marked = compensate env FailureOperation.provision e recorded in
      release_and_throw-Silent e (tear_down marked) (
        tear_down-Silent marked (
          compensate-Silent FailureOperation.provision e recorded
            (audit_failure-Silent at (split_failure env e) s h)))

  settle_late-Silent :
      (s : Scene) (r : Result SaveError Sandbox) → Silent s → Silent (settle_late s r).0
  unfolding settle_late
  settle_late-Silent s (ok saved) h = other-Silent s (binds_late saved) refl h
  settle_late-Silent s (err e) h = h

  late_handle-Silent :
      (current : Option Sandbox) (handle : Option Handle) (bound : Bool) (path : Option Text)
      (s : Scene)
      → Silent s
      → Silent (late_handle env current handle bound path s).0
  unfolding late_handle hand_over bind_late
  late_handle-Silent none (some handle) false (some path) s h =
      other-Silent s (destroys handle) refl h
  late_handle-Silent (some row) (some handle) false (some path) s h =
      choose_goes Silent _ (bind_late env row handle path) (destroy_late handle) s
        (settle_late-Silent s _ h) (other-Silent s (destroys handle) refl h)
  late_handle-Silent current (some handle) false none s h = h
  late_handle-Silent current (some handle) true path s h = h
  late_handle-Silent current none bound path s h = h

  clean_if-Silent : (b : Bool) (s : Scene) → Silent s → Silent (clean_if b s)
  unfolding clean_if
  clean_if-Silent true s h = other-Silent s cleans_up refl h
  clean_if-Silent false s h = h

  settle_cancelled-Silent : (s : Scene) → Silent s → Silent (settle_cancelled env s).0
  unfolding settle_cancelled settle_row
  settle_cancelled-Silent s h =
      ask_goes Silent Silent (λ t p. p) s finds_row env.current_row (settle_row env)
        (other-Silent s finds_row refl h)
        λ current t _ p.
          then_do_keeps Silent
            (late_handle env current t.handle t.bound (truthy t.workspace_path) t) _
            (late_handle-Silent current t.handle t.bound (truthy t.workspace_path) t p)
            (λ u q. clean_if-Silent _ u q)

  catch_provision-Silent :
      (at : ℕ) (o : Outcome Scene ProvisionError) → Silent o.0 → Silent (catch_provision env at o).0
  unfolding catch_provision
  catch_provision-Silent at (s, none) h = h
  catch_provision-Silent at (s, some e) h =
      choose_goes Silent (is_cancelled env s) (settle_cancelled env) (fail_provision env at e) s
        (settle_cancelled-Silent s h) (fail_provision-Silent at e s h)

-- Whatever the collaborators answer, `provision` saves the aggregate that it holds no more once `cancel`
-- was called, neither in its stages nor in its compensation.
pub provision-IsSilent :
    (env : Env) (source : WorkspaceSource) (box : Sandbox)
    → IsSilent env.cancelled_after (provision env source (open_scene env box)).0.done
unfolding provision
provision-IsSilent env source box = catch_provision-Silent env _ _ (
    attempt_provision-keeps (Silent-rule env) (Silent-rule env) (Silent-rule env)
      (Silent-stages env) source _ _ (IsSilent-nil env.cancelled_after))
