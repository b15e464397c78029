-- ===== src/Sandbox/Provision/Laws/Reached.antt =====
-- How far `restartInstance` gets before it throws.
use agent_platform_api.Common.{
  Option, Text, Bool, true, is_blank, ◌++◌, length, Result, ok, err, ap, none, some, List, [], ◌∷◌,
  Outcome, ◌then_do◌, then_do_keeps, ◌≡◌, refl, sym, ◌⊎◌, inl, inr, Bool-cases, subst,
}
use agent_platform_api.Sandbox.Status.{
  SandboxStatus, scheduler, can_transition_to, next_states, status_eq,
}
use agent_platform_api.Sandbox.Aggregate.{Sandbox, FailureOperation, transition_to}
use agent_platform_api.Sandbox.Aggregate.Moves.{transition_to_legal}
use agent_platform_api.Sandbox.Repository.{SaveError, save_sync}
use agent_platform_api.Sandbox.Provision.{
  Scene, Step, Env, Effect, Handle, Credential, ProvisionError, now, emit, commits, starts,
  finds_image, prepares_credential, persist, commit, settle_commit, assert_active, on_sandbox,
  lift_error, advance_to,
}
use agent_platform_api.Sandbox.Provision.Credentials.{
  prepare_credentials, prepare_each, push, choose,
}
use agent_platform_api.Sandbox.Provision.Steps.{Image, image_of, image_spec_of}
use agent_platform_api.Sandbox.Provision.Pipeline.{compensate, mark_failed}
use agent_platform_api.Sandbox.Provision.Restart.{
  enter_starting, start_with_image, start_again, start_finally, refresh,
}
use agent_platform_api.Sandbox.Provision.Laws.{Rule, ask_then, persist-keeps}
use agent_platform_api.Sandbox.Provision.Laws.Credentials.{
  prepare_each_goes, settle_preparation_goes, finally_zeroize-keeps,
}
use agent_platform_api.Sandbox.Provision.Laws.Steps.{ask_staged_goes, run_starting_steps-keeps}
use agent_platform_api.Sandbox.Provision.Laws.Ends.{Did, Did-last, Did-before}
use agent_platform_api.Sandbox.Provision.Laws.Failing.{IsUndisturbed, not_cancelled}

-- The restart got as far as the image or the credential of the runtime.
abbrev pub Looked : List Effect → Type 0
Looked done =
    ((ref : Text) × Did (finds_image ref) done)
    ⊎ ((runtime : Text) × Did (prepares_credential runtime) done)

-- The aggregate with its move to `starting`.
abbrev pub started : Env → Scene → Sandbox
started env s = (transition_to s.sandbox SandboxStatus.starting scheduler (now env s)).0

-- It did, or the sandbox was stopped and the save of its move to `starting` was refused.
abbrev pub Reached : Env → Scene → Scene → Type 0
Reached env from s =
    Looked s.done
    ⊎ (from.sandbox.status ≡ SandboxStatus.stopped)
      × (e : SaveError) × (save_sync (env.row (length from.done)) (started env from) ≡ err e)

Looked-before : (x : Effect) (done : List Effect) → Looked done → Looked (done ++ x ∷ [])
Looked-before x done (inl (ref, did)) = inl (ref, Did-before (finds_image ref) x done did)
Looked-before x done (inr (runtime, did)) =
    inr (runtime, Did-before (prepares_credential runtime) x done did)

pub Reached-emit :
    (env : Env) (from s : Scene) (x : Effect) → Reached env from s → Reached env from (emit s x)
Reached-emit env from s x (inl looked) = inl (Looked-before x s.done looked)
Reached-emit env from s x (inr refused) = inr refused

pub Reached-rule : (env : Env) (from : Scene) → Rule env (Reached env from)
Reached-rule env from = record {
  quiet = λ s e quiet h. Reached-emit env from s e h;
  enters = λ s stage at detail h. h;
  writes = λ s b w h. h;
  saves = λ s saved on e h. Reached-emit env from s (commits saved saved.events) h;
}

start_again-keeps :
    {env : Env} {P : Scene → Type 0} (rule : Rule env P) (handle : Handle)
    → ((s : Scene) → P s → P (emit s (starts handle)))
    → (image : Image) (cs : List Credential) (s : Scene) → P s
    → P (start_again env handle image cs s).0
unfolding start_again
start_again-keeps {env} rule handle started image cs s h =
    ask_staged_goes rule (λ t p. p) env.image_staged image.spec s _ h
      λ staged t p.
        run_starting_steps-keeps rule handle image.spec cs staged started
          (record t { stage_detail = staged }) (rule.enters t t.stage t.stage_started_at staged p)

start_finally-keeps :
    {env : Env} {P : Scene → Type 0} (rule : Rule env P) (handle : Handle)
    → ((s : Scene) → P s → P (emit s (starts handle)))
    → (image : Image) (cs : List Credential) (s : Scene) → P s
    → P (start_finally env handle image cs s).0
start_finally-keeps {env} rule handle started image cs s h =
    finally_zeroize-keeps rule cs (start_again env handle image cs s)
      (start_again-keeps rule handle started image cs s h)

pub start_with_image-keeps :
    {env : Env} {P : Scene → Type 0} (rule : Rule env P) (handle : Handle)
    → ((s : Scene) → P s → P (emit s (starts handle)))
    → (image : Image) (s : Scene) → P s
    → P (start_with_image env handle image s).0
unfolding start_with_image prepare_credentials
start_with_image-keeps {env} rule handle started image s h =
    prepare_each_goes rule (λ t p. p) (s.sandbox.runtime ∷ []) s (start_finally env handle image) h
      (start_finally-keeps rule handle started image)

-- Without an image of its own the sandbox goes straight to the credential.
start_with_image-Reached :
    (env : Env) (from : Scene) (handle : Handle) (image : Image) (s : Scene)
    → Reached env from (start_with_image env handle image s).0
unfolding start_with_image prepare_credentials prepare_each
start_with_image-Reached env from handle image s =
    let rule = Reached-rule env from in
    let runtime = s.sandbox.runtime in
    settle_preparation_goes rule (λ t p. p) (env.preparation runtime) runtime
      (emit s (prepares_credential runtime)) _
      (inl (inr (runtime, Did-last (prepares_credential runtime) s.done)))
      (λ c t p.
        start_finally-keeps rule handle (λ u q. Reached-emit env from u (starts handle) q) image
          (push c []) t p)

refresh-Reached :
    (env : Env) (from : Scene) (handle : Handle) (s : Scene)
    → Reached env from (refresh env handle s).0
unfolding refresh image_spec_of
refresh-Reached env from handle s = elim (Bool-cases (is_blank s.sandbox.image_ref)) [
  | inl blank ↦ rw blank (start_with_image-Reached env from handle (image_of env none) s)
  | inr given ↦
      let ref = s.sandbox.image_ref in
      let looked : Reached env from (emit s (finds_image ref)) =
        inl (inl (ref, Did-last (finds_image ref) s.done)) in
      rw given (
        ask_then (λ z. Reached env from z.0) s (finds_image ref) (env.task_image ref)
          (λ selected. start_with_image env handle (image_of env selected)) (λ r e. looked)
          (λ selected e.
            start_with_image-keeps (Reached-rule env from) handle
              (λ u q. Reached-emit env from u (starts handle) q) (image_of env selected)
              (emit s (finds_image ref)) looked))
]

-- The move to `starting` succeeds, or its save is refused.
abbrev Entered : Env → Scene → Outcome Scene ProvisionError → Type 0
Entered env from o =
    (o.1 ≡ none)
    ⊎ (e : SaveError) × (save_sync (env.row (length from.done)) (started env from) ≡ err e)

settle_commit-Entered :
    (env : Env) (from s : Scene) (r : Result SaveError Sandbox)
    → save_sync (env.row (length from.done)) (started env from) ≡ r
    → Entered env from (settle_commit s r)
unfolding settle_commit
settle_commit-Entered env from s (ok saved) written = inl refl
settle_commit-Entered env from s (err e) refused = inr (e, refused)

persist-Entered :
    (env : Env) (s : Scene)
    → IsUndisturbed env
    → Entered env s (persist env (record s { sandbox = started env s }))
unfolding persist commit assert_active
persist-Entered env s free = rw (not_cancelled env s free) (
    settle_commit-Entered env s (record s { sandbox = started env s })
      (save_sync (env.row (length s.done)) (started env s)) refl)

then_persist-Entered :
    (env : Env) (s : Scene) (thrown : Option ProvisionError)
    → IsUndisturbed env
    → thrown ≡ none
    → Entered env s ((record s { sandbox = started env s }, thrown) then_do persist env)
then_persist-Entered env s none free fine = persist-Entered env s free
then_persist-Entered env s (some e) free fine = cc

advance_to-Entered :
    (env : Env) (s : Scene)
    → IsUndisturbed env
    → can_transition_to s.sandbox.status SandboxStatus.starting ≡ true
    → Entered env s (advance_to env SandboxStatus.starting s)
unfolding advance_to on_sandbox assert_active
advance_to-Entered env s free legal =
    let moved = transition_to s.sandbox SandboxStatus.starting scheduler (now env s) in
    let fine =
      (transition_to_legal s.sandbox SandboxStatus.starting scheduler (now env s) legal).1 in
    rw (not_cancelled env s free)
      (then_persist-Entered env s (lift_error moved.1) free (ap lift_error fine))

Entered-Reached :
    (env : Env) (from : Scene) (handle : Handle) (o : Outcome Scene ProvisionError)
    → from.sandbox.status ≡ SandboxStatus.stopped
    → Entered env from o
    → Reached env from (o then_do refresh env handle).0
Entered-Reached env from handle (s, none) stopped h = refresh-Reached env from handle s
Entered-Reached env from handle (s, some e) stopped (inl fine) = cc
Entered-Reached env from handle (s, some e) stopped (inr (x, refused)) = inr (stopped, x, refused)

-- `enter_starting` and `refresh`, for an answer of the guard.
abbrev guarded : Env → Bool → Handle → Step
guarded env there handle s =
    choose there (λ t. (t, none)) (advance_to env SandboxStatus.starting) s
    then_do refresh env handle

choice-Reached :
    (env : Env) (handle : Handle) (s : Scene) (status : SandboxStatus)
    → s.sandbox.status ≡ status
    → Reached env s (guarded env (status_eq status SandboxStatus.starting) handle s).0
    → Reached env s (guarded env (status_eq s.sandbox.status SandboxStatus.starting) handle s).0
choice-Reached env handle s status same h =
    subst (λ t. Reached env s (guarded env (status_eq t SandboxStatus.starting) handle s).0)
      (sym same) h

pub enter_starting-Reached :
    (env : Env) (handle : Handle) (s : Scene)
    → IsUndisturbed env
    → (s.sandbox.status ≡ SandboxStatus.stopped) ⊎ (s.sandbox.status ≡ SandboxStatus.starting)
    → Reached env s (enter_starting env s then_do refresh env handle).0
unfolding enter_starting can_transition_to next_states
enter_starting-Reached env handle s free (inr starting) =
    choice-Reached env handle s SandboxStatus.starting starting (refresh-Reached env s handle s)
enter_starting-Reached env handle s free (inl stopped) =
    let there = advance_to-Entered env s free (rw stopped refl) in
    choice-Reached env handle s SandboxStatus.stopped stopped
      (Entered-Reached env s handle (advance_to env SandboxStatus.starting s) stopped there)

pub compensate-Reached :
    (env : Env) (from : Scene) (operation : FailureOperation) (e : ProvisionError) (s : Scene)
    → Reached env from s
    → Reached env from (compensate env operation e s)
unfolding compensate mark_failed on_sandbox
compensate-Reached env from operation e s h =
    then_do_keeps (Reached env from) (mark_failed env operation e s) (persist env) h
      (persist-keeps (Reached-rule env from))
