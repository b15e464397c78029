-- ===== src/Sandbox/Provision/Laws/Failing.antt =====
-- The ways to `running` and to `failed` that `provision` and `restartInstance` share: a sandbox that can
-- fail at any moment, the rows that were saved, and the compensation.
use agent_platform_api.Common.{
  ℕ, true, false, none, some, List, [], ◌∷◌, ◌++◌, length, Outcome, ◌then_do◌, then_do_keeps,
  Result, ok, err, ◌≡◌, refl, ◌∙◌, ap, ◌⊎◌, inl, inr,
}
use agent_platform_api.Sandbox.Status.{SandboxStatus, can_transition_to, scheduler}
use agent_platform_api.Sandbox.InitialTask.{SandboxError}
use agent_platform_api.Sandbox.Aggregate.{
  Sandbox, SandboxEvent, FailureOperation, transition_to, bind_runtime,
}
use agent_platform_api.Sandbox.Aggregate.Moves.{
  transition_to-cases, transition_to_legal, fail_with_goes,
}
use agent_platform_api.Sandbox.Provision.{
  Scene, Step, Env, Effect, ProvisionError, emit, now, is_cancelled, was_cancelled, assert_active,
  on_sandbox, lift_error, persist, advance_to, creates, commits, settle_commit, commit,
}
use agent_platform_api.Sandbox.Provision.Pipeline.{compensate, mark_failed}
use agent_platform_api.Sandbox.Provision.Laws.{
  Rule, persist-keeps, assert_active-keeps, boot_can_fail,
}
use agent_platform_api.Sandbox.Provision.Laws.Pipeline.{StageRule}
use agent_platform_api.Sandbox.Provision.Laws.Created.{Matched, Matched-rule, bind_instance-keeps}
use agent_platform_api.Sandbox.Repository.{SaveError, save_sync}
use agent_platform_api.Sandbox.Provision.Laws.Ends.{
  Ends, Ends-of, Ends-then, Did, Did-last, Did-before, saved_status, persist_status, persist-Ends,
}

abbrev pub CanFail : Scene → Type 0
CanFail s = can_transition_to s.sandbox.status SandboxStatus.failed ≡ true

-- A row with the status was saved.
abbrev pub WasSaved : SandboxStatus → List Effect → Type 0
WasSaved status done =
    (box : Sandbox) × (events : List SandboxEvent) × Did (commits box events) done
    × (box.status ≡ status)

-- The aggregate has the status, and a row with it was saved.
abbrev pub IsSavedAs : SandboxStatus → Scene → Type 0
IsSavedAs status s = (s.sandbox.status ≡ status) × WasSaved status s.done

abbrev pub IsRunning : Scene → Type 0
IsRunning s = IsSavedAs SandboxStatus.running s

-- A row with the status was saved, or the repository refused to save the aggregate.
abbrev pub IsOnRecord : Env → SandboxStatus → Sandbox → List Effect → Type 0
IsOnRecord env status box done =
    WasSaved status done ⊎ (n : ℕ) × (e : SaveError) × (save_sync (env.row n) box ≡ err e)

pub WasSaved-before :
    (status : SandboxStatus) (x : Effect) (done : List Effect)
    → WasSaved status done
    → WasSaved status (done ++ x ∷ [])
WasSaved-before status x done (box, events, did, same) =
    (box, events, Did-before (commits box events) x done did, same)

pub IsOnRecord-before :
    (env : Env) (status : SandboxStatus) (box : Sandbox) (x : Effect) (done : List Effect)
    → IsOnRecord env status box done
    → IsOnRecord env status box (done ++ x ∷ [])
IsOnRecord-before env status box x done (inl saved) = inl (WasSaved-before status x done saved)
IsOnRecord-before env status box x done (inr h) = inr h

pub can_fail_as :
    {a b : SandboxStatus}
    → a ≡ b
    → can_transition_to b SandboxStatus.failed ≡ true
    → can_transition_to a SandboxStatus.failed ≡ true
can_fail_as e h = rw e h

pub CanFail-rule : (env : Env) → Rule env CanFail
CanFail-rule env = record {
  quiet = λ s e quiet h. h;
  enters = λ s stage at detail h. h;
  writes = λ s box w h. elim w.1 [ inl same ↦ can_fail_as same h | inr free ↦ free ];
  saves =
      λ s saved on e h. can_fail_as (saved_status (env.row (length s.done)) s.sandbox saved e).0 h;
}

persist-CanFail : (env : Env) (s : Scene) → CanFail s → CanFail (persist env s).0
persist-CanFail env s h = persist-keeps (CanFail-rule env) s h

pub CanFail-stages : (env : Env) → StageRule env CanFail CanFail CanFail
unfolding bind_runtime
CanFail-stages env = record {
  early = λ s h. h;
  weaken = λ s h. h;
  prepares = λ s ws found h. h;
  rejects = λ s o r e h. h;
  binds = λ ws handle s o found e h.
      bind_instance-keeps (CanFail-rule env) ws handle (λ t p. p) (λ t p. p)
        (record (emit s (creates o)) { handle = some handle }) h;
  starting = λ s handle h. h;
}

-- A move to a status from which the sandbox can fail.
on_move-Ends :
    (to : SandboxStatus) (s : Scene) (o : Outcome Sandbox SandboxError)
    → can_transition_to to SandboxStatus.failed ≡ true
    → CanFail s
    → (o.0.status ≡ to) ⊎ ((o.0 ≡ s.sandbox) × (e : SandboxError) × (o.1 ≡ some e))
    → Ends (λ t. t.sandbox.status ≡ to) CanFail (on_sandbox s o)
unfolding on_sandbox
on_move-Ends to s (box, none) free h (inl there) = there
on_move-Ends to s (box, none) free h (inr (same, e, thrown)) = cc
on_move-Ends to s (box, some e) free h (inl there) = can_fail_as there free
on_move-Ends to s (box, some e) free h (inr (same, x, thrown)) =
    can_fail_as (ap (λ b. b.status) same) h

persist-IsSavedAs :
    (env : Env) (to : SandboxStatus) (s : Scene)
    → CanFail s
    → s.sandbox.status ≡ to
    → Ends (IsSavedAs to) CanFail (persist env s)
persist-IsSavedAs env to s h there = persist-Ends (IsSavedAs to) CanFail env s h λ saved written.
    let same = (saved_status (env.row (length s.done)) s.sandbox saved written).0 ∙ there in
    (same, (saved, saved.events, Did-last (commits saved saved.events) s.done, same))

advance-Ends :
    (env : Env) (to : SandboxStatus) (s : Scene)
    → can_transition_to to SandboxStatus.failed ≡ true
    → CanFail s
    → Ends (IsSavedAs to) CanFail (advance_to env to s)
unfolding advance_to
advance-Ends env to s free h =
    let There : Scene → Type 0 = λ t. t.sandbox.status ≡ to in
    let move : Step = λ t. on_sandbox t (transition_to t.sandbox to scheduler (now env t)) in
    Ends-then There (IsSavedAs to) CanFail (assert_active env s then_do move) (persist env)
      (Ends-then CanFail There CanFail (assert_active env s) move
        (Ends-of CanFail (assert_active env s) (assert_active-keeps (CanFail-rule env) s h))
        (λ t p.
          on_move-Ends to t (transition_to t.sandbox to scheduler (now env t)) free p
            (transition_to-cases t.sandbox to scheduler (now env t))))
      (λ t p. persist-IsSavedAs env to t (can_fail_as p free) p)

mark_failed_status :
    (env : Env) (operation : FailureOperation) (e : ProvisionError) (s : Scene)
    → CanFail s
    → (mark_failed env operation e s).0.sandbox.status ≡ SandboxStatus.failed
unfolding mark_failed on_sandbox
mark_failed_status env operation e s h = (fail_with_goes s.sandbox _ scheduler (now env s) h).0

pub compensate_status :
    (env : Env) (operation : FailureOperation) (e : ProvisionError) (s : Scene)
    → CanFail s
    → (compensate env operation e s).sandbox.status ≡ SandboxStatus.failed
unfolding compensate
compensate_status env operation e s h =
    then_do_keeps (λ t. t.sandbox.status ≡ SandboxStatus.failed) (mark_failed env operation e s)
      (persist env) (mark_failed_status env operation e s h) (λ t p. persist_status env t ∙ p)

-- Nobody called `cancel`.
abbrev pub IsUndisturbed : Env → Type 0
IsUndisturbed env = env.cancelled_after ≡ none

pub not_cancelled : (env : Env) (s : Scene) → IsUndisturbed env → is_cancelled env s ≡ false
not_cancelled env s free = ap (λ c. was_cancelled c (length s.done)) free

settle_commit_recorded :
    (env : Env) (s : Scene) (status : SandboxStatus) (n : ℕ) (r : Result SaveError Sandbox)
    → save_sync (env.row n) s.sandbox ≡ r
    → s.sandbox.status ≡ status
    → IsOnRecord env status (settle_commit s r).0.sandbox (settle_commit s r).0.done
unfolding settle_commit
settle_commit_recorded env s status n (ok saved) written there = inl (
  saved,
  saved.events,
  Did-last (commits saved saved.events) s.done,
  (saved_status (env.row n) s.sandbox saved written).0 ∙ there,
)
settle_commit_recorded env s status n (err e) refused there = inr (n, e, refused)

persist_recorded :
    (env : Env) (s : Scene) (status : SandboxStatus)
    → IsUndisturbed env
    → s.sandbox.status ≡ status
    → IsOnRecord env status (persist env s).0.sandbox (persist env s).0.done
unfolding persist commit assert_active
persist_recorded env s status free there = rw (not_cancelled env s free) (
    settle_commit_recorded env s status (length s.done)
      (save_sync (env.row (length s.done)) s.sandbox) refl there)

then_persist_recorded :
    (env : Env) (status : SandboxStatus) (o : Outcome Scene ProvisionError)
    → IsUndisturbed env
    → o.1 ≡ none
    → o.0.sandbox.status ≡ status
    → IsOnRecord env status (o then_do persist env).0.sandbox (o then_do persist env).0.done
then_persist_recorded env status (s, none) free fine there =
    persist_recorded env s status free there
then_persist_recorded env status (s, some e) free fine there = cc

pub compensate_recorded :
    (env : Env) (operation : FailureOperation) (e : ProvisionError) (s : Scene)
    → IsUndisturbed env
    → CanFail s
    → IsOnRecord env SandboxStatus.failed
        (compensate env operation e s).sandbox
        (compensate env operation e s).done
unfolding compensate mark_failed on_sandbox
compensate_recorded env operation e s free h =
    then_persist_recorded env SandboxStatus.failed (mark_failed env operation e s) free
      (ap lift_error (fail_with_goes s.sandbox _ scheduler (now env s) h).1)
      (mark_failed_status env operation e s h)

pub compensate-Matched :
    (env : Env) (operation : FailureOperation) (e : ProvisionError) (s : Scene)
    → Matched env s
    → Matched env (compensate env operation e s)
unfolding compensate mark_failed on_sandbox
compensate-Matched env operation e s h =
    then_do_keeps (Matched env) (mark_failed env operation e s) (persist env) h
      (persist-keeps (Matched-rule env))

-- The first move of an aggregate, whatever becomes of its save.
pub first_move-CanFail :
    (env : Env) (to : SandboxStatus) (s : Scene)
    → IsUndisturbed env
    → can_transition_to s.sandbox.status to ≡ true
    → can_transition_to to SandboxStatus.failed ≡ true
    → CanFail (advance_to env to s).0
unfolding advance_to on_sandbox assert_active
first_move-CanFail env to s free legal ahead =
    let move : Step = λ t. on_sandbox t (transition_to t.sandbox to scheduler (now env t)) in
    then_do_keeps CanFail (assert_active env s then_do move) (persist env)
      (rw (not_cancelled env s free)
        (can_fail_as (transition_to_legal s.sandbox to scheduler (now env s) legal).0 ahead))
      (persist-CanFail env)

pub run-Ends :
    (env : Env) (ready : Outcome Scene ProvisionError) (finish : Step)
    → CanFail ready.0
    → ((t : Scene) → IsRunning t → Ends IsRunning CanFail (finish t))
    → Ends IsRunning CanFail (ready then_do advance_to env SandboxStatus.running then_do finish)
run-Ends env ready finish h last =
    Ends-then IsRunning IsRunning CanFail (ready then_do advance_to env SandboxStatus.running)
      finish
      (Ends-then CanFail IsRunning CanFail ready (advance_to env SandboxStatus.running)
        (Ends-of CanFail ready h)
        (λ t p. advance-Ends env SandboxStatus.running t boot_can_fail.4 p))
      last
