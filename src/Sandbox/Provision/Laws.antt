-- ===== src/Sandbox/Provision/Laws.antt =====
-- Rules of proof for the steps of `Provision`: a property `P` of the locals and of what was done that
-- every step keeps, also where it throws, up to the code after it, which establishes `R`.
pub mod Credentials
pub mod Steps
pub mod Pipeline
pub mod Ends
pub mod Created
pub mod Failing
pub mod Reached
use agent_platform_api.Common.{
  ℕ, ◌==◌, Text, Bool, true, false, not, ◌||◌, Option, none, some, List, [], ◌∷◌, ◌++◌, length,
  Outcome, ◌then_do◌, then_do_goes, Result, ok, err, ◌≡◌, refl, ◌⊎◌, inl, inr, Bool-cases, ap,
}
use agent_platform_api.Sandbox.Status.{
  SandboxStatus, can_transition_to, next_states, failed, scheduler,
}
use agent_platform_api.Sandbox.InitialTask.{SandboxError}
use agent_platform_api.Sandbox.Aggregate.{Sandbox, transition_to}
use agent_platform_api.Sandbox.Aggregate.Moves.{transition_to_handle, transition_to-cases}
use agent_platform_api.Sandbox.Repository.{SaveError, save_sync}
use agent_platform_api.Sandbox.Provision.{
  Scene, Step, Env, Answer, Stage, Effect, ProvisionError, emit, ask, is_cancelled, assert_active,
  commit, settle_commit, on_sandbox, persist, Rejection, rejected, advance_to, now, commits,
  creates, starts, binds_late,
}

abbrev pub effect_kind : Effect → ℕ
effect_kind (commits box events) = 0
effect_kind (binds_late row) = 1
effect_kind (creates options) = 2
effect_kind (starts handle) = 3
effect_kind e = 4

-- What any step may do at any moment.
abbrev pub is_quiet : Effect → Bool
is_quiet e = effect_kind e == 4

-- A save of the aggregate that the workflow holds.
abbrev pub is_own_save : Effect → Bool
is_own_save e = effect_kind e == 0

-- What the methods of the aggregate may change while the pipeline goes forward.
abbrev pub IsWrite : Sandbox → Sandbox → Type 0
IsWrite a b =
    (b.provider_sandbox_id ≡ a.provider_sandbox_id)
    × ((b.status ≡ a.status) ⊎ (can_transition_to b.status failed ≡ true))

abbrev pub saved_scene : Scene → Sandbox → Scene
saved_scene s saved =
    emit (record s { sandbox = record saved { events = [] } }) (commits saved saved.events)

pub record Rule (env : Env) (P : Scene → Type 0) : Type 0 where
  pub quiet : (s : Scene) (e : Effect) → is_quiet e ≡ true → P s → P (emit s e)
  pub enters :
      (s : Scene) (stage : Stage) (at : ℕ) (detail : Option Bool)
      → P s
      → P (record s { stage = stage; stage_started_at = at; stage_detail = detail })
  pub writes :
      (s : Scene) (box : Sandbox) → IsWrite s.sandbox box → P s → P (record s { sandbox = box })
  pub saves :
      (s : Scene) (saved : Sandbox)
      → is_cancelled env s ≡ false
      → save_sync (env.row (length s.done)) s.sandbox ≡ ok saved
      → P s
      → P (saved_scene s saved)

-- A call that is refused, and one that is answered.
pub ask_then :
    {A : Type 0} (Z : Outcome Scene ProvisionError → Type 0) (s : Scene) (e : Effect)
    (answer : Answer A) (next : A → Step)
    → ((r : Rejection) → answer ≡ err r → Z (emit s e, some (rejected r)))
    → ((a : A) → answer ≡ ok a → Z (next a (emit s e)))
    → Z (ask s e answer next)
ask_then Z s e (ok a) next h k = k a refl
ask_then Z s e (err r) next h k = h r refl

module _ (P R : Scene → Type 0) (weaken : (s : Scene) → P s → R s) where
  pub ask_goes :
      {A : Type 0} (s : Scene) (e : Effect) (answer : Answer A) (next : A → Step)
      → P (emit s e)
      → ((a : A) (t : Scene) → answer ≡ ok a → P t → R (next a t).0)
      → R (ask s e answer next).0
  ask_goes s e (ok a) next h k = k a _ refl h
  ask_goes s e (err r) next h k = weaken _ h

  pub active_goes :
      (env : Env) (s : Scene) (f : Step)
      → P s
      → (is_cancelled env s ≡ false → R (f s).0)
      → R (assert_active env s then_do f).0
  unfolding assert_active
  active_goes env s f h k = elim (Bool-cases (is_cancelled env s)) [
    | inl off ↦ rw off (weaken s h)
    | inr on ↦ rw on (k on)
  ]

-- Each status of the pipeline after `pending` may be followed by `failed`.
pub boot_can_fail :
    (can_transition_to SandboxStatus.scheduling failed ≡ true)
    × (can_transition_to SandboxStatus.preparing_workspace failed ≡ true)
    × (can_transition_to SandboxStatus.creating failed ≡ true)
    × (can_transition_to SandboxStatus.starting failed ≡ true)
    × (can_transition_to SandboxStatus.running failed ≡ true)
unfolding can_transition_to next_states
boot_can_fail = (refl, refl, refl, refl, refl)

transition_to-IsWrite :
    (box : Sandbox) (to : SandboxStatus) (at : ℕ)
    → can_transition_to to failed ≡ true
    → IsWrite box (transition_to box to scheduler at).0
transition_to-IsWrite box to at ahead = (
  transition_to_handle box to scheduler at,
  elim (transition_to-cases box to scheduler at) [
    | inl there ↦ inr (rw there ahead)
    | inr (same, e, thrown) ↦ inl (ap (λ b. b.status) same)
  ],
)

settle_commit_goes :
    (P : Scene → Type 0) (s : Scene) (r : Result SaveError Sandbox)
    → P s
    → ((saved : Sandbox) → r ≡ ok saved → P (saved_scene s saved))
    → P (settle_commit s r).0
unfolding settle_commit
settle_commit_goes P s (ok saved) h k = k saved refl
settle_commit_goes P s (err e) h k = h

-- What a save keeps, `persist` keeps.
pub persist_goes :
    (P : Scene → Type 0) (env : Env) (s : Scene)
    → P s
    → ((saved : Sandbox)
        → is_cancelled env s ≡ false
        → save_sync (env.row (length s.done)) s.sandbox ≡ ok saved
        → P (saved_scene s saved))
    → P (persist env s).0
unfolding persist commit
persist_goes P env s h saves =
    active_goes P P (λ t k. k) env s (commit env) h
      (λ on.
        settle_commit_goes P s (save_sync (env.row (length s.done)) s.sandbox) h
          (λ saved e. saves saved on e))

module _ {env : Env} {P : Scene → Type 0} (rule : Rule env P) where
  pub persist-keeps : (s : Scene) → P s → P (persist env s).0
  persist-keeps s h = persist_goes P env s h (λ saved on e. rule.saves s saved on e h)

  pub assert_active-keeps : (s : Scene) → P s → P (assert_active env s).0
  unfolding assert_active
  assert_active-keeps s h = elim (Bool-cases (is_cancelled env s)) [
    | inl off ↦ rw off h
    | inr on ↦ rw on h
  ]

  pub on_sandbox-keeps :
      (s : Scene) (o : Outcome Sandbox SandboxError)
      → IsWrite s.sandbox o.0
      → P s
      → P (on_sandbox s o).0
  unfolding on_sandbox
  on_sandbox-keeps s o w h = rule.writes s o.0 w h

  pub advance_to-keeps :
      (to : SandboxStatus) (s : Scene)
      → can_transition_to to failed ≡ true
      → P s
      → P (advance_to env to s).0
  unfolding advance_to
  advance_to-keeps to s ahead h =
      then_do_goes P P
        (assert_active env s
          then_do (λ t. on_sandbox t (transition_to t.sandbox to scheduler (now env t))))
        (persist env)
        (then_do_goes P P (assert_active env s)
          (λ t. on_sandbox t (transition_to t.sandbox to scheduler (now env t)))
          (assert_active-keeps s h) (λ t k. k)
          (λ t k.
            on_sandbox-keeps t (transition_to t.sandbox to scheduler (now env t))
              (transition_to-IsWrite t.sandbox to (now env t) ahead) k))
        (λ t k. k) (λ t k. persist-keeps t k)
