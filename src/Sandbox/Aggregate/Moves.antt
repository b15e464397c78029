-- ===== src/Sandbox/Aggregate/Moves.antt =====
-- packages/modules/sandbox/src/domain/entities/sandbox.entity.ts: where a move of the aggregate leads.
use agent_platform_api.Common.{ℕ, none, some, true, ◌≡◌, refl, ◌⊎◌, inl, inr, Bool-cases}
use agent_platform_api.Sandbox.Status.{SandboxStatus, TriggeredBy, can_transition_to, failed}
use agent_platform_api.Sandbox.InitialTask.{SandboxError}
use agent_platform_api.Sandbox.Aggregate.{
  Sandbox, Failure, move_to, clear_failure, keeps_failure, transition_to, fail_with,
}

move_to_goes :
    (s : Sandbox) (next : SandboxStatus) (by : TriggeredBy) (now : ℕ)
    → ((move_to s next by now).status ≡ next)
      × ((move_to s next by now).provider_sandbox_id ≡ s.provider_sandbox_id)
unfolding move_to clear_failure
move_to_goes s next by now = elim (Bool-cases (keeps_failure next)) [
  | inl y ↦ rw y (refl, refl)
  | inr n ↦ rw n (refl, refl)
]

pub transition_to_handle :
    (s : Sandbox) (next : SandboxStatus) (by : TriggeredBy) (now : ℕ)
    → (transition_to s next by now).0.provider_sandbox_id ≡ s.provider_sandbox_id
unfolding transition_to
transition_to_handle s next by now = elim (Bool-cases (can_transition_to s.status next)) [
  | inl legal ↦ rw legal (move_to_goes s next by now).1
  | inr illegal ↦ rw illegal refl
]

pub transition_to_legal :
    (s : Sandbox) (next : SandboxStatus) (by : TriggeredBy) (now : ℕ)
    → can_transition_to s.status next ≡ true
    → ((transition_to s next by now).0.status ≡ next) × ((transition_to s next by now).1 ≡ none)
unfolding transition_to
transition_to_legal s next by now legal = rw legal ((move_to_goes s next by now).0, refl)

-- A move goes where it is asked to, or changes nothing and throws.
pub transition_to-cases :
    (s : Sandbox) (next : SandboxStatus) (by : TriggeredBy) (now : ℕ)
    → ((transition_to s next by now).0.status ≡ next)
      ⊎ (((transition_to s next by now).0 ≡ s)
          × (e : SandboxError) × ((transition_to s next by now).1 ≡ some e))
unfolding transition_to
transition_to-cases s next by now = elim (Bool-cases (can_transition_to s.status next)) [
  | inl legal ↦ rw legal (inl (move_to_goes s next by now).0)
  | inr illegal ↦ rw illegal (inr (refl, _, refl))
]

pub fail_with_goes :
    (s : Sandbox) (f : Failure) (by : TriggeredBy) (now : ℕ)
    → can_transition_to s.status failed ≡ true
    → ((fail_with s f by now).0.status ≡ failed) × ((fail_with s f by now).1 ≡ none)
unfolding fail_with
fail_with_goes s f by now legal = transition_to_legal _ failed by now legal
