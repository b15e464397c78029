-- ===== src/Sandbox/Status.antt =====
-- packages/modules/sandbox/src/domain/value-objects/sandbox-status.vo.ts and
-- entities/state-transition.entity.ts.
use agent_platform_api.Common.{
  ℕ, Bool, true, List, [], ◌∷◌, Option, any, length, ◌==◌, ◌≡◌, refl, sym, ap, ◌∙◌, ==_iff, drop,
}

pub data SandboxStatus : Type 0 where
  pending scheduling preparing_workspace creating starting running : SandboxStatus
  idle stopping stopped failed destroying destroyed : SandboxStatus

pub data TriggeredBy : Type 0 where
  scheduler reaper user health_check provider_event : TriggeredBy

pub record StateTransition : Type 0 where
  pub from : Option SandboxStatus
  pub to : SandboxStatus
  pub at : ℕ
  pub triggered_by : TriggeredBy

pub SandboxStatus-discrete : Discrete SandboxStatus
SandboxStatus-discrete = hlevel

-- The position in `SANDBOX_STATUSES`, by which two statuses are compared.
abbrev pub status_index : SandboxStatus → ℕ
status_index pending = 0
status_index scheduling = 1
status_index preparing_workspace = 2
status_index creating = 3
status_index starting = 4
status_index running = 5
status_index idle = 6
status_index stopping = 7
status_index stopped = 8
status_index failed = 9
status_index destroying = 10
status_index destroyed = 11

abbrev pub status_eq : SandboxStatus → SandboxStatus → Bool
status_eq a b = status_index a == status_index b

-- `SANDBOX_STATUSES`
abbrev sandbox_statuses : List SandboxStatus
sandbox_statuses =
    pending ∷ scheduling ∷ preparing_workspace ∷ creating ∷ starting ∷ running ∷ idle ∷ stopping
    ∷ stopped ∷ failed ∷ destroying ∷ destroyed ∷ []

head_or : SandboxStatus → List SandboxStatus → SandboxStatus
head_or s [] = s
head_or s (x ∷ xs) = x

at_index : ℕ → SandboxStatus
unfolding head_or
at_index n = head_or destroyed (drop n sandbox_statuses)

at_index-status_index : (s : SandboxStatus) → at_index (status_index s) ≡ s
unfolding at_index head_or
at_index-status_index pending = refl
at_index-status_index scheduling = refl
at_index-status_index preparing_workspace = refl
at_index-status_index creating = refl
at_index-status_index starting = refl
at_index-status_index running = refl
at_index-status_index idle = refl
at_index-status_index stopping = refl
at_index-status_index stopped = refl
at_index-status_index failed = refl
at_index-status_index destroying = refl
at_index-status_index destroyed = refl

pub status_eq_sound : (a b : SandboxStatus) → status_eq a b ≡ true → a ≡ b
status_eq_sound a b h =
    sym (at_index-status_index a)
    ∙ ap at_index ((==_iff (status_index a) (status_index b)).0 h)
    ∙ at_index-status_index b

-- `TRANSITIONS`
unfoldable pub next_states : SandboxStatus → List SandboxStatus
next_states pending = scheduling ∷ destroying ∷ []
next_states scheduling = preparing_workspace ∷ failed ∷ destroying ∷ []
next_states preparing_workspace = creating ∷ failed ∷ destroying ∷ []
next_states creating = starting ∷ failed ∷ destroying ∷ []
next_states starting = running ∷ failed ∷ destroying ∷ []
next_states running = idle ∷ stopping ∷ failed ∷ destroying ∷ []
next_states idle = running ∷ stopping ∷ failed ∷ destroying ∷ []
next_states stopping = stopped ∷ failed ∷ destroying ∷ []
next_states stopped = starting ∷ destroying ∷ []
next_states failed = scheduling ∷ destroying ∷ []
next_states destroying = destroyed ∷ failed ∷ []
next_states destroyed = []

-- `TRANSITIONS[from].includes(to)`
unfoldable pub can_transition_to : SandboxStatus → SandboxStatus → Bool
unfolding next_states
can_transition_to from to = any (status_eq to) (next_states from)

unfoldable pub is_terminal : SandboxStatus → Bool
unfolding next_states
is_terminal status = length (next_states status) == 0
