-- ===== src/Sandbox/Aggregate/Histories.antt =====
-- What the chain of transitions tells of a sandbox's life.
use Prim.{tt}
use agent_platform_api.Common.{
  both_true, not-true, ℕ, ◌≡◌, refl, sym, subst, >>=-eq-ok, ok_injective, all, leb, ◌&&◌, inl, inr,
  Bool, true, false, not, ◌||◌, any, none, List, [], ◌∷◌, Text, Bool-cases, ok, All,
}
use agent_platform_api.Sandbox.InitialTask.{create_task}
use agent_platform_api.Sandbox.Status.{
  SandboxStatus, StateTransition, can_transition_to, next_states, status_eq, pending, scheduling,
  preparing_workspace, creating, starting, running, idle, stopping, status_index, status_eq_sound,
  stopped, failed, destroying, destroyed,
}
use agent_platform_api.Sandbox.Aggregate.{
  Sandbox, CreateInput, create_sandbox, Call, run_calls, has_run,
}
use agent_platform_api.Sandbox.Aggregate.Chain.{IsRecorded, Chain, run_calls-IsRecorded}

-- The history has a transition into the status.
abbrev pub visits : SandboxStatus → List StateTransition → Bool
visits status ts = any (λ t. status_eq t.to status) ts

pub created-IsRecorded :
    (to_iso : ℕ → Text) (input : CreateInput) {s : Sandbox}
    → create_sandbox to_iso input ≡ ok s
    → IsRecorded s
unfolding create_sandbox
created-IsRecorded to_iso input h =
    let (task, e, made) = >>=-eq-ok (create_task input.initial_prompt none) _ h in
    subst IsRecorded (ok_injective made) (_, [], refl, refl, refl, refl, refl)

-- The stages on the way to `running`, each with the one that comes before it.
abbrev pub stages : List SandboxStatus
stages = preparing_workspace ∷ creating ∷ starting ∷ running ∷ []

abbrev pub stage_before : SandboxStatus → SandboxStatus
stage_before running = starting
stage_before starting = creating
stage_before creating = preparing_workspace
stage_before preparing_workspace = scheduling
stage_before other = other

-- A sandbox in the second status got to the first stage since it was last scheduled.
abbrev has_reached : SandboxStatus → SandboxStatus → Bool
has_reached x s =
    leb (status_index x) (status_index s) && leb (status_index s) (status_index stopped)

abbrev enters_in_order : SandboxStatus → SandboxStatus → SandboxStatus → Bool
enters_in_order x a b = not (has_reached x b) || (has_reached x a || status_eq a (stage_before x))

table_in_order :
    (a : SandboxStatus) → all (λ x. all (enters_in_order x a) (next_states a)) stages ≡ true
unfolding next_states
table_in_order pending = refl
table_in_order scheduling = refl
table_in_order preparing_workspace = refl
table_in_order creating = refl
table_in_order starting = refl
table_in_order running = refl
table_in_order idle = refl
table_in_order stopping = refl
table_in_order stopped = refl
table_in_order failed = refl
table_in_order destroying = refl
table_in_order destroyed = refl

or_true : (a : Bool) {b : Bool} → b ≡ true → (a || b) ≡ true
or_true true h = refl
or_true false h = h

-- A test that holds of all the statuses of a list holds of each.
all_statuses :
    (p : SandboxStatus → Bool) (xs : List SandboxStatus) (b : SandboxStatus)
    → all p xs ≡ true
    → any (status_eq b) xs ≡ true
    → p b ≡ true
all_statuses p [] b h k = cc
all_statuses p (x ∷ xs) b h k = elim (Bool-cases (status_eq b x)) [
  | inl same ↦ subst (λ y. p y ≡ true) (sym (status_eq_sound b x same)) (both_true h).0
  | inr other ↦ all_statuses p xs b (both_true h).1 (rw other at k)
]

order_step :
    (a b c d e : Bool)
    → (not c || (a || b)) ≡ true
    → (c || (d || e)) ≡ true
    → (a || (b || (d || e))) ≡ true
order_step true b c d e h k = refl
order_step false true c d e h k = refl
order_step false false true d e h k = cc
order_step false false false d e h k = k

stages_in_order :
    (x a b : SandboxStatus)
    → any (status_eq x) stages ≡ true
    → can_transition_to a b ≡ true
    → enters_in_order x a b ≡ true
unfolding can_transition_to
stages_in_order x a b k legal =
    all_statuses (enters_in_order x a) (next_states a) b
      (all_statuses (λ y. all (enters_in_order y a) (next_states a)) stages x (table_in_order a) k)
      legal

stage_is_reached : (x : SandboxStatus) → any (status_eq x) stages ≡ true → has_reached x x ≡ true
stage_is_reached x k = all_statuses (λ y. has_reached y y) stages x refl k

entered_first :
    (x b : SandboxStatus) (d : Bool)
    → any (status_eq x) stages ≡ true
    → status_eq b x ≡ true
    → (has_reached x b || d) ≡ true
entered_first x b d k same =
    let r =
      subst (λ y. has_reached x y ≡ true) (sym (status_eq_sound b x same)) (stage_is_reached x k) in
    rw r

stage_entered :
    (x start end : SandboxStatus) (ts : List StateTransition)
    → any (status_eq x) stages ≡ true
    → Chain start ts end
    → visits x ts ≡ true
    → (has_reached x start || (status_eq start (stage_before x) || visits (stage_before x) ts))
      ≡ true
stage_entered x start end [] k c v = cc
stage_entered x start end (t ∷ ts) k (f, legal, c) v =
    order_step (has_reached x start) (status_eq start (stage_before x)) (has_reached x t.to)
      (status_eq t.to (stage_before x)) (visits (stage_before x) ts)
      (stages_in_order x start t.to k legal)
      (elim (Bool-cases (status_eq t.to x)) [
        | inl same ↦ entered_first x t.to _ k same
        | inr other ↦ stage_entered x t.to end ts k c (rw other at v)
      ])

pending_is_no_stage :
    (x : SandboxStatus) → any (status_eq x) stages ≡ true → status_eq pending x ≡ false
pending_is_no_stage x k = not-true (all_statuses (λ y. not (status_eq pending y)) stages x refl k)

outside_or : {a b : Bool} → a ≡ false → (a || b) ≡ true → b ≡ true
outside_or {a = true} e h = cc
outside_or {a = false} e h = h

-- `pending` has reached no stage, and comes just before none of these.
outside_stages :
    (x : SandboxStatus) {b : Bool}
    → any (status_eq x) stages ≡ true
    → (has_reached x pending || (status_eq pending (stage_before x) || b)) ≡ true
    → b ≡ true
outside_stages x k h =
    let n = both_true (
      all_statuses (λ y. not (has_reached y pending) && not (status_eq pending (stage_before y)))
        stages x refl k) in
    outside_or (not-true n.1) (outside_or (not-true n.0) h)

visits_before :
    (x : SandboxStatus) (s : Sandbox)
    → any (status_eq x) stages ≡ true
    → IsRecorded s
    → visits x s.transitions ≡ true
    → visits (stage_before x) s.transitions ≡ true
visits_before x s k (first, rest, e, none_before, at_pending, chain, told) v =
    let begins = rw (pending_is_no_stage x k) at (rw at_pending at (rw e at v)) in
    let entered = stage_entered x pending s.status rest k chain begins in
    rw e (or_true (status_eq first.to (stage_before x)) (outside_stages x k entered))

-- Each stage of provisioning up to `starting` was gone through.
abbrev pub WasProvisioned : Sandbox → Type 0
WasProvisioned s =
    All (λ x. visits x s.transitions ≡ true)
      (starting ∷ creating ∷ preparing_workspace ∷ scheduling ∷ [])

has_run-visits : (s : Sandbox) → IsRecorded s → has_run s ≡ true → WasProvisioned s
unfolding has_run
has_run-visits s h v =
    let v1 = visits_before running s refl h v in
    let v2 = visits_before starting s refl h v1 in
    let v3 = visits_before creating s refl h v2 in
    (v1, (v2, (v3, (visits_before preparing_workspace s refl h v3, tt))))

-- Whatever methods are called on a new sandbox, with errors or without: its transitions begin in
-- `pending` and follow the table `TRANSITIONS` to its present status, and its events announce them
-- one by one.
pub create_sandbox-IsRecorded :
    (to_iso : ℕ → Text) (input : CreateInput) (cs : List Call) {s : Sandbox}
    → create_sandbox to_iso input ≡ ok s
    → IsRecorded (run_calls s cs)
create_sandbox-IsRecorded to_iso input cs {s} h =
    run_calls-IsRecorded s cs (created-IsRecorded to_iso input h)

-- Whatever methods are called on a new sandbox: if `hasRun` then says that it ran, its history also
-- has the stages `scheduling`, `preparing_workspace`, `creating` and `starting`.
pub has_run-WasProvisioned :
    (to_iso : ℕ → Text) (input : CreateInput) (cs : List Call) {s : Sandbox}
    → create_sandbox to_iso input ≡ ok s
    → has_run (run_calls s cs) ≡ true
    → WasProvisioned (run_calls s cs)
has_run-WasProvisioned to_iso input cs {s} h =
    has_run-visits (run_calls s cs) (create_sandbox-IsRecorded to_iso input cs h)
