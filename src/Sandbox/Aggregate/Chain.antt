-- ===== src/Sandbox/Aggregate/Chain.antt =====
-- The transition history of a sandbox is a path through the table `TRANSITIONS`.
use agent_platform_api.Common.{
  ℕ, ◌≡◌, refl, sym, ◌∙◌, ap, inl, inr, true, map, none, some, List, [], ◌∷◌, ◌++◌, Result-cases,
  Bool-cases,
}
use agent_platform_api.Sandbox.InitialTask.{consume}
use agent_platform_api.Sandbox.Status.{
  SandboxStatus, StateTransition, TriggeredBy, can_transition_to, pending, user,
}
use agent_platform_api.Sandbox.Aggregate.{
  Sandbox, SandboxEvent, created, state_changed, Call, step, run_calls, move_to, clear_failure,
  keeps_failure, transition_to, fail_with, consume_initial_task, bind_runtime,
  record_injected_runtimes, record_automation_finished, mark_persisted, transitions_to, fails_with,
  consumes_initial_task, binds_runtime, records_injected_runtimes, records_automation_finished,
  marks_persisted,
}

-- A chain of legal moves from one status to another.
abbrev pub Chain : SandboxStatus → List StateTransition → SandboxStatus → Type 0
Chain start [] end = start ≡ end
Chain start (t ∷ ts) end =
    (t.from ≡ some start) × (can_transition_to start t.to ≡ true) × Chain t.to ts end

-- The transition that an event announces.
abbrev pub announced : SandboxEvent → StateTransition
announced (created _ _ _ now) = record { from = none; to = pending; at = now; triggered_by = user }
announced (state_changed _ from to by now _) = record {
  from = some from;
  to = to;
  at = now;
  triggered_by = by;
}

-- The history begins in `pending`, is a chain that ends in the status, and each of its transitions
-- was announced by one event, in order.
abbrev pub IsRecorded : Sandbox → Type 0
IsRecorded s =
    (first : StateTransition) × (rest : List StateTransition) × (s.transitions ≡ first ∷ rest)
    × (first.from ≡ none)
    × (first.to ≡ pending)
    × Chain pending rest s.status
    × (map announced s.events ≡ s.transitions)

pub Chain-append :
    (start : SandboxStatus) (ts : List StateTransition) (end : SandboxStatus) (t : StateTransition)
    → Chain start ts end
    → t.from ≡ some end
    → can_transition_to end t.to ≡ true
    → Chain start (ts ++ t ∷ []) t.to
Chain-append start [] end t e from legal = (from ∙ ap some (sym e), rw e legal, refl)
Chain-append start (u ∷ us) end t (f, l, c) from legal =
    (f, l, Chain-append u.to us end t c from legal)

map-append {ℓ κ} :
    {A : Type ℓ} {B : Type κ} (f : A → B) (xs ys : List A) → map f (xs ++ ys) ≡ map f xs ++ map f ys
map-append f [] ys = refl
map-append f (x ∷ xs) ys = ap (λ zs. f x ∷ zs) (map-append f xs ys)

-- What a legal move does to the history, the status and the events.
pub move_to-transitions :
    (s : Sandbox) (next : SandboxStatus) (by : TriggeredBy) (now : ℕ)
    → let t : StateTransition = record {
      from = some s.status;
      to = next;
      at = now;
      triggered_by = by;
    } in
      ((move_to s next by now).transitions ≡ s.transitions ++ t ∷ [])
      × ((move_to s next by now).status ≡ next)
      × (map announced (move_to s next by now).events ≡ map announced s.events ++ t ∷ [])
unfolding move_to clear_failure
move_to-transitions s next by now = elim (Bool-cases (keeps_failure next)) [
  | inl y ↦ (rw y, rw y, rw y (map-append announced s.events _))
  | inr n ↦ (rw n, rw n, rw n (map-append announced s.events _))
]

move_to-IsRecorded :
    (s : Sandbox) (next : SandboxStatus) (by : TriggeredBy) (now : ℕ)
    → can_transition_to s.status next ≡ true
    → IsRecorded s
    → IsRecorded (move_to s next by now)
move_to-IsRecorded s next by now legal (first, rest, e, none_before, at_pending, chain, told) =
    let (history, status, events) = move_to-transitions s next by now in
    let t : StateTransition = record {
      from = some s.status;
      to = next;
      at = now;
      triggered_by = by;
    } in
    (
      first,
      rest ++ t ∷ [],
      history ∙ ap (λ ts. ts ++ t ∷ []) e,
      none_before,
      at_pending,
      rw status (Chain-append pending rest s.status t chain refl legal),
      events ∙ ap (λ ts. ts ++ t ∷ []) told ∙ sym history,
    )

transition_to-IsRecorded :
    (s : Sandbox) (next : SandboxStatus) (by : TriggeredBy) (now : ℕ)
    → IsRecorded s
    → IsRecorded (transition_to s next by now).0
unfolding transition_to
transition_to-IsRecorded s next by now h = elim (Bool-cases (can_transition_to s.status next)) [
  | inl legal ↦ rw legal (move_to-IsRecorded s next by now legal h)
  | inr illegal ↦ rw illegal h
]

consume-IsRecorded :
    (s : Sandbox) (at : ℕ) → IsRecorded s → IsRecorded (consume_initial_task s at).0
unfolding consume_initial_task
consume-IsRecorded s at h = elim (Result-cases (consume s.initial_task at)) [
  | inl (task, e) ↦ rw e h
  | inr (x, e) ↦ rw e h
]

-- Every call keeps the history a legal chain from `pending` to the present status, announced by one
-- event for each of its transitions, also where the call throws.
pub step-IsRecorded : (s : Sandbox) (c : Call) → IsRecorded s → IsRecorded (step s c).0
unfolding step fail_with bind_runtime record_injected_runtimes record_automation_finished
    mark_persisted
step-IsRecorded s (transitions_to next by now) h = transition_to-IsRecorded s next by now h
step-IsRecorded s (fails_with failure by now) h =
    transition_to-IsRecorded _ SandboxStatus.failed by now h
step-IsRecorded s (binds_runtime handle path state) h = h
step-IsRecorded s (consumes_initial_task at) h = consume-IsRecorded s at h
step-IsRecorded s (records_injected_runtimes ids) h = h
step-IsRecorded s (records_automation_finished at) h = h
step-IsRecorded s (marks_persisted version) h = h

pub run_calls-IsRecorded :
    (s : Sandbox) (cs : List Call) → IsRecorded s → IsRecorded (run_calls s cs)
unfolding run_calls
run_calls-IsRecorded s [] h = h
run_calls-IsRecorded s (c ∷ cs) h = run_calls-IsRecorded (step s c).0 cs (step-IsRecorded s c h)
