-- ===== src/Sandbox/Aggregate/Fields.antt =====
-- The fields beside the status: the cause of a failure, the initial instruction, the end of life.
use agent_platform_api.Common.{
  ℕ, ◌≡◌, refl, sym, ◌∙◌, ap, ◌⊎◌, inl, inr, true, false, Option, none, some, List, [], ◌∷◌,
  Result-cases, Bool-cases, ok, is_some, is_none, ok_injective, get_or, Stays, Stays-if,
}
use agent_platform_api.Sandbox.InitialTask.{InitialTask, consume}
use agent_platform_api.Sandbox.Status.{
  SandboxStatus, TriggeredBy, can_transition_to, next_states, failed, destroyed, status_eq,
  status_eq_sound,
}
use agent_platform_api.Sandbox.Aggregate.{
  Sandbox, Call, step, run_calls, keeps_failure, clear_failure, move_to, transition_to, fail_with,
  consume_initial_task, bind_runtime, record_injected_runtimes, record_automation_finished,
  mark_persisted, transitions_to, fails_with, consumes_initial_task, binds_runtime,
  records_injected_runtimes, records_automation_finished, marks_persisted, mark_failure,
}

-- A cause of failure stands only on a sandbox that failed, is being destroyed or is destroyed.
abbrev pub IsCauseCurrent : Sandbox → Type 0
IsCauseCurrent s = (s.failure_code ≡ none) ⊎ (keeps_failure s.status ≡ true)

move_to-cause :
    (s : Sandbox) (next : SandboxStatus) (by : TriggeredBy) (now : ℕ)
    → IsCauseCurrent (move_to s next by now)
unfolding move_to clear_failure
move_to-cause s next by now = elim (Bool-cases (keeps_failure next)) [
  | inl y ↦ inr (rw y y)
  | inr n ↦ inl (rw n)
]

transition_to-cause :
    (s : Sandbox) (next : SandboxStatus) (by : TriggeredBy) (now : ℕ)
    → (transition_to s next by now).1 ≡ none
    → IsCauseCurrent (transition_to s next by now).0
unfolding transition_to
transition_to-cause s next by now fine = elim (Bool-cases (can_transition_to s.status next)) [
  | inl legal ↦ rw legal (move_to-cause s next by now)
  | inr illegal ↦ (let thrown = rw illegal at fine in cc)
]

-- A method that does not throw leaves a cause of failure only on a sandbox that failed, is being
-- destroyed or is destroyed, if that was so before.
pub step-IsCauseCurrent :
    (s : Sandbox) (c : Call) → IsCauseCurrent s → (step s c).1 ≡ none → IsCauseCurrent (step s c).0
unfolding step fail_with consume_initial_task bind_runtime record_injected_runtimes
    record_automation_finished mark_persisted
step-IsCauseCurrent s (transitions_to next by now) h fine = transition_to-cause s next by now fine
step-IsCauseCurrent s (fails_with failure by now) h fine = transition_to-cause _ failed by now fine
step-IsCauseCurrent s (binds_runtime handle path state) h fine = h
step-IsCauseCurrent s (consumes_initial_task at) h fine =
    elim (Result-cases (consume s.initial_task at)) [ inl (task, e) ↦ rw e h | inr (x, e) ↦ rw e h ]
step-IsCauseCurrent s (records_injected_runtimes ids) h fine = h
step-IsCauseCurrent s (records_automation_finished at) h fine = h
step-IsCauseCurrent s (marks_persisted version) h fine = h

-- What no method takes back: the instruction, the moment at which it was consumed, the first end of
-- the automation, and the end of a destroyed sandbox.
pub record LastsIf (a b : Sandbox) : Type 0 where
  pub prompt : b.initial_task.prompt ≡ a.initial_task.prompt
  pub consumed :
      is_some a.initial_task.consumed_at ≡ true
      → b.initial_task.consumed_at ≡ a.initial_task.consumed_at
  pub finished :
      is_some a.automation_finished_at ≡ true → b.automation_finished_at ≡ a.automation_finished_at
  pub gone : a.status ≡ destroyed → (b.status ≡ destroyed) × (b.transitions ≡ a.transitions)

LastsIf-same :
    {a b : Sandbox}
    → b.initial_task ≡ a.initial_task
    → b.automation_finished_at ≡ a.automation_finished_at
    → b.status ≡ a.status
    → b.transitions ≡ a.transitions
    → LastsIf a b
LastsIf-same task finish status history = record {
  prompt = ap (λ t. t.prompt) task;
  consumed = λ h. ap (λ t. t.consumed_at) task;
  finished = λ h. finish;
  gone = λ h. (status ∙ h, history);
}

LastsIf-refl : (s : Sandbox) → LastsIf s s
LastsIf-refl s = LastsIf-same refl refl refl refl

LastsIf-trans : {a b c : Sandbox} → LastsIf a b → LastsIf b c → LastsIf a c
LastsIf-trans h k = record {
  prompt = k.prompt ∙ h.prompt;
  consumed = λ e. k.consumed (ap is_some (h.consumed e) ∙ e) ∙ h.consumed e;
  finished = λ e. k.finished (ap is_some (h.finished e) ∙ e) ∙ h.finished e;
  gone = λ e.
      let (b_gone, b_same) = h.gone e in
      let (c_gone, c_same) = k.gone b_gone in (c_gone, c_same ∙ b_same);
}

-- No move leaves `destroyed`.
destroyed_is_final : (next : SandboxStatus) → can_transition_to destroyed next ≡ false
unfolding can_transition_to next_states
destroyed_is_final next = refl

move_to-same :
    (s : Sandbox) (next : SandboxStatus) (by : TriggeredBy) (now : ℕ)
    → ((move_to s next by now).initial_task ≡ s.initial_task)
      × ((move_to s next by now).automation_finished_at ≡ s.automation_finished_at)
unfolding move_to clear_failure
move_to-same s next by now = elim (Bool-cases (keeps_failure next)) [
  | inl y ↦ (rw y, rw y)
  | inr n ↦ (rw n, rw n)
]

transition_to-LastsIf :
    (s : Sandbox) (next : SandboxStatus) (by : TriggeredBy) (now : ℕ)
    → LastsIf s (transition_to s next by now).0
unfolding transition_to
transition_to-LastsIf s next by now = elim (Bool-cases (can_transition_to s.status next)) [
  | inl legal ↦
      let (task, finish) = move_to-same s next by now in
      rw legal (record {
        prompt = ap (λ t. t.prompt) task;
        consumed = λ h. ap (λ t. t.consumed_at) task;
        finished = λ h. finish;
        gone = λ gone. (let l = rw gone at legal in let f = destroyed_is_final next in cc);
      })
  | inr illegal ↦ rw illegal (LastsIf-refl s)
]

-- An instruction is consumed only if it was not before, and is not changed by it.
consume-fresh :
    (t : InitialTask) (at : ℕ) {u : InitialTask}
    → consume t at ≡ ok u
    → (u.prompt ≡ t.prompt) × (is_some t.consumed_at ≡ false)
unfolding consume
consume-fresh t at h = elim (Bool-cases (is_none t.prompt)) [
  | inl blank ↦ let thrown = rw blank at h in cc
  | inr given ↦ elim (Bool-cases (is_some t.consumed_at)) [
    | inl used ↦ let thrown = rw used at (rw given at h) in cc
    | inr fresh ↦
        let made = rw fresh at (rw given at h) in
        (sym (ap (λ v. v.prompt) (ok_injective made)), fresh)
  ]
]

consume_initial_task-LastsIf : (s : Sandbox) (at : ℕ) → LastsIf s (consume_initial_task s at).0
unfolding consume_initial_task
consume_initial_task-LastsIf s at = elim (Result-cases (consume s.initial_task at)) [
  | inl (task, e) ↦
      let (same, fresh) = consume-fresh s.initial_task at e in
      rw e
        (record { prompt = same; consumed = λ h. cc; finished = λ h. refl; gone = λ h. (h, refl) })
  | inr (x, e) ↦ rw e (LastsIf-refl s)
]

given_stays : (o : Option ℕ) (at : ℕ) → is_some o ≡ true → some (get_or o at) ≡ o
given_stays none at h = cc
given_stays (some n) at h = refl

-- No method takes back the instruction, the moment at which it was consumed, the first end of the
-- automation, or the end of a destroyed sandbox.
pub step-LastsIf : (s : Sandbox) (c : Call) → LastsIf s (step s c).0
unfolding step fail_with bind_runtime record_injected_runtimes record_automation_finished
    mark_persisted
step-LastsIf s (transitions_to next by now) = transition_to-LastsIf s next by now
step-LastsIf s (fails_with failure by now) =
    LastsIf-trans (LastsIf-same refl refl refl refl)
      (transition_to-LastsIf (mark_failure s failure) failed by now)
step-LastsIf s (binds_runtime handle path state) = LastsIf-same refl refl refl refl
step-LastsIf s (consumes_initial_task at) = consume_initial_task-LastsIf s at
step-LastsIf s (records_injected_runtimes ids) = LastsIf-same refl refl refl refl
step-LastsIf s (records_automation_finished at) = record {
  prompt = refl;
  consumed = λ h. refl;
  finished = λ h. given_stays s.automation_finished_at at h;
  gone = λ h. (h, refl);
}
step-LastsIf s (marks_persisted version) = LastsIf-same refl refl refl refl

run_calls-LastsIf : (s : Sandbox) (cs : List Call) → LastsIf s (run_calls s cs)
unfolding run_calls
run_calls-LastsIf s [] = LastsIf-refl s
run_calls-LastsIf s (c ∷ cs) = LastsIf-trans (step-LastsIf s c) (run_calls-LastsIf (step s c).0 cs)

-- The instruction is the same; the moment at which it was consumed and the first end of the automation
-- stay; a destroyed sandbox stays destroyed, with the same history.
abbrev pub IsLasting : Sandbox → Sandbox → Type 0
IsLasting a b =
    (b.initial_task.prompt ≡ a.initial_task.prompt)
    × Stays a.initial_task.consumed_at b.initial_task.consumed_at
    × Stays a.automation_finished_at b.automation_finished_at
    × ((status_eq a.status destroyed ≡ false)
        ⊎ ((b.status ≡ destroyed) × (b.transitions ≡ a.transitions)))

-- No sequence of calls takes back the instruction, the moment at which it was consumed, the first end
-- of the automation, or the end and history of a destroyed sandbox.
pub run_calls-IsLasting : (s : Sandbox) (cs : List Call) → IsLasting s (run_calls s cs)
run_calls-IsLasting s cs =
    let h = run_calls-LastsIf s cs in
    (
      h.prompt,
      Stays-if s.initial_task.consumed_at _ h.consumed,
      Stays-if s.automation_finished_at _ h.finished,
      elim (Bool-cases (status_eq s.status destroyed)) [
        | inl gone ↦ inr (h.gone (status_eq_sound s.status destroyed gone))
        | inr alive ↦ inl alive
      ],
    )
