-- ===== src/Sandbox/Task/Progress.antt =====
-- A task only ever moves forward.
use agent_platform_api.Common.{
  ℕ, ◌≤◌, ◌≡◌, refl, sym, ◌∙◌, ap, inl, inr, Text, text_eq, text_eq_sound, true, false, not, ltb,
  ◌==◌, length, Option, none, some, is_some, is_none, List, [], ◌∷◌, arith, Bool-cases, ◌⊎◌, Stays,
  Stays-if,
}
use agent_platform_api.Sandbox.Task.{
  AgentTask, Call, FinishInput, step, run_calls, advance, bind_session_ref, request_cancel, finish,
  is_running, is_terminal_task_status, is_other_session, task_status_index, advances,
  binds_session_ref, requests_cancel, finishes,
}

-- What a task had, it keeps: its progress, its session, the first request to cancel it, its verdict.
pub record ForwardIf (a b : AgentTask) : Type 0 where
  pub seq : a.last_seq ≤ b.last_seq
  pub bytes : a.stdout_bytes ≤ b.stdout_bytes
  pub session : is_some a.session_ref ≡ true → b.session_ref ≡ a.session_ref
  pub cancel : is_some a.cancel_requested_at ≡ true → b.cancel_requested_at ≡ a.cancel_requested_at
  pub verdict :
      is_running a ≡ false
      → (b.status ≡ a.status)
        × (b.exit_code ≡ a.exit_code)
        × (b.artifacts ≡ a.artifacts)
        × (b.error_code ≡ a.error_code)
        × (b.finished_at ≡ a.finished_at)
        × (b.events ≡ a.events)

ForwardIf-refl : (t : AgentTask) → ForwardIf t t
ForwardIf-refl t = record {
  seq = omega arith;
  bytes = omega arith;
  session = λ h. refl;
  cancel = λ h. refl;
  verdict = λ h. (refl, refl, refl, refl, refl, refl);
}

ForwardIf-trans : {a b c : AgentTask} → ForwardIf a b → ForwardIf b c → ForwardIf a c
ForwardIf-trans h k = record {
  seq = omega (arith, h.seq, k.seq);
  bytes = omega (arith, h.bytes, k.bytes);
  session = λ e. k.session (ap is_some (h.session e) ∙ e) ∙ h.session e;
  cancel = λ e. k.cancel (ap is_some (h.cancel e) ∙ e) ∙ h.cancel e;
  verdict = λ e.
      let (h0, h1, h2, h3, h4, h5) = h.verdict e in
      let (k0, k1, k2, k3, k4, k5) = k.verdict (ap (λ s. not (is_terminal_task_status s)) h0 ∙ e) in
      (k0 ∙ h0, k1 ∙ h1, k2 ∙ h2, k3 ∙ h3, k4 ∙ h4, k5 ∙ h5);
}

advance-ForwardIf :
    (t : AgentTask) (cursor : Text) (last_seq stdout_bytes : ℕ)
    → ForwardIf t (advance t cursor last_seq stdout_bytes).0
unfolding advance
advance-ForwardIf t cursor last_seq stdout_bytes = elim (Bool-cases (ltb last_seq t.last_seq)) [
  | inl back ↦ rw back (ForwardIf-refl t)
  | inr on ↦ elim (Bool-cases (ltb stdout_bytes t.stdout_bytes)) [
    | inl less ↦ rw on (rw less (ForwardIf-refl t))
    | inr more ↦ rw on (
        rw more (record {
          seq = ground arith;
          bytes = ground arith;
          session = λ h. refl;
          cancel = λ h. refl;
          verdict = λ h. (refl, refl, refl, refl, refl, refl);
        }))
  ]
]

same_session :
    (o : Option Text) (ref : Text)
    → is_other_session o ref ≡ false
    → is_some o ≡ true
    → some ref ≡ o
same_session none ref e h = cc
same_session (some bound) ref e h = elim (Bool-cases (text_eq bound ref)) [
  | inl same ↦ ap some (sym (text_eq_sound bound ref same))
  | inr other ↦ let e2 = rw other at e in cc
]

bind_session_ref-ForwardIf : (t : AgentTask) (ref : Text) → ForwardIf t (bind_session_ref t ref).0
unfolding bind_session_ref
bind_session_ref-ForwardIf t ref = elim (Bool-cases (length ref == 0)) [
  | inl empty ↦ rw empty (ForwardIf-refl t)
  | inr given ↦ elim (Bool-cases (is_other_session t.session_ref ref)) [
    | inl other ↦ rw given (rw other (ForwardIf-refl t))
    | inr same ↦ rw given (
        rw same (record {
          seq = omega arith;
          bytes = omega arith;
          session = same_session t.session_ref ref same;
          cancel = λ h. refl;
          verdict = λ h. (refl, refl, refl, refl, refl, refl);
        }))
  ]
]

first_request : (o r : Option ℕ) → is_none o ≡ true → is_some o ≡ true → r ≡ o
first_request none r first h = cc
first_request (some at) r first h = cc

request_cancel-ForwardIf : (t : AgentTask) (now : ℕ) → ForwardIf t (request_cancel t now).0
unfolding request_cancel
request_cancel-ForwardIf t now = elim (Bool-cases (is_running t)) [
  | inr over ↦ rw over (ForwardIf-refl t)
  | inl up ↦ elim (Bool-cases (is_none t.cancel_requested_at)) [
    | inr again ↦ rw up (rw again (ForwardIf-refl t))
    | inl first ↦ rw up (
        rw first (record {
          seq = omega arith;
          bytes = omega arith;
          session = λ h. refl;
          cancel = λ h. first_request t.cancel_requested_at _ first h;
          verdict = λ h. cc;
        }))
  ]
]

finish-ForwardIf : (t : AgentTask) (input : FinishInput) → ForwardIf t (finish t input).0
unfolding finish
finish-ForwardIf t input = elim (Bool-cases (is_running t)) [
  | inl up ↦ rw up (record {
    seq = omega arith;
    bytes = omega arith;
    session = λ h. refl;
    cancel = λ h. refl;
    verdict = λ h. cc;
  })
  | inr over ↦ elim (Bool-cases (task_status_index t.status == task_status_index input.status)) [
    | inl same ↦ rw over (rw same (ForwardIf-refl t))
    | inr other ↦ rw over (rw other (ForwardIf-refl t))
  ]
]

step-ForwardIf : (t : AgentTask) (c : Call) → ForwardIf t (step t c).0
unfolding step
step-ForwardIf t (advances cursor last_seq stdout_bytes) =
    advance-ForwardIf t cursor last_seq stdout_bytes
step-ForwardIf t (binds_session_ref ref) = bind_session_ref-ForwardIf t ref
step-ForwardIf t (requests_cancel now) = request_cancel-ForwardIf t now
step-ForwardIf t (finishes input) = finish-ForwardIf t input

run_calls-ForwardIf : (t : AgentTask) (cs : List Call) → ForwardIf t (run_calls t cs)
unfolding run_calls
run_calls-ForwardIf t [] = ForwardIf-refl t
run_calls-ForwardIf t (c ∷ cs) =
    ForwardIf-trans (step-ForwardIf t c) (run_calls-ForwardIf (step t c).0 cs)

-- The progress does not fall; the session and the first request to cancel stay; the verdict of a task
-- that was no longer running stays.
abbrev pub IsForward : AgentTask → AgentTask → Type 0
IsForward a b =
    (a.last_seq ≤ b.last_seq)
    × (a.stdout_bytes ≤ b.stdout_bytes)
    × Stays a.session_ref b.session_ref
    × Stays a.cancel_requested_at b.cancel_requested_at
    × ((is_running a ≡ true)
        ⊎ ((b.status ≡ a.status)
            × (b.exit_code ≡ a.exit_code)
            × (b.artifacts ≡ a.artifacts)
            × (b.error_code ≡ a.error_code)
            × (b.finished_at ≡ a.finished_at)
            × (b.events ≡ a.events)))

-- No history of calls turns a task back: `lastSeq` and `stdoutBytes` do not fall; the session it was
-- bound to and the time of the first request to cancel it stay; and once it is no longer running, its
-- status, exit code, artifacts, error, end and events stay.
pub run_calls-IsForward : (t : AgentTask) (cs : List Call) → IsForward t (run_calls t cs)
run_calls-IsForward t cs =
    let h = run_calls-ForwardIf t cs in
    (
      h.seq,
      h.bytes,
      Stays-if t.session_ref _ h.session,
      Stays-if t.cancel_requested_at _ h.cancel,
      elim (Bool-cases (is_running t)) [ inl up ↦ inl up | inr over ↦ inr (h.verdict over) ],
    )
