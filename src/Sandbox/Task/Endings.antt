-- ===== src/Sandbox/Task/Endings.antt =====
-- A task ends once, and announces its end once.
use agent_platform_api.Common.{
  ℕ, ◌≡◌, refl, ◌∙◌, ap, ◌⊎◌, inl, inr, Text, true, ltb, ◌==◌, length, none, some, is_none, List,
  [], ◌∷◌, ◌++◌, All, Bool-cases,
}
use agent_platform_api.Sandbox.Task.{
  AgentTask, Call, StartInput, FinishInput, start, step, run_calls, advance, bind_session_ref,
  request_cancel, finish, close, is_running, is_terminal_task_status, is_other_session,
  task_status_index, advances, binds_session_ref, requests_cancel, finishes, running, started,
  finished,
}

-- The callers of `finish` pass a terminal status, `running` is none.
abbrev pub IsVerdict : Call → Type 0
IsVerdict (finishes input) = is_terminal_task_status input.status ≡ true
IsVerdict _ = Unit

-- The events of a task are its start and, once it is no longer running, its end, which agrees with
-- the row.
abbrev pub IsAnnounced : StartInput → AgentTask → Type 0
IsAnnounced input t =
    let begin = started input.id input.sandbox_id input.runtime input.resume_from input.now in
    ((t.status ≡ running) × (t.finished_at ≡ none) × (t.events ≡ begin ∷ []))
    ⊎ ((at : ℕ) × (is_terminal_task_status t.status ≡ true)
        × (t.finished_at ≡ some at)
        × (t.events ≡ begin ∷ finished input.id input.sandbox_id t.status t.exit_code at ∷ []))

-- The fields of which `IsAnnounced` speaks.
abbrev IsOf : StartInput → AgentTask → Type 0
IsOf input t = (t.id ≡ input.id) × (t.sandbox_id ≡ input.sandbox_id) × IsAnnounced input t

module _ (input : StartInput) where
  advance-announced :
      (t : AgentTask) (cursor : Text) (last_seq stdout_bytes : ℕ)
      → IsOf input t
      → IsOf input (advance t cursor last_seq stdout_bytes).0
  unfolding advance
  advance-announced t cursor last_seq stdout_bytes h = elim (Bool-cases (ltb last_seq t.last_seq)) [
    | inl back ↦ rw back h
    | inr on ↦ elim (Bool-cases (ltb stdout_bytes t.stdout_bytes)) [
      | inl less ↦ rw on (rw less h)
      | inr more ↦ rw on (rw more h)
    ]
  ]

  bind-announced :
      (t : AgentTask) (ref : Text) → IsOf input t → IsOf input (bind_session_ref t ref).0
  unfolding bind_session_ref
  bind-announced t ref h = elim (Bool-cases (length ref == 0)) [
    | inl empty ↦ rw empty h
    | inr given ↦ elim (Bool-cases (is_other_session t.session_ref ref)) [
      | inl other ↦ rw given (rw other h)
      | inr same ↦ rw given (rw same h)
    ]
  ]

  cancel-announced : (t : AgentTask) (now : ℕ) → IsOf input t → IsOf input (request_cancel t now).0
  unfolding request_cancel
  cancel-announced t now h = elim (Bool-cases (is_running t)) [
    | inr over ↦ rw over h
    | inl up ↦ elim (Bool-cases (is_none t.cancel_requested_at)) [
      | inr again ↦ rw up (rw again h)
      | inl first ↦ rw up (rw first h)
    ]
  ]

  close-announced :
      (t : AgentTask) (f : FinishInput)
      → is_running t ≡ true
      → is_terminal_task_status f.status ≡ true
      → IsOf input t
      → IsOf input (close t f)
  close-announced t f up v (i, s, inl (r, n, e)) = (
    i,
    s,
    inr (
      f.now,
      v,
      refl,
      ap (λ es. es ++ finished t.id t.sandbox_id f.status f.exit_code f.now ∷ []) e
          ∙ rw i (rw s refl),
    ),
  )
  close-announced t f up v (i, s, inr (at, over, n, e)) = (let u = rw over at up in cc)

  finish-announced :
      (t : AgentTask) (f : FinishInput)
      → is_terminal_task_status f.status ≡ true
      → IsOf input t
      → IsOf input (finish t f).0
  unfolding finish
  finish-announced t f v h = elim (Bool-cases (is_running t)) [
    | inl up ↦ rw up (close-announced t f up v h)
    | inr over ↦ elim (Bool-cases (task_status_index t.status == task_status_index f.status)) [
      | inl same ↦ rw over (rw same h)
      | inr other ↦ rw over (rw other h)
    ]
  ]

  step-announced : (t : AgentTask) (c : Call) → IsVerdict c → IsOf input t → IsOf input (step t c).0
  unfolding step
  step-announced t (advances cursor last_seq stdout_bytes) v h =
      advance-announced t cursor last_seq stdout_bytes h
  step-announced t (binds_session_ref ref) v h = bind-announced t ref h
  step-announced t (requests_cancel now) v h = cancel-announced t now h
  step-announced t (finishes f) v h = finish-announced t f v h

  run-announced :
      (t : AgentTask) (cs : List Call)
      → All IsVerdict cs
      → IsOf input t
      → IsOf input (run_calls t cs)
  unfolding run_calls
  run-announced t [] v h = h
  run-announced t (c ∷ cs) v h = run-announced (step t c).0 cs v.1 (step-announced t c v.0 h)

-- After any calls on a task that was started, with errors or without, each `finish` with a terminal
-- status: either it is running, has no end and announced its start alone, or it has ended, and
-- announced its start and then its end once, with the status, exit code and time of the row.
pub start-IsAnnounced :
    (input : StartInput) (cs : List Call)
    → All IsVerdict cs
    → IsAnnounced input (run_calls (start input) cs)
unfolding start
start-IsAnnounced input cs v =
    (run-announced input (start input) cs v (refl, refl, inl (refl, refl, refl))).2
