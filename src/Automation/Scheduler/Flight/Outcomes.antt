-- ===== src/Automation/Scheduler/Flight/Outcomes.antt =====
-- A verdict reaches the rule in the transaction that marks it applied.
use agent_platform_api.Common.{
  ℕ, ◌≡◌, refl, ◌∙◌, ◌⊎◌, inl, inr, Text, Bool, true, false, ◌&&◌, any, Option, none, some, List,
  [], ◌∷◌, ◌++◌, All, All-append, Outcome, ◌then_do◌, then_do_goes, Result, ok, err, Bool-cases,
  min, get_or, arith, ◌||◌,
}
use agent_platform_api.Automation.Run.{
  AutomationRun, RunStatus, Verdict, finalize, attach_log, mark_outcome_applied, log_bytes_limit,
  Detail,
}
use agent_platform_api.Automation.Rule.{Automation, AutomationOutcome}
use agent_platform_api.Automation.Scheduler.{
  Env, Clock, Scene, Effect, Write, SchedulerError, commits, creates_sandbox, finishes_task,
  audits_disabled, notifies, saves_rule, saves_run, publishes, persist_run, commit_outcome, on_run,
  run_finished, message_detail, apply_outcome, notify_finished,
}
use agent_platform_api.Automation.Scheduler.Laws.{
  Laws, mark_running-SameIdentity, queue_retry-SameIdentity, finalize-SameIdentity,
  apply_outcome-keeps, fail_run-keeps, queue_or_give_up-keeps,
}
use agent_platform_api.Automation.Scheduler.Fire.{
  TaskOutcome, TaskPhase, provisioning, ready, running, finished, gone,
}
use agent_platform_api.Automation.Scheduler.Flight.{
  FlightAnswers, Touched, counted, with_rule, finish_task, finish_of, start_task_on, start_on,
  start_of, lacks_capacity, run_if_pending, attach_if_given, conclude, finish_or_queue,
  conclude_gone, on_phase, phase_then, advance_one, scene_of, is_pending, outcome_of_verdict,
  on_answer, attach_of,
}

abbrev pub is_verdict : RunStatus → Bool
is_verdict RunStatus.success = true
is_verdict RunStatus.failed = true
is_verdict RunStatus.timeout = true
is_verdict _ = false

-- The row of a run with a verdict that counts as applied to its rule.
abbrev pub writes_applied : Write → Bool
writes_applied (saves_run run) = run.outcome_applied && is_verdict run.status
writes_applied (saves_rule rule) = false
writes_applied (publishes publication) = false

abbrev pub writes_rule : Write → Bool
writes_rule (saves_run run) = false
writes_rule (saves_rule rule) = true
writes_rule (publishes publication) = false

-- A transaction that marks a verdict as applied also writes the rule.
abbrev pub IsAtomic : Effect → Type 0
IsAtomic (commits writes) = (any writes_applied writes ≡ false) ⊎ (any writes_rule writes ≡ true)
IsAtomic _ = Unit

abbrev AllAtomic : Scene → Type 0
AllAtomic s = All IsAtomic s.done

abbrev Unapplied : Scene → Type 0
Unapplied s = AllAtomic s × (s.run.outcome_applied ≡ false)

adds :
    (done : List Effect) (e : Effect)
    → IsAtomic e
    → All IsAtomic done
    → All IsAtomic (done ++ e ∷ [])
adds done e q h = All-append IsAtomic done (e ∷ []) h (q, tt)

row_alone : (applied verdict : Bool) → applied ≡ false → (applied && verdict || false) ≡ false
row_alone applied verdict e = rw e

atomic_laws : Laws Unapplied AllAtomic
unfolding persist_run commit_outcome mark_outcome_applied
atomic_laws = record {
  weaken = λ s h. h.0;
  asks = λ s i h. (adds s.done (creates_sandbox i) tt h.0, h.1);
  persists = λ s h. (
    adds s.done (commits (saves_run s.run ∷ []))
        (inl (row_alone s.run.outcome_applied (is_verdict s.run.status) h.1)) h.0,
    h.1,
  );
  marks = λ s b at h. (h.0, (mark_running-SameIdentity s.run b at).1 ∙ h.1);
  queues = λ s at h. (h.0, (queue_retry-SameIdentity s.run at).1 ∙ h.1);
  finalizes = λ s v at d h. (h.0, (finalize-SameIdentity s.run v at d).1 ∙ h.1);
  records = λ s r e h. h;
  commits = λ clock s h. adds s.done _ (inr refl) h.0;
  notes = λ s n h. adds s.done (notifies n) tt h;
  audits = λ s x n h. adds s.done (audits_disabled x n) tt h;
}

finish_of-Unapplied :
    (rejects sandbox_id : Option Text) (completed_at : Option ℕ) (s : Scene)
    → Unapplied s
    → Unapplied (finish_of sandbox_id completed_at rejects s).0
unfolding finish_of
finish_of-Unapplied rejects none completed_at s h = h
finish_of-Unapplied rejects (some b) none s h = h
finish_of-Unapplied rejects (some b) (some at) s h =
    (adds s.done (finishes_task b s.rule.id s.rule.name s.rule.retention_days at) tt h.0, h.1)

finish-Unapplied :
    (rejects : Option Text) (s : Scene) → Unapplied s → Unapplied (finish_task rejects s).0
unfolding finish_task
finish-Unapplied rejects s h = finish_of-Unapplied rejects s.run.sandbox_id s.run.completed_at s h

attach_log-applied :
    (run : AutomationRun) (path : Text) (n : ℕ)
    → (attach_log run path n).0.outcome_applied ≡ run.outcome_applied
unfolding attach_log
attach_log-applied run path n = ground arith

module _ (env : Env) (clock : Clock) (answers : FlightAnswers) where
  run_if_pending-Unapplied :
      (b : Text) (s : Scene) → Unapplied s → Unapplied (run_if_pending clock b s).0
  unfolding run_if_pending on_run
  run_if_pending-Unapplied b s h = elim (Bool-cases (is_pending s.run.status)) [
    | inl waits ↦ rw waits (atomic_laws.marks s b clock.acted_at h)
    | inr goes ↦ rw goes h
  ]

  attach_of-Unapplied :
      (path : Option Text) (bytes : ℕ) (s : Scene)
      → Unapplied s
      → Unapplied (attach_of path bytes s).0
  unfolding attach_of on_run
  attach_of-Unapplied none bytes s h = h
  attach_of-Unapplied (some path) bytes s h =
      (h.0, attach_log-applied s.run path (min bytes log_bytes_limit) ∙ h.1)

  -- The last steps of a run with a verdict: its row, the sandbox, the rule, the notice.
  concluded-AllAtomic :
      (verdict : AutomationOutcome) (o : Outcome Scene SchedulerError)
      → Unapplied o.0
      → AllAtomic
          (o
            then_do (λ t. (persist_run t, none))
            then_do finish_task answers.finish_rejects
            then_do apply_outcome env clock verdict
            then_do notify_finished).0
  concluded-AllAtomic verdict o h =
      let saved =
        then_do_goes Unapplied Unapplied o (λ t. (persist_run t, none)) h (λ t k. k)
          (λ t k. atomic_laws.persists t k) in
      let closed =
        then_do_goes Unapplied Unapplied (o then_do (λ t. (persist_run t, none)))
          (finish_task answers.finish_rejects) saved (λ t k. k)
          (λ t k. finish-Unapplied answers.finish_rejects t k) in
      let applied =
        then_do_goes Unapplied AllAtomic
          (o then_do (λ t. (persist_run t, none)) then_do finish_task answers.finish_rejects)
          (apply_outcome env clock verdict) closed (λ t k. k.0)
          (λ t k. apply_outcome-keeps atomic_laws env clock verdict t k) in
      then_do_goes AllAtomic AllAtomic _ notify_finished applied (λ t k. k)
        (λ t k. atomic_laws.notes t (run_finished t.rule t.run) k)

  start_of-AllAtomic :
      (rejects : Option Text) (s : Scene)
      → Unapplied s
      → AllAtomic (start_of env clock answers rejects s).0
  unfolding start_of on_run
  start_of-AllAtomic none s h = h.0
  start_of-AllAtomic (some message) s h =
      concluded-AllAtomic AutomationOutcome.failed
        (on_run s (λ run. finalize run Verdict.failed clock.acted_at (message_detail message)))
        (atomic_laws.finalizes s Verdict.failed clock.acted_at (message_detail message) h)

  start_on-AllAtomic :
      (sandbox_id : Option Text) (s : Scene)
      → Unapplied s
      → AllAtomic (start_on env clock answers sandbox_id s).0
  start_on-AllAtomic none s h = h.0
  start_on-AllAtomic (some b) s h =
      start_of-AllAtomic answers.start_rejects _ (adds s.done _ tt h.0, h.1)

  conclude-AllAtomic :
      (b : Text) (outcome : TaskOutcome) (s : Scene)
      → Unapplied s
      → AllAtomic (conclude env clock answers b outcome s).0
  unfolding conclude on_run attach_if_given
  conclude-AllAtomic b outcome s h =
      let d : Detail = record {
        error_code = none;
        error_message = outcome.error_message;
        output_summary = answers.summary;
      } in
      let going = run_if_pending-Unapplied b s h in
      let logged =
        then_do_goes Unapplied Unapplied (run_if_pending clock b s) (attach_if_given outcome) going
          (λ t k. k)
          (λ t k. attach_of-Unapplied outcome.log_path (get_or outcome.log_bytes 0) t k) in
      let final =
        then_do_goes Unapplied Unapplied (run_if_pending clock b s then_do attach_if_given outcome)
          (λ t. on_run t (λ run. finalize run outcome.status clock.acted_at d)) logged (λ t k. k)
          (λ t k. atomic_laws.finalizes t outcome.status clock.acted_at d k) in
      concluded-AllAtomic (outcome_of_verdict outcome.status)
        (run_if_pending clock b s
          then_do attach_if_given outcome
          then_do (λ t. on_run t (λ run. finalize run outcome.status clock.acted_at d)))
        final

  finish_or_queue-AllAtomic :
      (b : Text) (outcome : TaskOutcome) (s : Scene)
      → Unapplied s
      → AllAtomic (finish_or_queue env clock answers b outcome s).0
  unfolding finish_or_queue
  finish_or_queue-AllAtomic b outcome s h =
      elim (Bool-cases (lacks_capacity answers.capacity_codes outcome)) [
        | inl lacks ↦ rw lacks (queue_or_give_up-keeps atomic_laws env clock s h)
        | inr ended ↦ rw ended (conclude-AllAtomic b outcome s h)
      ]

  conclude_gone-AllAtomic :
      (b : Text) (s : Scene) → Unapplied s → AllAtomic (conclude_gone env clock b s).0
  unfolding conclude_gone
  conclude_gone-AllAtomic b s h =
      then_do_goes Unapplied AllAtomic (run_if_pending clock b s) _ (run_if_pending-Unapplied b s h)
        (λ t k. k.0)
        (λ t k. fail_run-keeps atomic_laws env clock (message_detail env.wording.sandbox_gone) t k)

  counted-AllAtomic :
      (n : ℕ) (o : Outcome Scene SchedulerError) → AllAtomic o.0 → All IsAtomic (counted n o).0.0
  counted-AllAtomic n (s, none) h = h
  counted-AllAtomic n (s, some e) h = h

  with_rule-AllAtomic :
      (found : Result Text (Option Automation)) (body : Automation → Touched)
      → ((rule : Automation) → All IsAtomic (body rule).0.0)
      → All IsAtomic (with_rule found body).0.0
  with_rule-AllAtomic (err message) body h = tt
  with_rule-AllAtomic (ok none) body h = tt
  with_rule-AllAtomic (ok (some rule)) body h = h rule

  on_phase-AllAtomic :
      (run : AutomationRun) (b : Text) (phase : TaskPhase)
      → run.outcome_applied ≡ false
      → All IsAtomic (on_phase env clock answers run b phase).0.0
  unfolding on_phase start_task_on
  on_phase-AllAtomic run b provisioning e = tt
  on_phase-AllAtomic run b running e = tt
  on_phase-AllAtomic run b ready e = with_rule-AllAtomic answers.rule _ (λ rule.
      counted-AllAtomic 1 (start_on env clock answers run.sandbox_id (scene_of run rule))
        (start_on-AllAtomic run.sandbox_id (scene_of run rule) (tt, e)))
  on_phase-AllAtomic run b (finished outcome) e = with_rule-AllAtomic answers.rule _ (λ rule.
      counted-AllAtomic 1 (finish_or_queue env clock answers b outcome (scene_of run rule))
        (finish_or_queue-AllAtomic b outcome (scene_of run rule) (tt, e)))
  on_phase-AllAtomic run b gone e = with_rule-AllAtomic answers.rule _ (λ rule.
      counted-AllAtomic 1 (conclude_gone env clock b (scene_of run rule))
        (conclude_gone-AllAtomic b (scene_of run rule) (tt, e)))

  asked_phase-AllAtomic :
      (run : AutomationRun) (b : Text) (phase : Result Text TaskPhase)
      → run.outcome_applied ≡ false
      → All IsAtomic (on_answer env clock answers run b phase).0.0
  asked_phase-AllAtomic run b (err message) e = tt
  asked_phase-AllAtomic run b (ok phase) e = on_phase-AllAtomic run b phase e

  phase_then-AllAtomic :
      (run : AutomationRun) (sandbox_id : Option Text)
      → run.outcome_applied ≡ false
      → All IsAtomic (phase_then env clock answers run sandbox_id).0.0
  phase_then-AllAtomic run none e = tt
  phase_then-AllAtomic run (some b) e = asked_phase-AllAtomic run b answers.phase e

-- Whatever phase the sandbox of a run is in and whatever the collaborators answer: a transaction that
-- marks a verdict of the run as applied also writes the rule, so that neither is stored without the
-- other. The run is one whose outcome has not been applied.
pub advance_one-IsAtomic :
    (env : Env) (clock : Clock) (answers : FlightAnswers) (run : AutomationRun)
    → run.outcome_applied ≡ false
    → All IsAtomic (advance_one env clock answers run).0.0
unfolding advance_one
advance_one-IsAtomic env clock answers run e =
    phase_then-AllAtomic env clock answers run run.sandbox_id e
