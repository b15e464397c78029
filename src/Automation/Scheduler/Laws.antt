-- ===== src/Automation/Scheduler/Laws.antt =====
-- A rule of proof for the scripts of the scheduler: a property `P` of the scene that each step keeps,
-- up to the transaction that applies the outcome, after which `R` holds.
use agent_platform_api.Common.{
  ℕ, ◌≡◌, Text, Bool, true, false, none, some, Outcome, ◌then_do◌, then_do_goes, Bool-cases, inl,
  inr, arith,
}
use agent_platform_api.Automation.Policies.{
  AutomationError, can_retry, should_degrade, should_disable,
}
use agent_platform_api.Automation.Run.{
  AutomationRun, Verdict, Detail, mark_running, queue_retry, finalize, is_terminal,
}
use agent_platform_api.Automation.Rule.{
  Automation, AutomationOutcome, record_outcome, recompute_future_trigger,
}
use agent_platform_api.Automation.Scheduler.{
  Env, Clock, Scene, Creation, LaunchInput, Notice, creates_sandbox, notifies, audits_disabled,
  state_changed, run_finished, emit, on_run, on_rule, persist_run, commit_outcome, report_outcome,
  apply_outcome, notify_finished, fail_run, queue_or_give_up, try_start_sandbox, settle_creation,
  settle_start, made, exhausted, broken, launch_input, message_detail, audit_unless,
}

abbrev with_run : Scene → AutomationRun → Scene
with_run s run = record s { run = run }

pub record Laws (P R : Scene → Type 0) : Type 0 where
  pub weaken : (s : Scene) → P s → R s
  pub asks : (s : Scene) (i : LaunchInput) → P s → P (emit s (creates_sandbox i))
  pub persists : (s : Scene) → P s → P (persist_run s)
  pub marks :
      (s : Scene) (b : Text) (at : ℕ) → P s → P (record s { run = (mark_running s.run b at).0 })
  pub queues : (s : Scene) (at : ℕ) → P s → P (record s { run = (queue_retry s.run at).0 })
  pub finalizes :
      (s : Scene) (v : Verdict) (at : ℕ) (d : Detail)
      → P s
      → P (record s { run = (finalize s.run v at d).0 })
  pub records :
      (s : Scene) (rule : Automation) → rule.id ≡ s.rule.id → P s → P (record s { rule = rule })
  pub commits : (clock : Clock) (s : Scene) → P s → R (commit_outcome clock s)
  pub notes : (s : Scene) (n : Notice) → R s → R (emit s (notifies n))
  pub audits : (s : Scene) (id : Text) (n : ℕ) → R s → R (emit s (audits_disabled id n))

-- The identity of a run, its retries aside, and whether its outcome was applied.
abbrev pub SameIdentity : AutomationRun → AutomationRun → Type 0
SameIdentity a b = (b.id ≡ a.id) × (b.outcome_applied ≡ a.outcome_applied)

pub mark_running-SameIdentity :
    (run : AutomationRun) (b : Text) (at : ℕ) → SameIdentity run (mark_running run b at).0
unfolding mark_running is_terminal
mark_running-SameIdentity run b at = ground arith

pub queue_retry-SameIdentity :
    (run : AutomationRun) (at : ℕ) → SameIdentity run (queue_retry run at).0
unfolding queue_retry is_terminal
queue_retry-SameIdentity run at = ground arith

pub finalize-SameIdentity :
    (run : AutomationRun) (v : Verdict) (at : ℕ) (d : Detail)
    → SameIdentity run (finalize run v at d).0
unfolding finalize is_terminal
finalize-SameIdentity run v at d = ground arith

-- No outcome changes the identity of the rule.
record_outcome-id :
    (env : Env) (a : Automation) (o : AutomationOutcome) (at : ℕ)
    → (record_outcome env.host a o at).0.id ≡ a.id
unfolding record_outcome recompute_future_trigger should_degrade should_disable
record_outcome-id env a o at = ground arith

module _ {P R : Scene → Type 0} (laws : Laws P R) where
  audit_unless-keeps : (enabled : Bool) (s : Scene) → R s → R (audit_unless enabled s)
  unfolding audit_unless
  audit_unless-keeps true s h = h
  audit_unless-keeps false s h = laws.audits s s.rule.id s.rule.failure_count h

  report-keeps : (s : Scene) → R s → R (report_outcome s)
  unfolding report_outcome
  report-keeps s h = laws.notes _ (state_changed s.rule) (audit_unless-keeps s.rule.enabled s h)

  pub apply_outcome-keeps :
      (env : Env) (clock : Clock) (o : AutomationOutcome) (s : Scene)
      → P s
      → R (apply_outcome env clock o s).0
  unfolding apply_outcome on_rule
  apply_outcome-keeps env clock o s h =
      then_do_goes P R (on_rule s (λ rule. record_outcome env.host rule o clock.applied_at)) _
        (laws.records s _ (record_outcome-id env s.rule o clock.applied_at) h) laws.weaken
        (λ t k. report-keeps _ (laws.commits clock t k))

  pub fail_run-keeps :
      (env : Env) (clock : Clock) (d : Detail) (s : Scene) → P s → R (fail_run env clock d s).0
  unfolding fail_run on_run
  fail_run-keeps env clock d s h =
      then_do_goes R R
        (on_run s (λ run. finalize run Verdict.failed clock.acted_at d)
          then_do apply_outcome env clock AutomationOutcome.failed)
        notify_finished
        (then_do_goes P R (on_run s (λ run. finalize run Verdict.failed clock.acted_at d))
          (apply_outcome env clock AutomationOutcome.failed)
          (laws.finalizes s Verdict.failed clock.acted_at d h) laws.weaken
          (λ t k. apply_outcome-keeps env clock AutomationOutcome.failed t k))
        (λ t k. k) (λ t k. laws.notes t (run_finished t.rule t.run) k)

  pub queue_or_give_up-keeps :
      (env : Env) (clock : Clock) (s : Scene) → P s → R (queue_or_give_up env clock s).0
  unfolding queue_or_give_up on_run
  queue_or_give_up-keeps env clock s h = elim (Bool-cases (can_retry s.run.retry_count)) [
    | inr used ↦ rw used (fail_run-keeps env clock _ s h)
    | inl left ↦ rw left (
        then_do_goes P R (on_run s (λ run. queue_retry run clock.acted_at)) _
          (laws.queues s clock.acted_at h) laws.weaken (λ t k. laws.weaken _ (laws.persists t k)))
  ]

  settle_start-keeps :
      (env : Env) (clock : Clock) (s : Scene) (o : Outcome AutomationRun AutomationError)
      → P (record s { run = o.0 })
      → R (settle_start env clock o s).0
  unfolding settle_start
  settle_start-keeps env clock s (run, none) h = laws.weaken _ (laws.persists _ h)
  settle_start-keeps env clock s (run, some e) h = fail_run-keeps env clock _ _ h

  pub try_start_sandbox-keeps :
      (env : Env) (clock : Clock) (c : Creation) (s : Scene)
      → P s
      → R (try_start_sandbox env clock c s).0
  unfolding try_start_sandbox settle_creation
  try_start_sandbox-keeps env clock (made b) s h =
      settle_start-keeps env clock (emit s (creates_sandbox (launch_input s.rule)))
        (mark_running s.run b clock.acted_at)
        (laws.marks _ b clock.acted_at (laws.asks s (launch_input s.rule) h))
  try_start_sandbox-keeps env clock exhausted s h =
      queue_or_give_up-keeps env clock _ (laws.asks s (launch_input s.rule) h)
  try_start_sandbox-keeps env clock (broken message) s h =
      fail_run-keeps env clock (message_detail message) _ (laws.asks s (launch_input s.rule) h)
