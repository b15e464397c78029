-- ===== src/Automation/Scheduler/Fire/Shortage.antt =====
-- A shortage of capacity is not a failure of the rule (I-AUT-1).
use agent_platform_api.Common.{
  ℕ, ◌≡◌, ◌≢◌, refl, ap, Text, none, some, List, [], ◌∷◌, ◌++◌, All, All-append, Outcome, ◌then_do◌,
  then_do_goes, Result, ok, err, arith,
}
use agent_platform_api.Automation.Policies.{can_retry, AutomationError}
use agent_platform_api.Automation.Run.{queue_retry, open_pending}
use agent_platform_api.Automation.Rule.{Automation, advance_trigger, mark_triggered}
use agent_platform_api.Automation.Decision.{
  TriggerDecision, SkipReason, trigger, fail, missed, skip, retry,
}
use agent_platform_api.Automation.Scheduler.{
  Env, Clock, Scene, Effect, Write, SchedulerError, exhausted, commits, creates_sandbox, notifies,
  saves_rule, saves_run, publishes, persist_run, try_start_sandbox, settle_creation,
  queue_or_give_up, on_run,
}
use agent_platform_api.Automation.Scheduler.Fire.{
  Answers, act, fire_one, advance_then, decided_then, decision_of, open_run, skip_run, notify_skip,
}

-- A rule that is written has the count.
abbrev pub WritesCount : ℕ → Write → Type 0
WritesCount n (saves_rule rule) = rule.failure_count ≡ n
WritesCount n (saves_run run) = Unit
WritesCount n (publishes publication) = Unit

abbrev pub KeepsCount : ℕ → Effect → Type 0
KeepsCount n (commits writes) = All (WritesCount n) writes
KeepsCount n _ = Unit

module _ (n : ℕ) where
  abbrev Keeps : List Effect → Type 0
  Keeps done = All (KeepsCount n) done

  Keeps-emit :
      (done : List Effect) (e : Effect) → KeepsCount n e → Keeps done → Keeps (done ++ e ∷ [])
  Keeps-emit done e q h = All-append (KeepsCount n) done (e ∷ []) h (q, tt)

  queued-Keeps :
      (at : ℕ) (s : Scene)
      → Keeps s.done
      → Keeps (on_run s (λ run. queue_retry run at) then_do λ t. (persist_run t, none)).0.done
  unfolding on_run persist_run
  queued-Keeps at s h =
      then_do_goes (λ t. Keeps t.done) (λ t. Keeps t.done) (on_run s (λ run. queue_retry run at))
        (λ t. (persist_run t, none)) h (λ t k. k)
        (λ t k. Keeps-emit t.done (commits (saves_run t.run ∷ [])) (tt, tt) k)

  opened-Keeps :
      (clock : Clock) (id : Text) (rule : Automation) (done : List Effect)
      → rule.failure_count ≡ n
      → Keeps done
      → Keeps (open_run clock id rule done).done
  unfolding open_run mark_triggered
  opened-Keeps clock id rule done e h = Keeps-emit done _ (e, (tt, (tt, tt))) h

  -- A run that has just been opened has all its retries.
  exhausted-Keeps :
      (env : Env) (clock : Clock) (id : Text) (rule : Automation) (done : List Effect)
      → rule.failure_count ≡ n
      → Keeps done
      → Keeps (try_start_sandbox env clock exhausted (open_run clock id rule done)).0.done
  unfolding try_start_sandbox settle_creation queue_or_give_up open_run open_pending can_retry
      mark_triggered
  exhausted-Keeps env clock id rule done e h =
      queued-Keeps clock.acted_at _
        (Keeps-emit _ (creates_sandbox _) tt (Keeps-emit done _ (e, (tt, (tt, tt))) h))

  skipped-Keeps :
      (env : Env) (clock : Clock) (id : Text) (reason : SkipReason) (rule : Automation)
      (done : List Effect)
      → Keeps done
      → Keeps (skip_run env clock id reason rule done).done
  unfolding skip_run notify_skip persist_run
  skipped-Keeps env clock id SkipReason.previous_running rule done h =
      Keeps-emit done (commits _) (tt, tt) h
  skipped-Keeps env clock id SkipReason.auth_expired rule done h =
      Keeps-emit _ (notifies _) tt (Keeps-emit done (commits _) (tt, tt) h)

  act-Keeps :
      (env : Env) (clock : Clock) (answers : Answers) (rule : Automation) (done : List Effect)
      (d : TriggerDecision)
      → answers.creation ≡ exhausted
      → d ≢ fail
      → rule.failure_count ≡ n
      → Keeps done
      → Keeps (act env clock answers rule done d).0.done
  unfolding act persist_run
  act-Keeps env clock answers rule done missed c f e h = Keeps-emit done (commits _) (tt, tt) h
  act-Keeps env clock answers rule done (skip reason) c f e h =
      skipped-Keeps env clock answers.run_id reason rule done h
  act-Keeps env clock answers rule done (retry at) c f e h =
      queued-Keeps clock.now _ (opened-Keeps clock answers.run_id rule done e h)
  act-Keeps env clock answers rule done fail c f e h = absurd (f refl)
  act-Keeps env clock answers rule done trigger c f e h =
      rw c (exhausted-Keeps env clock answers.run_id rule done e h)

advanced-Keeps :
    (env : Env) (clock : Clock) (answers : Answers) (n : ℕ) (d : TriggerDecision)
    (o : Outcome Automation AutomationError)
    → answers.creation ≡ exhausted
    → d ≢ fail
    → o.0.failure_count ≡ n
    → Keeps n (advance_then env clock answers d o).0
advanced-Keeps env clock answers n d (rule, none) c f e =
    act-Keeps n env clock answers rule _ d c f e ((e, tt), tt)
advanced-Keeps env clock answers n d (rule, some thrown) c f e = tt

advance_trigger-failure_count :
    (env : Env) (rule : Automation) (now : ℕ)
    → (advance_trigger env.host rule now).0.failure_count ≡ rule.failure_count
unfolding advance_trigger
advance_trigger-failure_count env rule now = ground arith

ok_fail :
    {d : TriggerDecision}
    → d ≡ fail
    → ◌≡◌ {A = Result SchedulerError TriggerDecision} (ok d) (ok fail)
ok_fail e = ap ok e

decided-Keeps :
    (env : Env) (clock : Clock) (answers : Answers) (rule : Automation)
    (d : Result SchedulerError TriggerDecision)
    → answers.creation ≡ exhausted
    → d ≢ ok fail
    → Keeps rule.failure_count (decided_then env clock answers rule d).0
decided-Keeps env clock answers rule (err e) c f = tt
decided-Keeps env clock answers rule (ok d) c f =
    advanced-Keeps env clock answers rule.failure_count d (advance_trigger env.host rule clock.now)
      c (λ e. f (ok_fail e)) (advance_trigger-failure_count env rule clock.now)

-- Where no sandbox can be had for lack of capacity, and the decision is not to give up after the last
-- retry, every state of the rule that is saved has the failure count that the rule had: the shortage is
-- not counted.
pub fire_one-KeepsCount :
    (env : Env) (clock : Clock) (answers : Answers) (rule : Automation)
    → answers.creation ≡ exhausted
    → decision_of env clock answers rule ≢ ok fail
    → All (KeepsCount rule.failure_count) (fire_one env clock answers rule).0
unfolding fire_one
fire_one-KeepsCount env clock answers rule c f =
    decided-Keeps env clock answers rule (decision_of env clock answers rule) c f
