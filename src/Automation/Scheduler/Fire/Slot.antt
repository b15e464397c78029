-- ===== src/Automation/Scheduler/Fire/Slot.antt =====
-- A slot that is due is advanced before anything is done about it, and leaves one row (I-AUT-8, I-AUT-10).
use agent_platform_api.Common.{
  then_do_goes, ℕ, ◌<◌, ◌≡◌, refl, ◌∙◌, ap, ◌⊎◌, inl, inr, Text, Bool, true, false, any, none, some,
  List, [], ◌∷◌, ◌++◌, All, All-append, map, Outcome, ◌then_do◌, Result, ok, err, Bool-cases,
}
use agent_platform_api.Automation.Policies.{AutomationError, can_retry}
use agent_platform_api.Automation.Run.{
  AutomationRun, mark_running, queue_retry, finalize, mark_outcome_applied, open_pending,
  open_missed, open_skipped,
}
use agent_platform_api.Automation.Rule.{Automation, advance_trigger}
use agent_platform_api.Automation.Rule.Slots.{advance_trigger_later}
use agent_platform_api.Automation.Decision.{
  TriggerDecision, SkipReason, trigger, fail, missed, skip, retry,
}
use agent_platform_api.Automation.Scheduler.{
  Env, Clock, Scene, Effect, Write, SchedulerError, Publication, commits, creates_sandbox,
  starts_task, finishes_task, audits_disabled, notifies, saves_rule, saves_run, publishes,
  persist_run, commit_outcome, on_run, auth_expired, domain,
}
use agent_platform_api.Automation.Scheduler.Laws.{
  Laws, fail_run-keeps, try_start_sandbox-keeps, mark_running-SameIdentity,
  queue_retry-SameIdentity, finalize-SameIdentity,
}
use agent_platform_api.Automation.Scheduler.Fire.{
  Answers, act, fire_one, advance_then, decided_then, decision_of, open_run, skip_run, notify_skip,
}

-- A run that is written has the identifier.
abbrev pub WritesRun : Text → Write → Type 0
WritesRun id (saves_run run) = run.id ≡ id
WritesRun id (saves_rule rule) = Unit
WritesRun id (publishes publication) = Unit

abbrev pub CommitsRun : Text → Effect → Type 0
CommitsRun id (commits writes) = All (WritesRun id) writes
CommitsRun id _ = Unit

abbrev pub writes_run : Write → Bool
writes_run (saves_run run) = true
writes_run (saves_rule rule) = false
writes_run (publishes publication) = false

-- A transaction that writes a run.
abbrev pub commits_run : Effect → Bool
commits_run (commits writes) = any writes_run writes
commits_run (creates_sandbox input) = false
commits_run (starts_task sandbox_id input) = false
commits_run (finishes_task sandbox_id automation_id name days at) = false
commits_run (audits_disabled id count) = false
commits_run (notifies notice) = false

-- The rule was written first and alone. After it, a run was written at least once, and always under the
-- one identifier.
abbrev pub LeavesRun : Automation → Text → List Effect → Type 0
LeavesRun rule id done =
    (rest : List Effect) × (done ≡ commits (saves_rule rule ∷ []) ∷ rest)
    × All (CommitsRun id) rest
    × (any commits_run rest ≡ true)

any-append {ℓ} :
    {A : Type ℓ} (p : A → Bool) (xs ys : List A) → any p xs ≡ true → any p (xs ++ ys) ≡ true
any-append p [] ys h = cc
any-append p (x ∷ xs) ys h = elim (Bool-cases (p x)) [
  | inl hit ↦ rw hit
  | inr miss ↦ rw miss (any-append p xs ys (rw miss at h))
]

events_only : (id : Text) (ps : List Publication) → All (WritesRun id) (map publishes ps)
events_only id [] = tt
events_only id (p ∷ ps) = (tt, events_only id ps)

module _ (rule : Automation) (id : Text) where
  abbrev IsFired : Scene → Type 0
  IsFired s = LeavesRun rule id s.done × (s.run.id ≡ id)

  LeavesRun-emit :
      (done : List Effect) (e : Effect)
      → CommitsRun id e
      → LeavesRun rule id done
      → LeavesRun rule id (done ++ e ∷ [])
  LeavesRun-emit done e q (rest, eq, runs, some_run) = (
    rest ++ e ∷ [],
    ap (λ xs. xs ++ e ∷ []) eq,
    All-append (CommitsRun id) rest (e ∷ []) runs (q, tt),
    any-append commits_run rest (e ∷ []) some_run,
  )

  IsFired-laws : Laws IsFired IsFired
  unfolding persist_run commit_outcome mark_running queue_retry finalize mark_outcome_applied
      can_retry
  IsFired-laws = record {
    weaken = λ s h. h;
    asks = λ s i h. (LeavesRun-emit s.done (creates_sandbox i) tt h.0, h.1);
    persists = λ s h. (LeavesRun-emit s.done (commits (saves_run s.run ∷ [])) (h.1, tt) h.0, h.1);
    marks = λ s b at h. (h.0, (mark_running-SameIdentity s.run b at).0 ∙ h.1);
    queues = λ s at h. (h.0, (queue_retry-SameIdentity s.run at).0 ∙ h.1);
    finalizes = λ s v at d h. (h.0, (finalize-SameIdentity s.run v at d).0 ∙ h.1);
    records = λ s r e h. h;
    commits = λ clock s h. (LeavesRun-emit s.done _ (h.1, (tt, events_only id _)) h.0, h.1);
    notes = λ s n h. (LeavesRun-emit s.done (notifies n) tt h.0, h.1);
    audits = λ s x n h. (LeavesRun-emit s.done (audits_disabled x n) tt h.0, h.1);
  }

  -- The scene of a run that has just been opened.
  opened-IsFired :
      (clock : Clock) → IsFired (open_run clock id rule (commits (saves_rule rule ∷ []) ∷ []))
  unfolding open_run open_pending
  opened-IsFired clock = ((_, refl, ((tt, (refl, (tt, tt))), tt), refl), refl)

  persisted-IsFired :
      (run : AutomationRun)
      → run.id ≡ id
      → IsFired (
          persist_run
            (record { rule = rule; run = run; done = commits (saves_rule rule ∷ []) ∷ [] }))
  unfolding persist_run
  persisted-IsFired run e = ((_, refl, ((e, tt), tt), refl), e)

  notify_skip-IsFired :
      (reason : SkipReason) (s : Scene) → IsFired s → IsFired (notify_skip reason s)
  unfolding notify_skip
  notify_skip-IsFired SkipReason.previous_running s h = h
  notify_skip-IsFired SkipReason.auth_expired s h =
      IsFired-laws.notes s (auth_expired s.rule s.run) h

  skip_run-IsFired :
      (env : Env) (clock : Clock) (reason : SkipReason)
      → IsFired (skip_run env clock id reason rule (commits (saves_rule rule ∷ []) ∷ []))
  unfolding skip_run open_skipped
  skip_run-IsFired env clock reason = notify_skip-IsFired reason _ (persisted-IsFired _ refl)

  retried-IsFired :
      (clock : Clock) (s : Scene)
      → IsFired s
      → IsFired (on_run s (λ run. queue_retry run clock.now) then_do λ t. (persist_run t, none)).0
  unfolding on_run
  retried-IsFired clock s h =
      then_do_goes IsFired IsFired (on_run s (λ run. queue_retry run clock.now)) _
        (IsFired-laws.queues s clock.now h) (λ t k. k) (λ t k. IsFired-laws.persists t k)

act-LeavesRun :
    (env : Env) (clock : Clock) (answers : Answers) (rule : Automation) (d : TriggerDecision)
    → LeavesRun rule answers.run_id
        (act env clock answers rule (commits (saves_rule rule ∷ []) ∷ []) d).0.done
unfolding act open_missed on_run
act-LeavesRun env clock answers rule missed = (persisted-IsFired rule answers.run_id _ refl).0
act-LeavesRun env clock answers rule (skip reason) =
    (skip_run-IsFired rule answers.run_id env clock reason).0
act-LeavesRun env clock answers rule (retry at) =
    (retried-IsFired rule answers.run_id clock _ (opened-IsFired rule answers.run_id clock)).0
act-LeavesRun env clock answers rule fail =
    (fail_run-keeps (IsFired-laws rule answers.run_id) env clock _ _
      (opened-IsFired rule answers.run_id clock)).0
act-LeavesRun env clock answers rule trigger =
    (try_start_sandbox-keeps (IsFired-laws rule answers.run_id) env clock answers.creation _
      (opened-IsFired rule answers.run_id clock)).0

-- Nothing was done, or the slot moved beyond the present and left its row.
abbrev pub FiresOnce : Clock → Answers → Outcome (List Effect) SchedulerError → Type 0
FiresOnce clock answers (done, thrown) =
    ((done ≡ []) × ((e : SchedulerError) × (thrown ≡ some e)))
    ⊎ ((advanced : Automation) × (slot : ℕ) × (advanced.next_trigger_at ≡ some slot)
        × (clock.now < slot)
        × LeavesRun advanced answers.run_id done)

-- `advanceTrigger` throws, or the slot is later and the rest follows.
advanced-FiresOnce :
    (env : Env) (clock : Clock) (answers : Answers) (d : TriggerDecision) (rule : Automation)
    (o : Outcome Automation AutomationError)
    → (((t : ℕ) × (o.1 ≡ none) × (o.0.next_trigger_at ≡ some t) × (clock.now < t))
        ⊎ ((e : AutomationError) × (o.1 ≡ some e) × (o.0 ≡ rule)))
    → FiresOnce clock answers (advance_then env clock answers d o)
advanced-FiresOnce env clock answers d rule (b, none) (inl (t, fine, slot, later)) =
    inr (b, t, slot, later, act-LeavesRun env clock answers b d)
advanced-FiresOnce env clock answers d rule (b, none) (inr (e, thrown, same)) = cc
advanced-FiresOnce env clock answers d rule (b, some e) h = inl (refl, (domain e, refl))

decided-FiresOnce :
    (env : Env) (clock : Clock) (answers : Answers) (rule : Automation)
    (d : Result SchedulerError TriggerDecision)
    → FiresOnce clock answers (decided_then env clock answers rule d)
decided-FiresOnce env clock answers rule (err e) = inl (refl, (e, refl))
decided-FiresOnce env clock answers rule (ok d) =
    advanced-FiresOnce env clock answers d rule (advance_trigger env.host rule clock.now)
      (advance_trigger_later env.host rule clock.now)

-- Where the rule is not advanced, nothing was done and an error is thrown. Where it is, its new slot is
-- later than the present, it was saved before anything else, and after it a row was saved for this slot,
-- under one identifier only. This holds whatever the collaborators answer, and also where a later step
-- throws.
pub fire_one-FiresOnce :
    (env : Env) (clock : Clock) (answers : Answers) (rule : Automation)
    → FiresOnce clock answers (fire_one env clock answers rule)
unfolding fire_one
fire_one-FiresOnce env clock answers rule =
    decided-FiresOnce env clock answers rule (decision_of env clock answers rule)
