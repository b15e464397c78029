-- ===== src/Automation/Decision/Table.antt =====
-- The decision table: when each row applies.
use agent_platform_api.Common.{
  ℕ, ◌+◌, ◌*◌, ◌≤◌, ◌<◌, ◌≡◌, ◌⊎◌, ◌↔◌, inl, inr, true, false, ◌&&◌, some, get_or, arith,
  Bool-cases, minute_ms, Option-cases, not_of, if◌then◌else◌,
}
use agent_platform_api.Automation.Policies.{
  default_missed_threshold_min, max_attempts, retry_interval_ms, can_retry, next_attempt_at,
}
use agent_platform_api.Automation.Run.{AutomationRun, is_terminal}
use agent_platform_api.Automation.Decision.{
  TriggerDecision, TriggerDecisionInput, SchedulingDecision, trigger, fail, missed, skip, retry,
  previous_running, auth_expired, absent, expired, available, is_open, decide, is_missed,
  is_unusable, is_exhausted, retries_of,
}

module _ (input : TriggerDecisionInput) where
  open input use {
    automation, previous_run, previous_task_active, credential_state, scheduling_decision, now,
  }

  abbrev threshold : ℕ
  threshold = get_or input.missed_threshold_min default_missed_threshold_min * minute_ms

  -- The slot is more than the threshold overdue.
  abbrev pub Overdue : Type 0
  Overdue = (due : ℕ) × (automation.next_trigger_at ≡ some due) × (due + threshold < now)

  -- The previous run is not terminal and its task goes on.
  abbrev pub Busy : Type 0
  Busy =
      (run : AutomationRun) × (previous_run ≡ some run)
      × (is_terminal run ≡ false)
      × (previous_task_active ≡ true)

  abbrev pub Unauthorised : Type 0
  Unauthorised = (credential_state ≡ absent) ⊎ (credential_state ≡ expired)

  -- The previous run is not terminal and has used up its retries.
  abbrev pub UsedUp : Type 0
  UsedUp =
      (run : AutomationRun) × (previous_run ≡ some run)
      × (is_terminal run ≡ false)
      × (max_attempts ≤ run.retry_count)

  -- The table as a relation: a row applies where its condition holds and no earlier one does.
  pub data Row : TriggerDecision → Type 0 where
    downtime : Overdue → Row missed
    still_running : ¬ Overdue → Busy → Row (skip previous_running)
    no_credential : ¬ Overdue → ¬ Busy → Unauthorised → Row (skip auth_expired)
    give_up :
        ¬ Overdue
        → ¬ Busy
        → ¬ Unauthorised
        → scheduling_decision ≡ SchedulingDecision.resource_exhausted
        → UsedUp
        → Row fail
    wait :
        ¬ Overdue
        → ¬ Busy
        → ¬ Unauthorised
        → scheduling_decision ≡ SchedulingDecision.resource_exhausted
        → ¬ UsedUp
        → Row (retry (now + retry_interval_ms))
    go : ¬ Overdue → ¬ Busy → ¬ Unauthorised → scheduling_decision ≡ available → Row trigger

  overdue_of :
      is_missed automation.next_trigger_at now
          (get_or input.missed_threshold_min default_missed_threshold_min)
        ≡ true
      → Overdue
  unfolding is_missed
  overdue_of h = elim (Option-cases automation.next_trigger_at) [
    | inl e ↦ absurd (ground arith)
    | inr (due, e) ↦ (due, e, ground arith)
  ]

  of_overdue :
      Overdue
      → is_missed automation.next_trigger_at now
          (get_or input.missed_threshold_min default_missed_threshold_min)
        ≡ true
  unfolding is_missed
  of_overdue (due, e, late) = ground arith

  busy_of : (is_open previous_run && previous_task_active) ≡ true → Busy
  busy_of h = elim (Option-cases previous_run) [
    | inl e ↦ absurd (ground arith)
    | inr (run, e) ↦ (run, e, ground arith, ground arith)
  ]

  of_busy : Busy → (is_open previous_run && previous_task_active) ≡ true
  of_busy (run, e, running, active) = ground arith

  unauthorised_iff : (is_unusable credential_state ≡ true) ↔ Unauthorised
  unauthorised_iff = (λ h. ground arith, λ h. ground arith)

  exhausted_iff :
      (is_exhausted scheduling_decision ≡ true)
      ↔ (scheduling_decision ≡ SchedulingDecision.resource_exhausted)
  exhausted_iff = (λ h. ground arith, λ h. ground arith)

  used_up_of : can_retry (retries_of previous_run) ≡ false → UsedUp
  unfolding can_retry
  used_up_of h = elim (Option-cases previous_run) [
    | inl e ↦ absurd (ground arith)
    | inr (run, e) ↦ (run, e, ground arith, ground arith)
  ]

  of_used_up : UsedUp → can_retry (retries_of previous_run) ≡ false
  unfolding can_retry
  of_used_up (run, e, running, spent) = ground arith

  -- Rows 3 and 4, once the rows above are ruled out.
  decide_capacity :
      ¬ Overdue
      → ¬ Busy
      → ¬ Unauthorised
      → Row (
          if is_exhausted scheduling_decision
          then (if can_retry (retries_of previous_run) then retry (next_attempt_at now) else fail)
          else trigger)
  unfolding next_attempt_at
  decide_capacity o b u = elim (Bool-cases (is_exhausted scheduling_decision)) [
    | inl full ↦ rw full (elim (Bool-cases (can_retry (retries_of previous_run))) [
      | inl again ↦ rw again (wait o b u (exhausted_iff.0 full) (λ p. let t = of_used_up p in cc))
      | inr spent ↦ rw spent (give_up o b u (exhausted_iff.0 full) (used_up_of spent))
    ])
    | inr room ↦ rw room (go o b u (ground arith))
  ]

  -- The decision that the code takes is that of the first row of the table whose condition holds.
  pub decide-Row : Row (decide input)
  unfolding decide
  decide-Row =
      elim (Bool-cases (
        is_missed automation.next_trigger_at now
          (get_or input.missed_threshold_min default_missed_threshold_min))) [
            | inl late ↦ rw late (downtime (overdue_of late))
            | inr in_time ↦
                rw in_time (elim (Bool-cases (is_open previous_run && previous_task_active)) [
                  | inl busy ↦ rw busy (still_running (not_of of_overdue in_time) (busy_of busy))
                  | inr idle ↦ rw idle (elim (Bool-cases (is_unusable credential_state)) [
                    | inl bad ↦ rw bad (
                        no_credential (not_of of_overdue in_time) (not_of of_busy idle)
                          (unauthorised_iff.0 bad))
                    | inr good ↦ rw good (
                        decide_capacity (not_of of_overdue in_time) (not_of of_busy idle)
                          (not_of unauthorised_iff.1 good))
                  ])
                ])
          ]
