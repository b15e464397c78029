-- ===== src/Automation/Scheduler/Sweep.antt =====
-- `runOnce` and its three stages, `noteSkipped` and `forgetHealedSkips` of
-- packages/modules/automation/src/application/automation.scheduler.ts.
--
-- The rows that the repositories list, and what the collaborators answer about each row, are arguments.
pub mod Stages
pub mod Streaks
use agent_platform_api.Common.{
  ℕ, ◌+◌, ◌%◌, Text, Bool, true, false, ◌||◌, ◌==◌, ltb, text_eq, codes, if◌then◌else◌, Option,
  none, some, List, [], ◌∷◌, ◌++◌, Outcome, Result, ok, err,
}
use agent_platform_api.Automation.Run.{AutomationRun}
use agent_platform_api.Automation.Rule.{Automation}
use agent_platform_api.Automation.Scheduler.{
  Env, Clock, Wording, Effect, SchedulerError, Creation, domain, collaborator, try_start_sandbox,
}
use agent_platform_api.Automation.Scheduler.Fire.{Answers, fire_one}
use agent_platform_api.Automation.Scheduler.Flight.{
  FlightAnswers, Touched, counted, with_rule, scene_of, advance_one, apply_pending_outcome,
}

pub data SweepStage : Type 0 where
  apply_pending_outcomes advance_in_flight fire_due : SweepStage

pub data SkipScope : Type 0 where
  outcome_pending retry_due in_flight fire_due : SkipScope

pub record SkipStreak : Type 0 where
  pub message : Text
  pub sweeps : ℕ
  pub last_sweep : ℕ

-- The lines of the log: a row that is skipped, with the length of its streak where the line tells it, a
-- stage that failed, and how many outcomes were recovered.
pub data LogLine : Type 0 where
  warned : SkipScope → Text → Text → Option ℕ → LogLine
  debugged : SkipScope → Text → Text → LogLine
  stage_failed : SweepStage → Text → LogLine
  recovered : ℕ → LogLine

abbrev pub Streaks : Type 0
Streaks = List (Text × SkipStreak)

-- The fields of the scheduler, and what a sweep has done so far.
pub record Sweep : Type 0 where
  pub sweep_seq : ℕ
  pub skip_streaks : Streaks
  pub log : List LogLine
  pub touched : ℕ
  pub done : List Effect

-- `Map.get` and `Map.set`
abbrev pub get : Streaks → Text → Option SkipStreak
get [] key = none
get ((k, streak) ∷ rest) key = if text_eq k key then some streak else get rest key

abbrev pub set : Streaks → Text → SkipStreak → Streaks
set [] key value = (key, value) ∷ []
set ((k, streak) ∷ rest) key value =
    if text_eq k key then (k, value) ∷ rest else (k, streak) ∷ set rest key value

abbrev scope_text : SkipScope → Text
scope_text SkipScope.outcome_pending = codes "outcome-pending"
scope_text SkipScope.retry_due = codes "retry-due"
scope_text SkipScope.in_flight = codes "in-flight"
scope_text SkipScope.fire_due = codes "fire-due"

-- `${scope}:${id}`
unfoldable pub skip_key : SkipScope → Text → Text
skip_key scope id = scope_text scope ++ codes ":" ++ id

unfoldable pub reason : Wording → SchedulerError → Text
reason wording (domain e) = wording.of_error e
reason wording (collaborator message) = message

abbrev pub skip_warn_repeat_sweeps : ℕ
skip_warn_repeat_sweeps = 60

-- The length of the streak with this failure.
unfoldable pub next_sweeps : Option SkipStreak → Text → ℕ
next_sweeps none message = 1
next_sweeps (some previous) message =
    if text_eq previous.message message then previous.sweeps + 1 else 1

unfoldable pub skip_line : SkipScope → Text → Text → ℕ → LogLine
skip_line scope id message sweeps =
    if sweeps == 1
    then warned scope id message none
    else if sweeps % skip_warn_repeat_sweeps == 0
    then warned scope id message (some sweeps)
    else debugged scope id message

unfoldable pub note_skipped : SkipScope → Text → Text → Sweep → Sweep
note_skipped scope id message s =
    let key = skip_key scope id in
    let sweeps = next_sweeps (get s.skip_streaks key) message in
    let streak : SkipStreak = record {
      message = message;
      sweeps = sweeps;
      last_sweep = s.sweep_seq;
    } in
    record s {
      skip_streaks = set s.skip_streaks key streak;
      log = s.log ++ skip_line scope id message sweeps ∷ [];
    }

abbrev pub keep_seen : ℕ → Streaks → Streaks
keep_seen seq [] = []
keep_seen seq ((key, streak) ∷ rest) =
    let kept = keep_seen seq rest in if streak.last_sweep == seq then (key, streak) ∷ kept else kept

unfoldable pub forget_healed_skips : Sweep → Sweep
forget_healed_skips s = record s { skip_streaks = keep_seen s.sweep_seq s.skip_streaks }

-- The `try` around one row: what was done stays done, the number counts only if nothing was thrown.
unfoldable pub isolate : Wording → SkipScope → Text → Touched → Sweep → Sweep
isolate wording scope id ((done, n), none) s = record s {
  touched = s.touched + n;
  done = s.done ++ done;
}
isolate wording scope id ((done, n), some e) s =
    note_skipped scope id (reason wording e) (record s { done = s.done ++ done })

unfoldable pub for_each {ℓ} :
    {A : Type ℓ} → Wording → SkipScope → (A → Text) → (A → Touched) → List A → Sweep → Sweep
for_each wording scope id_of body [] s = s
for_each wording scope id_of body (row ∷ rows) s =
    for_each wording scope id_of body rows (isolate wording scope (id_of row) (body row) s)

-- A loop over the rows that a repository lists; the listing itself stands outside the `try` of a row.
unfoldable pub over {ℓ} :
    {A : Type ℓ}
    → Wording
    → SkipScope
    → (A → Text)
    → (A → Touched)
    → Result Text (List A)
    → Sweep
    → Outcome Sweep Text
over wording scope id_of body (err message) s = (s, some message)
over wording scope id_of body (ok rows) s = (for_each wording scope id_of body rows s, none)

-- What the repositories list, and what is answered about each row.
pub record SweepAnswers : Type 0 where
  pub orphans : Result Text (List AutomationRun)
  pub retries : Result Text (List AutomationRun)
  pub active : Result Text (List AutomationRun)
  pub due : Result Text (List Automation)
  pub of_run : AutomationRun → FlightAnswers
  pub creation_of : AutomationRun → Creation
  pub of_rule : Automation → Answers
  pub clock_of_run : AutomationRun → Clock
  pub clock_of_rule : Automation → Clock
  pub due_now : ℕ

abbrev pub fired : Outcome (List Effect) SchedulerError → Touched
fired (done, none) = ((done, 1), none)
fired (done, some e) = ((done, 0), some e)

-- The bodies of the four loops.
abbrev pub orphan_body : Env → SweepAnswers → AutomationRun → Touched
orphan_body env answers run =
    apply_pending_outcome env (answers.clock_of_run run) (answers.of_run run) run

unfoldable pub retry_body : Env → SweepAnswers → AutomationRun → Touched
retry_body env answers run = with_rule (answers.of_run run).rule λ rule.
    counted 1 (
      try_start_sandbox env (answers.clock_of_run run) (answers.creation_of run)
        (scene_of run rule))

abbrev pub active_body : Env → SweepAnswers → AutomationRun → Touched
active_body env answers run = advance_one env (answers.clock_of_run run) (answers.of_run run) run

abbrev pub due_body : Env → SweepAnswers → Automation → Touched
due_body env answers rule = fired (
    fire_one env (record (answers.clock_of_rule rule) { now = answers.due_now })
      (answers.of_rule rule) rule)

report_recovered : Outcome Sweep Text → Outcome Sweep Text
report_recovered (s, none) =
    ((if ltb 0 s.touched then record s { log = s.log ++ recovered s.touched ∷ [] } else s), none)
report_recovered (s, some message) = (s, some message)

unfoldable pub orphan_stage : Env → SweepAnswers → Sweep → Outcome Sweep Text
unfolding report_recovered
orphan_stage env answers s = report_recovered (
    over env.wording SkipScope.outcome_pending (λ run. run.id) (orphan_body env answers)
      answers.orphans s)

unfoldable pub active_after : Env → SweepAnswers → Outcome Sweep Text → Outcome Sweep Text
active_after env answers (s, some message) = (s, some message)
active_after env answers (s, none) =
    over env.wording SkipScope.in_flight (λ run. run.id) (active_body env answers) answers.active s

unfoldable pub flight_stage : Env → SweepAnswers → Sweep → Outcome Sweep Text
flight_stage env answers s = active_after env answers (
    over env.wording SkipScope.retry_due (λ run. run.id) (retry_body env answers) answers.retries s)

unfoldable pub due_stage : Env → SweepAnswers → Sweep → Outcome Sweep Text
due_stage env answers s =
    over env.wording SkipScope.fire_due (λ rule. rule.id) (due_body env answers) answers.due s

-- `touched += await this.runStage(stage, body)`: a stage that fails adds nothing.
unfoldable pub settle_stage : SweepStage → ℕ → Outcome Sweep Text → Sweep
settle_stage stage before (s, none) = record s { touched = before + s.touched }
settle_stage stage before (s, some message) = record s {
  touched = before;
  log = s.log ++ stage_failed stage message ∷ [];
}

unfoldable pub run_stage : SweepStage → (Sweep → Outcome Sweep Text) → Sweep → Sweep
run_stage stage body s = settle_stage stage s.touched (body (record s { touched = 0 }))

-- The three stages in their order, from the start of a sweep.
unfoldable pub stages : Env → SweepAnswers → Sweep → Sweep
stages env answers s = run_stage SweepStage.fire_due (due_stage env answers) (
    run_stage SweepStage.advance_in_flight (flight_stage env answers)
      (run_stage SweepStage.apply_pending_outcomes (orphan_stage env answers) s))

-- A sweep that finds the lock taken does nothing and returns 0.
unfoldable pub run_once : Env → SweepAnswers → Bool → Sweep → Sweep
run_once env answers true s = record s { touched = 0 }
run_once env answers false s =
    forget_healed_skips (stages env answers (record s { sweep_seq = s.sweep_seq + 1; touched = 0 }))
