-- ===== src/Automation/Scheduler/Sweep/Stages.antt =====
-- What a sweep does and counts: each row of each stage, whatever the rows before it threw.
use agent_platform_api.Common.{
  ℕ, ◌+◌, ◌≡◌, refl, sym, ◌∙◌, ap, Text, false, none, some, List, [], ◌∷◌, ◌++◌, map, flatten,
  sum_by, Outcome, Result, ok, err, arith, ltb, Bool-cases, inl, inr,
}
use mathlib.Core.List.{append-nil, append_assoc}
use agent_platform_api.Automation.Run.{AutomationRun}
use agent_platform_api.Automation.Scheduler.{Env, Wording, Effect}
use agent_platform_api.Automation.Scheduler.Flight.{Touched}
use agent_platform_api.Automation.Scheduler.Sweep.{
  Sweep, SweepStage, SkipScope, SweepAnswers, note_skipped, isolate, for_each, over, orphan_body,
  retry_body, active_body, due_body, orphan_stage, flight_stage, due_stage, active_after,
  report_recovered, settle_stage, run_stage, stages, run_once, forget_healed_skips,
}

-- What one row is worth: its number, unless it threw.
abbrev worth : Touched → ℕ
worth ((done, n), none) = n
worth ((done, n), some e) = 0

-- What the rows do, in their order, and what they are worth together.
abbrev pub effects_of {ℓ} : {A : Type ℓ} → (A → Touched) → List A → List Effect
effects_of body rows = flatten (map (λ row. (body row).0.0) rows)

abbrev pub worth_of {ℓ} : {A : Type ℓ} → (A → Touched) → List A → ℕ
worth_of body rows = sum_by (λ row. worth (body row)) rows

-- The rows of a stage; none where the repository fails.
abbrev pub listed {ℓ} : {A : Type ℓ} → Result Text (List A) → List A
listed (err message) = []
listed (ok rows) = rows

-- A second list is asked for only if the first was given.
abbrev pub listed_after {ℓ} : {A : Type ℓ} → Result Text (List A) → Result Text (List A) → List A
listed_after (err message) second = []
listed_after (ok rows) second = listed second

-- The number of a stage with two lists: none if either is not given.
abbrev worth_after {ℓ} : {A : Type ℓ} → (A → Touched) → ℕ → Result Text (List A) → ℕ
worth_after body n (err message) = 0
worth_after body n (ok rows) = n + worth_of body rows

abbrev pub worth_both {ℓ} :
    {A : Type ℓ} → (A → Touched) → (A → Touched) → Result Text (List A) → Result Text (List A) → ℕ
worth_both first second (err message) others = 0
worth_both first second (ok rows) others = worth_after second (worth_of first rows) others

-- From `s` to `t` the effects were added and the number grew.
abbrev Adds : List Effect → ℕ → Sweep → Sweep → Type 0
Adds effects n s t = (t.done ≡ s.done ++ effects) × (t.touched ≡ s.touched + n)

isolate-Adds :
    (wording : Wording) (scope : SkipScope) (id : Text) (o : Touched) (s : Sweep)
    → Adds o.0.0 (worth o) s (isolate wording scope id o s)
unfolding isolate note_skipped
isolate-Adds wording scope id ((done, n), none) s = (refl, refl)
isolate-Adds wording scope id ((done, n), some e) s = (refl, omega arith)

Adds-trans :
    (xs ys : List Effect) (m n : ℕ) (s t u : Sweep)
    → Adds xs m s t
    → Adds ys n t u
    → Adds (xs ++ ys) (m + n) s u
Adds-trans xs ys m n s t u h k =
    (k.0 ∙ ap (λ zs. zs ++ ys) h.0 ∙ append_assoc s.done xs ys, omega (arith, h.1, k.1))

for_each-Adds {ℓ} :
    {A : Type ℓ} (wording : Wording) (scope : SkipScope) (id_of : A → Text) (body : A → Touched)
    (rows : List A) (s : Sweep)
    → Adds (effects_of body rows) (worth_of body rows) s (for_each wording scope id_of body rows s)
unfolding for_each
for_each-Adds wording scope id_of body [] s = (sym (append-nil s.done), omega arith)
for_each-Adds wording scope id_of body (row ∷ rows) s =
    Adds-trans (body row).0.0 (effects_of body rows) (worth (body row)) (worth_of body rows) s
      (isolate wording scope (id_of row) (body row) s)
      (for_each wording scope id_of body rows (isolate wording scope (id_of row) (body row) s))
      (isolate-Adds wording scope (id_of row) (body row) s)
      (for_each-Adds wording scope id_of body rows (isolate wording scope (id_of row) (body row) s))

-- The number that a stage returns; none if it throws.
abbrev given : Outcome Sweep Text → ℕ
given (s, none) = s.touched
given (s, some message) = 0

abbrev Returns : List Effect → ℕ → Sweep → Outcome Sweep Text → Type 0
Returns effects n s o = (o.0.done ≡ s.done ++ effects) × (given o ≡ n)

settle_stage-Adds :
    (stage : SweepStage) (effects : List Effect) (n before : ℕ) (s : Sweep) (o : Outcome Sweep Text)
    → s.touched ≡ before
    → Returns effects n s o
    → Adds effects n s (settle_stage stage before o)
unfolding settle_stage
settle_stage-Adds stage effects n before s (t, none) e h = (h.0, omega (arith, e, h.1))
settle_stage-Adds stage effects n before s (t, some message) e h = (h.0, omega (arith, e, h.1))

run_stage-Adds :
    (stage : SweepStage) (body : Sweep → Outcome Sweep Text) (effects : List Effect) (n : ℕ)
    (s : Sweep)
    → Returns effects n s (body (record s { touched = 0 }))
    → Adds effects n s (run_stage stage body s)
unfolding run_stage
run_stage-Adds stage body effects n s h =
    settle_stage-Adds stage effects n s.touched s (body (record s { touched = 0 })) refl h

over-Returns {ℓ} :
    {A : Type ℓ} (wording : Wording) (scope : SkipScope) (id_of : A → Text) (body : A → Touched)
    (rows : Result Text (List A)) (s : Sweep)
    → Returns
        (effects_of body (listed rows))
        (worth_of body (listed rows))
        s
        (over wording scope id_of body rows (record s { touched = 0 }))
unfolding over
over-Returns wording scope id_of body (err message) s = (sym (append-nil s.done), refl)
over-Returns wording scope id_of body (ok rows) s =
    let h = for_each-Adds wording scope id_of body rows (record s { touched = 0 }) in
    (h.0, omega (arith, h.1))

-- A second loop, after one that did `effects` and counted `n`.
next-Returns {ℓ} :
    {A : Type ℓ} (wording : Wording) (scope : SkipScope) (id_of : A → Text) (body : A → Touched)
    (rows : Result Text (List A)) (effects : List Effect) (n : ℕ) (s t : Sweep)
    → Adds effects n (record s { touched = 0 }) t
    → Returns
        (effects ++ effects_of body (listed rows))
        (worth_after body n rows)
        s
        (over wording scope id_of body rows t)
unfolding over
next-Returns wording scope id_of body (err message) effects n s t h =
    (h.0 ∙ ap (λ zs. s.done ++ zs) (sym (append-nil effects)), refl)
next-Returns wording scope id_of body (ok rows) effects n s t h =
    let k =
      Adds-trans effects (effects_of body rows) n (worth_of body rows) (record s { touched = 0 }) t
        (for_each wording scope id_of body rows t) h
        (for_each-Adds wording scope id_of body rows t) in
    (k.0, omega (arith, k.1))

report_recovered-Returns :
    (effects : List Effect) (n : ℕ) (s : Sweep) (o : Outcome Sweep Text)
    → Returns effects n s o
    → Returns effects n s (report_recovered o)
unfolding report_recovered
report_recovered-Returns effects n s (t, some message) h = h
report_recovered-Returns effects n s (t, none) h = elim (Bool-cases (ltb 0 t.touched)) [
  | inl some_row ↦ rw some_row h
  | inr no_row ↦ rw no_row h
]

active_after-Returns :
    (env : Env) (answers : SweepAnswers) (retries : Result Text (List AutomationRun)) (s : Sweep)
    → Returns
        (effects_of (retry_body env answers) (listed retries)
          ++ effects_of (active_body env answers) (listed_after retries answers.active))
        (worth_both (retry_body env answers) (active_body env answers) retries answers.active)
        s
        (active_after env answers (
          over env.wording SkipScope.retry_due
            (λ run. run.id)
            (retry_body env answers)
            retries
            (record s { touched = 0 })))
unfolding active_after over
active_after-Returns env answers (err message) s = (sym (append-nil s.done), refl)
active_after-Returns env answers (ok rows) s =
    next-Returns env.wording SkipScope.in_flight (λ run. run.id) (active_body env answers)
      answers.active (effects_of (retry_body env answers) rows)
      (worth_of (retry_body env answers) rows) s _
      (for_each-Adds env.wording SkipScope.retry_due (λ run. run.id) (retry_body env answers) rows
        (record s { touched = 0 }))

module _ (env : Env) (answers : SweepAnswers) where
  abbrev orphan_effects : List Effect
  orphan_effects = effects_of (orphan_body env answers) (listed answers.orphans)

  abbrev flight_effects : List Effect
  flight_effects =
      effects_of (retry_body env answers) (listed answers.retries)
      ++ effects_of (active_body env answers) (listed_after answers.retries answers.active)

  abbrev flight_worth : ℕ
  flight_worth =
      worth_both (retry_body env answers) (active_body env answers) answers.retries answers.active

  -- What a sweep is to do: every row that was listed, in order.
  abbrev pub expected_effects : List Effect
  expected_effects =
      orphan_effects ++ flight_effects ++ effects_of (due_body env answers) (listed answers.due)

  abbrev pub expected_touched : ℕ
  expected_touched =
      worth_of (orphan_body env answers) (listed answers.orphans)
      + flight_worth
      + worth_of (due_body env answers) (listed answers.due)

  stages-Adds : (s : Sweep) → Adds expected_effects expected_touched s (stages env answers s)
  unfolding stages orphan_stage flight_stage due_stage
  stages-Adds s =
      let t = run_stage SweepStage.apply_pending_outcomes (orphan_stage env answers) s in
      let u = run_stage SweepStage.advance_in_flight (flight_stage env answers) t in
      let first : Adds orphan_effects _ s t =
        run_stage-Adds SweepStage.apply_pending_outcomes (orphan_stage env answers) orphan_effects _
          s
          (report_recovered-Returns orphan_effects
            (worth_of (orphan_body env answers) (listed answers.orphans)) s
            (over env.wording SkipScope.outcome_pending (λ run. run.id) (orphan_body env answers)
              answers.orphans (record s { touched = 0 }))
            (over-Returns env.wording SkipScope.outcome_pending (λ run. run.id)
              (orphan_body env answers) answers.orphans s)) in
      let second : Adds flight_effects flight_worth t u =
        run_stage-Adds SweepStage.advance_in_flight (flight_stage env answers) flight_effects
          flight_worth t (active_after-Returns env answers answers.retries t) in
      Adds-trans (orphan_effects ++ flight_effects) _ _ _ s u (stages env answers s)
        (Adds-trans orphan_effects flight_effects _ flight_worth s t u first second)
        (run_stage-Adds SweepStage.fire_due (due_stage env answers) _ _ u (
          over-Returns env.wording SkipScope.fire_due (λ rule. rule.id) (due_body env answers)
            answers.due u))

-- A sweep that has the lock does what its rows do, in order, whatever throws: a row that throws stops
-- neither the rows after it nor the later stages, and a stage whose listing fails does not stop the later
-- stages. It returns the sum of the numbers of the rows that did not throw; a stage whose listing fails
-- counts for nothing.
pub run_once-expected :
    (env : Env) (answers : SweepAnswers) (s : Sweep)
    → ((run_once env answers false s).done ≡ s.done ++ expected_effects env answers)
      × ((run_once env answers false s).touched ≡ expected_touched env answers)
unfolding run_once forget_healed_skips
run_once-expected env answers s =
    let h = stages-Adds env answers (record s { sweep_seq = s.sweep_seq + 1; touched = 0 }) in
    (h.0, omega (arith, h.1))
