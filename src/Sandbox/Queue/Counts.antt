-- ===== src/Sandbox/Queue/Counts.antt =====
-- What the counters of the queue say, after any calls in any order.
use agent_platform_api.Common.{
  ℕ, ◌+◌, ◌≡◌, ◌≤◌, refl, sym, ◌∙◌, ap, Text, Bool, true, false, ltb, Option, none, some, List, [],
  ◌∷◌, length, length-append, ◌⊎◌, inl, inr, arith, ◌-◌,
}
use agent_platform_api.Sandbox.Queue.{
  SchedulerQueue, SchedulerRequestKind, Ticket, Mutex, Fifo, Admitted, Event, submits, begins,
  finishes, new_queue, depth, admit, enqueue, begin, begin_with, begin_if, record_if, settle_held,
  record_queued, settle, finish, step, run,
}

abbrev pub held : Option Ticket → ℕ
held none = 0
held (some t) = 1

abbrev pub total : Admitted → ℕ
total a = a.creates + a.destroys + a.reconciles

abbrev pub submissions : List Event → ℕ
submissions [] = 0
submissions (submits kind subject_id now ∷ es) = submissions es + 1
submissions (begins ∷ es) = submissions es
submissions (finishes now ∷ es) = submissions es

module _ {Waiters : Type 0} (mutex : Mutex Waiters) (fifo : Fifo mutex) where
  -- `waiting` counts those in line and `running` the one who was let in; the peak is not below the
  -- depth, and each that is counted as queued has its record.
  pub record IsCounted (q : SchedulerQueue Waiters) : Type 0 where
    pub in_line : q.waiting ≡ length (fifo.line q.waiters)
    pub let_in : q.running ≡ held q.holder
    pub below_peak : depth q ≤ q.peak
    pub recorded : length q.audit ≡ q.queued_total

  -- The depth and the admissions, together, went up by `n`.
  abbrev Accounted : ℕ → SchedulerQueue Waiters → SchedulerQueue Waiters → Type 0
  Accounted n q r = depth r + total r.admitted ≡ depth q + total q.admitted + n

  enqueue-IsCounted :
      (warn_depth : ℕ) (kind : SchedulerRequestKind) (subject_id : Text) (now : ℕ)
      (q : SchedulerQueue Waiters)
      → IsCounted q
      → IsCounted (enqueue mutex warn_depth kind subject_id now q)
        × Accounted 1 q (enqueue mutex warn_depth kind subject_id now q)
  unfolding enqueue
  enqueue-IsCounted warn_depth kind subject_id now q h =
      let t : Ticket = record {
        kind = kind;
        subject_id = subject_id;
        depth_on_enqueue = depth q;
        enqueued_at = now;
      } in
      (
        record {
          in_line =
              rw (fifo.acquire_line t q.waiters)
                (omega (arith, length-append (fifo.line q.waiters) (t ∷ []), h.in_line));
          let_in = h.let_in;
          below_peak = omega arith;
          recorded = h.recorded;
        },
        omega arith,
      )

  pub line-cases :
      (w : Waiters)
      → ((mutex.grant w ≡ none) × (fifo.line w ≡ []))
        ⊎ ((t : Ticket) × (rest : Waiters) × (mutex.grant w ≡ some (t, rest))
            × (fifo.line w ≡ t ∷ fifo.line rest))
  line-cases w = line_by w (fifo.line w) refl
    where
      line_by :
          (w : Waiters) (ts : List Ticket)
          → fifo.line w ≡ ts
          → ((mutex.grant w ≡ none) × (fifo.line w ≡ []))
            ⊎ ((t : Ticket) × (rest : Waiters) × (mutex.grant w ≡ some (t, rest))
                × (fifo.line w ≡ t ∷ fifo.line rest))
      line_by w [] e = inl (fifo.grant_none w e, e)
      line_by w (t ∷ ts) e =
          let g = fifo.grant_some w t ts e in inr (t, g.0, g.1, e ∙ ap (λ us. t ∷ us) (sym g.2))

  begin_with-IsCounted :
      (q : SchedulerQueue Waiters)
      → q.holder ≡ none
      → IsCounted q
      → IsCounted (begin_with (mutex.grant q.waiters) q)
        × Accounted 0 q (begin_with (mutex.grant q.waiters) q)
  unfolding begin_with
  begin_with-IsCounted q free h = elim (line-cases q.waiters) [
    | inl (nobody, empty) ↦ rw nobody (h, omega arith)
    | inr (t, rest, granted, line) ↦
        let waits : q.waiting ≡ length (fifo.line rest) + 1 =
          omega (arith, h.in_line ∙ ap length line) in
        let alone : q.running ≡ 0 = h.let_in ∙ ap held free in
        rw granted (
          record {
            in_line = omega (arith, waits);
            let_in = omega (arith, alone);
            below_peak = omega (arith, waits, h.below_peak);
            recorded = h.recorded;
          },
          omega (arith, waits),
        )
  ]

  begin_if-IsCounted :
      (holder : Option Ticket) (q : SchedulerQueue Waiters)
      → q.holder ≡ holder
      → IsCounted q
      → IsCounted (begin_if mutex holder q) × Accounted 0 q (begin_if mutex holder q)
  unfolding begin_if
  begin_if-IsCounted none q e h = begin_with-IsCounted q e h
  begin_if-IsCounted (some t) q e h = (h, omega arith)

  admit-total : (kind : SchedulerRequestKind) (a : Admitted) → total (admit kind a) ≡ total a + 1
  admit-total SchedulerRequestKind.create a = omega arith
  admit-total SchedulerRequestKind.destroy a = omega arith
  admit-total SchedulerRequestKind.reconcile a = omega arith

  recorded-IsCounted :
      (audited : Bool) (t : Ticket) (now : ℕ) (q : SchedulerQueue Waiters)
      → IsCounted q
      → IsCounted (record_if audited t now q) × Accounted 0 q (record_if audited t now q)
  unfolding record_if record_queued
  recorded-IsCounted false t now q h = (h, omega arith)
  recorded-IsCounted true t now q h = (
    record {
      in_line = h.in_line;
      let_in = h.let_in;
      below_peak = h.below_peak;
      recorded = omega (arith, length-append q.audit (_ ∷ []), h.recorded);
    },
    omega arith,
  )

  settle_held-IsCounted :
      (holder : Option Ticket) (now : ℕ) (q : SchedulerQueue Waiters)
      → q.holder ≡ holder
      → IsCounted q
      → IsCounted (settle_held holder now q) × Accounted 0 q (settle_held holder now q)
  unfolding settle_held settle
  settle_held-IsCounted none now q e h = (h, omega arith)
  settle_held-IsCounted (some t) now q e h =
      let alone : q.running ≡ 1 = h.let_in ∙ ap held e in
      let left : SchedulerQueue Waiters = record q {
        holder = none;
        running = q.running - 1;
        admitted = admit t.kind q.admitted;
      } in
      let fine : IsCounted left = record {
        in_line = h.in_line;
        let_in = omega (arith, alone);
        below_peak = omega (arith, h.below_peak);
        recorded = h.recorded;
      } in
      let after = recorded-IsCounted (ltb 0 t.depth_on_enqueue) t now left fine in
      (after.0, omega (arith, after.1, alone, admit-total t.kind q.admitted))

  pub step-IsCounted :
      (warn_depth : ℕ) (q : SchedulerQueue Waiters) (e : Event)
      → IsCounted q
      → IsCounted (step mutex warn_depth q e)
        × Accounted (submissions (e ∷ [])) q (step mutex warn_depth q e)
  unfolding step begin finish
  step-IsCounted warn_depth q (submits kind id now) h = enqueue-IsCounted warn_depth kind id now q h
  step-IsCounted warn_depth q begins h = begin_if-IsCounted q.holder q refl h
  step-IsCounted warn_depth q (finishes now) h = settle_held-IsCounted q.holder now q refl h

  submissions-step :
      (e : Event) (es : List Event) → submissions (e ∷ es) ≡ submissions (e ∷ []) + submissions es
  submissions-step (submits kind id now) es = omega arith
  submissions-step begins es = omega arith
  submissions-step (finishes now) es = omega arith

  pub run-IsCounted_from :
      (warn_depth : ℕ) (es : List Event) (q : SchedulerQueue Waiters)
      → IsCounted q
      → IsCounted (run mutex warn_depth q es)
        × Accounted (submissions es) q (run mutex warn_depth q es)
  run-IsCounted_from warn_depth [] q h = (h, omega arith)
  run-IsCounted_from warn_depth (e ∷ es) q h =
      let first = step-IsCounted warn_depth q e h in
      let later = run-IsCounted_from warn_depth es (step mutex warn_depth q e) first.0 in
      (later.0, omega (arith, first.1, later.1, submissions-step e es))

  pub new_queue-IsCounted : IsCounted (new_queue mutex)
  new_queue-IsCounted = record {
    in_line = rw fifo.idle_line refl;
    let_in = refl;
    below_peak = omega arith;
    recorded = refl;
  }

-- After any submissions, admissions and ends in any order: `waiting` is the number of requests in line,
-- `running` is 1 while one holds the mutex and 0 otherwise, the peak is at least the depth, the audit has
-- one record for each request counted as queued, and the depth and the admissions together are the
-- number of requests submitted.
pub run-IsCounted :
    {Waiters : Type 0} (mutex : Mutex Waiters) (fifo : Fifo mutex) (warn_depth : ℕ)
    (es : List Event)
    → IsCounted mutex fifo (run mutex warn_depth (new_queue mutex) es)
      × (depth (run mutex warn_depth (new_queue mutex) es)
            + total (run mutex warn_depth (new_queue mutex) es).admitted
          ≡ submissions es)
run-IsCounted mutex fifo warn_depth es =
    let h =
      run-IsCounted_from mutex fifo warn_depth es (new_queue mutex)
        (new_queue-IsCounted mutex fifo) in
    (h.0, omega (arith, h.1))
