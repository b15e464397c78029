-- ===== src/Sandbox/Queue/Order.antt =====
-- The order in which requests leave the queue, and that they all do.
use agent_platform_api.Common.{
  ℕ, zero, suc, ◌+◌, ◌-◌, ◌≡◌, ◌≤◌, refl, sym, ◌∙◌, ap, Text, Bool, true, false, ltb, Option, none,
  some, List, [], ◌∷◌, ◌++◌, map, length, length-append, inl, inr, arith,
}
use mathlib.Core.List.{append-nil, append_assoc}
use agent_platform_api.Sandbox.Queue.{
  SchedulerQueue, SchedulerRequestKind, Ticket, Mutex, Fifo, Event, submits, begins, finishes,
  new_queue, depth, admit, enqueue, begin, begin_with, begin_if, settle, settle_held, record_if,
  record_queued, finish, step, run,
}
use agent_platform_api.Sandbox.Queue.Counts.{
  IsCounted, held, run-IsCounted, line-cases, step-IsCounted, run-IsCounted_from,
}

-- What a caller asked for.
abbrev pub Request : Type 0
Request = SchedulerRequestKind × Text

abbrev request_of : Ticket → Request
request_of t = (t.kind, t.subject_id)

abbrev holder_list : Option Ticket → List Ticket
holder_list none = []
holder_list (some t) = t ∷ []

-- The requests of the calls, in their order.
abbrev pub requested : List Event → List Request
requested [] = []
requested (submits kind subject_id now ∷ es) = (kind, subject_id) ∷ requested es
requested (begins ∷ es) = requested es
requested (finishes now ∷ es) = requested es

abbrev leaving : {Waiters : Type 0} → SchedulerQueue Waiters → Event → List Request
leaving q (finishes now) = map request_of (holder_list q.holder)
leaving q _ = []

-- The requests whose work has settled, in the order in which it did.
abbrev pub served :
    {Waiters : Type 0} → Mutex Waiters → ℕ → SchedulerQueue Waiters → List Event → List Request
served mutex warn_depth q [] = []
served mutex warn_depth q (e ∷ es) =
    leaving q e ++ served mutex warn_depth (step mutex warn_depth q e) es

-- `n` times: the next one is let in, and its work settles.
abbrev pub rounds : ℕ → ℕ → List Event
rounds zero now = []
rounds (suc n) now = begins ∷ finishes now ∷ rounds n now

map-append {ℓ κ} :
    {A : Type ℓ} {B : Type κ} (f : A → B) (xs ys : List A) → map f (xs ++ ys) ≡ map f xs ++ map f ys
map-append f [] ys = refl
map-append f (x ∷ xs) ys = ap (λ zs. f x ∷ zs) (map-append f xs ys)

length-map {ℓ κ} :
    {A : Type ℓ} {B : Type κ} (f : A → B) (xs : List A) → length (map f xs) ≡ length xs
length-map f [] = refl
length-map f (x ∷ xs) = omega (arith, length-map f xs)

length-nil {ℓ} : {A : Type ℓ} (xs : List A) → length xs ≡ 0 → xs ≡ []
length-nil [] h = refl
length-nil (x ∷ xs) h = absurd (omega (arith, h))

module _ {Waiters : Type 0} (mutex : Mutex Waiters) (fifo : Fifo mutex) where
  -- Who holds the mutex, and then the line.
  abbrev pub present : SchedulerQueue Waiters → List Request
  present q = map request_of (holder_list q.holder) ++ map request_of (fifo.line q.waiters)

  enqueue-present :
      (warn_depth : ℕ) (kind : SchedulerRequestKind) (subject_id : Text) (now : ℕ)
      (q : SchedulerQueue Waiters)
      → present (enqueue mutex warn_depth kind subject_id now q)
        ≡ present q ++ (kind, subject_id) ∷ []
  unfolding enqueue
  enqueue-present warn_depth kind subject_id now q =
      let t : Ticket = record {
        kind = kind;
        subject_id = subject_id;
        depth_on_enqueue = depth q;
        enqueued_at = now;
      } in
      ap (λ xs. map request_of (holder_list q.holder) ++ xs)
        (ap (map request_of) (fifo.acquire_line t q.waiters)
          ∙ map-append request_of (fifo.line q.waiters) (t ∷ []))
      ∙ sym (
          append_assoc (map request_of (holder_list q.holder))
            (map request_of (fifo.line q.waiters)) ((kind, subject_id) ∷ []))

  begin_with-present :
      (q : SchedulerQueue Waiters)
      → q.holder ≡ none
      → present (begin_with (mutex.grant q.waiters) q) ≡ present q
  unfolding begin_with
  begin_with-present q free = elim (line-cases mutex fifo q.waiters) [
    | inl (nobody, empty) ↦ rw nobody refl
    | inr (t, rest, granted, line) ↦ rw granted (
        sym (ap (λ xs. map request_of xs) line)
        ∙ ap (λ o. map request_of (holder_list o) ++ map request_of (fifo.line q.waiters))
            (sym free))
  ]

  begin_if-present :
      (holder : Option Ticket) (q : SchedulerQueue Waiters)
      → q.holder ≡ holder
      → present (begin_if mutex holder q) ≡ present q
  unfolding begin_if
  begin_if-present none q e = begin_with-present q e
  begin_if-present (some t) q e = refl

  record_if-present :
      (audited : Bool) (t : Ticket) (now : ℕ) (q : SchedulerQueue Waiters)
      → present (record_if audited t now q) ≡ present q
  unfolding record_if record_queued
  record_if-present true t now q = refl
  record_if-present false t now q = refl

  settle_held-present :
      (holder : Option Ticket) (now : ℕ) (q : SchedulerQueue Waiters)
      → q.holder ≡ holder
      → map request_of (holder_list holder) ++ present (settle_held holder now q) ≡ present q
  unfolding settle_held settle
  settle_held-present none now q e = refl
  settle_held-present (some t) now q e =
      ap (λ xs. request_of t ∷ xs) (record_if-present (ltb 0 t.depth_on_enqueue) t now _)
      ∙ ap (λ o. map request_of (holder_list o) ++ map request_of (fifo.line q.waiters)) (sym e)

  step-present :
      (warn_depth : ℕ) (q : SchedulerQueue Waiters) (e : Event)
      → leaving q e ++ present (step mutex warn_depth q e) ≡ present q ++ requested (e ∷ [])
  unfolding step begin finish
  step-present warn_depth q (submits kind subject_id now) =
      enqueue-present warn_depth kind subject_id now q
  step-present warn_depth q begins = begin_if-present q.holder q refl ∙ sym (append-nil (present q))
  step-present warn_depth q (finishes now) =
      settle_held-present q.holder now q refl ∙ sym (append-nil (present q))

  requested-step :
      (e : Event) (es : List Event) → requested (e ∷ es) ≡ requested (e ∷ []) ++ requested es
  requested-step (submits kind subject_id now) es = refl
  requested-step begins es = refl
  requested-step (finishes now) es = refl

  run-present :
      (warn_depth : ℕ) (es : List Event) (q : SchedulerQueue Waiters)
      → served mutex warn_depth q es ++ present (run mutex warn_depth q es)
        ≡ present q ++ requested es
  run-present warn_depth [] q = sym (append-nil (present q))
  run-present warn_depth (e ∷ es) q =
      let next = step mutex warn_depth q e in
      append_assoc (leaving q e) (served mutex warn_depth next es) _
      ∙ ap (λ xs. leaving q e ++ xs) (run-present warn_depth es next)
      ∙ sym (append_assoc (leaving q e) (present next) (requested es))
      ∙ ap (λ xs. xs ++ requested es) (step-present warn_depth q e)
      ∙ append_assoc (present q) (requested (e ∷ [])) (requested es)
      ∙ ap (λ xs. present q ++ xs) (sym (requested-step e es))

  holder_of : (o : Option Ticket) → length (map request_of (holder_list o)) ≡ held o
  holder_of none = refl
  holder_of (some t) = refl

  -- The depth is the number of the requests that are present.
  present-depth :
      (q : SchedulerQueue Waiters) → IsCounted mutex fifo q → length (present q) ≡ depth q
  present-depth q h = omega (
    arith,
    length-append (map request_of (holder_list q.holder)) (map request_of (fifo.line q.waiters)),
    holder_of q.holder,
    length-map request_of (fifo.line q.waiters),
    h.in_line,
    h.let_in,
  )

  -- Where there is a request, one is let in.
  begin_with-held :
      (q : SchedulerQueue Waiters)
      → q.holder ≡ none
      → IsCounted mutex fifo q
      → 1 ≤ depth q
      → (t : Ticket) × ((begin_with (mutex.grant q.waiters) q).holder ≡ some t)
        × (depth (begin_with (mutex.grant q.waiters) q) ≡ depth q)
  unfolding begin_with
  begin_with-held q free h d =
      let alone : q.running ≡ 0 = h.let_in ∙ ap held free in
      elim (line-cases mutex fifo q.waiters) [
        | inl (nobody, empty) ↦ absurd (omega (arith, alone, d, h.in_line, ap length empty))
        | inr (t, rest, granted, line) ↦
            let waits : q.waiting ≡ length (fifo.line rest) + 1 =
              omega (arith, h.in_line ∙ ap length line) in
            rw granted (t, refl, omega (arith, waits))
      ]

  begin_if-held :
      (holder : Option Ticket) (q : SchedulerQueue Waiters)
      → q.holder ≡ holder
      → IsCounted mutex fifo q
      → 1 ≤ depth q
      → (t : Ticket) × ((begin_if mutex holder q).holder ≡ some t)
        × (depth (begin_if mutex holder q) ≡ depth q)
  unfolding begin_if
  begin_if-held (some t) q e h d = (t, e, refl)
  begin_if-held none q e h d = begin_with-held q e h d

  record_if-depth :
      (audited : Bool) (t : Ticket) (now : ℕ) (q : SchedulerQueue Waiters)
      → depth (record_if audited t now q) ≡ depth q
  unfolding record_if record_queued
  record_if-depth true t now q = refl
  record_if-depth false t now q = refl

  settle_held-depth :
      (holder : Option Ticket) (t : Ticket) (now : ℕ) (q : SchedulerQueue Waiters)
      → holder ≡ some t
      → q.running ≡ 1
      → depth (settle_held holder now q) + 1 ≡ depth q
  unfolding settle_held settle
  settle_held-depth none t now q e r = cc
  settle_held-depth (some u) t now q e r = omega (
    arith,
    record_if-depth (ltb 0 u.depth_on_enqueue) u now
        (record q { holder = none; running = q.running - 1; admitted = admit u.kind q.admitted }),
    r,
  )

  -- One round takes one request out.
  round-depth :
      (warn_depth k now : ℕ) (q : SchedulerQueue Waiters)
      → IsCounted mutex fifo q
      → depth q ≡ suc k
      → depth (run mutex warn_depth q (begins ∷ finishes now ∷ [])) ≡ k
  unfolding step begin finish
  round-depth warn_depth k now q h d =
      let begun = begin_if-held q.holder q refl h (omega (arith, d)) in
      let fine = (step-IsCounted mutex fifo warn_depth q begins h).0 in
      let one = fine.let_in ∙ ap held begun.1 in
      omega (
        arith,
        d,
        begun.2,
        settle_held-depth (begin_if mutex q.holder q).holder begun.0 now (begin_if mutex q.holder q)
            begun.1 one,
      )

  rounds-depth :
      (warn_depth k now : ℕ) (q : SchedulerQueue Waiters)
      → IsCounted mutex fifo q
      → depth q ≡ k
      → depth (run mutex warn_depth q (rounds k now)) ≡ 0
  rounds-depth warn_depth zero now q h d = d
  rounds-depth warn_depth (suc k) now q h d =
      rounds-depth warn_depth k now (run mutex warn_depth q (begins ∷ finishes now ∷ []))
        (run-IsCounted_from mutex fifo warn_depth (begins ∷ finishes now ∷ []) q h).0
        (round-depth warn_depth k now q h d)

requested-rounds : (k now : ℕ) → requested (rounds k now) ≡ []
requested-rounds zero now = refl
requested-rounds (suc k) now = requested-rounds k now

-- Requests are served in the order in which they were submitted: those whose work has settled, then the
-- one that holds the mutex, then the line, are all the requests submitted, in their order.
pub served-requested :
    {Waiters : Type 0} (mutex : Mutex Waiters) (fifo : Fifo mutex) (warn_depth : ℕ)
    (es : List Event)
    → served mutex warn_depth (new_queue mutex) es
        ++ present mutex fifo (run mutex warn_depth (new_queue mutex) es)
      ≡ requested es
served-requested mutex fifo warn_depth es =
    run-present mutex fifo warn_depth es (new_queue mutex)
    ∙ ap (λ line. map request_of line ++ requested es) fifo.idle_line

-- No request is left behind: whatever came before, as many rounds as the queue is deep, in each of which
-- the next request is let in and its work settles, empty the queue, and what they serve is just what was
-- present, in its order.
pub served-rounds :
    {Waiters : Type 0} (mutex : Mutex Waiters) (fifo : Fifo mutex) (warn_depth : ℕ)
    (es : List Event) (now : ℕ)
    → let q = run mutex warn_depth (new_queue mutex) es in
      (depth (run mutex warn_depth q (rounds (depth q) now)) ≡ 0)
      × (served mutex warn_depth q (rounds (depth q) now) ≡ present mutex fifo q)
served-rounds mutex fifo warn_depth es now =
    let q = run mutex warn_depth (new_queue mutex) es in
    let h = (run-IsCounted mutex fifo warn_depth es).0 in
    let r = run mutex warn_depth q (rounds (depth q) now) in
    let k = (run-IsCounted_from mutex fifo warn_depth (rounds (depth q) now) q h).0 in
    let none_left = rounds-depth mutex fifo warn_depth (depth q) now q h refl in
    let gone : present mutex fifo r ≡ [] =
      length-nil (present mutex fifo r) (present-depth mutex fifo r k ∙ none_left) in
    (
      none_left,
      sym (append-nil (served mutex warn_depth q (rounds (depth q) now)))
          ∙ ap (λ xs. served mutex warn_depth q (rounds (depth q) now) ++ xs) (sym gone)
          ∙ run-present mutex fifo warn_depth (rounds (depth q) now) q
          ∙ ap (λ xs. present mutex fifo q ++ xs) (requested-rounds (depth q) now)
          ∙ append-nil (present mutex fifo q),
    )
