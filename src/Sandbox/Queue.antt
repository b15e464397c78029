-- ===== src/Sandbox/Queue.antt =====
-- packages/modules/sandbox/src/application/scheduler-queue.ts: the requests to the resource pool, one at
-- a time.
--
-- `submit` suspends twice, at the mutex and in `work`, so that its code is three steps: what it does when
-- it is called, when the mutex lets it in, and when its work has settled, in a value or in an error. The
-- mutex is that of the package async-mutex, an interface here; `Fifo` states what it documents.
pub mod Counts
pub mod Order
use agent_platform_api.Common.{
  ℕ, ◌+◌, ◌-◌, max, Text, Bool, true, false, ltb, leb, if◌then◌else◌, Option, none, some, List, [],
  ◌∷◌, ◌++◌, ◌≡◌,
}

pub data SchedulerRequestKind : Type 0 where
  create destroy reconcile : SchedulerRequestKind

-- The arguments of a call, and the constants that it computes at once.
pub record Ticket : Type 0 where
  pub kind : SchedulerRequestKind
  pub subject_id : Text
  pub depth_on_enqueue : ℕ
  pub enqueued_at : ℕ

-- Those who wait for the mutex, and letting the next one in.
pub record Mutex (Waiters : Type 0) : Type 0 where
  pub idle : Waiters
  pub acquire : Ticket → Waiters → Waiters
  pub grant : Waiters → Option (Ticket × Waiters)

-- Whoever came first is let in first.
pub record Fifo {Waiters : Type 0} (mutex : Mutex Waiters) : Type 0 where
  pub line : Waiters → List Ticket
  pub idle_line : line mutex.idle ≡ []
  pub acquire_line : (t : Ticket) (w : Waiters) → line (mutex.acquire t w) ≡ line w ++ t ∷ []
  pub grant_none : (w : Waiters) → line w ≡ [] → mutex.grant w ≡ none
  pub grant_some :
      (w : Waiters) (t : Ticket) (ts : List Ticket)
      → line w ≡ t ∷ ts
      → (rest : Waiters) × (mutex.grant w ≡ some (t, rest)) × (line rest ≡ ts)

-- What `recordQueued` hands to the audit.
pub record QueuedRecord : Type 0 where
  pub subject_id : Text
  pub kind : SchedulerRequestKind
  pub depth_on_enqueue : ℕ
  pub peak_depth : ℕ
  pub duration_ms : ℕ

pub record Admitted : Type 0 where
  pub creates : ℕ
  pub destroys : ℕ
  pub reconciles : ℕ

-- The fields of the queue, the mutex and its holder, the audit, and the depths that were warned of.
pub record SchedulerQueue (Waiters : Type 0) : Type 0 where
  pub waiters : Waiters
  pub holder : Option Ticket
  pub waiting : ℕ
  pub running : ℕ
  pub peak : ℕ
  pub queued_total : ℕ
  pub admitted : Admitted
  pub audit : List QueuedRecord
  pub warned : List ℕ

abbrev pub new_queue : {Waiters : Type 0} → Mutex Waiters → SchedulerQueue Waiters
new_queue mutex = record {
  waiters = mutex.idle;
  holder = none;
  waiting = 0;
  running = 0;
  peak = 0;
  queued_total = 0;
  admitted = record { creates = 0; destroys = 0; reconciles = 0 };
  audit = [];
  warned = [];
}

abbrev pub depth : {Waiters : Type 0} → SchedulerQueue Waiters → ℕ
depth q = q.waiting + q.running

-- `this.admitted[kind] += 1`
abbrev pub admit : SchedulerRequestKind → Admitted → Admitted
admit create a = record a { creates = a.creates + 1 }
admit destroy a = record a { destroys = a.destroys + 1 }
admit reconcile a = record a { reconciles = a.reconciles + 1 }

-- The warning of a deep queue.
warn_if : Bool → ℕ → List ℕ → List ℕ
warn_if true d warned = warned ++ d ∷ []
warn_if false d warned = warned

-- `submit` up to the mutex.
unfoldable pub enqueue :
    {Waiters : Type 0}
    → Mutex Waiters
    → ℕ
    → SchedulerRequestKind
    → Text
    → ℕ
    → SchedulerQueue Waiters
    → SchedulerQueue Waiters
unfolding warn_if
enqueue mutex warn_depth kind subject_id now q =
    let t : Ticket = record {
      kind = kind;
      subject_id = subject_id;
      depth_on_enqueue = depth q;
      enqueued_at = now;
    } in
    let counted = record q { waiting = q.waiting + 1 } in
    let topped = record counted { peak = max counted.peak (depth counted) } in
    record topped {
      warned = warn_if (leb warn_depth (depth topped)) (depth topped) topped.warned;
      waiters = mutex.acquire t topped.waiters;
    }

begin_with :
    {Waiters : Type 0} → Option (Ticket × Waiters) → SchedulerQueue Waiters → SchedulerQueue Waiters
begin_with none q = q
begin_with (some (t, rest)) q = record q {
  waiters = rest;
  holder = some t;
  waiting = q.waiting - 1;
  running = q.running + 1;
}

begin_if :
    {Waiters : Type 0}
    → Mutex Waiters
    → Option Ticket
    → SchedulerQueue Waiters
    → SchedulerQueue Waiters
unfolding begin_with
begin_if mutex none q = begin_with (mutex.grant q.waiters) q
begin_if mutex (some t) q = q

-- The mutex lets the next one in, if nobody holds it.
unfoldable pub begin :
    {Waiters : Type 0} → Mutex Waiters → SchedulerQueue Waiters → SchedulerQueue Waiters
unfolding begin_if
begin mutex q = begin_if mutex q.holder q

record_queued : {Waiters : Type 0} → Ticket → ℕ → SchedulerQueue Waiters → SchedulerQueue Waiters
record_queued t now q = record q {
  queued_total = q.queued_total + 1;
  audit =
      q.audit
      ++ record {
        subject_id = t.subject_id;
        kind = t.kind;
        depth_on_enqueue = t.depth_on_enqueue;
        peak_depth = q.peak;
        duration_ms = now - t.enqueued_at;
      }
        ∷ [];
}

record_if : {Waiters : Type 0} → Bool → Ticket → ℕ → SchedulerQueue Waiters → SchedulerQueue Waiters
unfolding record_queued
record_if true t now q = record_queued t now q
record_if false t now q = q

-- The `finally` of the holder, which then lets the mutex go.
settle : {Waiters : Type 0} → Ticket → ℕ → SchedulerQueue Waiters → SchedulerQueue Waiters
unfolding record_if
settle t now q =
    let left = record q {
      holder = none;
      running = q.running - 1;
      admitted = admit t.kind q.admitted;
    } in
    record_if (ltb 0 t.depth_on_enqueue) t now left

settle_held :
    {Waiters : Type 0} → Option Ticket → ℕ → SchedulerQueue Waiters → SchedulerQueue Waiters
unfolding settle
settle_held none now q = q
settle_held (some t) now q = settle t now q

unfoldable pub finish : {Waiters : Type 0} → ℕ → SchedulerQueue Waiters → SchedulerQueue Waiters
unfolding settle_held
finish now q = settle_held q.holder now q

pub data Event : Type 0 where
  submits : SchedulerRequestKind → Text → ℕ → Event
  begins : Event
  finishes : ℕ → Event

unfoldable pub step :
    {Waiters : Type 0} → Mutex Waiters → ℕ → SchedulerQueue Waiters → Event → SchedulerQueue Waiters
step mutex warn_depth q (submits kind subject_id now) =
    enqueue mutex warn_depth kind subject_id now q
step mutex warn_depth q begins = begin mutex q
step mutex warn_depth q (finishes now) = finish now q

abbrev pub run :
    {Waiters : Type 0}
    → Mutex Waiters
    → ℕ
    → SchedulerQueue Waiters
    → List Event
    → SchedulerQueue Waiters
run mutex warn_depth q [] = q
run mutex warn_depth q (e ∷ es) = run mutex warn_depth (step mutex warn_depth q e) es
