-- ===== src/Sandbox/Examples/Queues.antt =====
-- Three requests to the resource pool, through a mutex that keeps those who wait in a list.
use agent_platform_api.Common.{◌+◌, ◌≡◌, refl, codes, Option, none, some, List, [], ◌∷◌, ◌++◌}
use agent_platform_api.Sandbox.Queue.{
  SchedulerRequestKind, Ticket, Mutex, Fifo, Event, submits, begins, finishes, new_queue, depth,
  run,
}
use agent_platform_api.Sandbox.Queue.Counts.{IsCounted, run-IsCounted, total, submissions}
use agent_platform_api.Sandbox.Queue.Order.{
  served, present, requested, rounds, served-requested, served-rounds,
}

abbrev take_first : List Ticket → Option (Ticket × List Ticket)
take_first [] = none
take_first (t ∷ ts) = some (t, ts)

abbrev list_mutex : Mutex (List Ticket)
list_mutex = record { idle = []; acquire = λ t ts. ts ++ t ∷ []; grant = take_first }

list_mutex-Fifo : Fifo list_mutex
list_mutex-Fifo = record {
  line = λ ts. ts;
  idle_line = refl;
  acquire_line = λ t ts. refl;
  grant_none = λ ts e. rw e refl;
  grant_some = λ ts t rest e. (rest, rw e refl, refl);
}

-- A second request comes while the first has the mutex, a third before the second has it.
abbrev busy_day : List Event
busy_day =
    submits SchedulerRequestKind.create (codes "a") 10
    ∷ begins
    ∷ submits SchedulerRequestKind.destroy (codes "b") 20
    ∷ finishes 30
    ∷ submits SchedulerRequestKind.reconcile (codes "c") 40
    ∷ []

run-IsCounted_example :
    IsCounted list_mutex list_mutex-Fifo (run list_mutex 8 (new_queue list_mutex) busy_day)
    × (depth (run list_mutex 8 (new_queue list_mutex) busy_day)
          + total (run list_mutex 8 (new_queue list_mutex) busy_day).admitted
        ≡ submissions busy_day)
run-IsCounted_example = run-IsCounted list_mutex list_mutex-Fifo 8 busy_day

served-requested_example :
    served list_mutex 8 (new_queue list_mutex) busy_day
      ++ present list_mutex list_mutex-Fifo (run list_mutex 8 (new_queue list_mutex) busy_day)
    ≡ requested busy_day
served-requested_example = served-requested list_mutex list_mutex-Fifo 8 busy_day

served-rounds_example :
    let q = run list_mutex 8 (new_queue list_mutex) busy_day in
    (depth (run list_mutex 8 q (rounds (depth q) 50)) ≡ 0)
    × (served list_mutex 8 q (rounds (depth q) 50) ≡ present list_mutex list_mutex-Fifo q)
served-rounds_example = served-rounds list_mutex list_mutex-Fifo 8 busy_day 50
