-- ===== src/Lib.antt =====
-- The core logic of agent-platform-api, a service that runs command-line agents in sandboxes and starts
-- them by rules on a schedule.
--
-- The parts and where they are modelled:
--   Automation: packages/modules/automation/src/domain. A rule (`Automation`, Rule.antt, of
--     entities/automation.entity.ts) has a schedule (Schedule.antt, of value-objects/schedule.vo.ts) and
--     the slot at which it fires next. The trigger decision (Decision.antt, of
--     services/trigger-decision.domain-service.ts) says what a slot that is due comes to. A run
--     (`AutomationRun`, Run.antt, of entities/automation-run.entity.ts) is the record of one slot; its
--     outcome goes back into the rule, which counts failures, slows down and is disabled.
--     Policies.antt and Webhook.antt are the value objects that both use. The scheduler
--     (Scheduler.antt, of ../application/automation.scheduler.ts) drives both once a minute: it recovers
--     outcomes and advances the runs in flight (Scheduler/Flight.antt), fires the rules that are due
--     (Scheduler/Fire.antt), each row by itself (Scheduler/Sweep.antt).
--   Sandbox: packages/modules/sandbox/src. The aggregate (`Sandbox`, Aggregate.antt, of
--     domain/entities/sandbox.entity.ts) moves through the table of Status.antt
--     (domain/value-objects/sandbox-status.vo.ts); it holds an instruction (InitialTask.antt) and a name
--     (TaskName.antt). A headless task (`AgentTask`, Task.antt, of domain/entities/agent-task.entity.ts)
--     is one run of an agent in it. Before a sandbox is made, the allocator reserves its quota: the
--     admission test is Pool.antt (domain/services/resource-pool.domain-service.ts), the rows and the
--     jobs on them are Ledger.antt (application/resource-allocator.ts, with the allocation entity and its
--     repository). The requests to the pool pass one at a time through a queue (Queue.antt, of
--     application/scheduler-queue.ts). After a task is accepted, the provision workflow makes its
--     workspace, its instance and its agent, or restarts a stopped one (Provision.antt, of
--     application/workflows/provision-sandbox.workflow.ts): Provision/Pipeline.antt has the stages, the
--     compensation and what a cancellation leaves, Provision/Restart.antt the restart, Steps.antt and
--     Credentials.antt beside them what both share, Maps.antt the environment of the instance. A save of
--     the aggregate checks the version of its row (Repository.antt, of
--     infrastructure/persistence/sqlite/sandbox.repository.impl.ts).
--     The reconciler (Reconciler.antt, of application/quota-reconciler.ts) compares the rows of the
--     ledger with the instances of the providers and gives back what is gone.
--   Project: packages/modules/project/src/domain. A project (`Project`, Entity.antt, of
--     entities/project.entity.ts) is the source that a sandbox copies, cloned from a remote or empty; a
--     retained volume (Volume.antt, of entities/retained-volume.entity.ts) is a workspace kept after its
--     sandbox.
--   Archive: packages/shared-kernel/src/fs/tar-archive.ts. The plan of a tar archive and its bytes
--     (Archive.antt).
--   Common: Boolean tests and lists on native numbers, texts, the methods that may throw, the calendar.
--
-- How the code is written down:
--   An aggregate is a record, with the events that it has raised. A method takes the record and returns
--   it in every case, with the error if it throws (`Outcome`): what was written before a throw stays
--   written. A factory returns a value or an error (`Result`). `step` applies one method, `run_calls`
--   and `run_jobs` a sequence of them, past those that throw. A text is a list of UTF-16 units, a time a
--   number of milliseconds since 1970, an absent or null value `none`. Names are those of the source in
--   snake case.
--
--   The scheduler returns what it did as a list of effects: the transactions with their writes, and the
--   calls of the launcher, the audit and the notifier. What these answer is an argument, a rejection
--   included, so that a theorem holds for all answers; a transaction is taken to commit.
--
--   The provision workflow does the same (`Scene`): its locals, the aggregate, and every call in order.
--   A call that is awaited is answered by `Env`, with a value or a rejection. `cancel` is the number of
--   calls after which it was called, so it may come at any moment; the version of the row, too, is given
--   for each moment, so other writers may come between. Code that follows an awaited value is passed on
--   as the argument `next`. A `finally` is `finally_zeroize`, a `catch` a function of the outcome of the
--   `try`.
--
-- Bounds: the search of a schedule for its next time has the 72 steps that the source gives it. The loop
-- that finds the length of a record of an extended tar header (`settle_length`) has as many steps as the
-- length can grow, which is proved to be enough; the digits of a number have one step more than the
-- number, and the shortening of a name as many as the name is long. All other loops are over lists.
--
-- Parameters: what the source asks of the JavaScript runtime is an argument. `Intl` (the zones it knows
-- and the calendar in them) and the protocol of a URL are the fields of `Host`, `toISOString` an argument
-- of `derive_default_task_name`. `IsZone` states what the source relies on in a zone: from the second
-- day of 1970 on an offset of at most fourteen hours (`Date.UTC` before 1970 is no natural number), and a
-- clock time; the examples give a runtime with a zone west of UTC that has it. `IsSteady` states that a
-- zone keeps its offset over a stretch of time. The mutex of the queue is the record `Mutex`, and `Fifo`
-- states that it lets in whoever came first; the examples give one that keeps a list. `Remotes` is the
-- parser of the addresses of projects, which asks `new URL`. `Encoder` is
-- what `Buffer` does with strings, and `IsUtf8` states that an ASCII unit is one byte.
--
-- Not exact: processor amounts are counted in billionths of a core and the ratios of the scheduling
-- policy in thousandths, where the source has floating-point numbers. Identifiers in the ledger are
-- numbers. The wording of errors is left out, their kind is kept. Events are kept in order and not
-- dispatched.
--
-- Not modelled: the other workflows of a sandbox (its tasks, its deletion), the table of running promises
-- of the provision workflow, the credentials, images, runtimes and terminals, and all that is input and
-- output: HTTP, SQL (except the constraints of the ledger's table), containers, webhooks.
pub mod Common
pub mod Automation
pub mod Sandbox
pub mod Project
pub mod Archive
