-- ===== src/Sandbox/Examples.antt =====
-- A sandbox, a task and a ledger through their methods.
mod Boxes
mod Tasks
mod Ledgers
mod Queues
mod Provisions
