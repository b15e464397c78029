-- ===== src/Sandbox.antt =====
-- packages/modules/sandbox: the containers in which agents work, their tasks and their resources.
pub mod Status
pub mod TaskName
pub mod InitialTask
pub mod Aggregate
pub mod Task
pub mod Pool
pub mod Ledger
pub mod Queue
pub mod Repository
pub mod Provision
pub mod Reconciler
mod Examples
