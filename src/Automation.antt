-- ===== src/Automation.antt =====
-- packages/modules/automation: rules that start headless tasks on a schedule.
pub mod Policies
pub mod Webhook
pub mod Schedule
pub mod Run
pub mod Rule
pub mod Decision
pub mod Scheduler
mod Examples
