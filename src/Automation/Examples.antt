-- ===== src/Automation/Examples.antt =====
-- Tests of the automation models, and each theorem at an input that meets its hypotheses.
mod Data
mod Schedules
mod Rules
mod Runs
mod Firing
