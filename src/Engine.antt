-- ===== src/Engine.antt =====
-- `JobEngine` of src/engine/engine.cpp.
pub mod State
pub mod Workflow
pub mod Attempts
pub mod Completion
pub mod Submission
pub mod Graph
pub mod Counting
pub mod Kahn
pub mod Acyclic
pub mod Cycles
pub mod Workflows
pub mod Remote
pub mod Watchdog
pub mod Recovery
pub mod Rows
pub mod Final
pub mod Cancellation
pub mod Races
pub mod Outcomes
pub mod Fencing
pub mod Overwritten
pub mod Table
pub mod Restart
pub mod Admission
pub mod Leases
pub mod Walk
pub mod Reach
pub mod Skipping
pub mod Frames
pub mod Free
pub mod Events
