-- ===== src/Server/Queue.antt =====
-- The persistent job queue, RotoWeaveServer/server/repository.py: its tables, its statements, and the
-- methods of `RemoteQueueRepository`.
pub mod Schema
pub mod Statements
pub mod Enqueue
pub mod Dispatch
pub mod Finish
pub mod Admin
pub mod Effects
pub mod Outcomes
pub mod Calls
pub mod Changes
pub mod Invariant
pub mod Moves
pub mod Turn
pub mod Intake
pub mod Operations
pub mod Audit
pub mod Claiming
pub mod Idempotency
pub mod Housekeeping
pub mod Rows
pub mod Streaming
pub mod Restart
mod Tests
