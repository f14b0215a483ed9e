-- ===== src/Queue.antt =====
-- packages/database/src/tasks.ts, and the functions of its migrations that it calls: the durable
-- task queue with leases, attempts, holds and acquisition.
pub mod Json
pub mod Task
pub mod Claim
pub mod Choice
pub mod Enqueue
pub mod Fencing
pub mod Attempts
pub mod Exclusive
pub mod Steps
pub mod Sample
pub mod Invariant
mod Tests
