-- ===== src/Scheduler.antt =====
-- src/zamboni/scheduler.py: reasons and operations, candidates and work items, the coalescing queue.
pub mod Reasons
pub mod Candidate
pub mod WorkItem
pub mod Queue
pub mod Ticks
