-- ===== src/Scheduler.antt =====
-- vllm-integration/vllm_v1_core_sched/scheduler.py: where a request waits, runs and ends, and how a
-- request that waits for a tool is taken up again.
pub mod State
pub mod Split
pub mod Waiting
pub mod Finish
pub mod Session
pub mod Transfers
pub mod Invalid
pub mod Preempt
pub mod Step
pub mod Encoder
pub mod Cached
pub mod Grammar
pub mod Schedule
pub mod Update
mod Tests
