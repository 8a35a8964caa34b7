-- ===== src/Benchmark.antt =====
-- The benchmarks validate_edmm_core_v2.py and edmm_vllm_live_e2e.py. Printing and the report's text
-- are left out.
pub mod Machine
pub mod Inputs
pub mod Phases
pub mod Workloads
pub mod Statistics
pub mod Floor
pub mod Live
mod Characters
mod Tests
