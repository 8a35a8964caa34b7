-- ===== src/AttnUtils.antt =====
-- vllm-integration/vllm_v1_worker_gpu/attn_utils.py: the caches of the second engine's worker.
pub mod Config
pub mod Layers
pub mod Groups
pub mod Backend
pub mod Raw
pub mod Reshape
pub mod Hybrid
pub mod Metadata
mod Tests
