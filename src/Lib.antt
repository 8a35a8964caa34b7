-- ===== src/Lib.antt =====
-- EDMM: execution-driven memory management for agentic language-model workloads.
--
-- While a request waits for a tool, its key-value cache can be prepared in other physical memory, and
-- put in place by remapping pages under unchanged addresses. The program has these parts.
--
-- * vllm-integration/vllm_v1_worker_gpu/edmm_allocator.py allocates cache memory page by page, keeps
--   a registry of allocations by address, remaps single pages and frees. Module `Allocator`, with the
--   driver and the registry's state in `Gpu`. `Allocator.Pages` and `Allocator.Context` hold rules for
--   single steps; the others are named for what they prove.
-- * vllm-integration/vllm_v1_core_sched/edmm_hook.py keeps the pauses of requests that wait for a tool,
--   decides whether to speculate, and releases what a pause holds. Module `Hook`. It calls
--   `release_physical_handle` of the allocator; `Hook.Events` are sequences of its calls.
-- * vllm-integration/request.py is a request with its tokens, its order and its status. Module
--   `Request`. `Request.Status` has the statuses, among them the one of a request that waits for a tool.
-- * vllm-integration/vllm_v1_core_sched/scheduler.py moves requests between its queues. Module
--   `Scheduler`: `State` is its state, with requests as objects in a store that the dictionary and the
--   queues share by address; `Split` is `_mamba_block_aligned_split`; `Waiting` has the two waiting
--   queues and `_try_promote_blocked_waiting_request`, which calls the hook; `Finish` has
--   `finish_requests` and what it frees; `Session` has `add_request` and the streams; `Preempt` has
--   preemption, `reset_prefix_cache` and the counts; `Transfers` takes the reports of ended
--   transfers; `Invalid` is `_update_requests_with_invalid_blocks` and
--   `_handle_invalid_blocks`; `Encoder` is
--   `_try_schedule_encoder_inputs`; `Cached` is `_make_cached_request_data`; `Grammar` is
--   `get_grammar_bitmask`; `Step` has the small steps around a run of the model. `Schedule` is
--   `schedule`: itself the preemption that makes room, `Running` the loop over the running requests,
--   `Waiting` how a waiting request is found and its tokens are planned, `Admission` the loop over the
--   waiting requests, `Method` the whole with the record that it returns. `Update` and its `Method` are
--   `update_from_output`.
-- * vllm-integration/cache_engine_patched.py is the cache engine of the first engine, which allocates
--   the caches of the layers by the VMM allocator. Module `CacheEngine`.
-- * vllm-integration/vllm_v1_worker_gpu/attn_utils.py sets up the caches of the worker, by the VMM
--   allocator too. Module `AttnUtils`: `Layers` tells the layers with a cache from those that share
--   one; `Groups` and `Backend` are `init_attn_backend`; `Raw` is `_allocate_kv_cache`, `Reshape` and
--   `Hybrid` are `_reshape_kv_cache`, `_update_hybrid_attention_layout` and `init_kv_cache`; `Metadata`
--   is `build_slot_mappings_by_layer` and `build_attn_metadata`.
-- * validate_edmm_core_v2.py and edmm_vllm_live_e2e.py measure what the speculation saves. Module
--   `Benchmark`: `Inputs` has the texts and token ids, `Phases` the iterations of the three groups,
--   `Statistics` the statistics and criteria of the first; `Live` is the second.
--
-- How code becomes definitions. A method is a function of the same name, in snake case; state is
-- passed, and stateful code that may raise is in the monad of `Prelude.Effect`, in which a raise keeps
-- the changes that were made before it. `Prelude.Dict` are Python's dictionaries, in insertion order.
-- Foreign code is a parameter: `Gpu.Driver` answers the calls of the CUDA driver and runtime, one
-- result code and one output for each, and every call is logged in `World.calls`; `Floats` is machine
-- arithmetic; a tokenizer is a function. Nothing is assumed of them but what a theorem names.
--
-- Bounds and fuel. The loop over pages in `map_pages` takes as fuel one more than the number of pages,
-- which is the number of its rounds; running out of fuel is an exception of its own, and the theorems
-- show that it does not arise. The loop of `schedule` over the running requests has as fuel one more than
-- their number, the loop over the waiting requests one more than theirs: every round takes one from the
-- list that is left to do. There too running out is an exception of its own, as is a number of tokens
-- that would be negative. Numbers of the program are unbounded integers; where they can be
-- negative they are `ℤ`.
--
-- The scheduler's managers, its connector and its queues are fields of `Scheduler.State.Setup`; the
-- calls of the first two are logged. `Scheduler.State.Laws` says what is relied on of the queues, and
-- `Scheduler.Encoder.Budget.GrantsFitting` what of the manager of encoder caches.
-- PyTorch is `Torch`; vLLM's classes are `CacheEngine.Backend`, `AttnUtils.Config.Vllm`,
-- `AttnUtils.Backend.Builders` and `AttnUtils.Metadata.Metadata`; the model, the clock and the GPU of
-- the benchmarks are `Benchmark.Machine.Machine` and `Benchmark.Live.Engine`. An exception of any of
-- them ends the method that called.
--
-- In the benchmarks the loop of `repeat_to_token_floor` takes fuel; one round more than the wanted
-- number of tokens is enough if each round adds a token.
--
-- Not modelled: logging, printing and reports, ctypes declarations, threads inside a critical section
-- (a method that holds the lock is one step), the snapshot of routed experts and the statistics of the
-- prefix cache in `schedule`, log probabilities, routed experts, events of the caches and statistics in
-- `update_from_output`, the CUDA benchmarks and the baseline of another server.
pub mod Prelude
pub mod Gpu
pub mod Allocator
pub mod Floats
pub mod Hook
pub mod Request
pub mod Scheduler
pub mod Torch
pub mod CacheEngine
pub mod AttnUtils
pub mod Benchmark
