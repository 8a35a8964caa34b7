-- ===== src/Scheduler/Split.antt =====
-- `_mamba_block_aligned_split` of vllm-integration/vllm_v1_core_sched/scheduler.py.
pub mod Aligned
use edmm.Prelude.{
  ℕ, ◌+◌, ◌-◌, ◌*◌, ◌/◌, ◌%◌, max, Bool, true, false, if◌then◌else◌, ltb, ◌==◌, ◌&&◌,
}
use edmm.Prelude.Effect.{Outcome, ok, raised}
use edmm.Request.{Request, num_tokens}
use edmm.Scheduler.State.{Setup, Error, assertion_error, zero_division_error}

-- How many of the new tokens are taken.
unfoldable pub cut : ℕ → ℕ → ℕ → ℕ → ℕ
cut block_size num_computed_tokens num_new_tokens last =
    if ltb (num_computed_tokens + num_new_tokens) last
    then num_new_tokens / block_size * block_size
    else if ltb num_computed_tokens last && ltb last (num_computed_tokens + num_new_tokens)
    then last - num_computed_tokens
    else num_new_tokens

-- The end of the last whole block, one block less for Eagle.
unfoldable pub last_position : Bool → ℕ → ℕ → ℕ
last_position use_eagle block_size n =
    if use_eagle then n - n % block_size - block_size else n - n % block_size

module _ (u : Setup) where
  abbrev pub last_cache_position : Request u.floats → ℕ
  last_cache_position r = last_position u.use_eagle u.block_size (num_tokens u.floats r)

  -- Whether the request is still in its prefill.
  abbrev pub in_prefill : Request u.floats → ℕ → Bool
  in_prefill r num_computed_tokens =
      ltb num_computed_tokens (max r.num_prompt_tokens (num_tokens u.floats r - 1))

  -- A block size of 0 raises in `%`.
  aligned_split : Request u.floats → ℕ → ℕ → Outcome Error ℕ
  unfolding cut
  aligned_split r num_computed_tokens num_new_tokens =
      if u.block_size == 0
      then raised zero_division_error
      else ok (cut u.block_size num_computed_tokens num_new_tokens (last_cache_position r))

  -- `_mamba_block_aligned_split`
  unfoldable pub mamba_block_aligned_split : Request u.floats → ℕ → ℕ → ℕ → Outcome Error ℕ
  unfolding aligned_split
  mamba_block_aligned_split r num_new_tokens num_local num_external =
      if num_external == 0
      then if in_prefill r (r.num_computed_tokens + num_local + num_external)
        then aligned_split r (r.num_computed_tokens + num_local + num_external) num_new_tokens
        else ok num_new_tokens
      else raised assertion_error
