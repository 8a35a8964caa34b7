-- ===== src/Request/Tests.antt =====
-- Tests of requests, and their theorems at concrete inputs.
use edmm.Prelude.{ℕ, pos, ◌≡◌, refl, List, [], ◌∷◌, Option, none, some, false, length}
use edmm.Hook.Tests.{hundredths}
use edmm.Gpu.{Tensor}
use edmm.Request.{
  Request, Arguments, update_block_hashes, new_request, take_events, EventType, record_event,
  limits, get_skip_reading_prefix_cache,
}
use edmm.Request.Status.{RequestStatus}
use edmm.Request.Tokens
use edmm.Request.Tokens.{IsConsistent}

-- A request with three prompt tokens and one output token.
abbrev pub sample_request : Request hundredths
sample_request = record {
  request_id = "r";
  client_index = 0;
  priority = pos 0;
  sampling_params = none;
  pooling_params = none;
  structured_output_request = none;
  arrival_time = 100;
  status = RequestStatus.running;
  events = [];
  kv_transfer_params = none;
  max_tokens = 16;
  prompt_token_ids = some (1 ∷ 2 ∷ 3 ∷ []);
  num_prompt_tokens = 3;
  output_token_ids = 4 ∷ [];
  all_token_ids = 1 ∷ 2 ∷ 3 ∷ 4 ∷ [];
  num_output_placeholders = 0;
  async_tokens_to_discard = 0;
  spec_token_ids = [];
  num_computed_tokens = 3;
  mm_features = [];
  is_prefill_chunk = false;
  num_preemptions = 0;
  prefill_stats = none;
  has_block_hasher = false;
  block_hashes = [];
  skip_reading_prefix_cache = false;
  resumable = false;
  streaming_queue = none;
  abort_immediately = false;
  lora_request = none;
}

abbrev later_request : Request hundredths
later_request = record sample_request { request_id = "q"; arrival_time = 101 }

abbrev pub no_hashes : Request hundredths → List ℕ
no_hashes r = []

-- A prompt's length, where it has tokens; the embeddings of the others have none here.
abbrev prompt_length : Option (List ℕ) → Option Tensor → ℕ
prompt_length none e = 0
prompt_length (some ts) e = length ts

abbrev sample_arguments : Arguments hundredths
sample_arguments = record {
  request_id = "r";
  prompt_token_ids = some (1 ∷ 2 ∷ 3 ∷ []);
  sampling_params = some (record {
    max_tokens = some 16;
    skip_reading_prefix_cache = none;
    kv_transfer_params = none;
  });
  pooling_params = none;
  client_index = 0;
  arrival_time = none;
  prompt_embeds = none;
  mm_features = none;
  priority = pos 0;
  has_block_hasher = false;
  resumable = false;
  abort_immediately = false;
  lora_request = none;
}

abbrev fresh_request : Request hundredths
fresh_request = record sample_request {
  sampling_params = sample_arguments.sampling_params;
  status = RequestStatus.waiting;
  output_token_ids = [];
  all_token_ids = 1 ∷ 2 ∷ 3 ∷ [];
  num_computed_tokens = 0;
  prefill_stats = some (record {
    num_prompt_tokens = 0;
    num_local_cached_tokens = 0;
    num_external_cached_tokens = 0;
  });
}

new_request-IsConsistent_example :
    IsConsistent hundredths no_hashes fresh_request
    × (fresh_request.prompt_token_ids ≡ sample_arguments.prompt_token_ids)
    × (fresh_request.all_token_ids ≡ Tokens.prompt_of hundredths fresh_request)
    × (fresh_request.output_token_ids ≡ [])
unfolding new_request limits get_skip_reading_prefix_cache update_block_hashes
new_request-IsConsistent_example =
    Tokens.new_request-IsConsistent hundredths no_hashes prompt_length (λ s. none) 100
      sample_arguments fresh_request (λ ts e. refl) refl

take_recorded :
    (take_events hundredths (record_event hundredths sample_request EventType.queued)).1
    ≡ some (EventType.queued ∷ [])
unfolding take_events record_event
take_recorded = refl
