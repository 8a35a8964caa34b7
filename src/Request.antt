-- ===== src/Request.antt =====
-- vllm-integration/request.py: a request, its tokens and its order. Fields that no modelled code
-- reads (trace headers, the cache salt, embedding hashes) are left out. The block
-- hasher is a parameter; a request says whether it has one.
pub mod Status
pub mod Tokens
pub mod Order
pub mod Statuses
pub mod Tests
use Prim.Native.Nat.{Ordering, compare}
use Prim.Native.String.{compare as compare_text}
use edmm.Prelude.{
  ℕ, zero, suc, ℤ, pos, negsuc, String, ◌+◌, List, [], ◌∷◌, ◌++◌, Option, none, some, Bool, true,
  false, if◌then◌else◌, ltb, leb, not, length, ◌==◌, ◌≡◌, refl,
}
use edmm.Floats.{Floats}
use edmm.Gpu.{Tensor}
use Status.{RequestStatus, is_finished}

-- What is read of `SamplingParams` and `PoolingParams`.
pub record SamplingParams : Type 0 where
  pub max_tokens : Option ℕ
  pub skip_reading_prefix_cache : Option Bool
  pub kv_transfer_params : Option ℕ

pub record PoolingParams : Type 0 where
  pub skip_reading_prefix_cache : Option Bool

-- `StructuredOutputRequest`: whether its grammar is compiled.
pub record StructuredOutput : Type 0 where
  pub grammar : Bool

-- `MultiModalFeatureSpec` with its position.
pub record MultiModalFeature : Type 0 where
  pub offset : ℕ
  pub num_tokens : ℕ
  pub num_embeds : ℕ
  pub identifier : String

pub data EventType : Type 0 where
  queued scheduled preempted : EventType

-- `PrefillStats`
pub record PrefillStats : Type 0 where
  pub num_prompt_tokens : ℕ
  pub num_local_cached_tokens : ℕ
  pub num_external_cached_tokens : ℕ

module _ (f : Floats) where
  -- `StreamingUpdate`
  pub record StreamingUpdate : Type 0 where
    pub mm_features : List MultiModalFeature
    pub prompt_token_ids : Option (List ℕ)
    pub max_tokens : ℕ
    pub arrival_time : f.Float
    pub sampling_params : Option SamplingParams

  pub record Request : Type 0 where
    pub request_id : String
    pub client_index : ℕ
    pub priority : ℤ
    pub sampling_params : Option SamplingParams
    pub pooling_params : Option PoolingParams
    pub structured_output_request : Option StructuredOutput
    pub arrival_time : f.Float
    pub status : RequestStatus
    pub events : List EventType
    pub kv_transfer_params : Option ℕ
    pub max_tokens : ℕ
    pub prompt_token_ids : Option (List ℕ)
    pub num_prompt_tokens : ℕ
    pub output_token_ids : List ℕ
    pub all_token_ids : List ℕ
    pub num_output_placeholders : ℕ
    pub async_tokens_to_discard : ℕ
    pub spec_token_ids : List ℕ
    pub num_computed_tokens : ℕ
    pub mm_features : List MultiModalFeature
    pub is_prefill_chunk : Bool
    pub num_preemptions : ℕ
    pub prefill_stats : Option PrefillStats
    pub has_block_hasher : Bool
    pub block_hashes : List ℕ
    pub skip_reading_prefix_cache : Bool
    pub resumable : Bool
    pub streaming_queue : Option (List (Option StreamingUpdate))
    pub abort_immediately : Bool
    -- `lora_request.lora_int_id`
    pub lora_request : Option ℕ

  -- The arguments of the constructor.
  pub record Arguments : Type 0 where
    pub request_id : String
    pub prompt_token_ids : Option (List ℕ)
    pub sampling_params : Option SamplingParams
    pub pooling_params : Option PoolingParams
    pub client_index : ℕ
    pub arrival_time : Option f.Float
    pub prompt_embeds : Option Tensor
    pub mm_features : Option (List MultiModalFeature)
    pub priority : ℤ
    pub has_block_hasher : Bool
    pub resumable : Bool
    pub abort_immediately : Bool
    pub lora_request : Option ℕ

pub data RequestError : Type 0 where
  -- `assert sampling_params.max_tokens is not None`
  no_max_tokens : RequestError
  -- "sampling_params and pooling_params can't both be unset"
  no_params : RequestError

pub data Result {ℓ} (A : Type ℓ) : Type ℓ where
  ok : A → Result A
  err : RequestError → Result A

infixl 5 ◌>>=◌
abbrev pub ◌>>=◌ {ℓ κ} : {A : Type ℓ} {B : Type κ} → Result A → (A → Result B) → Result B
ok a >>= k = k a
err e >>= k = err e

pub >>=-eq-ok {ℓ κ} :
    {A : Type ℓ} {B : Type κ} (m : Result A) (k : A → Result B) {b : B}
    → (m >>= k) ≡ ok b
    → (a : A) × (m ≡ ok a) × (k a ≡ ok b)
>>=-eq-ok (ok a) k h = (a, refl, h)
>>=-eq-ok (err e) k h = cc

pub ok_injective {ℓ} : {A : Type ℓ} {a b : A} → ok a ≡ ok b → a ≡ b
ok_injective e = cc

abbrev pub or_else {ℓ} : {A : Type ℓ} → Option A → A → A
or_else none d = d
or_else (some a) d = a

-- `[0] * n`
abbrev pub zeros : ℕ → List ℕ
zeros zero = []
zeros (suc n) = 0 ∷ zeros n

sampled_skip : Option SamplingParams → Option Bool
sampled_skip none = none
sampled_skip (some p) = p.skip_reading_prefix_cache

pooled_skip : Option PoolingParams → Option Bool
pooled_skip none = none
pooled_skip (some p) = p.skip_reading_prefix_cache

-- `get_skip_reading_prefix_cache`
unfoldable pub get_skip_reading_prefix_cache : Option SamplingParams → Option PoolingParams → Bool
unfolding sampled_skip pooled_skip
get_skip_reading_prefix_cache sampling pooling = elim (sampled_skip sampling) [
  | some b ↦ b
  | none ↦ or_else (pooled_skip pooling) false
]

-- What the constructor derives from the two kinds of parameters.
pub record Limits : Type 0 where
  pub max_tokens : ℕ
  pub status : RequestStatus
  pub kv_transfer_params : Option ℕ

grammar_status : Option StructuredOutput → RequestStatus
grammar_status none = RequestStatus.waiting
grammar_status (some s) = RequestStatus.waiting_for_structured_output_grammar

sampling_limits : SamplingParams → Option StructuredOutput → Option ℕ → Result Limits
unfolding grammar_status
sampling_limits p structured none = err no_max_tokens
sampling_limits p structured (some n) = ok (record {
  max_tokens = n;
  status = grammar_status structured;
  kv_transfer_params = p.kv_transfer_params;
})

limits : Option SamplingParams → Option PoolingParams → Option StructuredOutput → Result Limits
unfolding sampling_limits
limits sampling (some pooling) structured =
    ok (record { max_tokens = 1; status = RequestStatus.waiting; kv_transfer_params = none })
limits (some sampling) none structured = sampling_limits sampling structured sampling.max_tokens
limits none none structured = err no_params

module _ (f : Floats) (block_hasher : Request f → List ℕ) where
  new_hashes : Request f → List ℕ
  new_hashes r = if r.has_block_hasher then block_hasher r else []

  -- `update_block_hashes`
  unfoldable pub update_block_hashes : Request f → Request f
  unfolding new_hashes
  update_block_hashes r = record r { block_hashes = r.block_hashes ++ new_hashes r }

  -- `append_output_token_ids`; one token is a list of one.
  unfoldable pub append_output_token_ids : Request f → List ℕ → Request f
  unfolding update_block_hashes
  append_output_token_ids r token_ids = update_block_hashes (record r {
    output_token_ids = r.output_token_ids ++ token_ids;
    all_token_ids = r.all_token_ids ++ token_ids;
  })

  -- `__init__`. `prompt_length` is `length_from_prompt_token_ids_or_embeds`, `structured` is
  -- `StructuredOutputRequest.from_sampling_params`, and `now` is the clock.
  unfoldable pub new_request :
      (Option (List ℕ) → Option Tensor → ℕ)
      → (Option SamplingParams → Option StructuredOutput)
      → f.Float
      → Arguments f
      → Result (Request f)
  unfolding update_block_hashes limits get_skip_reading_prefix_cache
  new_request prompt_length structured now a = do
    let grammar = structured a.sampling_params
    let n = prompt_length a.prompt_token_ids a.prompt_embeds
    l ← limits a.sampling_params a.pooling_params grammar
    ok (
        update_block_hashes (record {
          request_id = a.request_id;
          client_index = a.client_index;
          priority = a.priority;
          sampling_params = a.sampling_params;
          pooling_params = a.pooling_params;
          structured_output_request = grammar;
          arrival_time = or_else a.arrival_time now;
          status = l.status;
          events = [];
          kv_transfer_params = l.kv_transfer_params;
          max_tokens = l.max_tokens;
          prompt_token_ids = a.prompt_token_ids;
          num_prompt_tokens = n;
          output_token_ids = [];
          all_token_ids = or_else a.prompt_token_ids (zeros n);
          num_output_placeholders = 0;
          async_tokens_to_discard = 0;
          spec_token_ids = [];
          num_computed_tokens = 0;
          mm_features = or_else a.mm_features [];
          is_prefill_chunk = false;
          num_preemptions = 0;
          prefill_stats = some (record {
            num_prompt_tokens = 0;
            num_local_cached_tokens = 0;
            num_external_cached_tokens = 0;
          });
          has_block_hasher = a.has_block_hasher;
          block_hashes = [];
          skip_reading_prefix_cache =
              get_skip_reading_prefix_cache a.sampling_params a.pooling_params;
          resumable = a.resumable;
          streaming_queue = none;
          abort_immediately = a.abort_immediately;
          lora_request = a.lora_request;
        }))

abbrev pub compare_ℤ : ℤ → ℤ → Ordering
compare_ℤ (pos m) (pos n) = compare m n
compare_ℤ (pos m) (negsuc n) = Ordering.gt
compare_ℤ (negsuc m) (pos n) = Ordering.lt
compare_ℤ (negsuc m) (negsuc n) = compare n m

module _ (f : Floats) where
  abbrev pub num_tokens : Request f → ℕ
  num_tokens r = length r.all_token_ids

  abbrev pub num_tokens_with_spec : Request f → ℕ
  num_tokens_with_spec r = length r.all_token_ids + length r.spec_token_ids

  abbrev pub num_output_tokens : Request f → ℕ
  num_output_tokens r = length r.output_token_ids

  abbrev pub num_encoder_inputs : Request f → ℕ
  num_encoder_inputs r = length r.mm_features

  abbrev pub has_encoder_inputs : Request f → Bool
  has_encoder_inputs r = ltb 0 (num_encoder_inputs r)

  -- `StreamingUpdate.from_request`
  unfoldable pub update_from_request : Request f → Option (StreamingUpdate f)
  update_from_request r =
      if r.resumable
      then some (record {
        mm_features = r.mm_features;
        prompt_token_ids = r.prompt_token_ids;
        max_tokens = r.max_tokens;
        arrival_time = r.arrival_time;
        sampling_params = r.sampling_params;
      })
      else none

  -- `record_event`, without its time stamp.
  unfoldable pub record_event : Request f → EventType → Request f
  record_event r e = record r { events = r.events ++ (e ∷ []) }

  take_if_any : Request f → List EventType → Request f × Option (List EventType)
  take_if_any r [] = (r, none)
  take_if_any r (e ∷ es) = (record r { events = [] }, some (e ∷ es))

  -- `take_events`
  unfoldable pub take_events : Request f → Request f × Option (List EventType)
  unfolding take_if_any
  take_events r = take_if_any r r.events

  -- `take_prefill_stats`
  unfoldable pub take_prefill_stats : Request f → Request f × Option PrefillStats
  take_prefill_stats r = (record r { prefill_stats = none }, r.prefill_stats)

  -- `__lt__`, of requests with their addresses, Python's `id`.
  unfoldable pub lt : ℕ → Request f → ℕ → Request f → Bool
  lt a r b s = elim (compare_ℤ r.priority s.priority) [
    | Ordering.lt ↦ true
    | Ordering.gt ↦ false
    | Ordering.eq ↦
        if f.eq r.arrival_time s.arrival_time
        then elim (compare_text r.request_id s.request_id) [
          | Ordering.lt ↦ true
          | Ordering.gt ↦ false
          | Ordering.eq ↦ ltb a b
        ]
        else f.lt r.arrival_time s.arrival_time
  ]
