-- ===== src/Scheduler/State.antt =====
-- The scheduler's state, what it is configured with, and the services it calls, which are not of
-- this repository: the managers of the caches, the connector and the queues are parameters.
pub mod Frame
pub mod Laws
pub mod Proper
use edmm.Prelude.{
  ℕ, zero, suc, String, ℤ, pos, negsuc, List, [], ◌∷◌, ◌++◌, Option, none, some, Bool, true, false,
  if◌then◌else◌, ◌==◌, ◌≡◌, refl,
}
use edmm.Prelude.Dict.{Dict}
use edmm.Prelude.Effect.{Outcome, ok, raised, M}
use edmm.Floats.{Floats}
use edmm.Request.{Request, MultiModalFeature}
use edmm.Request.Status.{RequestStatus}
use edmm.Hook.{Hook}

-- A request is an object that the dictionary and the queues share: they hold its address.
abbrev pub Ref : Type 0
Ref = ℕ

abbrev pub Store : Floats → Type 0
Store f = Ref → Request f

pub data Policy : Type 0 where
  fcfs priority : Policy

pub data PauseState : Type 0 where
  unpaused paused_new paused_all : PauseState

-- A `KVCacheBlocks`, by its address.
abbrev pub Blocks : Type 0
Blocks = ℕ

-- The arguments of `allocate_slots` for a waiting request.
pub record SlotArguments : Type 0 where
  pub num_new_tokens : ℕ
  pub num_new_computed_tokens : ℕ
  pub new_computed_blocks : Option Blocks
  pub num_lookahead_tokens : ℕ
  pub num_external_computed_tokens : ℕ
  pub delay_cache_blocks : Bool
  pub num_encoder_tokens : ℕ
  pub full_sequence_must_fit : Bool

-- The calls of the two cache managers and of the connector, with their arguments as they are then.
pub data Call (f : Floats) : Type 0 where
  kv_free encoder_free on_new_request : Request f → Call f
  cache_blocks : Request f → ℕ → Call f
  remove_skipped_blocks : String → ℕ → Call f
  get_block_ids : String → Call f
  request_finished : Request f → List ℕ → Call f
  request_finished_all_groups : Request f → List (List ℕ) → Call f
  reset_prefix_cache reset_cache update_connector_output : Call f
  evict_blocks : List ℕ → Call f
  get_cached_input_ids : Request f → Call f
  free_encoder_input : Request f → ℕ → Call f
  check_and_update_cache : Request f → ℕ → Call f
  -- `can_allocate(request, i, encoder_compute_budget, num_embeds_to_schedule)`
  can_allocate : Request f → ℕ → ℕ → ℕ → Call f
  has_cache_item : String → Call f
  -- `should_advance`, `grammar.validate_tokens` and `grammar.accept_tokens` of structured output.
  should_advance : Request f → Call f
  validate_tokens : Request f → List ℕ → Call f
  accept_tokens : Request f → List ℕ → Call f
  -- `grammar_bitmask`, with the requests as they are.
  new_step_starts : Call f
  -- `allocate_slots(request, num_new_tokens, num_lookahead_tokens)`
  allocate_slots : Request f → ℕ → ℕ → Call f
  allocate_waiting : Request f → SlotArguments → Call f
  get_blocks : String → Call f
  get_computed_blocks : Request f → Call f
  get_num_new_matched_tokens : Request f → ℕ → Call f
  update_state_after_alloc : Request f → Blocks → ℕ → Call f
  get_num_common_prefix_blocks : String → Call f
  take_new_block_ids get_freed_mm_hashes : Call f
  -- `build_connector_meta`, of the scheduler's output.
  build_connector_meta build_ec_connector_meta : Call f
  encoder_allocate ec_update_state_after_alloc : Request f → ℕ → Call f
  grammar_bitmask : Store f → Dict String Ref → List String → Dict String (List ℕ) → Call f

-- What each call returns.
abbrev pub Reply : {f : Floats} → Call f → Type 0
Reply (Call.kv_free r) = Unit {0}
Reply (Call.encoder_free r) = Unit {0}
Reply (Call.on_new_request r) = Unit {0}
Reply (Call.cache_blocks r n) = Unit {0}
Reply (Call.remove_skipped_blocks i n) = Unit {0}
Reply (Call.get_block_ids i) = List (List ℕ)
Reply (Call.request_finished r bs) = Bool × Option ℕ
Reply (Call.request_finished_all_groups r bs) = Bool × Option ℕ
Reply Call.reset_prefix_cache = Bool
Reply Call.reset_cache = Bool
Reply Call.update_connector_output = Unit {0}
Reply (Call.evict_blocks bs) = Unit {0}
Reply (Call.get_cached_input_ids r) = List ℕ
Reply (Call.free_encoder_input r i) = Unit {0}
Reply (Call.check_and_update_cache r i) = Bool
Reply (Call.can_allocate r i budget n) = Bool
Reply (Call.has_cache_item name) = Bool
Reply (Call.should_advance r) = Bool
Reply (Call.validate_tokens r ts) = List ℕ
Reply (Call.accept_tokens r ts) = Bool
Reply Call.new_step_starts = Unit {0}
Reply (Call.allocate_slots r n lookahead) = Option Blocks
Reply (Call.allocate_waiting r slots) = Option Blocks
Reply (Call.get_blocks i) = Blocks
Reply (Call.get_computed_blocks r) = Blocks × ℕ
Reply (Call.get_num_new_matched_tokens r n) = Option ℕ × Bool
Reply (Call.update_state_after_alloc r blocks n) = Unit {0}
Reply (Call.get_num_common_prefix_blocks i) = List ℕ
Reply Call.take_new_block_ids = List ℕ
Reply Call.get_freed_mm_hashes = List String
Reply Call.build_connector_meta = ℕ
Reply Call.build_ec_connector_meta = ℕ
Reply (Call.encoder_allocate r i) = Unit {0}
Reply (Call.ec_update_state_after_alloc r i) = Unit {0}
Reply (Call.grammar_bitmask store requests ids spec) = List ℕ

pub record Setup : Type 1 where
  pub floats : Floats
  pub block_hasher : Request floats → List ℕ
  -- The managers and the connector: their state, and what a call returns and leaves.
  pub Services : Type 0
  pub answer : (call : Call floats) → Services → Reply call × Services
  -- `RequestQueue`; a priority queue reads the requests to compare them.
  pub Queue : Type 0
  pub elements : Queue → List Ref
  pub queue_add : Store floats → Ref → Queue → Queue
  pub queue_prepend : Store floats → Ref → Queue → Queue
  pub queue_remove : List Ref → Queue → Queue
  pub peek : Queue → Ref
  -- `pop_request`, which returns the request that `peek_request` does; `prepend_requests`; a new queue.
  pub queue_pop : Store floats → Queue → Queue
  pub queue_prepend_all : Store floats → Queue → Queue → Queue
  pub empty_queue : Queue
  -- `remove_all` and `check_stop` of vllm.v1.core.sched.utils.
  pub remove_all : List Ref → List Ref → List Ref
  pub check_stop : Request floats → ℕ → Request floats × Bool
  -- `set(xs)`, in the order in which it is iterated over.
  pub iterate_set : List String → List String
  pub policy : Policy
  pub log_stats : Bool
  pub use_eagle : Bool
  pub block_size : ℕ
  pub max_model_len : ℕ
  pub has_connector : Bool
  -- `isinstance(self.connector, SupportsHMA)`
  pub supports_hma : Bool
  pub num_kv_cache_groups : ℕ
  pub edmm_enabled : Bool
  pub use_pp : Bool
  pub async_scheduling : Bool
  pub recompute_kv_load_failures : Bool
  pub is_encoder_decoder : Bool
  pub disable_chunked_mm_input : Bool
  pub has_ec_connector : Bool
  pub max_num_scheduled_tokens : ℕ
  pub max_num_running_reqs : ℕ
  pub max_num_encoder_input_tokens : ℕ
  pub long_prefill_token_threshold : ℕ
  pub num_lookahead_tokens : ℕ
  pub enable_chunked_prefill : Bool
  pub scheduler_reserve_full_isl : Bool
  -- `lora_config.max_loras`, if there is a `lora_config`.
  pub max_loras : Option ℕ
  -- `kv_cache_manager.empty_kv_cache_blocks`
  pub empty_blocks : Blocks
  -- `get_block_ids()` and `get_block_ids(allow_none=True)` of `KVCacheBlocks`.
  pub block_ids : Blocks → List (List ℕ)
  pub block_ids_or_none : Blocks → Option (List (List ℕ))
  pub use_v2_model_runner : Bool
  pub needs_kv_cache_zeroing : Bool
  pub need_mamba_block_aligned_split : Bool
  -- `mm_position.get_embeds_indices_in_range(start, end)`
  pub embeds_in_range : MultiModalFeature → ℕ → ℕ → ℕ × ℕ

module _ (u : Setup) where
  pub record Scheduler : Type 0 where
    pub store : Store u.floats
    pub requests : Dict String Ref
    pub waiting : u.Queue
    pub skipped_waiting : u.Queue
    pub running : List Ref
    pub finished_req_ids : List String
    pub finished_req_ids_dict : Option (Dict ℕ (List String))
    pub prev_step_scheduled_req_ids : List String
    pub num_waiting_for_streaming_input : ℤ
    pub finished_recving_kv_req_ids : List String
    pub failed_recving_kv_req_ids : List String
    pub pause_state : PauseState
    -- `none` if the object has no attribute `_edmm_hook`.
    pub edmm_hook : Option (Hook u.floats)
    pub services : u.Services
    pub calls : List (Call u.floats)

pub data Error : Type 0 where
  assertion_error key_error index_error runtime_error zero_division_error value_error : Error
  -- What the model leaves out: a negative number of new tokens, and a loop that goes on too long.
  negative_tokens out_of_fuel : Error

module _ (u : Setup) where
  -- A method: what it returns or raises, and the scheduler after it.
  abbrev pub Action : Type 0 → Type 0
  Action A = M (Scheduler u) Error A

  abbrev pub update_at :
      Ref → (Request u.floats → Request u.floats) → Store u.floats → Store u.floats
  update_at r g s x = if x == r then g (s x) else s x

  -- An assignment to fields of the request at `r`.
  unfoldable pub modify : Ref → (Request u.floats → Request u.floats) → Scheduler u → Scheduler u
  modify r g s = record s { store = update_at r g s.store }

  unfoldable pub set_status : Ref → RequestStatus → Scheduler u → Scheduler u
  unfolding modify
  set_status r status s = modify r (λ q. record q { status = status }) s

  -- A call of a service, recorded.
  unfoldable pub invoke : (call : Call u.floats) → Scheduler u → Reply call × Scheduler u
  invoke call s =
      let (reply, services) = u.answer call s.services in
      (reply, record s { services = services; calls = s.calls ++ (call ∷ []) })

-- One less and one more.
abbrev pub decrement : ℤ → ℤ
decrement (pos zero) = negsuc 0
decrement (pos (suc n)) = pos n
decrement (negsuc n) = negsuc (suc n)

abbrev pub increment : ℤ → ℤ
increment (pos n) = pos (suc n)
increment (negsuc zero) = pos 0
increment (negsuc (suc n)) = negsuc n
