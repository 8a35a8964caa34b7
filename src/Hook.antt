-- ===== src/Hook.antt =====
-- vllm-integration/vllm_v1_core_sched/edmm_hook.py: the pauses of requests that wait for a tool, and
-- what is held for them meanwhile. Each method's critical section is one step; logging is left out.
pub mod Decision
pub mod Events
pub mod Lifecycle
pub mod Cleanup
pub mod Tests
use text.Mathlib.Text.{find?}
use edmm.Prelude.{
  ℕ, String, ◌-◌, min, List, [], ◌∷◌, Option, none, some, Bool, true, false, if◌then◌else◌, leb,
  length, get_elem?, take, drop, String_discrete,
}
use edmm.Prelude.Dict.{Dict, get, put, erase, contains, keys, is_some}
use edmm.Floats.{Floats}
use edmm.Gpu.{Driver, World}
use edmm.Allocator.{release_physical_handle}

abbrev pub tool_sentinel_token : String
tool_sentinel_token = "<|call_tool|>"

pub data SpeculationDecision : Type 0 where
  speculate defer : SpeculationDecision

-- `ToolCallState`
pub record ToolCallState : Type 0 where
  pub request_id : String
  pub paused_at_ns : ℕ
  pub speculative_handles : List ℕ
  pub speculation_decision : Option SpeculationDecision
  pub resumed : Bool

-- What a pause reads of its surroundings: the monotonic clock, the words of the first line of
-- /proc/stat (`none` if it cannot be read), and the performance counter.
pub record Surroundings (f : Floats) : Type 0 where
  pub monotonic : f.Float
  pub stat : Option (List String)
  pub perf_counter_ns : ℕ

-- `EdmmSchedulerHook`. The values of `_tool_responses` are `True` throughout.
pub record Hook (f : Floats) : Type 0 where
  pub active_pauses : Dict String ToolCallState
  pub tool_responses : Dict String Bool
  pub cpu_load_cache : f.Float
  pub cpu_load_cache_time : f.Float

-- The last ten tokens, or all if there are fewer.
abbrev pub recent : List ℕ → List ℕ
recent output_token_ids =
    drop (length output_token_ids - min 10 (length output_token_ids)) output_token_ids

-- `should_pause_for_tool_call`, given what the tokenizer decodes.
unfoldable pub should_pause_for_tool_call : (List ℕ → String) → List ℕ → Bool
should_pause_for_tool_call decode [] = false
should_pause_for_tool_call decode (t ∷ ts) =
    is_some (find? (decode (recent (t ∷ ts))) tool_sentinel_token)

module _ (f : Floats) where
  abbrev pub zero_load : f.Float
  zero_load = f.decimal 0 1

  abbrev pub cpu_load_threshold : f.Float
  cpu_load_threshold = f.decimal 750 1

  -- `__init__`
  unfoldable pub init : Hook f
  init = record {
    active_pauses = [];
    tool_responses = [];
    cpu_load_cache = zero_load;
    cpu_load_cache_time = zero_load;
  }

  -- `sum(float(x) for x in …)`, from the left.
  unfoldable pub sum_parsed : f.Float → List String → Option f.Float
  sum_parsed acc [] = some acc
  sum_parsed acc (x ∷ xs) = elim (f.parse x) [ none ↦ none | some v ↦ sum_parsed (f.add acc v) xs ]

  busy_percent : f.Float → f.Float → f.Float
  busy_percent idle total =
      if f.lt zero_load total
      then f.mul (f.decimal 1000 1) (f.sub (f.decimal 10 1) (f.div idle total))
      else zero_load

  total_load : f.Float → Option f.Float → f.Float
  unfolding busy_percent
  total_load idle none = zero_load
  total_load idle (some total) = busy_percent idle total

  idle_load : List String → Option f.Float → f.Float
  unfolding total_load sum_parsed
  idle_load parts none = zero_load
  idle_load parts (some idle) = total_load idle (sum_parsed zero_load (take 7 (drop 1 parts)))

  parse_at : Option String → Option f.Float
  parse_at none = none
  parse_at (some x) = f.parse x

  -- The `try` block of `_sample_cpu_load`: the load that the line shows, 0.0 after any exception.
  unfoldable pub measured_load : Option (List String) → f.Float
  unfolding idle_load parse_at
  measured_load none = zero_load
  measured_load (some parts) =
      if leb 8 (length parts) then idle_load parts (parse_at (get_elem? parts 4)) else zero_load

  -- `_sample_cpu_load`
  unfoldable pub sample_cpu_load : Hook f → Surroundings f → Hook f × f.Float
  sample_cpu_load h s =
      if f.lt (f.sub s.monotonic h.cpu_load_cache_time) (f.decimal 1 1)
      then (h, h.cpu_load_cache)
      else (
        record h { cpu_load_cache = measured_load s.stat; cpu_load_cache_time = s.monotonic },
        measured_load s.stat,
      )

  unfoldable pub decide : f.Float → SpeculationDecision
  decide cpu_load =
      if f.lt cpu_load_threshold cpu_load
      then SpeculationDecision.defer
      else SpeculationDecision.speculate

  abbrev pub new_state : String → ℕ → SpeculationDecision → ToolCallState
  new_state request_id now decision = record {
    request_id = request_id;
    paused_at_ns = now;
    speculative_handles = [];
    speculation_decision = some decision;
    resumed = false;
  }

  -- `on_tool_call_pause`
  unfoldable pub on_tool_call_pause :
      Hook f → String → Surroundings f → Hook f × SpeculationDecision
  on_tool_call_pause h request_id s =
      let (sampled, cpu_load) = sample_cpu_load h s in
      let decision = decide cpu_load in
      (
        record sampled {
          active_pauses =
              put String_discrete request_id (new_state request_id s.perf_counter_ns decision)
                sampled.active_pauses;
        },
        decision,
      )

  -- `submit_tool_response`
  unfoldable pub submit_tool_response : Hook f → String → Hook f
  submit_tool_response h request_id = record h {
    tool_responses = put String_discrete request_id true h.tool_responses;
  }

  -- `is_tool_response_ready`
  unfoldable pub is_tool_response_ready : Hook f → String → Bool
  is_tool_response_ready h request_id = contains String_discrete request_id h.tool_responses

  -- `get_active_pause`
  unfoldable pub get_active_pause : Hook f → String → Option ToolCallState
  get_active_pause h request_id = get String_discrete request_id h.active_pauses

  -- The critical section of `on_tool_call_resume` and of `cleanup_request`.
  abbrev pub forget : Hook f → String → Hook f
  forget h request_id = record h {
    active_pauses = erase String_discrete request_id h.active_pauses;
    tool_responses = erase String_discrete request_id h.tool_responses;
  }

  -- `on_tool_call_resume`
  unfoldable pub on_tool_call_resume : Hook f → String → Hook f × Option ToolCallState
  on_tool_call_resume h request_id =
      (forget h request_id, get String_discrete request_id h.active_pauses)

  module _ (d : Driver) where
    -- The loop of `cleanup_request`: a release that raises is skipped.
    unfoldable pub release_each : List ℕ → World d → World d
    release_each [] w = w
    release_each (handle ∷ hs) w = release_each hs (release_physical_handle d handle w).1

    -- `importable` says whether the allocator module can be imported.
    release_state : Bool → Option ToolCallState → World d → World d
    unfolding release_each
    release_state importable none w = w
    release_state false (some state) w = w
    release_state true (some state) w = release_each state.speculative_handles w

    -- `cleanup_request`
    unfoldable pub cleanup_request : Bool → Hook f → String → World d → Hook f × World d
    unfolding release_state
    cleanup_request importable h request_id w = (
      forget h request_id,
      release_state importable (get String_discrete request_id h.active_pauses) w,
    )

    cleanup_requests : Bool → List String → Hook f → World d → Hook f × World d
    cleanup_requests importable [] h w = (h, w)
    cleanup_requests importable (rid ∷ rids) h w =
        let (h', w') = cleanup_request importable h rid w in cleanup_requests importable rids h' w'

    -- `cleanup_all`
    unfoldable pub cleanup_all : Bool → Hook f → World d → Hook f × World d
    unfolding cleanup_requests
    cleanup_all importable h w = cleanup_requests importable (keys h.active_pauses) h w
