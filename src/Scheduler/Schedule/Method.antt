-- ===== src/Scheduler/Schedule/Method.antt =====
-- `schedule`, but for the snapshot of routed experts and the record of what the connector's cache hit.
pub mod Limits
mod Tests
use edmm.Prelude.{
  ℕ, zero, suc, ◌+◌, String, List, [], ◌∷◌, ◌++◌, Option, none, some, Bool, true, false,
  if◌then◌else◌, ◌&&◌, not, ltb, leb, length, ℕ_discrete, String_discrete,
}
use edmm.Prelude.Dict.{Dict, get, keys}
use edmm.Prelude.Effect.{Outcome, ok, raised, ◌>>=◌, ◌>>◌}
use edmm.Prelude.Partial.{◌>>=◌ as ◌then◌, or_raise}
use edmm.Prelude.Sets.{insert}
use edmm.Prelude.Totals.{sum_values}
use edmm.Request.{Request, zeros}
use edmm.Scheduler.State.{
  Setup, Scheduler, Ref, Blocks, PauseState, Action, Call, Error, assertion_error, key_error,
  invoke,
}
use edmm.Scheduler.Waiting.{nonempty}
use edmm.Scheduler.Cached.{CachedRequestData, make_cached_request_data}
use edmm.Scheduler.Step.{update_after_schedule}
use edmm.Scheduler.Schedule.{Progress}
use edmm.Scheduler.Schedule.Running.{schedule_running_reqs}
use edmm.Scheduler.Schedule.Waiting.{Line}
use edmm.Scheduler.Schedule.Admission.{schedule_waiting_reqs}

module _ (u : Setup) where
  -- `NewRequestData`, of vLLM: it is made of these.
  pub record NewRequestData : Type 0 where
    pub request : Request u.floats
    pub block_ids : List (List ℕ)
    pub prefill_token_ids : Option (List ℕ)

  -- `SchedulerOutput`
  pub record SchedulerOutput : Type 0 where
    pub scheduled_new_reqs : List NewRequestData
    pub scheduled_cached_reqs : CachedRequestData
    pub num_scheduled_tokens : Dict String ℕ
    pub total_num_scheduled_tokens : ℕ
    pub scheduled_spec_decode_tokens : Dict String (List ℕ)
    pub scheduled_encoder_inputs : Dict String (List ℕ)
    pub num_common_prefix_blocks : List ℕ
    pub preempted_req_ids : List String
    pub finished_req_ids : List String
    pub free_encoder_mm_hashes : List String
    pub new_block_ids_to_zero : Option (List ℕ)
    pub kv_connector_metadata : Option ℕ
    pub ec_connector_metadata : Option ℕ
    pub has_structured_output_requests : Bool

  unfoldable pub token_budget : PauseState → ℕ
  token_budget PauseState.paused_all = 0
  token_budget state = u.max_num_scheduled_tokens

  unfoldable pub beginning : Scheduler u → Progress
  unfolding token_budget
  beginning s = record {
    scheduled_new_reqs = [];
    scheduled_resumed_reqs = [];
    scheduled_running_reqs = [];
    preempted_reqs = [];
    req_to_new_blocks = [];
    num_scheduled_tokens = [];
    token_budget = token_budget s.pause_state;
    scheduled_encoder_inputs = [];
    encoder_compute_budget = u.max_num_encoder_input_tokens;
    scheduled_spec_decode_tokens = [];
    req_index = 0;
  }

  -- The LoRAs of the running requests.
  add_running_lora : Option ℕ → List ℕ → List ℕ
  unfolding insert
  add_running_lora none loras = loras
  add_running_lora (some id) loras = if ltb 0 id then insert ℕ_discrete id loras else loras

  unfoldable pub running_loras : List Ref → List ℕ → Scheduler u → List ℕ
  unfolding add_running_lora
  running_loras [] loras s = loras
  running_loras (r ∷ rs) loras s =
      running_loras rs (add_running_lora (s.store r).lora_request loras) s

  unfoldable pub record_loras : Option ℕ → List Ref → Action u (List ℕ)
  unfolding running_loras
  record_loras none rs s = (ok [], s)
  record_loras (some max_loras) rs s =
      if leb (length (running_loras rs [] s)) max_loras
      then (ok (running_loras rs [] s), s)
      else (raised assertion_error, s)

  -- The requests that were put aside come first again.
  unfoldable pub requeue : Line u → Scheduler u → Scheduler u
  requeue w s =
      if nonempty u w.step_skipped_waiting
      then record s {
        skipped_waiting = u.queue_prepend_all s.store w.step_skipped_waiting s.skipped_waiting;
      }
      else s

  abbrev pub is_unpaused : PauseState → Bool
  is_unpaused PauseState.unpaused = true
  is_unpaused state = false

  -- Waiting requests are scheduled if none was preempted.
  unfoldable pub schedule_waiting : Progress → List ℕ → Action u Progress
  unfolding schedule_waiting_reqs requeue
  schedule_waiting p loras s =
      if not (ltb 0 (length p.preempted_reqs)) && is_unpaused s.pause_state
      then (schedule_waiting_reqs u
              (suc (length (u.elements s.waiting) + length (u.elements s.skipped_waiting)))
              (record {
                progress = p;
                scheduled_loras = loras;
                step_skipped_waiting = u.empty_queue;
              })
            >>= (λ w t. (ok w.progress, requeue w t)))
          s
      else (ok p, s)

  -- Both loops.
  unfoldable pub schedule_reqs : Action u Progress
  unfolding beginning schedule_running_reqs record_loras schedule_waiting invoke
  schedule_reqs s =
      let t = (invoke u Call.new_step_starts s).1 in
      (do
        p ← schedule_running_reqs u (suc (length t.running)) (beginning t)
        loras ← record_loras u.max_loras p.scheduled_running_reqs
        schedule_waiting p loras)
        t

  -- `assert total_num_scheduled_tokens <= self.max_num_scheduled_tokens`, `assert token_budget >= 0`
  -- (a number here) and `assert len(self.running) <= self.max_num_running_reqs`.
  abbrev pub keeps_limits : Progress → Scheduler u → Bool
  keeps_limits p s =
      leb (sum_values p.num_scheduled_tokens) u.max_num_scheduled_tokens
      && leb (length s.running) u.max_num_running_reqs

  -- The third assertion: no more requests are scheduled than run.
  abbrev pub counts_match : Progress → Scheduler u → Bool
  counts_match p s =
      leb
        (length p.scheduled_new_reqs
          + length p.scheduled_resumed_reqs
          + length p.scheduled_running_reqs)
        (length s.running)

  unfoldable pub check_step : Progress → Action u (Unit {0})
  check_step p s =
      if keeps_limits p s && counts_match p s then (ok tt, s) else (raised assertion_error, s)

  unfoldable pub common_prefix : List Ref → Action u (List ℕ)
  unfolding invoke
  common_prefix [] s = (ok (zeros u.num_kv_cache_groups), s)
  common_prefix (r ∷ rs) s =
      let (blocks, t) = invoke u (Call.get_num_common_prefix_blocks (s.store r).request_id) s in
      (ok blocks, t)

  unfoldable pub new_data :
      Dict String Blocks → List Ref → Scheduler u → Outcome Error (List NewRequestData)
  unfolding get
  new_data req_to_new_blocks [] s = ok []
  new_data req_to_new_blocks (r ∷ rs) s =
      or_raise (get String_discrete (s.store r).request_id req_to_new_blocks) key_error
      then (λ blocks. new_data req_to_new_blocks rs s then (λ rest. ok (
          record {
            request = s.store r;
            block_ids = u.block_ids blocks;
            prefill_token_ids =
                if u.use_v2_model_runner then some (s.store r).all_token_ids else none;
          }
          ∷ rest)))

  -- With the second model runner the resumed requests count as new.
  abbrev pub new_reqs : Progress → List Ref
  new_reqs p =
      if u.use_v2_model_runner
      then p.scheduled_new_reqs ++ p.scheduled_resumed_reqs
      else p.scheduled_new_reqs

  abbrev pub resumed_reqs : Progress → List Ref
  resumed_reqs p = if u.use_v2_model_runner then [] else p.scheduled_resumed_reqs

  -- `take_new_block_ids() or None`
  abbrev pub or_none : List ℕ → Option (List ℕ)
  or_none [] = none
  or_none (x ∷ xs) = some (x ∷ xs)

  unfoldable pub blocks_to_zero : Scheduler u → Option (List ℕ) × Scheduler u
  unfolding invoke
  blocks_to_zero s =
      let (blocks, t) = invoke u Call.take_new_block_ids s in
      if u.needs_kv_cache_zeroing then (or_none blocks, t) else (none, s)

  unfoldable pub kv_metadata : Scheduler u → Option ℕ × Scheduler u
  unfolding invoke
  kv_metadata s =
      let (meta, t) = invoke u Call.build_connector_meta s in
      if u.has_connector then (some meta, t) else (none, s)

  unfoldable pub ec_metadata : Scheduler u → Option ℕ × Scheduler u
  unfolding invoke
  ec_metadata s =
      let (meta, t) = invoke u Call.build_ec_connector_meta s in
      if u.has_ec_connector then (some meta, t) else (none, s)

  -- `{req.request_id for req in reqs}`
  unfoldable pub preempted_ids : List Ref → Scheduler u → List String
  unfolding insert
  preempted_ids [] s = []
  preempted_ids (r ∷ rs) s = insert String_discrete (s.store r).request_id (preempted_ids rs s)

  -- The calls for the rest of the output, which the state is left by.
  unfoldable pub after_calls : Scheduler u → Scheduler u
  unfolding blocks_to_zero kv_metadata ec_metadata invoke
  after_calls s =
      let t = (invoke u Call.get_freed_mm_hashes (blocks_to_zero s).1).1 in
      (ec_metadata (kv_metadata t).1).1

  unfoldable pub output_of :
      Progress
      → List ℕ
      → List NewRequestData
      → CachedRequestData
      → Scheduler u
      → Bool
      → SchedulerOutput
  unfolding blocks_to_zero kv_metadata ec_metadata preempted_ids invoke
  output_of p prefix new cached s structured =
      let (zeroed, s1) = blocks_to_zero s in
      let (hashes, s2) = invoke u Call.get_freed_mm_hashes s1 in
      let (kv, s3) = kv_metadata s2 in
      record {
        scheduled_new_reqs = new;
        scheduled_cached_reqs = cached;
        num_scheduled_tokens = p.num_scheduled_tokens;
        total_num_scheduled_tokens = sum_values p.num_scheduled_tokens;
        scheduled_spec_decode_tokens = p.scheduled_spec_decode_tokens;
        scheduled_encoder_inputs = p.scheduled_encoder_inputs;
        num_common_prefix_blocks = prefix;
        preempted_req_ids = preempted_ids p.preempted_reqs s;
        finished_req_ids = s.finished_req_ids;
        free_encoder_mm_hashes = hashes;
        new_block_ids_to_zero = zeroed;
        kv_connector_metadata = kv;
        ec_connector_metadata = (ec_metadata s3).0;
        has_structured_output_requests = structured;
      }

  abbrev pub note_scheduled : Progress → Scheduler u → Scheduler u
  note_scheduled p s = record s { prev_step_scheduled_req_ids = keys p.num_scheduled_tokens }

  unfoldable pub collect_output :
      Progress → List ℕ → List NewRequestData → CachedRequestData → Action u SchedulerOutput
  unfolding output_of after_calls update_after_schedule
  collect_output p prefix new cached s =
      let t = note_scheduled p s in
      (update_after_schedule u p.num_scheduled_tokens false
          >>= (λ structured v. (ok (output_of p prefix new cached t structured), v)))
        (after_calls t)

  unfoldable pub finish_step : Progress → Action u SchedulerOutput
  unfolding check_step common_prefix new_data make_cached_request_data collect_output
  finish_step p = do
    check_step p
    prefix ← (λ s. common_prefix s.running s)
    new ← (λ s. (new_data p.req_to_new_blocks (new_reqs p) s, s))
    cached ← (λ s. (
      make_cached_request_data u Blocks u.block_ids_or_none s p.num_scheduled_tokens
          p.scheduled_spec_decode_tokens p.req_to_new_blocks p.scheduled_running_reqs
          (resumed_reqs p),
      s,
    ))
    collect_output p prefix new cached

  -- `schedule`
  unfoldable pub schedule : Action u SchedulerOutput
  unfolding schedule_reqs finish_step
  schedule = do p ← schedule_reqs; finish_step p
