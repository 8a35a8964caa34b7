-- ===== src/Scheduler/Session.antt =====
-- How a request enters the scheduler, and how a stream goes on, of
-- vllm-integration/vllm_v1_core_sched/scheduler.py.
pub mod Tokens
use edmm.Prelude.{
  ℕ, String, ◌+◌, ◌-◌, List, [], ◌∷◌, ◌++◌, Option, none, some, Bool, true, false, if◌then◌else◌,
  not, map, String_discrete, length, take, drop,
}
use edmm.Prelude.Dict.{get, put}
use edmm.Prelude.Effect.{Outcome, ok, raised}
use edmm.Request.{
  Request, StreamingUpdate, MultiModalFeature, EventType, or_else, update_block_hashes,
  update_from_request, record_event, append_output_token_ids,
}
use edmm.Request.Status.{RequestStatus}
use edmm.Scheduler.State.{
  Setup, Scheduler, Ref, Action, Call, Error, assertion_error, invoke, modify, set_status,
  decrement, increment,
}
use edmm.Scheduler.Waiting.{same_status, enqueue_waiting_request}
use edmm.Scheduler.Finish.{RequestIds, finish_requests}

-- `mm_position` moved by `base`.
abbrev pub shift : ℕ → List MultiModalFeature → List MultiModalFeature
shift base [] = []
shift base (m ∷ ms) = record m { offset = m.offset + base } ∷ shift base ms

module _ (u : Setup) where
  abbrev logged : EventType → Request u.floats → Request u.floats
  logged e r = if u.log_stats then record_event u.floats r e else r

  -- The tokens of the session up to the assertion.
  unfoldable pub truncated : Request u.floats → Request u.floats
  truncated q = record q {
    all_token_ids = take q.num_computed_tokens q.all_token_ids;
    output_token_ids = [];
  }

  -- The request after the assertion, `prompt` being its prompt's tokens before.
  unfoldable pub continued : StreamingUpdate u.floats → List ℕ → Request u.floats → Request u.floats
  unfolding truncated update_block_hashes record_event
  continued update prompt q =
      let kept =
        take (q.num_computed_tokens - q.num_prompt_tokens)
          (drop q.num_prompt_tokens q.all_token_ids) in
      let new = or_else update.prompt_token_ids [] in
      let t = truncated q in
      let hashed = update_block_hashes u.floats u.block_hasher (record t {
        prompt_token_ids = some ((prompt ++ kept) ++ new);
        mm_features = q.mm_features ++ shift (length t.all_token_ids) update.mm_features;
        all_token_ids = t.all_token_ids ++ new;
      }) in
      logged EventType.queued (record hashed {
        num_prompt_tokens = length ((prompt ++ kept) ++ new);
        arrival_time = update.arrival_time;
        sampling_params = update.sampling_params;
        status = RequestStatus.waiting;
      })

  uncount_streaming : RequestStatus → Scheduler u → Scheduler u
  uncount_streaming status s =
      if same_status status RequestStatus.waiting_for_streaming_req
      then record s {
        num_waiting_for_streaming_input = decrement s.num_waiting_for_streaming_input;
      }
      else s

  continue_with : Option (List ℕ) → Ref → StreamingUpdate u.floats → Action u Unit
  unfolding continued uncount_streaming truncated
  continue_with none r update s = (raised assertion_error, modify u r truncated s)
  continue_with (some prompt) r update s =
      (ok tt, modify u r (continued update prompt) (uncount_streaming (s.store r).status s))

  -- `_update_request_as_session`
  unfoldable pub update_request_as_session : Ref → StreamingUpdate u.floats → Action u Unit
  unfolding continue_with
  update_request_as_session r update s = continue_with (s.store r).prompt_token_ids r update s

  abbrev then_enqueue :
      Ref → Outcome Error (Unit {0}) × Scheduler u → Outcome Error Bool × Scheduler u
  then_enqueue r (ok x, s) = (ok false, enqueue_waiting_request u r s)
  then_enqueue r (raised e, s) = (raised e, s)

  wait_for_stream : Ref → Scheduler u → Scheduler u
  wait_for_stream r s =
      let t = set_status u r RequestStatus.waiting_for_streaming_req s in
      record t { num_waiting_for_streaming_input = increment t.num_waiting_for_streaming_input }

  next_chunk : List (Option (StreamingUpdate u.floats)) → Ref → Action u Bool
  unfolding update_request_as_session wait_for_stream
  next_chunk [] r s = then_enqueue r (ok tt, wait_for_stream r s)
  next_chunk (none ∷ rest) r s =
      (ok true, modify u r (λ q. record q { streaming_queue = some rest }) s)
  next_chunk (some update ∷ rest) r s = then_enqueue r (
      update_request_as_session r update
        (modify u r (λ q. record q { streaming_queue = some rest }) s))

  -- `_handle_stopped_request`
  unfoldable pub handle_stopped_request : Ref → Action u Bool
  unfolding next_chunk
  handle_stopped_request r s =
      if (s.store r).resumable
      then next_chunk (or_else (s.store r).streaming_queue []) r s
      else (ok true, s)

  queue_update :
      Option (List (Option (StreamingUpdate u.floats)))
      → Option (StreamingUpdate u.floats)
      → Ref
      → Action u Unit
  queue_update none update r s = (raised assertion_error, s)
  queue_update (some q) update r s =
      (ok tt, modify u r (λ x. record x { streaming_queue = some (q ++ (update ∷ [])) }) s)

  discard_result :
      {A : Type 0} → Outcome Error A × Scheduler u → Outcome Error (Unit {0}) × Scheduler u
  discard_result (ok x, s) = (ok tt, s)
  discard_result (raised e, s) = (raised e, s)

  begin_chunk : Option (StreamingUpdate u.floats) → Ref → String → Action u Unit
  unfolding update_request_as_session discard_result
  begin_chunk none r id s =
      discard_result (finish_requests u (RequestIds.one id) RequestStatus.finished_aborted s)
  begin_chunk (some update) r id s = update_request_as_session r update s

  -- A request whose id is known: the next part of a stream.
  add_to_stream : Ref → Ref → Action u Unit
  unfolding queue_update begin_chunk
  add_to_stream existing r s =
      let update = update_from_request u.floats (s.store r) in
      if same_status (s.store existing).status RequestStatus.waiting_for_streaming_req
      then begin_chunk update existing (s.store r).request_id s
      else queue_update (s.store existing).streaming_queue update existing s

  notified : Ref → Scheduler u → Scheduler u
  notified r s = if u.has_connector then (invoke u (Call.on_new_request (s.store r)) s).1 else s

  with_queue : Ref → Scheduler u → Scheduler u
  with_queue r s =
      if (s.store r).resumable
      then modify u r (λ q. record q { streaming_queue = some [] }) s
      else s

  unfoldable pub add_entry : Ref → Scheduler u → Scheduler u
  add_entry r s = record s { requests = put String_discrete (s.store r).request_id r s.requests }

  add_new : Ref → Scheduler u → Scheduler u
  unfolding notified with_queue
  add_new r s =
      modify u r (logged EventType.queued)
        (notified r (add_entry r (enqueue_waiting_request u r (with_queue r s))))

  add_known : Option Ref → Ref → Action u Unit
  unfolding add_to_stream add_new
  add_known none r s = (ok tt, add_new r s)
  add_known (some existing) r s = add_to_stream existing r s

  -- `add_request`
  unfoldable pub add_request : Ref → Action u Unit
  unfolding add_known
  add_request r s = add_known (get String_discrete (s.store r).request_id s.requests) r s
