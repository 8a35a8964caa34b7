-- ===== src/Scheduler/Update/Method.antt =====
-- `update_from_output`: a round of its loop, and the whole.
pub mod Sampled
mod Tests
use edmm.Prelude.{
  ℕ, String, List, [], ◌∷◌, ◌++◌, Option, none, some, Bool, true, false, if◌then◌else◌, ◌||◌, ltb,
  ℕ_discrete, String_discrete,
}
use edmm.Prelude.Dict.{Dict, get, put, is_some}
use edmm.Prelude.Effect.{Outcome, ok, raised, ◌>>=◌, ◌>>◌}
use edmm.Prelude.Partial.{◌>>=◌ as ◌then◌, or_raise}
use edmm.Prelude.Sets.{member}
use edmm.Request.{Request, or_else, take_events, take_prefill_stats}
use edmm.Request.Status.{RequestStatus, FinishReason, get_finished_reason, is_finished}
use edmm.Scheduler.State.{Setup, Scheduler, Ref, Action, Error, assertion_error, key_error, modify}
use edmm.Scheduler.Finish.{RequestIds, finish_requests, some_of}
use edmm.Scheduler.Transfers.{update_from_kv_xfer_finished}
use edmm.Scheduler.Invalid.Handle.{some_blocks, handle_invalid_blocks}
use edmm.Scheduler.Schedule.Method.{SchedulerOutput}
use edmm.Scheduler.Update.{
  KvConnectorOutput, ModelRunnerOutput, EngineCoreOutput, EngineCoreOutputs, Outputs, Results,
  element, add_output, note_rejected, free_done, take_tokens, advance_grammar, note_stopped,
  stop_request,
}

-- `new_token_ids or pooler_output is not None or kv_transfer_params or stopped`; parameters that are
-- there are not empty.
abbrev pub has_news : List ℕ → Option ℕ → Option ℕ → Bool → Bool
has_news [] pooled params stopped = is_some pooled || is_some params || stopped
has_news (t ∷ ts) pooled params stopped = true

-- `{client_index: EngineCoreOutputs(outputs=outs) for client_index, outs in outputs.items()}`
unfoldable pub engine_core_outputs : Outputs → Dict ℕ EngineCoreOutputs
engine_core_outputs [] = []
engine_core_outputs ((client, outs) ∷ rest) =
    (client, record { outputs = outs; finished_requests = none }) ∷ engine_core_outputs rest

abbrev pub with_finished : List String → Option EngineCoreOutputs → EngineCoreOutputs
with_finished ids none = record { outputs = []; finished_requests = some ids }
with_finished ids (some output) = record output { finished_requests = some ids }

unfoldable pub add_finished_sets :
    Dict ℕ (List String) → Dict ℕ EngineCoreOutputs → Dict ℕ EngineCoreOutputs
unfolding get put
add_finished_sets [] outputs = outputs
add_finished_sets ((client, ids) ∷ rest) outputs =
    add_finished_sets rest
      (put ℕ_discrete client (with_finished ids (get ℕ_discrete client outputs)) outputs)

abbrev pub with_finished_sets :
    Option (Dict ℕ (List String)) → Dict ℕ EngineCoreOutputs → Dict ℕ EngineCoreOutputs
with_finished_sets none outputs = outputs
with_finished_sets (some d) outputs = add_finished_sets d outputs

-- `finished_req_ids.clear()`
abbrev pub cleared : Option (Dict ℕ (List String)) → Option (Dict ℕ (List String))
cleared none = none
cleared (some d) = some []

abbrev pub no_results : Results
no_results = record { outputs = []; stopped_running_reqs = []; stopped_preempted_reqs = [] }

module _ (u : Setup) where
  -- What the request has logged and counted so far is handed out.
  unfoldable pub taken : Request u.floats → Request u.floats
  unfolding take_events take_prefill_stats
  taken q = (take_prefill_stats u.floats (take_events u.floats q).0).0

  unfoldable pub output_for :
      Request u.floats
      → List ℕ
      → Option ℕ
      → Option ℕ
      → Option FinishReason × Option ℕ
      → EngineCoreOutput
  unfolding take_events take_prefill_stats
  output_for q tokens pooled logprobs (reason, params) = record {
    request_id = q.request_id;
    new_token_ids = tokens;
    finish_reason = reason;
    new_prompt_logprobs_tensors = logprobs;
    pooling_output = pooled;
    events = (take_events u.floats q).1;
    prefill_stats = (take_prefill_stats u.floats q).1;
    kv_transfer_params = params;
  }

  abbrev pub noted : RequestStatus → Ref → Bool → Results → Results
  noted before r stopped results = if stopped then note_stopped u before r results else results

  -- The output of the request, if there is news; a part of a prefill has none.
  unfoldable pub emit :
      String
      → Ref
      → List ℕ
      → Bool
      → Option ℕ
      → Option ℕ
      → Results
      → Option FinishReason × Option ℕ
      → Action u Results
  unfolding taken output_for modify
  emit req_id r tokens stopped pooled logprobs results end s =
      let q = s.store r in
      let output : EngineCoreOutput = record (output_for q tokens pooled logprobs end) {
        request_id = req_id;
      } in
      if has_news tokens pooled end.1 stopped
      then (
        ok (record results { outputs = add_output q.client_index output results.outputs }),
        modify u r taken s,
      )
      else if is_some logprobs
      then (raised assertion_error, s)
      else (ok results, s)

  -- From the check for a stop on; `before` is the status then.
  unfoldable pub settle_taken :
      String
      → Ref
      → RequestStatus
      → Option ℕ
      → Option ℕ
      → Results
      → List ℕ × Bool
      → Action u Results
  unfolding advance_grammar stop_request emit
  settle_taken req_id r before pooled logprobs results (tokens, stopped) = do
    stops ← advance_grammar u r tokens stopped
    end ← stop_request u r stops
    emit req_id r tokens stops pooled logprobs (noted before r stops results) end

  unfoldable pub report : String → Ref → List ℕ → Option ℕ → Option ℕ → Results → Action u Results
  unfolding take_tokens settle_taken
  report req_id r generated pooled logprobs results s =
      (take_tokens u r generated pooled
          >>= settle_taken req_id r (s.store r).status pooled logprobs results)
        s

  -- A request that still runs the model.
  unfoldable pub update_request :
      SchedulerOutput u → ModelRunnerOutput → String → Ref → Results → Action u Results
  unfolding note_rejected free_done report get
  update_request scheduled m req_id r results = do
    i ← (λ s. (or_raise (get String_discrete req_id m.req_id_to_index) key_error, s))
    generated ← (λ s. (element m.sampled_token_ids i [], s))
    note_rejected u r generated
        (or_else (get String_discrete req_id scheduled.scheduled_spec_decode_tokens) [])
    free_done u r
    pooled ← (λ s. (element m.pooler_output i none, s))
    report req_id r generated pooled (get String_discrete req_id m.prompt_logprobs_dict) results

  -- The request may have ended while the model ran.
  unfoldable pub update_known :
      SchedulerOutput u → ModelRunnerOutput → String → Option Ref → Results → Action u Results
  unfolding update_request
  update_known scheduled m req_id none results s = (ok results, s)
  update_known scheduled m req_id (some r) results s =
      if is_finished (s.store r).status
      then (ok results, s)
      else update_request scheduled m req_id r results s

  -- A round of the loop, which skips the requests whose load failed.
  unfoldable pub update_one :
      SchedulerOutput u → ModelRunnerOutput → List String → String → ℕ → Results → Action u Results
  unfolding update_known get
  update_one scheduled m failed req_id n results s =
      if not_positive n
      then (raised assertion_error, s)
      else if member String_discrete req_id failed
      then (ok results, s)
      else update_known scheduled m req_id (get String_discrete req_id s.requests) results s
    where
      not_positive : ℕ → Bool
      not_positive n = if ltb 0 n then false else true

  -- `for req_id, num_tokens_scheduled in num_scheduled_tokens.items()`
  unfoldable pub update_each :
      SchedulerOutput u
      → ModelRunnerOutput
      → List String
      → Dict String ℕ
      → Results
      → Action u Results
  unfolding update_one
  update_each scheduled m failed [] results s = (ok results, s)
  update_each scheduled m failed ((req_id, n) ∷ rest) results s =
      (update_one scheduled m failed req_id n results >>= update_each scheduled m failed rest) s

  -- The requests that stopped leave the running ones, and the queue `waiting`.
  unfoldable pub remove_stopped : Results → Scheduler u → Scheduler u
  remove_stopped results s =
      let running = results.stopped_running_reqs in
      let preempted = results.stopped_preempted_reqs in
      record s {
        running = some_of u running (u.remove_all s.running running) s.running;
        waiting = some_of u preempted (u.queue_remove preempted s.waiting) s.waiting;
      }

  -- `[self.requests[req_id] for req_id in failed_kv_load_req_ids]`
  unfoldable pub requests_of : List String → Dict String Ref → Outcome Error (List Ref)
  unfolding get
  requests_of [] requests = ok []
  requests_of (id ∷ ids) requests =
      or_raise (get String_discrete id requests) key_error
      then (λ r. requests_of ids requests then (λ rest. ok (r ∷ rest)))

  unfoldable pub failed_output : Request u.floats → EngineCoreOutput
  unfolding take_events get_finished_reason
  failed_output q = record {
    request_id = q.request_id;
    new_token_ids = [];
    finish_reason = get_finished_reason q.status;
    new_prompt_logprobs_tensors = none;
    pooling_output = none;
    events = (take_events u.floats q).1;
    prefill_stats = none;
    kv_transfer_params = none;
  }

  -- The requests whose load failed are reported.
  unfoldable pub report_failed : List Ref → Outputs → Scheduler u → Outputs × Scheduler u
  unfolding failed_output take_events modify
  report_failed [] outputs s = (outputs, s)
  report_failed (r ∷ rs) outputs s =
      report_failed rs (add_output (s.store r).client_index (failed_output (s.store r)) outputs)
        (modify u r (λ q. (take_events u.floats q).0) s)

  -- Without recomputation the requests whose load failed end.
  unfoldable pub end_failed : List String → Outputs → Action u Outputs
  unfolding report_failed requests_of finish_requests
  end_failed [] outputs s = (ok outputs, s)
  end_failed (id ∷ ids) outputs s =
      if u.recompute_kv_load_failures
      then (ok outputs, s)
      else (do
        rs ← (λ t. (requests_of (u.iterate_set (id ∷ ids)) t.requests, t))
        finish_requests u (RequestIds.several (id ∷ ids)) RequestStatus.finished_error
        λ t. (ok (report_failed rs outputs t).0, (report_failed rs outputs t).1))
          s

  -- The requests that lost blocks, if the connector reports such blocks.
  unfoldable pub find_failed : SchedulerOutput u → Option KvConnectorOutput → Action u (List String)
  unfolding handle_invalid_blocks
  find_failed scheduled none s = (ok [], s)
  find_failed scheduled (some output) s =
      if some_blocks output.invalid_block_ids
      then handle_invalid_blocks u output.invalid_block_ids scheduled.num_scheduled_tokens s
      else (ok [], s)

  unfoldable pub end_transfers : Option KvConnectorOutput → Action u (Unit {0})
  unfolding update_from_kv_xfer_finished
  end_transfers none s = (ok tt, s)
  end_transfers (some output) s = update_from_kv_xfer_finished u output.transfers s

  -- The outputs with the ids that have finished since the last ones, which are then forgotten.
  unfoldable pub collect_outputs : Outputs → Scheduler u → Dict ℕ EngineCoreOutputs × Scheduler u
  unfolding engine_core_outputs add_finished_sets
  collect_outputs outputs s = (
    with_finished_sets s.finished_req_ids_dict (engine_core_outputs outputs),
    record s { finished_req_ids_dict = cleared s.finished_req_ids_dict },
  )

  unfoldable pub finish_update :
      List String → ModelRunnerOutput → Results → Action u (Dict ℕ EngineCoreOutputs)
  unfolding end_failed end_transfers collect_outputs remove_stopped
  finish_update failed m results s =
      (do
        outputs ← end_failed failed results.outputs
        end_transfers m.kv_connector_output
        λ t. (ok (collect_outputs outputs t).0, (collect_outputs outputs t).1))
        (remove_stopped results s)

  -- `update_from_output`
  unfoldable pub update_from_output :
      SchedulerOutput u → ModelRunnerOutput → Action u (Dict ℕ EngineCoreOutputs)
  unfolding find_failed update_each finish_update
  update_from_output scheduled m = do
    failed ← find_failed scheduled m.kv_connector_output
    results ← update_each scheduled m failed scheduled.num_scheduled_tokens no_results
    finish_update failed m results
