-- ===== src/Scheduler/Update.antt =====
-- `update_from_output` of vllm-integration/vllm_v1_core_sched/scheduler.py: what the model has returned
-- is taken into the requests, and reported. Without the log probabilities and the NaN counts of the
-- sampled tokens, stop reasons, trace headers, routed experts, events of the caches, and statistics.
pub mod Method
use edmm.Prelude.{
  ℕ, zero, suc, ◌+◌, ◌-◌, String, List, [], ◌∷◌, ◌++◌, Option, none, some, Bool, true, false,
  if◌then◌else◌, ◌||◌, not, ltb, leb, length, get_elem?, ℕ_discrete, String_discrete,
}
use edmm.Prelude.Dict.{Dict, get, put, is_some}
use edmm.Prelude.Effect.{Outcome, ok, raised, pure, ◌>>=◌, ◌>>◌}
use edmm.Prelude.Partial.{or_raise}
use edmm.Prelude.Sets.{member, insert}
use edmm.Request.{
  Request, StructuredOutput, EventType, PrefillStats, or_else, has_encoder_inputs, take_events,
  take_prefill_stats,
}
use edmm.Request.Status.{RequestStatus, FinishReason, get_finished_reason, is_finished}
use edmm.Scheduler.State.{
  Setup, Scheduler, Ref, Action, Call, Error, assertion_error, key_error, index_error,
  negative_tokens, invoke, modify, set_status,
}
use edmm.Scheduler.Waiting.{same_status}
use edmm.Scheduler.Finish.{RequestIds, free_request, finish_requests, some_of}
use edmm.Scheduler.Session.{handle_stopped_request}
use edmm.Scheduler.Transfers.{ConnectorOutput, update_from_kv_xfer_finished}
use edmm.Scheduler.Invalid.Handle.{some_blocks, handle_invalid_blocks}
use edmm.Scheduler.Step.{append_until_stop, free_encoder_inputs}
use edmm.Scheduler.Schedule.Method.{SchedulerOutput}

-- `KVConnectorOutput`
pub record KvConnectorOutput : Type 0 where
  pub invalid_block_ids : List ℕ
  pub transfers : ConnectorOutput

-- `ModelRunnerOutput`
pub record ModelRunnerOutput : Type 0 where
  pub req_id_to_index : Dict String ℕ
  pub sampled_token_ids : List (List ℕ)
  pub pooler_output : List (Option ℕ)
  pub prompt_logprobs_dict : Dict String ℕ
  pub kv_connector_output : Option KvConnectorOutput

-- `EngineCoreOutput`
pub record EngineCoreOutput : Type 0 where
  pub request_id : String
  pub new_token_ids : List ℕ
  pub finish_reason : Option FinishReason
  pub new_prompt_logprobs_tensors : Option ℕ
  pub pooling_output : Option ℕ
  pub events : Option (List EventType)
  pub prefill_stats : Option PrefillStats
  pub kv_transfer_params : Option ℕ

-- `EngineCoreOutputs`
pub record EngineCoreOutputs : Type 0 where
  pub outputs : List EngineCoreOutput
  pub finished_requests : Option (List String)

-- The outputs of each client.
abbrev pub Outputs : Type 0
Outputs = Dict ℕ (List EngineCoreOutput)

-- The local variables of the loop.
pub record Results : Type 0 where
  pub outputs : Outputs
  pub stopped_running_reqs : List Ref
  pub stopped_preempted_reqs : List Ref

-- `xs[i] if xs else default`
abbrev pub element : {A : Type 0} → List A → ℕ → A → Outcome Error A
element [] i default = ok default
element (x ∷ xs) i default = or_raise (get_elem? (x ∷ xs) i) index_error

-- `outputs[client_index].append(output)`, of a `defaultdict(list)`.
abbrev pub add_output : ℕ → EngineCoreOutput → Outputs → Outputs
add_output client output outputs =
    put ℕ_discrete client (or_else (get ℕ_discrete client outputs) [] ++ (output ∷ [])) outputs

-- `n -= num_rejected` if `n > 0`, of so many draft tokens and accepted ones.
abbrev pub without_rejected : ℕ → ℕ → ℕ → Outcome Error ℕ
without_rejected drafts accepted n =
    if not (ltb 0 n)
    then ok n
    else if leb drafts (n + accepted)
    then ok ((n + accepted) - drafts)
    else raised negative_tokens

module _ (u : Setup) where
  -- The counters of the request go back by the draft tokens that were rejected.
  unfoldable pub reject_drafts : Ref → ℕ → ℕ → Action u (Unit {0})
  unfolding modify
  reject_drafts r drafts accepted = do
    computed ← (λ s. (without_rejected drafts accepted (s.store r).num_computed_tokens, s))
    placeholders ← (λ s. (without_rejected drafts accepted (s.store r).num_output_placeholders, s))
    λ s. (
      ok tt,
      modify u r
          (λ q. record q { num_computed_tokens = computed; num_output_placeholders = placeholders })
          s,
    )

  -- `if scheduled_spec_token_ids and generated_token_ids`
  unfoldable pub note_rejected : Ref → List ℕ → List ℕ → Action u (Unit {0})
  unfolding reject_drafts
  note_rejected r (t ∷ ts) (d ∷ ds) s = reject_drafts r (length (d ∷ ds)) (length ts) s
  note_rejected r generated drafts s = (ok tt, s)

  unfoldable pub free_done : Ref → Action u (Unit {0})
  unfolding free_encoder_inputs
  free_done r s =
      if has_encoder_inputs u.floats (s.store r) then free_encoder_inputs u r s else (ok tt, s)

  -- The tokens that the request takes, and whether it stops: for pooling, as soon as there is output.
  unfoldable pub take_tokens : Ref → List ℕ → Option ℕ → Action u (List ℕ × Bool)
  unfolding append_until_stop set_status
  take_tokens r (t ∷ ts) pooled s =
      let taken = append_until_stop u r (t ∷ ts) s in (ok taken.0, taken.1)
  take_tokens r [] none s = (ok ([], false), s)
  take_tokens r [] (some pooled) s =
      if is_some (s.store r).pooling_params
      then (ok ([], true), set_status u r RequestStatus.finished_stopped s)
      else (ok ([], false), s)

  abbrev pub rejected_by_grammar : Request u.floats → Request u.floats
  rejected_by_grammar q = record q { status = RequestStatus.finished_error; resumable = false }

  -- `grammar.accept_tokens(req_id, new_token_ids)`
  unfoldable pub accept_tokens : Option StructuredOutput → Ref → List ℕ → Bool → Action u Bool
  unfolding invoke modify
  accept_tokens none r tokens stopped s = (raised assertion_error, s)
  accept_tokens (some structured) r tokens stopped s =
      let (accepted, t) = invoke u (Call.accept_tokens (s.store r) tokens) s in
      if not structured.grammar
      then (raised assertion_error, s)
      else if accepted
      then (ok stopped, t)
      else (ok true, modify u r rejected_by_grammar t)

  -- Whether the request stops, after its grammar was advanced.
  unfoldable pub advance_grammar : Ref → List ℕ → Bool → Action u Bool
  unfolding accept_tokens invoke
  advance_grammar r [] stopped s = (ok stopped, s)
  advance_grammar r (t ∷ ts) stopped s =
      let (should, s1) = invoke u (Call.should_advance (s.store r)) s in
      if should
      then accept_tokens (s1.store r).structured_output_request r (t ∷ ts) stopped s1
      else (ok stopped, s1)

  abbrev pub note_stopped : RequestStatus → Ref → Results → Results
  note_stopped before r results =
      if same_status before RequestStatus.running
      then record results {
        stopped_running_reqs = insert ℕ_discrete r results.stopped_running_reqs;
      }
      else record results {
        stopped_preempted_reqs = insert ℕ_discrete r results.stopped_preempted_reqs;
      }

  free_finished : Ref → Bool → Action u (Option ℕ)
  unfolding free_request
  free_finished r finished s = if finished then free_request u r false s else (ok none, s)

  -- The reason for the end, taken before a stream goes on, and the parameters of a transfer.
  unfoldable pub stop_request : Ref → Bool → Action u (Option FinishReason × Option ℕ)
  unfolding handle_stopped_request free_finished
  stop_request r false s = (ok (none, none), s)
  stop_request r true s =
      (do
        finished ← handle_stopped_request u r
        params ← free_finished r finished
        pure (get_finished_reason (s.store r).status, params))
        s
