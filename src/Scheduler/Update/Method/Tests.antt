-- ===== src/Scheduler/Update/Method/Tests.antt =====
-- Tests of `update_from_output`, and its theorem at a concrete input.
use edmm.Prelude.{
  ◌≡◌, refl, List, Bool, pos, [], ◌∷◌, some, none, true, false, String_discrete, ℕ_discrete, ◌==◌,
  if◌then◌else◌, ℕ,
}
use edmm.Prelude.Dict.{Dict, Each, erase}
use edmm.Prelude.Effect.{Outcome, ok}
use edmm.Prelude.Ends.{Ends}
use edmm.Hook.Tests.{hundredths}
use edmm.Prelude.Sets.{member, count}
use edmm.Request.{Request, append_output_token_ids}
use edmm.Request.Status.{RequestStatus, FinishReason, value, is_finished}
use edmm.Request.Tests.{sample_request}
use edmm.Scheduler.State.{Scheduler, Setup, PauseState, Error}
use edmm.Scheduler.State.Proper.{Raised}
use edmm.Scheduler.Finish.{note_finished, drop_request}
use edmm.Scheduler.Cached.{no_data}
use edmm.Scheduler.Schedule.Method.{SchedulerOutput}
use edmm.Scheduler.Update.{ModelRunnerOutput, EngineCoreOutputs}
use edmm.Scheduler.Update.Method.{update_from_output}
use edmm.Scheduler.Update.Method.Sampled
use edmm.Scheduler.Update.Method.Sampled.{AllOf, Source}
use edmm.Scheduler.Tests.{lists}

-- A token of 9 ends a request.
abbrev has_nine : List ℕ → Bool
has_nine [] = false
has_nine (t ∷ ts) = let rest = has_nine ts in if t == 9 then true else rest

abbrev stop_at_nine : Request hundredths → ℕ → Request hundredths × Bool
stop_at_nine r n =
    if has_nine r.output_token_ids
    then (record r { status = RequestStatus.finished_stopped }, true)
    else (r, false)

abbrev stopping : Setup
stopping = record lists { check_stop = stop_at_nine }

abbrev running_one : Scheduler stopping
running_one = record {
  store = λ r. sample_request;
  requests = ("r", 1) ∷ [];
  waiting = [];
  skipped_waiting = [];
  running = 1 ∷ [];
  finished_req_ids = [];
  finished_req_ids_dict = some [];
  prev_step_scheduled_req_ids = "r" ∷ [];
  num_waiting_for_streaming_input = pos 0;
  finished_recving_kv_req_ids = [];
  failed_recving_kv_req_ids = [];
  pause_state = PauseState.unpaused;
  edmm_hook = none;
  services = 0;
  calls = [];
}

abbrev one_scheduled : SchedulerOutput stopping
one_scheduled = record {
  scheduled_new_reqs = [];
  scheduled_cached_reqs = no_data;
  num_scheduled_tokens = ("r", 1) ∷ ("gone", 1) ∷ [];
  total_num_scheduled_tokens = 2;
  scheduled_spec_decode_tokens = [];
  scheduled_encoder_inputs = [];
  num_common_prefix_blocks = [];
  preempted_req_ids = [];
  finished_req_ids = [];
  free_encoder_mm_hashes = [];
  new_block_ids_to_zero = none;
  kv_connector_metadata = none;
  ec_connector_metadata = none;
  has_structured_output_requests = false;
}

abbrev one_sampled : ModelRunnerOutput
one_sampled = record {
  req_id_to_index = ("r", 0) ∷ ("gone", 1) ∷ [];
  sampled_token_ids = (5 ∷ 9 ∷ 7 ∷ []) ∷ (6 ∷ []) ∷ [];
  pooler_output = [];
  prompt_logprobs_dict = [];
  kv_connector_output = none;
}

abbrev updated : Outcome Error (Dict ℕ EngineCoreOutputs) × Scheduler stopping
unfolding update_from_output String_discrete value
updated = update_from_output stopping one_scheduled one_sampled running_one

-- The tokens end with the stop, and the request that is not known is skipped.
one-reported :
    updated.0
    ≡ ok (
        (
          0,
          record {
            outputs =
                record {
                  request_id = "r";
                  new_token_ids = 5 ∷ 9 ∷ [];
                  finish_reason = some FinishReason.stop;
                  new_prompt_logprobs_tensors = none;
                  pooling_output = none;
                  events = none;
                  prefill_stats = none;
                  kv_transfer_params = none;
                }
                ∷ [];
            finished_requests = some ("r" ∷ []);
          },
        )
        ∷ [])
unfolding updated member is_finished append_output_token_ids note_finished drop_request erase
    ℕ_discrete
one-reported = refl

none-run : updated.1.running ≡ []
unfolding updated member is_finished append_output_token_ids note_finished drop_request erase count
    ℕ_discrete
none-run = refl

none-known : updated.1.requests ≡ []
unfolding updated member is_finished append_output_token_ids note_finished drop_request erase
none-known = refl

update_from_output-Sourced_example :
    Ends Raised
      (λ d t.
        Each ℕ_discrete
          (λ client out.
            AllOf
              (λ o.
                Source stopping one_scheduled one_sampled running_one o.request_id o.new_token_ids)
              out.outputs)
          d)
      (update_from_output stopping one_scheduled one_sampled running_one)
update_from_output-Sourced_example =
    Sampled.update_from_output-Sourced stopping one_scheduled one_sampled running_one
