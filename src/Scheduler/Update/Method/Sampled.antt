-- ===== src/Scheduler/Update/Method/Sampled.antt =====
-- `update_from_output`: where what is reported comes from.
use edmm.Prelude.{
  ℕ, String, List, [], ◌∷◌, ◌++◌, Option, none, some, Bool, true, false, if◌then◌else◌, ltb,
  ℕ_discrete, String_discrete, ◌≡◌, refl, sym, ap, ◌∙◌, subst, if_both, arith,
}
use edmm.Prelude.Dict.{Dict, get, keys, is_some, none≢some, some_injective, Each, put-Each}
use edmm.Prelude.Effect.{Outcome, ok, raised}
use edmm.Prelude.Ends.{Ends, Ends-bind, Ends-if, Ends-lookup, raises, returns}
use edmm.Prelude.Sets.{member, member-cons_self, member-cons_kept}
use edmm.Request.{or_else, append_output_token_ids}
use edmm.Request.Status.{RequestStatus, FinishReason, is_finished}
use edmm.Scheduler.State.{Setup, Scheduler, Ref, Error, key_error, modify}
use edmm.Scheduler.State.Proper.{Raised}
use edmm.Scheduler.Waiting.{same_status}
use edmm.Scheduler.Finish.{RequestIds, finish_requests}
use edmm.Scheduler.Step.{append_until_stop}
use edmm.Scheduler.Schedule.Method.{SchedulerOutput}
use edmm.Scheduler.Update.{
  ModelRunnerOutput, EngineCoreOutput, EngineCoreOutputs, Outputs, Results, element, add_output,
  take_tokens, note_rejected, free_done, advance_grammar, stop_request,
}
use edmm.Scheduler.Update.Method.{
  requests_of, with_finished_sets, no_results, remove_stopped, end_transfers, has_news, output_for,
  emit, settle_taken, report, update_request, update_known, update_one, update_each, noted,
  report_failed, failed_output, end_failed, find_failed, engine_core_outputs, add_finished_sets,
  with_finished, collect_outputs, finish_update, update_from_output,
}

module _ {W A : Type 0} where
  -- However code ends.
  Ends-any : (x : Outcome Error A × W) → Ends Raised (λ a w. Unit {0}) x
  Ends-any (ok a, w) = returns tt
  Ends-any (raised e, w) = raises tt

  -- What it returns is what it returns.
  Ends-self : (x : Outcome Error A × W) → Ends Raised (λ a w. x.0 ≡ ok a) x
  Ends-self (ok a, w) = returns refl
  Ends-self (raised e, w) = raises tt

  Ends-outcome : (o : Outcome Error A) (w : W) → Ends Raised (λ a v. o ≡ ok a) (o, w)
  Ends-outcome (ok a) w = returns refl
  Ends-outcome (raised e) w = raises tt

-- `xs` is a beginning of `ys`.
pub record Begins (xs ys : List ℕ) : Type 0 where
  pub rest : List ℕ
  pub split : xs ++ rest ≡ ys

abbrev pub AllOf : (EngineCoreOutput → Type 0) → List EngineCoreOutput → Type 0
AllOf P [] = Unit {0}
AllOf P (x ∷ xs) = P x × AllOf P xs

AllOf-append :
    (P : EngineCoreOutput → Type 0) (xs : List EngineCoreOutput) (y : EngineCoreOutput)
    → AllOf P xs
    → P y
    → AllOf P (xs ++ (y ∷ []))
AllOf-append P [] y h p = (p, tt)
AllOf-append P (x ∷ xs) y (h, hs) p = (h, AllOf-append P xs y hs p)

-- What holds of each output of each client.
abbrev pub AllReported : (EngineCoreOutput → Type 0) → Outputs → Type 0
AllReported P outputs = Each ℕ_discrete (λ client outs. AllOf P outs) outputs

or_else-AllOf :
    (P : EngineCoreOutput → Type 0) (o : Option (List EngineCoreOutput))
    → ((outs : List EngineCoreOutput) → o ≡ some outs → AllOf P outs)
    → AllOf P (or_else o [])
or_else-AllOf P none h = tt
or_else-AllOf P (some outs) h = h outs refl

add_output-AllReported :
    (P : EngineCoreOutput → Type 0) (client : ℕ) (y : EngineCoreOutput) (outputs : Outputs)
    → AllReported P outputs
    → P y
    → AllReported P (add_output client y outputs)
add_output-AllReported P client y outputs h p =
    put-Each ℕ_discrete (λ c outs. AllOf P outs) client _ outputs
      (AllOf-append P _ y (or_else-AllOf P _ (λ outs e. h client outs e)) p) h

-- The tokens begin those that the model sampled for the request.
pub record FromModel (m : ModelRunnerOutput) (req_id : String) (tokens : List ℕ) : Type 0 where
  pub index : ℕ
  pub generated : List ℕ
  pub found : get String_discrete req_id m.req_id_to_index ≡ some index
  pub sampled : element m.sampled_token_ids index [] ≡ ok generated
  pub begins : Begins tokens generated

-- The outputs of a client, without finished requests.
abbrev unfinished : Option (List EngineCoreOutput) → Option EngineCoreOutputs
unfinished none = none
unfinished (some outs) = some (record { outputs = outs; finished_requests = none })

get-engine_core_outputs :
    (client : ℕ) (outputs : Outputs)
    → get ℕ_discrete client (engine_core_outputs outputs)
      ≡ unfinished (get ℕ_discrete client outputs)
unfolding get engine_core_outputs
get-engine_core_outputs client [] = refl
get-engine_core_outputs client ((c, outs) ∷ outputs) =
    ground (arith, get-engine_core_outputs client outputs)

with_finished-AllOf :
    (P : EngineCoreOutput → Type 0) (ids : List String) (o : Option EngineCoreOutputs)
    → ((out : EngineCoreOutputs) → o ≡ some out → AllOf P out.outputs)
    → AllOf P (with_finished ids o).outputs
with_finished-AllOf P ids none h = tt
with_finished-AllOf P ids (some out) h = h out refl

module _ (u : Setup) where
  append_until_stop-Begins :
      (r : Ref) (new : List ℕ) (s : Scheduler u) → Begins (append_until_stop u r new s).0.0 new
  unfolding append_until_stop
  append_until_stop-Begins r [] s = record { rest = []; split = refl }
  append_until_stop-Begins r (t ∷ ts) s =
      let appended = append_output_token_ids u.floats u.block_hasher (s.store r) (t ∷ []) in
      let next = modify u r (λ q. (u.check_stop appended u.max_model_len).0) s in
      let more = append_until_stop-Begins r ts next in
      if_both (λ (x : (List ℕ × Bool) × Scheduler u). Begins x.0.0 (t ∷ ts))
        (u.check_stop appended u.max_model_len).1 _ _ (record { rest = ts; split = refl })
        (record { rest = more.rest; split = ap (λ xs. t ∷ xs) more.split })

  take_tokens-Begins :
      (r : Ref) (new : List ℕ) (pooled : Option ℕ) (s : Scheduler u)
      → Ends Raised (λ a t. Begins a.0 new) (take_tokens u r new pooled s)
  unfolding take_tokens
  take_tokens-Begins r (t ∷ ts) pooled s = returns (append_until_stop-Begins r (t ∷ ts) s)
  take_tokens-Begins r [] none s = returns (record { rest = []; split = refl })
  take_tokens-Begins r [] (some pooled) s =
      Ends-if (is_some (s.store r).pooling_params) _ _
        (λ e. returns (record { rest = []; split = refl }))
        (λ e. returns (record { rest = []; split = refl }))

  module _ (Q : String → List ℕ → Type 0) where
    -- An output's request and its tokens are related.
    abbrev Related : EngineCoreOutput → Type 0
    Related out = Q out.request_id out.new_token_ids

    noted-AllReported :
        (before : RequestStatus) (r : Ref) (stopped : Bool) (results : Results)
        → AllReported Related results.outputs
        → AllReported Related (noted u before r stopped results).outputs
    noted-AllReported before r false results h = h
    noted-AllReported before r true results h =
        if_both (λ (x : Results). AllReported Related x.outputs)
          (same_status before RequestStatus.running) _ _ h h

    emit-Ends :
        (req_id : String) (r : Ref) (tokens : List ℕ) (stopped : Bool) (pooled logprobs : Option ℕ)
        (results : Results) (end : Option FinishReason × Option ℕ) (s : Scheduler u)
        → Q req_id tokens
        → AllReported Related results.outputs
        → Ends Raised
            (λ a t. AllReported Related a.outputs)
            (emit u req_id r tokens stopped pooled logprobs results end s)
    unfolding emit output_for
    emit-Ends req_id r tokens stopped pooled logprobs results (reason, params) s q h =
        Ends-if (has_news tokens pooled params stopped) _ _
          (λ e.
            returns (add_output-AllReported Related (s.store r).client_index _ results.outputs h q))
          (λ e. Ends-if (is_some logprobs) _ _ (λ e'. raises tt) (λ e'. returns h))

    settle_taken-Ends :
        (req_id : String) (r : Ref) (before : RequestStatus) (pooled logprobs : Option ℕ)
        (results : Results) (a : List ℕ × Bool) (s : Scheduler u)
        → Q req_id a.0
        → AllReported Related results.outputs
        → Ends Raised
            (λ a t. AllReported Related a.outputs)
            (settle_taken u req_id r before pooled logprobs results a s)
    unfolding settle_taken
    settle_taken-Ends req_id r before pooled logprobs results (tokens, stopped) s q h =
        Ends-bind _ _ (Ends-any (advance_grammar u r tokens stopped s)) (λ stops t _.
          Ends-bind _ _ (Ends-any (stop_request u r stops t)) (λ end v _.
            emit-Ends req_id r tokens stops pooled logprobs (noted u before r stops results) end v q
              (noted-AllReported before r stops results h)))

    update_request-Ends :
        (scheduled : SchedulerOutput u) (m : ModelRunnerOutput) (req_id : String) (r : Ref)
        (results : Results) (s : Scheduler u)
        → ((tokens : List ℕ) → FromModel m req_id tokens → Q req_id tokens)
        → AllReported Related results.outputs
        → Ends Raised
            (λ a t. AllReported Related a.outputs)
            (update_request u scheduled m req_id r results s)
    unfolding update_request report
    update_request-Ends scheduled m req_id r results s q h =
        Ends-bind _ _
          (Ends-lookup {P = λ i t. get String_discrete req_id m.req_id_to_index ≡ some i}
            (get String_discrete req_id m.req_id_to_index) key_error s tt (λ i e. e))
          (λ i t found.
            Ends-bind _ _ (Ends-outcome (element m.sampled_token_ids i []) t)
              (λ generated t1 sampled.
                Ends-bind _ _ (Ends-any (note_rejected u r generated _ t1)) (λ _ t2 _.
                  Ends-bind _ _ (Ends-any (free_done u r t2)) (λ _ t3 _.
                    Ends-bind _ _ (Ends-outcome (element m.pooler_output i none) t3) (λ pooled t4 _.
                      Ends-bind _ _ (take_tokens-Begins r generated pooled t4) (λ a t5 begins.
                        settle_taken-Ends req_id r (t4.store r).status pooled
                          (get String_discrete req_id m.prompt_logprobs_dict) results a t5
                          (q a.0 (record {
                            index = i;
                            generated = generated;
                            found = found;
                            sampled = sampled;
                            begins = begins;
                          }))
                          h))))))

    update_known-Ends :
        (scheduled : SchedulerOutput u) (m : ModelRunnerOutput) (req_id : String) (o : Option Ref)
        (results : Results) (s : Scheduler u)
        → ((tokens : List ℕ) → FromModel m req_id tokens → Q req_id tokens)
        → AllReported Related results.outputs
        → Ends Raised
            (λ a t. AllReported Related a.outputs)
            (update_known u scheduled m req_id o results s)
    unfolding update_known
    update_known-Ends scheduled m req_id none results s q h = returns h
    update_known-Ends scheduled m req_id (some r) results s q h =
        Ends-if (is_finished (s.store r).status) _ _ (λ e. returns h)
          (λ e. update_request-Ends scheduled m req_id r results s q h)

    update_one-Ends :
        (scheduled : SchedulerOutput u) (m : ModelRunnerOutput) (failed : List String)
        (req_id : String) (n : ℕ) (results : Results) (s : Scheduler u)
        → ((tokens : List ℕ)
            → member String_discrete req_id failed ≡ false
            → FromModel m req_id tokens
            → Q req_id tokens)
        → AllReported Related results.outputs
        → Ends Raised
            (λ a t. AllReported Related a.outputs)
            (update_one u scheduled m failed req_id n results s)
    unfolding update_one
    update_one-Ends scheduled m failed req_id n results s q h =
        Ends-if (if ltb 0 n then false else true) _ _ (λ e. raises tt)
          (λ e.
            Ends-if (member String_discrete req_id failed) _ _ (λ skipped. returns h)
              (λ kept.
                update_known-Ends scheduled m req_id (get String_discrete req_id s.requests) results
                  s (λ tokens. q tokens kept) h))

    update_each-Ends :
        (scheduled : SchedulerOutput u) (m : ModelRunnerOutput) (failed : List String)
        (d : Dict String ℕ) (results : Results) (s : Scheduler u)
        → ((req_id : String) (tokens : List ℕ)
            → member String_discrete req_id (keys d) ≡ true
            → member String_discrete req_id failed ≡ false
            → FromModel m req_id tokens
            → Q req_id tokens)
        → AllReported Related results.outputs
        → Ends Raised
            (λ a t. AllReported Related a.outputs)
            (update_each u scheduled m failed d results s)
    unfolding update_each
    update_each-Ends scheduled m failed [] results s q h = returns h
    update_each-Ends scheduled m failed ((req_id, n) ∷ d) results s q h =
        Ends-bind _ _
          (update_one-Ends scheduled m failed req_id n results s
            (λ tokens. q req_id tokens (member-cons_self String_discrete req_id (keys d))) h)
          (λ a t g.
            update_each-Ends scheduled m failed d a t
              (λ id tokens e. q id tokens (member-cons_kept String_discrete id req_id (keys d) e))
              g)

    report_failed-AllReported :
        (rs : List Ref) (outputs : Outputs) (s : Scheduler u)
        → ((id : String) → Q id [])
        → AllReported Related outputs
        → AllReported Related (report_failed u rs outputs s).0
    unfolding report_failed failed_output
    report_failed-AllReported [] outputs s q h = h
    report_failed-AllReported (r ∷ rs) outputs s q h =
        report_failed-AllReported rs _ _ q
          (add_output-AllReported Related (s.store r).client_index _ outputs h (q _))

    end_failed-Ends :
        (failed : List String) (outputs : Outputs) (s : Scheduler u)
        → (u.recompute_kv_load_failures ≡ false → (id : String) → Q id [])
        → AllReported Related outputs
        → Ends Raised (λ a t. AllReported Related a) (end_failed u failed outputs s)
    unfolding end_failed
    end_failed-Ends [] outputs s q h = returns h
    end_failed-Ends (id ∷ ids) outputs s q h =
        Ends-if u.recompute_kv_load_failures _ _ (λ e. returns h)
          (λ e.
            Ends-bind _ _ (Ends-outcome (requests_of u (u.iterate_set (id ∷ ids)) s.requests) s)
              (λ rs t _.
                Ends-bind _ _
                  (Ends-any (
                    finish_requests u (RequestIds.several (id ∷ ids)) RequestStatus.finished_error
                      t))
                  (λ _ v _. returns (report_failed-AllReported rs outputs v (q e) h))))

    -- What holds of each output of the dictionary that is returned.
    abbrev AllReturned : Dict ℕ EngineCoreOutputs → Type 0
    AllReturned d = Each ℕ_discrete (λ client out. AllOf Related out.outputs) d

    returned-Related :
        (o : Option (List EngineCoreOutput)) (out : EngineCoreOutputs)
        → ((outs : List EngineCoreOutput) → o ≡ some outs → AllOf Related outs)
        → unfinished o ≡ some out
        → AllOf Related out.outputs
    returned-Related none out h e = absurd (cc e)
    returned-Related (some outs) out h e =
        subst (λ (x : EngineCoreOutputs). AllOf Related x.outputs) (some_injective e) (h outs refl)

    engine_core_outputs-AllReturned :
        (outputs : Outputs)
        → AllReported Related outputs
        → AllReturned (engine_core_outputs outputs)
    engine_core_outputs-AllReturned outputs h client out e =
        returned-Related (get ℕ_discrete client outputs) out (h client)
          (sym (get-engine_core_outputs client outputs) ∙ e)

    add_finished_sets-AllReturned :
        (d : Dict ℕ (List String)) (outputs : Dict ℕ EngineCoreOutputs)
        → AllReturned outputs
        → AllReturned (add_finished_sets d outputs)
    unfolding add_finished_sets
    add_finished_sets-AllReturned [] outputs h = h
    add_finished_sets-AllReturned ((client, ids) ∷ d) outputs h =
        add_finished_sets-AllReturned d _ (
          put-Each ℕ_discrete (λ c out. AllOf Related out.outputs) client _ outputs
            (with_finished-AllOf Related ids (get ℕ_discrete client outputs) (h client)) h)

    with_finished_sets-AllReturned :
        (o : Option (Dict ℕ (List String))) (outputs : Dict ℕ EngineCoreOutputs)
        → AllReturned outputs
        → AllReturned (with_finished_sets o outputs)
    with_finished_sets-AllReturned none outputs h = h
    with_finished_sets-AllReturned (some d) outputs h = add_finished_sets-AllReturned d outputs h

    collect_outputs-AllReturned :
        (outputs : Outputs) (s : Scheduler u)
        → AllReported Related outputs
        → AllReturned (collect_outputs u outputs s).0
    unfolding collect_outputs
    collect_outputs-AllReturned outputs s h =
        with_finished_sets-AllReturned s.finished_req_ids_dict _
          (engine_core_outputs-AllReturned outputs h)

    finish_update-Ends :
        (failed : List String) (m : ModelRunnerOutput) (results : Results) (s : Scheduler u)
        → (u.recompute_kv_load_failures ≡ false → (id : String) → Q id [])
        → AllReported Related results.outputs
        → Ends Raised (λ d t. AllReturned d) (finish_update u failed m results s)
    unfolding finish_update
    finish_update-Ends failed m results s q h =
        Ends-bind _ _ (end_failed-Ends failed results.outputs (remove_stopped u results s) q h)
          (λ outputs t g.
            Ends-bind _ _ (Ends-any (end_transfers u m.kv_connector_output t))
              (λ _ v _. returns (collect_outputs-AllReturned outputs v g)))

  -- Where an output comes from: the model's tokens for a scheduled request whose load did not fail, or,
  -- without recomputation, the end of a request whose load failed, with no tokens.
  pub data Source (scheduled : SchedulerOutput u) (m : ModelRunnerOutput) (s : Scheduler u)
      (req_id : String) (tokens : List ℕ) : Type 0 where
    sampled :
        {failed : List String}
        → (find_failed u scheduled m.kv_connector_output s).0 ≡ ok failed
        → member String_discrete req_id (keys scheduled.num_scheduled_tokens) ≡ true
        → member String_discrete req_id failed ≡ false
        → FromModel m req_id tokens
        → Source scheduled m s req_id tokens
    load_failed :
        u.recompute_kv_load_failures ≡ false → tokens ≡ [] → Source scheduled m s req_id tokens

  -- update_from_output raises, or every output that it returns is for a scheduled request that is not
  -- among those whose load failed, with a beginning of the tokens that the model sampled for it, or it
  -- has no tokens and the scheduler does not recompute after a failed load.
  pub update_from_output-Sourced :
      (scheduled : SchedulerOutput u) (m : ModelRunnerOutput) (s : Scheduler u)
      → Ends Raised
          (λ d t.
            Each ℕ_discrete
              (λ client out.
                AllOf (λ o. Source scheduled m s o.request_id o.new_token_ids) out.outputs)
              d)
          (update_from_output u scheduled m s)
  unfolding update_from_output
  update_from_output-Sourced scheduled m s =
      Ends-bind _ _ (Ends-self (find_failed u scheduled m.kv_connector_output s)) (λ failed t found.
        Ends-bind _ _
          (update_each-Ends (Source scheduled m s) scheduled m failed scheduled.num_scheduled_tokens
            no_results t (λ id tokens known kept from. sampled found known kept from)
            (λ client outs e. absurd (none≢some e)))
          (λ results v h.
            finish_update-Ends (Source scheduled m s) failed m results v
              (λ e id. load_failed e refl) h))
