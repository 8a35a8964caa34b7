-- ===== src/Scheduler/Schedule/Running.antt =====
-- `schedule`: the loop over the running requests. The model stops at a negative number of new tokens,
-- and at the end of its fuel.
pub mod Ended
mod Tests
use edmm.Prelude.{
  ℕ, zero, suc, ◌+◌, ◌-◌, min, String, List, [], ◌∷◌, ◌++◌, Option, none, some, Bool, true, false,
  if◌then◌else◌, ◌&&◌, ◌||◌, not, ltb, leb, ◌==◌, length, take, get_elem?, String_discrete,
}
use edmm.Prelude.Dict.{put}
use edmm.Prelude.Effect.{Outcome, ok, raised, ◌>>=◌, ◌>>◌}
use edmm.Request.{Request, num_tokens, num_tokens_with_spec, has_encoder_inputs}
use edmm.Scheduler.State.{
  Setup, Scheduler, Ref, Blocks, Action, Call, Error, negative_tokens, out_of_fuel, invoke, modify,
}
use edmm.Scheduler.Split.{mamba_block_aligned_split}
use edmm.Scheduler.Encoder.{Plan, try_schedule_encoder_inputs}
use edmm.Scheduler.Schedule.{Progress, make_room}

module _ (u : Setup) where
  -- The step before has surely reached `max_tokens`.
  abbrev pub will_stop : Request u.floats → Bool
  will_stop q =
      ltb 0 q.num_output_placeholders
      && leb (q.num_prompt_tokens + q.max_tokens + q.num_output_placeholders)
          (q.num_computed_tokens + 2)

  abbrev pub cap_prefill : ℕ → ℕ
  cap_prefill n =
      if ltb 0 u.long_prefill_token_threshold && ltb u.long_prefill_token_threshold n
      then u.long_prefill_token_threshold
      else n

  -- The new tokens, before the encoder's inputs; a negative number stops the model.
  unfoldable pub wanted_tokens : Request u.floats → ℕ → Action u ℕ
  wanted_tokens q token_budget s =
      if ltb (num_tokens_with_spec u.floats q + q.num_output_placeholders) q.num_computed_tokens
        || ltb u.max_model_len (q.num_computed_tokens + 1)
      then (raised negative_tokens, s)
      else (
        ok (
            min
              (min
                (cap_prefill (
                  num_tokens_with_spec u.floats q
                  + q.num_output_placeholders
                  - q.num_computed_tokens))
                token_budget)
              (u.max_model_len - 1 - q.num_computed_tokens)),
        s,
      )

  abbrev pub shift_computed_tokens : ℕ
  shift_computed_tokens = if u.use_eagle then 1 else 0

  -- Without encoder inputs nothing is planned.
  unfoldable pub plan_encoder : Ref → ℕ → ℕ → ℕ → Action u Plan
  unfolding try_schedule_encoder_inputs
  plan_encoder r num_computed_tokens n encoder_compute_budget s =
      let start : Plan = record {
        num_new_tokens = n;
        encoder_compute_budget = encoder_compute_budget;
        encoder_inputs_to_schedule = [];
        external_load_encoder_input = [];
        mm_hashes_to_schedule = [];
        num_embeds_to_schedule = 0;
      } in
      if has_encoder_inputs u.floats (s.store r)
      then try_schedule_encoder_inputs u r num_computed_tokens n encoder_compute_budget
          shift_computed_tokens s
      else (ok start, s)

  unfoldable pub split : Ref → ℕ → ℕ → ℕ → Action u ℕ
  unfolding mamba_block_aligned_split
  split r n num_local num_external s =
      if u.need_mamba_block_aligned_split
      then (mamba_block_aligned_split u (s.store r) n num_local num_external, s)
      else (ok n, s)

  -- How many of `n` scheduled tokens are drafts.
  abbrev pub num_scheduled_spec_tokens : ℕ → Request u.floats → ℕ
  num_scheduled_spec_tokens n q =
      n + q.num_computed_tokens - (num_tokens u.floats q + q.num_output_placeholders)

  unfoldable pub note_drafts : ℕ → Request u.floats → Progress → Progress
  unfolding put
  note_drafts n q p =
      if ltb 0 (length q.spec_token_ids) && ltb 0 (num_scheduled_spec_tokens n q)
      then record p {
        scheduled_spec_decode_tokens =
            put String_discrete q.request_id (take (num_scheduled_spec_tokens n q) q.spec_token_ids)
              p.scheduled_spec_decode_tokens;
      }
      else p

  unfoldable pub clear_drafts : Ref → Scheduler u → Scheduler u
  unfolding modify
  clear_drafts r s =
      if ltb 0 (length (s.store r).spec_token_ids)
      then modify u r (λ x. record x { spec_token_ids = [] }) s
      else s

  -- The encoder's cache is allocated for each input.
  unfoldable pub allocate_inputs : Ref → List ℕ → Scheduler u → Scheduler u
  unfolding invoke
  allocate_inputs r [] s = s
  allocate_inputs r (i ∷ is) s =
      let t = (invoke u (Call.encoder_allocate (s.store r) i) s).1 in
      allocate_inputs r is (
        if u.has_ec_connector
        then (invoke u (Call.ec_update_state_after_alloc (t.store r) i) t).1
        else t)

  unfoldable pub note_inputs : String → Plan → Progress → Progress
  unfolding put
  note_inputs req_id plan p =
      if ltb 0 (length plan.encoder_inputs_to_schedule)
      then record p {
        scheduled_encoder_inputs =
            put String_discrete req_id plan.encoder_inputs_to_schedule p.scheduled_encoder_inputs;
        encoder_compute_budget = plan.encoder_compute_budget;
      }
      else p

  -- The request is scheduled.
  unfoldable pub schedule_running : Ref → ℕ → Blocks → Plan → Progress → Scheduler u → Progress
  unfolding put note_drafts note_inputs
  schedule_running r n blocks plan p s =
      let id = (s.store r).request_id in
      let p' : Progress = record p {
        scheduled_running_reqs = p.scheduled_running_reqs ++ (r ∷ []);
        req_to_new_blocks = put String_discrete id blocks p.req_to_new_blocks;
        num_scheduled_tokens = put String_discrete id n p.num_scheduled_tokens;
        token_budget = p.token_budget - n;
        req_index = p.req_index + 1;
      } in
      note_inputs id plan (note_drafts n (s.store r) p')

  unfoldable pub after_running : Ref → Plan → Scheduler u → Scheduler u
  unfolding clear_drafts allocate_inputs
  after_running r plan s =
      allocate_inputs r plan.external_load_encoder_input
        (allocate_inputs r plan.encoder_inputs_to_schedule (clear_drafts r s))

  -- What a round of the loop leaves: whether the loop goes on.
  abbrev pub skip_request : Progress → Action u (Bool × Progress)
  skip_request p s = (ok (true, record p { req_index = p.req_index + 1 }), s)

  unfoldable pub schedule_or_stop :
      Ref → ℕ → Plan → Option Blocks × Progress → Action u (Bool × Progress)
  unfolding schedule_running after_running
  schedule_or_stop r n plan (none, p) s = (ok (false, p), s)
  schedule_or_stop r n plan (some blocks, p) s =
      (ok (true, schedule_running r n blocks plan p s), after_running r plan s)

  unfoldable pub with_tokens : Ref → Plan → Progress → ℕ → Action u (Bool × Progress)
  unfolding make_room schedule_or_stop
  with_tokens r plan p n s =
      if n == 0
      then skip_request p s
      else (make_room u (suc (length s.running)) r n p >>= schedule_or_stop r n plan) s

  -- A round of the loop, for the request at `req_index`.
  unfoldable pub visit_running : Ref → Progress → Action u (Bool × Progress)
  unfolding wanted_tokens plan_encoder split with_tokens
  visit_running r p s =
      if will_stop (s.store r)
      then skip_request p s
      else (do
        n ← wanted_tokens (s.store r) p.token_budget
        plan ← plan_encoder r (s.store r).num_computed_tokens n p.encoder_compute_budget
        m ← split r plan.num_new_tokens 0 0
        with_tokens r plan p m)
          s

  -- `while req_index < len(self.running) and token_budget > 0`
  unfoldable pub schedule_running_reqs : ℕ → Progress → Action u Progress
  unfolding visit_running
  schedule_running_reqs zero p s = (raised out_of_fuel, s)
  schedule_running_reqs (suc fuel) p s = elim (get_elem? s.running p.req_index) [
    | none ↦ (ok p, s)
    | some r ↦ elim (ltb 0 p.token_budget) [
      | true ↦
          (visit_running r p >>= (λ (goes_on, p') t. elim goes_on [
            | true ↦ schedule_running_reqs fuel p' t
            | false ↦ (ok p', t)
          ]))
            s
      | false ↦ (ok p, s)
    ]
  ]
