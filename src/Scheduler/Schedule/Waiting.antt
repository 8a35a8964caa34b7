-- ===== src/Scheduler/Schedule/Waiting.antt =====
-- `schedule`: the loop over the waiting requests, without the statistics of the connector's cache.
-- The model stops at the end of its fuel. The number of new tokens may stop at 0 here, where the code
-- has a negative number: an assertion fails at both.
pub mod Shares
use edmm.Prelude.{
  ℕ, zero, suc, ◌+◌, ◌-◌, min, String, List, [], ◌∷◌, ◌++◌, Option, none, some, Bool, true, false,
  if◌then◌else◌, ◌&&◌, ◌||◌, not, ltb, leb, ◌==◌, length, String_discrete, ℕ_discrete,
}
use edmm.Prelude.Dict.{put, is_some}
use edmm.Prelude.Effect.{Outcome, ok, raised, ◌>>=◌, ◌>>◌}
use edmm.Prelude.Sets.{member, insert}
use edmm.Request.{Request, EventType, PrefillStats, num_tokens, has_encoder_inputs, record_event}
use edmm.Request.Status.{RequestStatus}
use edmm.Scheduler.State.{
  Setup, Scheduler, Ref, Blocks, SlotArguments, Action, Call, Error, assertion_error, runtime_error,
  out_of_fuel, invoke, modify,
}
use edmm.Scheduler.Waiting.{
  WaitingQueue, in_waiting, in_skipped, queue_of, nonempty, select_waiting_queue,
  is_blocked_waiting_status, try_promote_blocked_waiting_request,
}
use edmm.Scheduler.Encoder.{Plan}
use edmm.Scheduler.Schedule.{Progress, sum_embeds}
use edmm.Scheduler.Schedule.Running.{cap_prefill, plan_encoder, split, allocate_inputs, note_inputs}

-- What is computed of a request already: by this engine and elsewhere.
pub record Found : Type 0 where
  pub new_computed_blocks : Blocks
  pub num_new_local_computed_tokens : ℕ
  pub num_external_computed_tokens : ℕ
  pub load_kv_async : Bool
  pub num_computed_tokens : ℕ

-- The new tokens of a request, with the inputs of the encoder.
pub record Share : Type 0 where
  pub num_new_tokens : ℕ
  pub plan : Plan

abbrev pub nothing_planned : ℕ → ℕ → Plan
nothing_planned n encoder_compute_budget = record {
  num_new_tokens = n;
  encoder_compute_budget = encoder_compute_budget;
  encoder_inputs_to_schedule = [];
  external_load_encoder_input = [];
  mm_hashes_to_schedule = [];
  num_embeds_to_schedule = 0;
}

-- A request with encoder inputs and no new tokens ends the loop.
abbrev pub unless_empty : Bool → Plan → Option Plan
unless_empty has_inputs plan = if has_inputs && (plan.num_new_tokens == 0) then none else some plan

module _ (u : Setup) where
  -- The variables of the loop.
  pub record Line : Type 0 where
    pub progress : Progress
    pub scheduled_loras : List ℕ
    pub step_skipped_waiting : u.Queue

  -- A queue without its first request.
  unfoldable pub pop_from : WaitingQueue → Scheduler u → Scheduler u
  pop_from in_waiting s = record s { waiting = u.queue_pop s.store s.waiting }
  pop_from in_skipped s = record s { skipped_waiting = u.queue_pop s.store s.skipped_waiting }

  -- The request is put aside for this step, and the loop goes on.
  unfoldable pub skip_waiting : WaitingQueue → Ref → Line → Action u (Bool × Line)
  unfolding pop_from
  skip_waiting which r w s = (
    ok (true, record w { step_skipped_waiting = u.queue_prepend s.store r w.step_skipped_waiting }),
    pop_from which s,
  )

  -- The loop ends.
  abbrev pub stop_waiting : Line → Action u (Bool × Line)
  stop_waiting w s = (ok (false, w), s)

  -- Another LoRA would be one too many.
  unfoldable pub exceeds_loras : Option ℕ → Option ℕ → List ℕ → Bool
  unfolding member
  exceeds_loras (some max_loras) (some id) loras =
      length loras == max_loras && not (member ℕ_discrete id loras)
  exceeds_loras _ _ loras = false

  unfoldable pub add_lora : Option ℕ → Option ℕ → List ℕ → List ℕ
  unfolding insert
  add_lora (some max_loras) (some id) loras = insert ℕ_discrete id loras
  add_lora _ _ loras = loras

  -- What the connector finds beside `n` tokens; `none` if it cannot say yet.
  unfoldable pub find_external :
      Request u.floats → ℕ → Scheduler u → (Option ℕ × Bool) × Scheduler u
  unfolding invoke
  find_external q n s =
      if u.has_connector
      then invoke u (Call.get_num_new_matched_tokens q n) s
      else ((some 0, false), s)

  unfoldable pub note_prefill : ℕ → ℕ → Request u.floats → Request u.floats
  note_prefill local external q = record q {
    prefill_stats = some (record {
      num_prompt_tokens = q.num_prompt_tokens;
      num_local_cached_tokens = local;
      num_external_cached_tokens = external;
    });
  }

  -- The first prefill is tracked.
  unfoldable pub track_prefill : Ref → ℕ → ℕ → Option PrefillStats → Action u Unit
  unfolding modify note_prefill
  track_prefill r local external none s = (ok tt, s)
  track_prefill r local external (some stats) s =
      if leb (local + external) (s.store r).num_prompt_tokens
      then (ok tt, modify u r (note_prefill local external) s)
      else (raised assertion_error, s)

  unfoldable pub check_found : Ref → Blocks → ℕ → Option ℕ × Bool → Action u (Option Found)
  unfolding track_prefill
  check_found r blocks local (none, load_async) s = (ok none, s)
  check_found r blocks local (some external, load_async) s =
      if leb (local + external) (num_tokens u.floats (s.store r))
      then (do
        _ ← track_prefill r local external (s.store r).prefill_stats
        λ t. (
          ok (
              some (record {
                new_computed_blocks = blocks;
                num_new_local_computed_tokens = local;
                num_external_computed_tokens = external;
                load_kv_async = load_async;
                num_computed_tokens = local + external;
              })),
          t,
        ))
          s
      else (raised assertion_error, s)

  -- The tokens that are computed already; `none` if the connector cannot say yet.
  unfoldable pub find_computed : Ref → Action u (Option Found)
  unfolding find_external check_found invoke
  find_computed r s =
      let (found, t) = invoke u (Call.get_computed_blocks (s.store r)) s in
      let (external, v) = find_external (t.store r) found.1 t in
      if (s.store r).num_computed_tokens == 0 then check_found r found.0 found.1 external v else (
        ok (
            some (record {
              new_computed_blocks = u.empty_blocks;
              num_new_local_computed_tokens = 0;
              num_external_computed_tokens = 0;
              load_kv_async = false;
              num_computed_tokens = (s.store r).num_computed_tokens;
            })),
        s,
      )

  -- The new tokens of a request that is not loaded; `none` ends the loop.
  unfoldable pub plan_tokens : Ref → ℕ → Progress → Action u (Option Plan)
  unfolding plan_encoder
  plan_tokens r num_computed_tokens p s =
      let n = cap_prefill u (num_tokens u.floats (s.store r) - num_computed_tokens) in
      if not u.enable_chunked_prefill && ltb p.token_budget n
      then (ok none, s)
      else if min n p.token_budget == 0
      then (raised assertion_error, s)
      else (do
        plan ← plan_encoder u r num_computed_tokens (min n p.token_budget) p.encoder_compute_budget
        λ t. (ok (unless_empty (has_encoder_inputs u.floats (s.store r)) plan), t))
          s

  unfoldable pub plan_found : Ref → Found → Progress → Action u (Option Plan)
  unfolding plan_tokens
  plan_found r found p s =
      if found.load_kv_async
      then if found.num_external_computed_tokens == 0
        then (raised assertion_error, s)
        else (ok (some (nothing_planned 0 p.encoder_compute_budget)), s)
      else plan_tokens r found.num_computed_tokens p s

  -- The part of it that ends at a block; none ends the loop.
  unfoldable pub split_plan : Ref → Found → Option Plan → Action u (Option Share)
  unfolding split
  split_plan r found none s = (ok none, s)
  split_plan r found (some plan) s =
      (do
        n ←
            split u r plan.num_new_tokens found.num_new_local_computed_tokens
              found.num_external_computed_tokens
        λ t. (
          ok (
              if u.need_mamba_block_aligned_split && (n == 0)
              then none
              else some (record { num_new_tokens = n; plan = plan })),
          t,
        ))
        s

  -- The embeddings for cross-attention.
  unfoldable pub encoder_tokens : Ref → List ℕ → Action u ℕ
  unfolding sum_embeds
  encoder_tokens r inputs s =
      if u.is_encoder_decoder && has_encoder_inputs u.floats (s.store r)
      then (sum_embeds (s.store r).mm_features inputs, s)
      else (ok 0, s)

  abbrev pub slot_arguments : Request u.floats → Found → Share → ℕ → SlotArguments
  slot_arguments q found share num_encoder_tokens = record {
    num_new_tokens = share.num_new_tokens;
    num_new_computed_tokens = found.num_new_local_computed_tokens;
    new_computed_blocks = some found.new_computed_blocks;
    num_lookahead_tokens = if q.num_computed_tokens == 0 then 0 else u.num_lookahead_tokens;
    num_external_computed_tokens = found.num_external_computed_tokens;
    delay_cache_blocks = found.load_kv_async;
    num_encoder_tokens = num_encoder_tokens;
    full_sequence_must_fit = u.scheduler_reserve_full_isl;
  }
