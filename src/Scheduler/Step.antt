-- ===== src/Scheduler/Step.antt =====
-- The small steps around a run of the model: the requests' counters after they are scheduled, their
-- draft tokens, the encoder inputs that are done with, and the tokens that the model returns.
pub mod Output
use edmm.Prelude.{
  ℕ, zero, suc, ◌+◌, ◌-◌, String, ℤ, pos, negsuc, List, [], ◌∷◌, ◌++◌, map, Option, none, some,
  Bool, true, false, if◌then◌else◌, ◌&&◌, ◌||◌, not, ltb, leb, ◌==◌, length, take, get_elem?,
  String_discrete,
}
use edmm.Prelude.Dict.{Dict, get, put, is_some}
use edmm.Prelude.Effect.{Outcome, ok, raised, ◌>>=◌}
use edmm.Request.{Request, MultiModalFeature, append_output_token_ids, num_tokens}
use edmm.Request.Status.{is_finished}
use edmm.Scheduler.State.{
  Setup, Scheduler, Ref, Action, Call, Error, key_error, index_error, invoke, modify,
}

module _ (u : Setup) where
  -- `_update_request_with_output`: the tokens that are kept, and whether the request stops.
  unfoldable pub append_until_stop : Ref → List ℕ → Scheduler u → (List ℕ × Bool) × Scheduler u
  unfolding modify
  append_until_stop r [] s = (([], false), s)
  append_until_stop r (t ∷ ts) s =
      let appended = append_output_token_ids u.floats u.block_hasher (s.store r) (t ∷ []) in
      let (checked, stopped) = u.check_stop appended u.max_model_len in
      let next = modify u r (λ q. checked) s in
      let rest = append_until_stop r ts next in
      if stopped then ((t ∷ [], true), next) else ((t ∷ rest.0.0, rest.0.1), rest.1)

  -- `use_structured_output`
  abbrev pub use_structured_output : Request u.floats → Bool
  use_structured_output r = is_some r.structured_output_request

  -- `request.is_prefill_chunk` after `n` more tokens are scheduled.
  unfoldable pub advance : ℕ → Request u.floats → Request u.floats
  advance n r = record r {
    num_computed_tokens = r.num_computed_tokens + n;
    is_prefill_chunk =
        ltb (r.num_computed_tokens + n) (num_tokens u.floats r + r.num_output_placeholders);
  }

  advance_known : Option Ref → ℕ → Bool → Scheduler u → Outcome Error Bool × Scheduler u
  unfolding modify advance
  advance_known none n structured s = (raised key_error, s)
  advance_known (some r) n structured s =
      let q = advance n (s.store r) in
      (
        ok (structured || (use_structured_output q && not q.is_prefill_chunk)),
        modify u r (advance n) s,
      )

  -- `for req_id, num_scheduled_token in num_scheduled_tokens.items()`
  unfoldable pub advance_each : Dict String ℕ → Bool → Action u Bool
  unfolding advance_known get
  advance_each [] structured s = (ok structured, s)
  advance_each ((req_id, n) ∷ scheduled) structured s =
      (do
        b ← advance_known (get String_discrete req_id s.requests) n structured
        advance_each scheduled b)
        s

  clear_finished : Bool → Action u Bool
  clear_finished structured s = (ok structured, record s { finished_req_ids = [] })

  -- `_update_after_schedule`, but for the snapshot of routed experts: what is scheduled, and whether
  -- there are structured requests so far.
  unfoldable pub update_after_schedule : Dict String ℕ → Bool → Action u Bool
  unfolding advance_each clear_finished
  update_after_schedule scheduled structured = do
    b ← advance_each scheduled structured
    clear_finished b

  -- Whether an encoder input is done with: it stands before the computed tokens, or, with an encoder
  -- and a decoder, any token is computed.
  unfoldable pub is_processed : Request u.floats → MultiModalFeature → Bool
  is_processed r feature =
      (u.is_encoder_decoder && ltb 0 r.num_computed_tokens)
      || leb (feature.offset + feature.num_tokens) r.num_computed_tokens

  free_known : Request u.floats → ℕ → Option MultiModalFeature → Action u (Unit {0})
  unfolding is_processed invoke
  free_known r input_id none s = (raised index_error, s)
  free_known r input_id (some feature) s =
      if is_processed r feature
      then (ok tt, (invoke u (Call.free_encoder_input r input_id) s).1)
      else (ok tt, s)

  unfoldable pub free_inputs : Request u.floats → List ℕ → Action u (Unit {0})
  unfolding free_known
  free_inputs r [] s = (ok tt, s)
  free_inputs r (input_id ∷ input_ids) s =
      (do _ ← free_known r input_id (get_elem? r.mm_features input_id); free_inputs r input_ids) s

  -- `_free_encoder_inputs`
  unfoldable pub free_encoder_inputs : Ref → Action u (Unit {0})
  unfolding free_inputs invoke
  free_encoder_inputs r s =
      let (input_ids, t) = invoke u (Call.get_cached_input_ids (s.store r)) s in
      free_inputs (s.store r) input_ids t

  -- The draft tokens that the grammar lets through, if the request has one to follow.
  unfoldable pub follow_grammar :
      Bool → Request u.floats → List ℕ → Scheduler u → List ℕ × Scheduler u
  unfolding invoke
  follow_grammar false r spec_token_ids s = (spec_token_ids, s)
  follow_grammar true r spec_token_ids s = invoke u (Call.validate_tokens r spec_token_ids) s

  unfoldable pub set_spec_tokens : Ref → List ℕ → Scheduler u → Scheduler u
  unfolding modify
  set_spec_tokens r spec_token_ids = modify u r (λ q. record q { spec_token_ids = spec_token_ids })

  -- The draft tokens of a request that is no longer known, that has ended, that is still in its
  -- prefill, or that takes them.
  unfoldable pub take_draft : Option Ref → List ℕ → Scheduler u → Scheduler u
  unfolding set_spec_tokens follow_grammar invoke
  take_draft none spec_token_ids s = s
  take_draft (some r) spec_token_ids s =
      let (should, t) = invoke u (Call.should_advance (s.store r)) s in
      let (valid, t') = follow_grammar should (t.store r) spec_token_ids t in
      if is_finished (s.store r).status
      then s
      else (if (s.store r).is_prefill_chunk
          then set_spec_tokens r [] s
          else set_spec_tokens r valid t')

  -- `update_draft_token_ids`
  unfoldable pub update_draft_token_ids : List String → List (List ℕ) → Scheduler u → Scheduler u
  unfolding take_draft get
  update_draft_token_ids (req_id ∷ req_ids) (spec_token_ids ∷ drafts) s =
      update_draft_token_ids req_ids drafts
        (take_draft (get String_discrete req_id s.requests) spec_token_ids s)
  update_draft_token_ids _ _ s = s

-- `spec_token_ids.extend([-1] * n)`
unfoldable pub padded : ℕ → List ℕ → List ℤ
padded n ts = map pos ts ++ minus_ones n
  where
    minus_ones : ℕ → List ℤ
    minus_ones zero = []
    minus_ones (suc k) = negsuc 0 ∷ minus_ones k

-- The placeholders for draft tokens in the scheduler's output, which become the tokens, and the
-- numbers of those that are not valid.
pub record Drafts : Type 0 where
  pub scheduled_spec_decode_tokens : Dict String (List ℤ)
  pub num_invalid_spec_tokens : Dict String ℕ

module _ (u : Setup) where
  -- The rest for a request that is known and has placeholders.
  unfoldable pub fill_placeholders : String → ℕ → List ℕ → Drafts → Drafts
  unfolding padded put
  fill_placeholders req_id orig_num_spec_tokens valid d =
      let num_invalid_tokens = orig_num_spec_tokens - length valid in
      record {
        scheduled_spec_decode_tokens =
            put String_discrete req_id (padded num_invalid_tokens valid)
              d.scheduled_spec_decode_tokens;
        num_invalid_spec_tokens =
            if num_invalid_tokens == 0
            then d.num_invalid_spec_tokens
            else put String_discrete req_id num_invalid_tokens d.num_invalid_spec_tokens;
      }

  unfoldable pub replace_draft :
      String → Option Ref → Option (List ℤ) → List ℕ → Drafts → Scheduler u → Drafts × Scheduler u
  unfolding fill_placeholders follow_grammar invoke
  replace_draft req_id none placeholders spec_token_ids d s = (d, s)
  replace_draft req_id (some r) none spec_token_ids d s = (d, s)
  replace_draft req_id (some r) (some []) spec_token_ids d s = (d, s)
  replace_draft req_id (some r) (some (p ∷ ps)) spec_token_ids d s =
      let drafts = take (length (p ∷ ps)) spec_token_ids in
      let (should, t) = invoke u (Call.should_advance (s.store r)) s in
      let (valid, t') = follow_grammar u should (t.store r) drafts t in
      if is_finished (s.store r).status
      then (d, s)
      else (fill_placeholders req_id (length (p ∷ ps)) valid d, t')

  unfoldable pub replace_drafts :
      List String → List (List ℕ) → Drafts → Scheduler u → Drafts × Scheduler u
  unfolding replace_draft get
  replace_drafts (req_id ∷ req_ids) (spec_token_ids ∷ drafts) d s =
      let (d', t) =
        replace_draft req_id (get String_discrete req_id s.requests)
          (get String_discrete req_id d.scheduled_spec_decode_tokens) spec_token_ids d s in
      replace_drafts req_ids drafts d' t
  replace_drafts _ _ d s = (d, s)

  -- `update_draft_token_ids_in_output`, of the placeholders in the output.
  unfoldable pub update_draft_token_ids_in_output :
      List String → List (List ℕ) → Dict String (List ℤ) → Scheduler u → Drafts × Scheduler u
  unfolding replace_drafts
  update_draft_token_ids_in_output req_ids drafts scheduled =
      replace_drafts req_ids drafts
        (record { scheduled_spec_decode_tokens = scheduled; num_invalid_spec_tokens = [] })
