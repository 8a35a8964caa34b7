-- ===== src/Scheduler/Encoder.antt =====
-- `_try_schedule_encoder_inputs`: which multimodal inputs a step computes, within the encoder's budget.
-- The number of new tokens is not negative here, and the shift is 0 or 1. The cache manager grants
-- only what fits in the budget, so that a difference that stops at 0 does the same.
pub mod Budget
pub mod Quiet
mod Tests
use edmm.Prelude.{
  ℕ, zero, suc, ◌+◌, ◌-◌, min, String, List, [], ◌∷◌, ◌++◌, Option, none, some, Bool, true, false,
  if◌then◌else◌, ◌&&◌, ◌||◌, not, ltb, leb, ◌==◌, String_discrete,
}
use edmm.Prelude.Effect.{Outcome, ok, raised}
use edmm.Prelude.Sets.{member, insert}
use edmm.Request.{Request, MultiModalFeature, has_encoder_inputs}
use edmm.Scheduler.State.{Setup, Scheduler, Ref, Action, Call, Error, assertion_error, invoke}

-- The variables of the loop over the inputs.
pub record Plan : Type 0 where
  pub num_new_tokens : ℕ
  pub encoder_compute_budget : ℕ
  pub encoder_inputs_to_schedule : List ℕ
  pub external_load_encoder_input : List ℕ
  pub mm_hashes_to_schedule : List String
  pub num_embeds_to_schedule : ℕ

-- What the loop does with an input: it breaks, with a number of new tokens; it passes the input over;
-- it loads it from elsewhere; or it computes it.
pub data Decision : Type 0 where
  stop : ℕ → Decision
  skip load compute : Decision

-- The embeddings of the input at an index.
abbrev pub embeds_at : List MultiModalFeature → ℕ → ℕ
embeds_at [] i = 0
embeds_at (m ∷ ms) zero = m.num_embeds
embeds_at (m ∷ ms) (suc i) = embeds_at ms i

module _ (u : Setup) (q : Request u.floats) (num_computed_tokens shift_computed_tokens : ℕ) where
  -- The tokens up to just before an input.
  abbrev pub tokens_before : ℕ → ℕ
  tokens_before start_pos = start_pos - (num_computed_tokens + shift_computed_tokens)

  -- An input that fits, and of which a part is in range: it is loaded if the other side has it.
  unfoldable pub load_or_compute : String → Action u Decision
  unfolding invoke
  load_or_compute identifier s =
      let (has, t) = invoke u (Call.has_cache_item identifier) s in
      if u.has_ec_connector then (ok (if has then load else compute), t) else (ok compute, s)

  -- An input that fits.
  unfoldable pub schedule_in_range : MultiModalFeature → ℕ → Action u Decision
  unfolding load_or_compute
  schedule_in_range m num_new_tokens s =
      let (first, last) =
        u.embeds_in_range m (num_computed_tokens - m.offset)
          (min m.num_tokens (num_computed_tokens + num_new_tokens - m.offset)) in
      if last == first then (ok skip, s) else load_or_compute m.identifier s

  -- An input that is needed and not at hand.
  unfoldable pub fit : ℕ → MultiModalFeature → Plan → Action u Decision
  unfolding schedule_in_range invoke
  fit i m p s =
      let (granted, t) =
        invoke u (Call.can_allocate q i p.encoder_compute_budget p.num_embeds_to_schedule) s in
      if u.disable_chunked_mm_input
        && (ltb num_computed_tokens m.offset
            && ltb (num_computed_tokens + p.num_new_tokens) (m.offset + m.num_tokens))
      then (ok (stop (tokens_before m.offset)), s)
      else if granted
      then schedule_in_range m p.num_new_tokens t
      else (ok (stop (tokens_before m.offset)), t)

  -- An input that is not computed yet: it may be scheduled already, or in the encoder's cache.
  unfoldable pub look_up : ℕ → MultiModalFeature → Plan → Action u Decision
  unfolding fit invoke member
  look_up i m p s =
      let (cached, t) = invoke u (Call.check_and_update_cache q i) s in
      if u.is_encoder_decoder
      then fit i m p s
      else if member String_discrete m.identifier p.mm_hashes_to_schedule
      then (ok skip, s)
      else if cached
      then (ok skip, t)
      else fit i m p t

  -- With an encoder and a decoder, an input stands at the beginning.
  at_beginning : ℕ → Action u Decision
  at_beginning start_pos s = if start_pos == 0 then (ok skip, s) else (raised assertion_error, s)

  -- A round of the loop.
  unfoldable pub decide_input : ℕ → MultiModalFeature → Plan → Action u Decision
  unfolding look_up at_beginning
  decide_input i m p s =
      if leb (num_computed_tokens + p.num_new_tokens + shift_computed_tokens) m.offset
      then (ok (stop p.num_new_tokens), s)
      else if u.is_encoder_decoder && ltb 0 num_computed_tokens
      then at_beginning m.offset s
      else if leb (m.offset + m.num_tokens) num_computed_tokens
      then (ok skip, s)
      else look_up i m p s

  -- The variables after an input that is loaded or computed.
  unfoldable pub note_loaded : ℕ → MultiModalFeature → Plan → Plan
  unfolding insert
  note_loaded i m p = record p {
    mm_hashes_to_schedule = insert String_discrete m.identifier p.mm_hashes_to_schedule;
    external_load_encoder_input = p.external_load_encoder_input ++ (i ∷ []);
    num_embeds_to_schedule = p.num_embeds_to_schedule + m.num_embeds;
  }

  unfoldable pub note_computed : ℕ → MultiModalFeature → Plan → Plan
  unfolding insert
  note_computed i m p = record p {
    mm_hashes_to_schedule = insert String_discrete m.identifier p.mm_hashes_to_schedule;
    encoder_inputs_to_schedule = p.encoder_inputs_to_schedule ++ (i ∷ []);
    num_embeds_to_schedule = p.num_embeds_to_schedule + m.num_embeds;
    encoder_compute_budget = p.encoder_compute_budget - m.num_embeds;
  }

  -- What follows a decision, with the rest of the loop.
  unfoldable pub go_on :
      ℕ
      → MultiModalFeature
      → Plan
      → (Plan → Action u Plan)
      → Outcome Error Decision × Scheduler u
      → Outcome Error Plan × Scheduler u
  unfolding note_loaded note_computed
  go_on i m p rest (raised e, s) = (raised e, s)
  go_on i m p rest (ok (stop n), s) = (ok (record p { num_new_tokens = n }), s)
  go_on i m p rest (ok skip, s) = rest p s
  go_on i m p rest (ok load, s) = rest (note_loaded i m p) s
  go_on i m p rest (ok compute, s) = rest (note_computed i m p) s

  -- `for i, mm_feature in enumerate(mm_features)`, from an index on.
  unfoldable pub plan_inputs : ℕ → List MultiModalFeature → Plan → Action u Plan
  unfolding decide_input go_on
  plan_inputs i [] p s = (ok p, s)
  plan_inputs i (m ∷ ms) p s = go_on i m p (plan_inputs (suc i) ms) (decide_input i m p s)

module _ (u : Setup) where
  -- `_try_schedule_encoder_inputs`
  unfoldable pub try_schedule_encoder_inputs : Ref → ℕ → ℕ → ℕ → ℕ → Action u Plan
  unfolding plan_inputs
  try_schedule_encoder_inputs r num_computed_tokens num_new_tokens encoder_compute_budget
        shift_computed_tokens s =
      let start : Plan = record {
        num_new_tokens = num_new_tokens;
        encoder_compute_budget = encoder_compute_budget;
        encoder_inputs_to_schedule = [];
        external_load_encoder_input = [];
        mm_hashes_to_schedule = [];
        num_embeds_to_schedule = 0;
      } in
      if num_new_tokens == 0 || not (has_encoder_inputs u.floats (s.store r))
      then (ok start, s)
      else plan_inputs u (s.store r) num_computed_tokens shift_computed_tokens 0
          (s.store r).mm_features start s
