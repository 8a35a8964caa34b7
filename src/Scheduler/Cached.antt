-- ===== src/Scheduler/Cached.antt =====
-- `_make_cached_request_data`: what the workers are told of the requests that they know.
pub mod Columns
mod Tests
use edmm.Prelude.{
  ℕ, suc, ◌+◌, ◌-◌, String, List, [], ◌∷◌, ◌++◌, Option, none, some, Bool, true, false,
  if◌then◌else◌, ◌&&◌, not, leb, length, take, drop, String_discrete,
}
use edmm.Prelude.Dict.{Dict, get, put}
use edmm.Prelude.Effect.{Outcome, ok, raised}
use edmm.Prelude.Partial.{◌>>=◌, or_raise}
use edmm.Prelude.Sets.{member, insert}
use edmm.Request.{Request, num_output_tokens}
use edmm.Scheduler.State.{Setup, Scheduler, Ref, Error, key_error, assertion_error}

-- `CachedRequestData`, of vLLM, with these fields.
pub record CachedRequestData : Type 0 where
  pub req_ids : List String
  pub resumed_req_ids : List String
  pub new_token_ids : List (List ℕ)
  pub all_token_ids : Dict String (List ℕ)
  pub new_block_ids : List (Option (List (List ℕ)))
  pub num_computed_tokens : List ℕ
  pub num_output_tokens : List ℕ

abbrev pub no_data : CachedRequestData
no_data = record {
  req_ids = [];
  resumed_req_ids = [];
  new_token_ids = [];
  all_token_ids = [];
  new_block_ids = [];
  num_computed_tokens = [];
  num_output_tokens = [];
}

-- `xs[start : start + more - less]`: an end below 0 counts from the end of the list.
abbrev pub slice_end : ℕ → ℕ → ℕ → ℕ → ℕ
slice_end len start more less =
    if leb less (start + more) then start + more - less else len - (less - (start + more))

abbrev pub slice : List ℕ → ℕ → ℕ → ℕ → List ℕ
slice xs start more less = take (slice_end (length xs) start more less - start) (drop start xs)

-- The length of what is speculated, with `()` for a missing request.
abbrev pub num_speculated : Option (List ℕ) → ℕ
num_speculated none = 0
num_speculated (some ts) = length ts

-- `Blocks` is `KVCacheBlocks`, and `get_block_ids` is its `get_block_ids(allow_none=True)`.
module _ (u : Setup) (Blocks : Type 0) (get_block_ids : Blocks → Option (List (List ℕ)))
    (s : Scheduler u) (num_scheduled_tokens : Dict String ℕ)
    (spec_decode_tokens : Dict String (List ℕ)) (req_to_new_blocks : Dict String Blocks) where
  -- The tokens that are sent back to the first stage of a pipeline.
  unfoldable pub sent_tokens : Request u.floats → List (List ℕ) → Outcome Error (List (List ℕ))
  unfolding get
  sent_tokens r sent =
      if u.use_pp && not u.async_scheduling
      then (do
        n ← or_raise (get String_discrete r.request_id num_scheduled_tokens) key_error
        ok (
            sent
            ++ (slice r.all_token_ids r.num_computed_tokens n
                  (num_speculated (get String_discrete r.request_id spec_decode_tokens))
                ∷ [])))
      else ok sent

  -- A request that comes back was not scheduled in the step before.
  unfoldable pub note_resumed : Bool → Bool → String → List String → Outcome Error (List String)
  unfolding insert
  note_resumed resumed scheduled_in_prev_step req_id ids =
      if resumed
      then if scheduled_in_prev_step
        then raised assertion_error
        else ok (insert String_discrete req_id ids)
      else ok ids

  -- A round of the loop.
  unfoldable pub add_cached_request :
      Bool → Request u.floats → CachedRequestData → Outcome Error CachedRequestData
  unfolding sent_tokens note_resumed get put member
  add_cached_request resumed r d = do
    let scheduled_in_prev_step = member String_discrete r.request_id s.prev_step_scheduled_req_ids
    sent ← sent_tokens r d.new_token_ids
    ids ← note_resumed resumed scheduled_in_prev_step r.request_id d.resumed_req_ids
    blocks ← or_raise (get String_discrete r.request_id req_to_new_blocks) key_error
    ok (record {
      req_ids = d.req_ids ++ (r.request_id ∷ []);
      resumed_req_ids = ids;
      new_token_ids = sent;
      all_token_ids =
          if scheduled_in_prev_step
          then d.all_token_ids
          else put String_discrete r.request_id r.all_token_ids d.all_token_ids;
      new_block_ids = d.new_block_ids ++ (get_block_ids blocks ∷ []);
      num_computed_tokens = d.num_computed_tokens ++ (r.num_computed_tokens ∷ []);
      num_output_tokens =
          d.num_output_tokens ++ ((num_output_tokens u.floats r + r.num_output_placeholders) ∷ []);
    })

  -- `for idx, req in enumerate(...)`, from an index on.
  unfoldable pub add_cached_requests :
      ℕ → ℕ → List Ref → CachedRequestData → Outcome Error CachedRequestData
  unfolding add_cached_request
  add_cached_requests num_running_reqs idx [] d = ok d
  add_cached_requests num_running_reqs idx (r ∷ rs) d =
      add_cached_request (leb num_running_reqs idx) (s.store r) d
      >>= add_cached_requests num_running_reqs (suc idx) rs

  -- `_make_cached_request_data`
  unfoldable pub make_cached_request_data : List Ref → List Ref → Outcome Error CachedRequestData
  unfolding add_cached_requests
  make_cached_request_data running_reqs resumed_reqs =
      add_cached_requests (length running_reqs) 0 (running_reqs ++ resumed_reqs) no_data
