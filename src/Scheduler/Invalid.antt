-- ===== src/Scheduler/Invalid.antt =====
-- The loss of cache blocks, `_update_requests_with_invalid_blocks` of
-- vllm-integration/vllm_v1_core_sched/scheduler.py. A request whose scheduled tokens exceed its
-- computed ones has no block to scan, so that a difference that stops at 0 does the same.
pub mod Prefix
pub mod Handle
use edmm.Prelude.{
  ℕ, zero, suc, String, ◌+◌, ◌-◌, ◌*◌, ◌/◌, List, [], ◌∷◌, Option, none, some, Bool, true, false,
  if◌then◌else◌, String_discrete, ℕ_discrete,
}
use edmm.Prelude.Dict.{Dict, get}
use edmm.Prelude.Effect.{ok, raised, ◌>>=◌}
use edmm.Prelude.Sets.{member, insert}
use edmm.Request.{Request, or_else}
use edmm.Scheduler.State.{Setup, Scheduler, Ref, Action, Call, Error, value_error, invoke, modify}

-- The variables of the loop over the blocks of one request, and those of the loop around it that it
-- changes.
pub record Scan : Type 0 where
  pub marked_invalid_block_ids : List ℕ
  pub total_affected_tokens : ℕ
  pub blocks_to_evict : List ℕ
  pub is_affected : Bool
  pub marked_invalid_block : Bool
  pub num_computed_tokens : ℕ

abbrev pub insert_all : List ℕ → List ℕ → List ℕ
insert_all [] s = s
insert_all (x ∷ xs) s = insert_all xs (insert ℕ_discrete x s)

-- The first lost block of the request that no request before it recomputes.
unfoldable pub truncate : ℕ → Bool → ℕ → ℕ → List ℕ → Scan → Scan
truncate block_size evict_blocks computed idx blocks c = record c {
  marked_invalid_block = true;
  num_computed_tokens = idx * block_size;
  total_affected_tokens = c.total_affected_tokens + (computed - idx * block_size);
  blocks_to_evict = if evict_blocks then insert_all blocks c.blocks_to_evict else c.blocks_to_evict;
}

-- A lost block that is not marked yet, `blocks` starting with it.
unfoldable pub mark_block : ℕ → Bool → ℕ → ℕ → ℕ → List ℕ → Scan → Scan
unfolding truncate
mark_block block_size evict_blocks computed idx block_id blocks c =
    let marked = record c {
      marked_invalid_block_ids = insert ℕ_discrete block_id c.marked_invalid_block_ids;
    } in
    if c.marked_invalid_block
    then marked
    else truncate block_size evict_blocks computed idx blocks marked

-- A lost block.
unfoldable pub scan_invalid : ℕ → Bool → ℕ → ℕ → ℕ → List ℕ → Scan → Scan
unfolding mark_block
scan_invalid block_size evict_blocks computed idx block_id blocks c =
    if member ℕ_discrete block_id c.marked_invalid_block_ids
    then c
    else mark_block block_size evict_blocks computed idx block_id blocks c

unfoldable pub scan_block : List ℕ → ℕ → Bool → ℕ → ℕ → ℕ → List ℕ → Scan → Scan
unfolding scan_invalid
scan_block invalid block_size evict_blocks computed idx block_id blocks c =
    if member ℕ_discrete block_id invalid
    then scan_invalid block_size evict_blocks computed idx block_id blocks
        (record c { is_affected = true })
    else c

-- The loop over `zip(range(n), blocks)`, from an index on.
unfoldable pub scan : List ℕ → ℕ → Bool → ℕ → ℕ → ℕ → List ℕ → Scan → Scan
unfolding scan_block
scan invalid block_size evict_blocks computed zero idx blocks c = c
scan invalid block_size evict_blocks computed (suc n) idx [] c = c
scan invalid block_size evict_blocks computed (suc n) idx (b ∷ bs) c =
    scan invalid block_size evict_blocks computed n (suc idx) bs
      (scan_block invalid block_size evict_blocks computed idx b (b ∷ bs) c)

-- What the loop over the requests returns, with the marks.
pub record Affected : Type 0 where
  pub affected_req_ids : List String
  pub marked : List ℕ
  pub total : ℕ
  pub evict : List ℕ

module _ (u : Setup) where
  begin_scan : Request u.floats → Affected → Scan
  begin_scan q a = record {
    marked_invalid_block_ids = a.marked;
    total_affected_tokens = a.total;
    blocks_to_evict = a.evict;
    is_affected = false;
    marked_invalid_block = false;
    num_computed_tokens = q.num_computed_tokens;
  }

  -- `if is_affected`, with the tokens that are computed without those scheduled.
  end_scan : String → ℕ → Affected → Scan → Affected × ℕ
  end_scan req_id computed a c =
      let shared = if c.marked_invalid_block then 0 else c.num_computed_tokens - computed in
      if c.is_affected
      then (
        record {
          affected_req_ids = insert String_discrete req_id a.affected_req_ids;
          marked = c.marked_invalid_block_ids;
          total = c.total_affected_tokens + shared;
          evict = c.blocks_to_evict;
        },
        if c.marked_invalid_block then c.num_computed_tokens else computed,
      )
      else (
        record a {
          marked = c.marked_invalid_block_ids;
          total = c.total_affected_tokens;
          evict = c.blocks_to_evict;
        },
        c.num_computed_tokens,
      )

  abbrev pub num_blocks : ℕ → ℕ
  num_blocks computed = (computed + u.block_size - 1) / u.block_size

  scan_request : List ℕ → Dict String ℕ → Bool → Ref → List (List ℕ) → Affected → Action u Affected
  unfolding scan begin_scan end_scan
  scan_request invalid scheduled evict_blocks r (blocks ∷ []) a s =
      let q = s.store r in
      let computed =
        q.num_computed_tokens - or_else (get String_discrete q.request_id scheduled) 0 in
      let c =
        scan invalid u.block_size evict_blocks computed (num_blocks computed) 0 blocks
          (begin_scan q a) in
      let (a', n) = end_scan q.request_id computed a c in
      (ok a', modify u r (λ p. record p { num_computed_tokens = n }) s)
  scan_request invalid scheduled evict_blocks r groups a s = (raised value_error, s)

  scan_requests : List ℕ → Dict String ℕ → Bool → List Ref → Affected → Action u Affected
  unfolding scan_request
  scan_requests invalid scheduled evict_blocks [] a s = (ok a, s)
  scan_requests invalid scheduled evict_blocks (r ∷ rs) a s =
      let (groups, t) = invoke u (Call.get_block_ids (s.store r).request_id) s in
      (do
        a' ← scan_request invalid scheduled evict_blocks r groups a
        scan_requests invalid scheduled evict_blocks rs a')
        t

  -- `_update_requests_with_invalid_blocks`, of which the marks are not returned.
  unfoldable pub update_requests_with_invalid_blocks :
      List Ref → List ℕ → Dict String ℕ → Bool → Action u Affected
  unfolding scan_requests
  update_requests_with_invalid_blocks rs invalid scheduled evict_blocks =
      scan_requests invalid scheduled evict_blocks rs
        (record { affected_req_ids = []; marked = []; total = 0; evict = [] })
