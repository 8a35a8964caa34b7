-- ===== src/Scheduler/Invalid/Handle.antt =====
-- `_handle_invalid_blocks`: the requests that wait for a transfer and those that run, after the loss
-- of blocks, by the policy on failures.
pub mod Settled
use edmm.Prelude.{
  ℕ, zero, suc, ◌+◌, String, List, [], ◌∷◌, Bool, true, false, if◌then◌else◌, ◌==◌, ◌&&◌, not,
  String_discrete, length,
}
use edmm.Prelude.Dict.{Dict}
use edmm.Prelude.Effect.{ok, raised, ◌>>=◌}
use edmm.Prelude.Sets.{insert}
use edmm.Request.Status.{RequestStatus}
use edmm.Scheduler.State.{Setup, Scheduler, Ref, Action, Call, invoke}
use edmm.Scheduler.Invalid.{Affected, update_requests_with_invalid_blocks}

-- `s | names` and `s |= names`
unfoldable pub union : List String → List String → List String
unfolding insert
union s [] = s
union s (x ∷ xs) = union (insert String_discrete x s) xs

-- `s` is not empty.
abbrev pub some_blocks : List ℕ → Bool
some_blocks [] = false
some_blocks (b ∷ bs) = true

abbrev pub waits_for_kvs : RequestStatus → Bool
waits_for_kvs RequestStatus.waiting_for_remote_kvs = true
waits_for_kvs _ = false

module _ (u : Setup) where
  -- The requests that wait for a transfer, `async_load_reqs`.
  unfoldable pub async_load_reqs : List Ref → Scheduler u → List Ref
  async_load_reqs [] s = []
  async_load_reqs (r ∷ rs) s =
      let rest = async_load_reqs rs s in if waits_for_kvs (s.store r).status then r ∷ rest else rest

  -- `evict_blocks`, unless there are none or they are recomputed.
  unfoldable pub evict_lost : List ℕ → Scheduler u → Scheduler u
  unfolding invoke
  evict_lost blocks s =
      if some_blocks blocks && not u.recompute_kv_load_failures
      then (invoke u (Call.evict_blocks blocks) s).1
      else s

  -- What is returned, and what is noted for a retry, by the policy.
  unfoldable pub by_policy : Bool → List String → List String → Action u (List String)
  unfolding union
  by_policy false async sync s = (ok (union async sync), s)
  by_policy true async sync s =
      (ok sync, record s { failed_recving_kv_req_ids = union s.failed_recving_kv_req_ids async })

  unfoldable pub settle : Affected → Affected → Action u (List String)
  unfolding evict_lost by_policy
  settle async sync s =
      if (length async.affected_req_ids + length sync.affected_req_ids) == 0
      then (ok [], s)
      else by_policy u.recompute_kv_load_failures async.affected_req_ids sync.affected_req_ids
          (evict_lost sync.evict s)

  -- `_handle_invalid_blocks`
  unfoldable pub handle_invalid_blocks : List ℕ → Dict String ℕ → Action u (List String)
  unfolding async_load_reqs settle update_requests_with_invalid_blocks
  handle_invalid_blocks invalid scheduled s =
      (do
        async ←
            update_requests_with_invalid_blocks u (async_load_reqs (u.elements s.skipped_waiting) s)
              invalid scheduled false
        sync ← running invalid scheduled
        settle async sync)
        s
    where
      running : List ℕ → Dict String ℕ → Action u Affected
      running invalid scheduled t =
          update_requests_with_invalid_blocks u t.running invalid scheduled true t
