-- ===== src/Scheduler/Waiting.antt =====
-- The two queues of waiting requests, and the promotion of a blocked request, of
-- vllm-integration/vllm_v1_core_sched/scheduler.py.
pub mod Transfer
pub mod Promotion
pub mod ToolCall
pub mod Steady
pub mod Select
use edmm.Prelude.{
  ℕ, String, ◌+◌, ◌-◌, List, [], ◌∷◌, Option, none, some, Bool, true, false, if◌then◌else◌, ltb,
  ◌==◌, not, String_discrete, length, ℤ, pos, negsuc,
}
use edmm.Prelude.Effect.{ok, raised, pure, raise, ◌>>=◌, ◌>>◌}
use edmm.Prelude.Sets.{member, discard}
use edmm.Request.{
  Request, lt, num_tokens, StructuredOutput, StreamingUpdate, EventType, record_event,
}
use edmm.Request.Status.{RequestStatus, value}
use edmm.Hook.{Hook, is_tool_response_ready, on_tool_call_resume}
use edmm.Scheduler.State.{
  Setup, Scheduler, Ref, Action, Call, Policy, PauseState, Error, assertion_error, key_error,
  invoke, modify, set_status, decrement,
}

-- `_is_blocked_waiting_status`
unfoldable pub is_blocked_waiting_status : RequestStatus → Bool
is_blocked_waiting_status RequestStatus.waiting_for_structured_output_grammar = true
is_blocked_waiting_status RequestStatus.waiting_for_remote_kvs = true
is_blocked_waiting_status RequestStatus.waiting_for_streaming_req = true
is_blocked_waiting_status RequestStatus.waiting_for_tool_call = true
is_blocked_waiting_status status = false

abbrev pub same_status : RequestStatus → RequestStatus → Bool
same_status a b = value a == value b

abbrev has_grammar : Option StructuredOutput → Bool
has_grammar none = false
has_grammar (some s) = s.grammar

-- `self.waiting` and `self.skipped_waiting`.
pub data WaitingQueue : Type 0 where
  in_waiting in_skipped : WaitingQueue

module _ (u : Setup) where
  -- `_enqueue_waiting_request`
  unfoldable pub enqueue_waiting_request : Ref → Scheduler u → Scheduler u
  enqueue_waiting_request r s =
      if is_blocked_waiting_status (s.store r).status
      then record s { skipped_waiting = u.queue_add s.store r s.skipped_waiting }
      else record s { waiting = u.queue_add s.store r s.waiting }

  -- Whether a queue has a request.
  abbrev pub nonempty : u.Queue → Bool
  nonempty q = ltb 0 (length (u.elements q))

  -- The requests of one of the two queues.
  abbrev pub queue_of : WaitingQueue → Scheduler u → u.Queue
  queue_of in_waiting s = s.waiting
  queue_of in_skipped s = s.skipped_waiting

  first_of : WaitingQueue → WaitingQueue → Scheduler u → Option WaitingQueue
  first_of p q s =
      if nonempty (queue_of p s) then some p else if nonempty (queue_of q s) then some q else none

  select_by : Policy → Scheduler u → Option WaitingQueue
  unfolding first_of
  select_by Policy.fcfs s = first_of in_skipped in_waiting s
  select_by Policy.priority s =
      if nonempty s.waiting
      then if nonempty s.skipped_waiting
        then if lt u.floats (u.peek s.waiting) (s.store (u.peek s.waiting))
            (u.peek s.skipped_waiting) (s.store (u.peek s.skipped_waiting))
          then some in_waiting
          else some in_skipped
        else some in_waiting
      else first_of in_waiting in_skipped s

  -- `_select_waiting_queue_for_scheduling`
  unfoldable pub select_waiting_queue : Scheduler u → Option WaitingQueue
  unfolding select_by
  select_waiting_queue s = select_by u.policy s

  -- `get_request_counts`
  unfoldable pub get_request_counts : Scheduler u → ℕ × ℕ
  get_request_counts s =
      (length s.running, length (u.elements s.waiting) + length (u.elements s.skipped_waiting))

  unfoldable pub drop_finished_recving : String → Scheduler u → Scheduler u
  drop_finished_recving id s = record s {
    finished_recving_kv_req_ids = discard String_discrete id s.finished_recving_kv_req_ids;
  }

  unfoldable pub drop_failed_recving : String → Scheduler u → Scheduler u
  drop_failed_recving id s = record s {
    failed_recving_kv_req_ids = discard String_discrete id s.failed_recving_kv_req_ids;
  }

  -- `set.remove` raises for an element that is not there.
  remove_finished_recving : String → Action u Unit
  remove_finished_recving id s =
      if member String_discrete id s.finished_recving_kv_req_ids
      then (ok tt, drop_finished_recving id s)
      else (raised key_error, s)

  -- The branch for a failed transfer.
  unfoldable pub retry_failed : Ref → Scheduler u → Scheduler u
  retry_failed r s =
      let q = s.store r in
      let s1 =
        if q.num_computed_tokens == 0
        then (invoke u (Call.kv_free q) s).1
        else (invoke u (Call.cache_blocks q q.num_computed_tokens) s).1 in
      drop_failed_recving q.request_id s1

  -- A request has at least one token.
  unfoldable pub recompute_last : Ref → Scheduler u → Scheduler u
  recompute_last r s =
      modify u r (λ p. record p { num_computed_tokens = num_tokens u.floats p - 1 }) s

  -- The branch for blocks that are ready.
  unfoldable pub cache_received : Ref → Scheduler u → Scheduler u
  cache_received r s =
      let q = s.store r in
      let s1 = (invoke u (Call.cache_blocks q q.num_computed_tokens) s).1 in
      if q.num_computed_tokens == num_tokens u.floats q then recompute_last r s1 else s1

  unfoldable pub received : Ref → Scheduler u → Scheduler u
  unfolding retry_failed cache_received
  received r s =
      if member String_discrete (s.store r).request_id s.failed_recving_kv_req_ids
      then retry_failed r s
      else cache_received r s

  -- `_update_waiting_for_remote_kv`
  unfoldable pub update_waiting_for_remote_kv : Ref → Action u Unit
  unfolding received remove_finished_recving
  update_waiting_for_remote_kv r s =
      if u.has_connector
      then remove_finished_recving (s.store r).request_id (received r s)
      else (raised assertion_error, s)

  -- The status after the transfer.
  abbrev pub resumed_status : ℕ → RequestStatus
  resumed_status num_preemptions =
      if num_preemptions == 0 then RequestStatus.waiting else RequestStatus.preempted

  promote_remote : Ref → Action u Bool
  unfolding update_waiting_for_remote_kv
  promote_remote r s =
      if member String_discrete (s.store r).request_id s.finished_recving_kv_req_ids
      then (do
        update_waiting_for_remote_kv r
        λ t. (ok true, set_status u r (resumed_status (t.store r).num_preemptions) t))
          s
      else (ok false, s)

  unfoldable pub resume_tool_call : Hook u.floats → Ref → Scheduler u → Scheduler u
  resume_tool_call h r s = record s {
    edmm_hook = some (on_tool_call_resume u.floats h (s.store r).request_id).0;
  }

  promote_tool_call : Option (Hook u.floats) → Ref → Action u Bool
  promote_tool_call none r s = (ok false, s)
  promote_tool_call (some h) r s =
      if is_tool_response_ready u.floats h (s.store r).request_id
      then (ok true, set_status u r RequestStatus.waiting (resume_tool_call h r s))
      else (ok false, s)

  -- `assert not request.streaming_queue`
  promote_streaming : Option (List (Option (StreamingUpdate u.floats))) → Ref → Action u Bool
  promote_streaming none r s = (ok false, s)
  promote_streaming (some []) r s = (ok false, s)
  promote_streaming (some (x ∷ xs)) r s = (raised assertion_error, s)

  promote_by : RequestStatus → Ref → Action u Bool
  unfolding promote_remote promote_tool_call promote_streaming
  promote_by RequestStatus.waiting_for_remote_kvs r s = promote_remote r s
  promote_by RequestStatus.waiting_for_structured_output_grammar r s =
      if has_grammar (s.store r).structured_output_request
      then (ok true, set_status u r RequestStatus.waiting s)
      else (ok false, s)
  promote_by RequestStatus.waiting_for_streaming_req r s =
      promote_streaming (s.store r).streaming_queue r s
  promote_by RequestStatus.waiting_for_tool_call r s =
      if u.edmm_enabled then promote_tool_call s.edmm_hook r s else (ok false, s)
  promote_by status r s = (raised assertion_error, s)

  -- `_try_promote_blocked_waiting_request`
  unfoldable pub try_promote_blocked_waiting_request : Ref → Action u Bool
  unfolding promote_by
  try_promote_blocked_waiting_request r s = promote_by (s.store r).status r s
