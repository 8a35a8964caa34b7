-- ===== src/Scheduler/Preempt.antt =====
-- Preemption, the reset of the prefix cache and the counts, of
-- vllm-integration/vllm_v1_core_sched/scheduler.py.
pub mod Reset
use edmm.Prelude.{
  ℕ, String, ℤ, pos, negsuc, ◌+◌, ◌-◌, List, [], ◌∷◌, ◌++◌, ◌&&◌, Option, none, some, Bool, true,
  false, if◌then◌else◌, not, length, ltb,
}
use edmm.Prelude.Effect.{Outcome, ok, raised, ◌>>=◌, ◌>>◌}
use edmm.Request.{Request, EventType, record_event}
use edmm.Request.Status.{RequestStatus}
use edmm.Scheduler.State.{
  Setup, Scheduler, Ref, Action, Call, PauseState, Error, assertion_error, runtime_error, invoke,
  modify,
}
use edmm.Scheduler.Waiting.{same_status, nonempty}

abbrev pub reverse {ℓ} : {A : Type ℓ} → List A → List A
reverse [] = []
reverse (x ∷ xs) = reverse xs ++ (x ∷ [])

-- Integer sum with a natural number, and a difference.
abbrev pub subtract : ℕ → ℤ → ℤ
subtract m (pos n) = if ltb m n then ℤ.negsuc (n - m - 1) else ℤ.pos (m - n)
subtract m (negsuc n) = ℤ.pos (m + n + 1)

module _ (u : Setup) where
  -- What preemption makes of a request.
  unfoldable pub preempted : Request u.floats → Request u.floats
  unfolding record_event
  preempted q =
      let p = record q {
        status = RequestStatus.preempted;
        num_computed_tokens = 0;
        spec_token_ids = [];
        num_preemptions = q.num_preemptions + 1;
      } in
      if u.log_stats then record_event u.floats p EventType.preempted else p

  unfoldable pub prepend : Ref → Scheduler u → Scheduler u
  prepend r s = record s { waiting = u.queue_prepend s.store r s.waiting }

  unfoldable pub freed : Ref → Scheduler u → Scheduler u
  freed r s =
      let s1 = (invoke u (Call.kv_free (s.store r)) s).1 in
      (invoke u (Call.encoder_free (s1.store r)) s1).1

  -- `_preempt_request`
  unfoldable pub preempt_request : Ref → Action u Unit
  unfolding freed prepend preempted
  preempt_request r s =
      if same_status (s.store r).status RequestStatus.running
      then (ok tt, prepend r (modify u r preempted (freed r s)))
      else (raised assertion_error, s)

  -- The output that is on its way at the preemption is to be discarded.
  unfoldable pub mark_stale : Ref → Scheduler u → Scheduler u
  mark_stale r s =
      modify u r
        (λ q. record q {
          async_tokens_to_discard = q.num_output_placeholders;
          num_output_placeholders = 0;
        })
        s

  abbrev pub set_running : List Ref → Scheduler u → Scheduler u
  set_running rs s = record s { running = rs }

  -- The loop over the running requests, of which the last comes first here.
  unfoldable pub preempt_last : List Ref → Action u Unit
  unfolding preempt_request mark_stale
  preempt_last [] s = (ok tt, s)
  preempt_last (r ∷ rs) s =
      (do preempt_request r; λ t. preempt_last rs (mark_stale r t)) (set_running (reverse rs) s)

  abbrev returned : Bool × Scheduler u → Outcome Error Bool × Scheduler u
  returned (done, s) = (ok done, s)

  -- `reset_connector_cache`, without the statistics.
  unfoldable pub reset_connector_cache : Action u Bool
  reset_connector_cache s =
      if u.has_connector then returned (invoke u Call.reset_cache s) else (ok false, s)

  preempt_all : Bool → Action u Unit
  unfolding preempt_last
  preempt_all reset_running_requests s =
      if reset_running_requests
      then (do
        preempt_last (reverse s.running)
        λ t. (ok tt, record t { prev_step_scheduled_req_ids = [] }))
          s
      else (ok tt, s)

  reset_kv : Bool → Action u Bool
  reset_kv reset_running_requests s =
      let (done, t) = invoke u Call.reset_prefix_cache s in
      if reset_running_requests && not done then (raised runtime_error, t) else (ok done, t)

  also_connector : Bool → Bool → Action u Bool
  unfolding reset_connector_cache
  also_connector reset_connector done s =
      if reset_connector
      then (do connector_done ← reset_connector_cache; λ t. (ok (connector_done && done), t)) s
      else (ok done, s)

  -- `reset_prefix_cache`
  unfoldable pub reset_prefix_cache : Bool → Bool → Action u Bool
  unfolding preempt_all reset_kv also_connector
  reset_prefix_cache reset_running_requests reset_connector = do
    preempt_all reset_running_requests
    done ← reset_kv reset_running_requests
    also_connector reset_connector done

  -- `set_pause_state`
  abbrev pub set_pause_state : PauseState → Scheduler u → Scheduler u
  set_pause_state pause_state s = record s { pause_state = pause_state }

  num_queued : Scheduler u → ℕ
  num_queued s = length (u.elements s.waiting) + length (u.elements s.skipped_waiting)

  -- `get_num_unfinished_requests`
  unfoldable pub get_num_unfinished_requests : Scheduler u → ℤ
  unfolding num_queued
  get_num_unfinished_requests s = elim s.pause_state [
    | PauseState.paused_all ↦ ℤ.pos 0
    | PauseState.paused_new ↦ ℤ.pos (length s.running)
    | PauseState.unpaused ↦
        subtract (num_queued s + length s.running) s.num_waiting_for_streaming_input
  ]

  -- `has_finished_requests`
  unfoldable pub has_finished_requests : Scheduler u → Bool
  unfolding num_queued
  has_finished_requests s =
      if ltb 0 (length s.finished_req_ids)
      then true
      else if u.has_connector
      then ltb (num_queued s + length s.running) (length s.requests)
      else false
