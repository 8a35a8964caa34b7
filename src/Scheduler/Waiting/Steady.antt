-- ===== src/Scheduler/Waiting/Steady.antt =====
-- The promotion of a blocked request: what it raises, and what it leaves alone.
use edmm.Prelude.{
  Option, none, some, List, [], ◌∷◌, Bool, false, ◌==◌, refl, if_both, String_discrete,
}
use edmm.Prelude.Effect.{Outcome, ok}
use edmm.Prelude.Ends.{Ends, Ends-bind, raises, returns}
use edmm.Prelude.Sets.{member}
use edmm.Request.{StreamingUpdate}
use edmm.Request.Status.{RequestStatus}
use edmm.Hook.{Hook, is_tool_response_ready}
use edmm.Scheduler.State.{Setup, Scheduler, Ref, Call, Error, set_status}
use edmm.Scheduler.State.Proper.{
  IsProper, assertion, key, Steady, Steady-refl, Steady-trans, invoke-Steady, modify-Steady,
}
use edmm.Scheduler.Waiting.{
  try_promote_blocked_waiting_request, promote_by, promote_remote, promote_tool_call,
  promote_streaming, has_grammar, received, retry_failed, cache_received, recompute_last,
  remove_finished_recving, drop_finished_recving, drop_failed_recving, update_waiting_for_remote_kv,
  resume_tool_call,
}

module _ (u : Setup) where
  set_status-Steady :
      (r : Ref) (status : RequestStatus) (s : Scheduler u) → Steady u s (set_status u r status s)
  unfolding set_status
  set_status-Steady r status s = modify-Steady u r (λ q. record q { status = status }) s

  drop_failed-Steady : (id : _) (s : Scheduler u) → Steady u s (drop_failed_recving u id s)
  unfolding drop_failed_recving
  drop_failed-Steady id s = record { running = refl; waiting = refl; skipped_waiting = refl }

  received-Steady : (r : Ref) (s : Scheduler u) → Steady u s (received u r s)
  unfolding received retry_failed cache_received recompute_last
  received-Steady r s =
      let q = s.store r in
      let cached = invoke-Steady u (Call.cache_blocks q q.num_computed_tokens) s in
      if_both (Steady u s) (member String_discrete q.request_id s.failed_recving_kv_req_ids) _ _
        (Steady-trans u
          (if_both (Steady u s) (q.num_computed_tokens == 0) _ _
            (invoke-Steady u (Call.kv_free q) s) cached)
          (drop_failed-Steady q.request_id _))
        (if_both (Steady u s) _ _ _ (Steady-trans u cached (modify-Steady u r _ _)) cached)

  update_waiting-Ends :
      (r : Ref) (s : Scheduler u)
      → Ends IsProper (λ a t. Steady u s t) (update_waiting_for_remote_kv u r s)
  unfolding update_waiting_for_remote_kv remove_finished_recving drop_finished_recving
  update_waiting-Ends r s =
      let P = Ends IsProper (λ (a : Unit {0}) t. Steady u s t) in
      let same = received-Steady r s in
      if_both P u.has_connector _ _
        (if_both P _ _ _
          (returns (
            Steady-trans u same
              (record { running = refl; waiting = refl; skipped_waiting = refl })))
          (raises key))
        (raises assertion)

  resume-Steady :
      (h : Hook u.floats) (r : Ref) (s : Scheduler u) → Steady u s (resume_tool_call u h r s)
  unfolding resume_tool_call
  resume-Steady h r s = record { running = refl; waiting = refl; skipped_waiting = refl }

  abbrev StaysSteady : Scheduler u → Outcome Error Bool × Scheduler u → Type 0
  StaysSteady s = Ends IsProper (λ (b : Bool) t. Steady u s t)

  unchanged : (b : Bool) (s : Scheduler u) → StaysSteady s (ok b, s)
  unchanged b s = returns (Steady-refl u s)

  promote_remote-Ends : (r : Ref) (s : Scheduler u) → StaysSteady s (promote_remote u r s)
  unfolding promote_remote
  promote_remote-Ends r s =
      if_both (StaysSteady s)
        (member String_discrete (s.store r).request_id s.finished_recving_kv_req_ids) _ _
        (Ends-bind _ _ (update_waiting-Ends r s)
          (λ a t same. returns (Steady-trans u same (set_status-Steady r _ t))))
        (unchanged false s)

  promote_tool_call-Ends :
      (h : Option (Hook u.floats)) (r : Ref) (s : Scheduler u)
      → StaysSteady s (promote_tool_call u h r s)
  unfolding promote_tool_call
  promote_tool_call-Ends none r s = unchanged false s
  promote_tool_call-Ends (some h) r s =
      if_both (StaysSteady s) (is_tool_response_ready u.floats h (s.store r).request_id) _ _
        (returns (Steady-trans u (resume-Steady h r s) (set_status-Steady r _ _)))
        (unchanged false s)

  promote_streaming-Ends :
      (q : Option (List (Option (StreamingUpdate u.floats)))) (r : Ref) (s : Scheduler u)
      → StaysSteady s (promote_streaming u q r s)
  unfolding promote_streaming
  promote_streaming-Ends none r s = unchanged false s
  promote_streaming-Ends (some []) r s = unchanged false s
  promote_streaming-Ends (some (x ∷ xs)) r s = raises assertion

  promote_by-Ends :
      (status : RequestStatus) (r : Ref) (s : Scheduler u) → StaysSteady s (promote_by u status r s)
  unfolding promote_by
  promote_by-Ends RequestStatus.waiting_for_remote_kvs r s = promote_remote-Ends r s
  promote_by-Ends RequestStatus.waiting_for_structured_output_grammar r s =
      if_both (StaysSteady s) (has_grammar (s.store r).structured_output_request) _ _
        (returns (set_status-Steady r RequestStatus.waiting s)) (unchanged false s)
  promote_by-Ends RequestStatus.waiting_for_streaming_req r s =
      promote_streaming-Ends (s.store r).streaming_queue r s
  promote_by-Ends RequestStatus.waiting_for_tool_call r s =
      if_both (StaysSteady s) u.edmm_enabled _ _ (promote_tool_call-Ends s.edmm_hook r s)
        (unchanged false s)
  promote_by-Ends status r s = raises assertion

  -- A promotion raises an exception of the code or returns, with the same requests in each queue.
  pub promote-Steady :
      (r : Ref) (s : Scheduler u)
      → Ends IsProper (λ (b : Bool) t. Steady u s t) (try_promote_blocked_waiting_request u r s)
  unfolding try_promote_blocked_waiting_request
  promote-Steady r s = promote_by-Ends (s.store r).status r s
