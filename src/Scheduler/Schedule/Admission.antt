-- ===== src/Scheduler/Schedule/Admission.antt =====
-- `schedule`: how a waiting request gets its slots and starts to run, and the loop over them.
pub mod Admitted
pub mod Ended
use edmm.Prelude.{
  ℕ, zero, suc, ◌+◌, ◌-◌, String, List, [], ◌∷◌, ◌++◌, Option, none, some, Bool, true, false,
  if◌then◌else◌, ◌&&◌, ◌||◌, not, ltb, ◌==◌, length, String_discrete,
}
use edmm.Prelude.Dict.{put}
use edmm.Prelude.Effect.{Outcome, ok, raised, ◌>>=◌, ◌>>◌}
use edmm.Request.{Request, EventType, has_encoder_inputs, record_event}
use edmm.Request.Status.{RequestStatus}
use edmm.Scheduler.State.{
  Setup, Scheduler, Ref, Blocks, Action, Call, Error, assertion_error, runtime_error, out_of_fuel,
  invoke, modify,
}
use edmm.Scheduler.Waiting.{
  WaitingQueue, queue_of, nonempty, select_waiting_queue, is_blocked_waiting_status,
  try_promote_blocked_waiting_request,
}
use edmm.Scheduler.Encoder.{Plan}
use edmm.Scheduler.Schedule.{Progress}
use edmm.Scheduler.Schedule.Running.{allocate_inputs, note_inputs}
use edmm.Scheduler.Schedule.Waiting.{
  Found, Share, Line, pop_from, skip_waiting, stop_waiting, exceeds_loras, add_lora, find_computed,
  plan_found, split_plan, encoder_tokens, slot_arguments,
}

module _ (u : Setup) where
  -- The connector is told of the slots.
  unfoldable pub notify_slots : Ref → ℕ → Scheduler u → Scheduler u
  unfolding invoke
  notify_slots r external s =
      let (blocks, t) = invoke u (Call.get_blocks (s.store r).request_id) s in
      if u.has_connector
      then (invoke u (Call.update_state_after_alloc (t.store r) blocks external) t).1
      else s

  -- Without slots the request's encoder inputs are let go.
  unfoldable pub let_go : Ref → Scheduler u → Scheduler u
  unfolding invoke
  let_go r s =
      if has_encoder_inputs u.floats (s.store r)
      then (invoke u (Call.encoder_free (s.store r)) s).1
      else s

  -- Whether there are slots.
  unfoldable pub allocate_first : Ref → Found → Share → Action u Bool
  unfolding encoder_tokens notify_slots let_go invoke
  allocate_first r found share =
      encoder_tokens u r share.plan.encoder_inputs_to_schedule >>= (λ n s.
        let (blocks, t) =
          invoke u (Call.allocate_waiting (s.store r) (slot_arguments u (s.store r) found share n))
            s in
        elim blocks [
          | some b ↦ (ok true, notify_slots r found.num_external_computed_tokens t)
          | none ↦ (ok false, let_go r t)
        ])

  -- The request waits for its blocks to be loaded.
  unfoldable pub await_load : Ref → Found → Line u → Action u (Bool × Line u)
  unfolding modify
  await_load r found w s =
      let t = modify u r (λ q. record q { status = RequestStatus.waiting_for_remote_kvs }) s in
      (
        ok (
          true,
          record w { step_skipped_waiting = u.queue_prepend t.store r w.step_skipped_waiting },
        ),
        modify u r (λ q. record q { num_computed_tokens = found.num_computed_tokens }) t,
      )

  -- The request is new, or it comes back.
  list_by : RequestStatus → Ref → Progress → Outcome Error Progress
  list_by RequestStatus.waiting r p =
      ok (record p { scheduled_new_reqs = p.scheduled_new_reqs ++ (r ∷ []) })
  list_by RequestStatus.preempted r p =
      ok (record p { scheduled_resumed_reqs = p.scheduled_resumed_reqs ++ (r ∷ []) })
  list_by status r p = raised runtime_error

  -- The variables after the request is admitted.
  unfoldable pub admitted : Request u.floats → Blocks → Share → Line u → Progress → Line u
  unfolding put note_inputs add_lora
  admitted q blocks share w p =
      let p' : Progress = record p {
        req_to_new_blocks = put String_discrete q.request_id blocks p.req_to_new_blocks;
        num_scheduled_tokens =
            put String_discrete q.request_id share.num_new_tokens p.num_scheduled_tokens;
        token_budget = p.token_budget - share.num_new_tokens;
      } in
      record w {
        progress = note_inputs u q.request_id share.plan p';
        scheduled_loras = add_lora u u.max_loras q.lora_request w.scheduled_loras;
      }

  unfoldable pub start : Found → Request u.floats → Request u.floats
  start found q = record q {
    status = RequestStatus.running;
    num_computed_tokens = found.num_computed_tokens;
  }

  unfoldable pub start_running : Ref → Found → Share → Line u → Progress → Action u (Bool × Line u)
  unfolding admitted start allocate_inputs modify invoke
  start_running r found share w p s =
      let (blocks, t) = invoke u (Call.get_blocks (s.store r).request_id) s in
      let v = modify u r (start found) t in
      (
        ok (true, admitted (s.store r) blocks share w p),
        allocate_inputs u r share.plan.external_load_encoder_input
            (allocate_inputs u r share.plan.encoder_inputs_to_schedule v),
      )

  -- The request runs, and the event is recorded.
  unfoldable pub append_running : Ref → Scheduler u → Scheduler u
  unfolding modify record_event
  append_running r s =
      let t : Scheduler u = record s { running = s.running ++ (r ∷ []) } in
      if u.log_stats then modify u r (λ q. record_event u.floats q EventType.scheduled) t else t

  unfoldable pub run_request : Ref → Found → Share → Line u → Action u (Bool × Line u)
  unfolding append_running list_by start_running
  run_request r found share w s =
      let t = append_running r s in
      (do p ← (λ v. (list_by (v.store r).status r w.progress, v)); start_running r found share w p)
        t

  unfoldable pub admit : WaitingQueue → Ref → Found → Share → Line u → Action u (Bool × Line u)
  unfolding pop_from await_load run_request
  admit which r found share w s =
      if found.load_kv_async
      then await_load r found w (pop_from u which s)
      else run_request r found share w (pop_from u which s)

  unfoldable pub admit_if :
      WaitingQueue → Ref → Found → Share → Line u → Bool → Action u (Bool × Line u)
  unfolding admit
  admit_if which r found share w true = admit which r found share w
  admit_if which r found share w false = stop_waiting u w

  unfoldable pub admit_share :
      WaitingQueue → Ref → Found → Line u → Option Share → Action u (Bool × Line u)
  unfolding allocate_first admit_if
  admit_share which r found w none = stop_waiting u w
  admit_share which r found w (some share) = do
    slots ← allocate_first r found share
    admit_if which r found share w slots

  unfoldable pub admit_found : WaitingQueue → Ref → Line u → Option Found → Action u (Bool × Line u)
  unfolding skip_waiting plan_found split_plan admit_share
  admit_found which r w none = skip_waiting u which r w
  admit_found which r w (some found) = do
    plan ← plan_found u r found w.progress
    share ← split_plan u r found plan
    admit_share which r found w share

  -- A request that is not blocked, or no more.
  unfoldable pub visit_unblocked : WaitingQueue → Ref → Line u → Action u (Bool × Line u)
  unfolding skip_waiting exceeds_loras find_computed admit_found
  visit_unblocked which r w s =
      if exceeds_loras u u.max_loras (s.store r).lora_request w.scheduled_loras
      then skip_waiting u which r w s
      else (find_computed u r >>= admit_found which r w) s

  unfoldable pub visit_promoted : WaitingQueue → Ref → Line u → Bool → Action u (Bool × Line u)
  unfolding skip_waiting visit_unblocked
  visit_promoted which r w true = visit_unblocked which r w
  visit_promoted which r w false = skip_waiting u which r w

  -- A round of the loop, for the first request of a queue.
  unfoldable pub visit_waiting : WaitingQueue → Line u → Action u (Bool × Line u)
  unfolding try_promote_blocked_waiting_request visit_promoted visit_unblocked
      is_blocked_waiting_status
  visit_waiting which w s =
      let r = u.peek (queue_of u which s) in
      if is_blocked_waiting_status (s.store r).status
      then (try_promote_blocked_waiting_request u r >>= visit_promoted which r w) s
      else visit_unblocked which r w s

  visit_selected : Option WaitingQueue → Line u → Action u (Bool × Line u)
  unfolding visit_waiting
  visit_selected none w s = (raised assertion_error, s)
  visit_selected (some which) w s = visit_waiting which w s

  -- `while (self.waiting or self.skipped_waiting) and token_budget > 0`
  unfoldable pub schedule_waiting_reqs : ℕ → Line u → Action u (Line u)
  unfolding visit_selected select_waiting_queue
  schedule_waiting_reqs zero w s = (raised out_of_fuel, s)
  schedule_waiting_reqs (suc fuel) w s =
      elim ((nonempty u s.waiting || nonempty u s.skipped_waiting)
        && (ltb 0 w.progress.token_budget && not (length s.running == u.max_num_running_reqs))) [
          | false ↦ (ok w, s)
          | true ↦
              (visit_selected (select_waiting_queue u s) w >>= (λ (goes_on, w') t. elim goes_on [
                | true ↦ schedule_waiting_reqs fuel w' t
                | false ↦ (ok w', t)
              ]))
                s
        ]
