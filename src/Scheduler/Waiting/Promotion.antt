-- ===== src/Scheduler/Waiting/Promotion.antt =====
-- What a promotion of a blocked request does.
use edmm.Prelude.{
  ℕ, ◌≡◌, refl, sym, subst, ap, ◌∙◌, if_true, ◌⊎◌, inl, inr, List, [], ◌∷◌, Option, none, some,
  Bool, true, false, ◌==◌, String_discrete, Bool-cases,
}
use edmm.Prelude.Effect.{Outcome, ok, raised, bind}
use edmm.Prelude.Sets.{member}
use edmm.Request.{or_else, StreamingUpdate}
use edmm.Request.Status.{RequestStatus}
use edmm.Hook.{Hook, is_tool_response_ready}
use edmm.Scheduler.State.{Setup, Scheduler, Ref, Error, set_status}
use edmm.Scheduler.State.Frame.{
  SameQueues, SameQueues-trans, set_status-status, set_status-SameQueues,
}
use edmm.Scheduler.Waiting.{
  is_blocked_waiting_status, try_promote_blocked_waiting_request, promote_by, promote_remote,
  promote_tool_call, resumed_status, received, drop_finished_recving, resume_tool_call, has_grammar,
  promote_streaming,
}
use edmm.Scheduler.Waiting.Transfer.{received-Received, update_waiting-ok, drop_finished-SameQueues}

abbrev pub IsSchedulable : RequestStatus → Type 0
IsSchedulable status = (status ≡ RequestStatus.waiting) ⊎ (status ≡ RequestStatus.preempted)

module _ (u : Setup) where
  -- Promoted, or nothing has changed.
  abbrev pub Promoted : Ref → Scheduler u → Outcome Error Bool × Scheduler u → Type 0
  Promoted r s (ok true, t) = IsSchedulable (t.store r).status × SameQueues u r s t
  Promoted r s (ok false, t) = t ≡ s
  Promoted r s (raised e, t) = ⊥

  resume-SameQueues :
      (h : Hook u.floats) (r : Ref) (s : Scheduler u) → SameQueues u r s (resume_tool_call u h r s)
  unfolding resume_tool_call
  resume-SameQueues h r s = record {
    waiting = refl;
    skipped_waiting = refl;
    running = refl;
    requests = refl;
    others = λ q differ. refl;
  }

  resumed_status-IsSchedulable : (n : ℕ) → IsSchedulable (resumed_status u n)
  resumed_status-IsSchedulable n = elim (Bool-cases (n == 0)) [
    | inl e ↦ rw e (inl refl)
    | inr e ↦ rw e (inr refl)
  ]

  promote_remote-Promoted :
      (r : Ref) (s : Scheduler u) → u.has_connector ≡ true → Promoted r s (promote_remote u r s)
  unfolding promote_remote
  promote_remote-Promoted r s c =
      elim (Bool-cases
        (member String_discrete (s.store r).request_id s.finished_recving_kv_req_ids)) [
          | inl e ↦
              let t = drop_finished_recving u (s.store r).request_id (received u r s) in
              let status = resumed_status u (t.store r).num_preemptions in
              rw (e, update_waiting-ok u r s c e)
                (
                  subst IsSchedulable (sym (set_status-status u r status t))
                      (resumed_status-IsSchedulable (t.store r).num_preemptions),
                  SameQueues-trans u (received-Received u r s).0 (
                      SameQueues-trans u
                        (drop_finished-SameQueues u (s.store r).request_id r (received u r s))
                        (set_status-SameQueues u r status t)),
                )
          | inr e ↦ rw e refl
        ]

  promote_tool_call-Promoted :
      (h : Option (Hook u.floats)) (r : Ref) (s : Scheduler u)
      → Promoted r s (promote_tool_call u h r s)
  unfolding promote_tool_call
  promote_tool_call-Promoted none r s = refl
  promote_tool_call-Promoted (some h) r s =
      elim (Bool-cases (is_tool_response_ready u.floats h (s.store r).request_id)) [
        | inl e ↦ rw e (
          inl (set_status-status u r RequestStatus.waiting (resume_tool_call u h r s)),
          SameQueues-trans u (resume-SameQueues h r s)
              (set_status-SameQueues u r RequestStatus.waiting (resume_tool_call u h r s)),
        )
        | inr e ↦ rw e refl
      ]

  promote_streaming-Promoted :
      (q : Option (List (Option (StreamingUpdate u.floats)))) (r : Ref) (s : Scheduler u)
      → or_else q [] ≡ []
      → Promoted r s (promote_streaming u q r s)
  unfolding promote_streaming
  promote_streaming-Promoted none r s h = refl
  promote_streaming-Promoted (some []) r s h = refl
  promote_streaming-Promoted (some (x ∷ xs)) r s h = cc

  promote_by-Promoted :
      (status : RequestStatus) (r : Ref) (s : Scheduler u)
      → is_blocked_waiting_status status ≡ true
      → (status ≡ RequestStatus.waiting_for_remote_kvs → u.has_connector ≡ true)
      → (status ≡ RequestStatus.waiting_for_streaming_req
          → or_else (s.store r).streaming_queue [] ≡ [])
      → Promoted r s (promote_by u status r s)
  unfolding promote_by is_blocked_waiting_status
  promote_by-Promoted RequestStatus.waiting_for_remote_kvs r s b c q =
      promote_remote-Promoted r s (c refl)
  promote_by-Promoted RequestStatus.waiting_for_structured_output_grammar r s b c q =
      elim (Bool-cases (has_grammar (s.store r).structured_output_request)) [
        | inl e ↦ rw e (
          inl (set_status-status u r RequestStatus.waiting s),
          set_status-SameQueues u r RequestStatus.waiting s,
        )
        | inr e ↦ rw e refl
      ]
  promote_by-Promoted RequestStatus.waiting_for_streaming_req r s b c q =
      promote_streaming-Promoted (s.store r).streaming_queue r s (q refl)
  promote_by-Promoted RequestStatus.waiting_for_tool_call r s b c q =
      elim (Bool-cases u.edmm_enabled) [
        | inl e ↦ rw e (promote_tool_call-Promoted s.edmm_hook r s)
        | inr e ↦ rw e refl
      ]
  promote_by-Promoted status r s b c q = cc

  -- A blocked request is promoted to a status that can be scheduled, with the queues, the dictionary
  -- and the other requests as they were, or nothing at all changes; no promotion raises. This
  -- holds if there is a connector where a transfer is waited for, and if no update waits in the
  -- request's stream where one is waited for.
  pub promote-Promoted :
      (r : Ref) (s : Scheduler u)
      → is_blocked_waiting_status (s.store r).status ≡ true
      → ((s.store r).status ≡ RequestStatus.waiting_for_remote_kvs → u.has_connector ≡ true)
      → ((s.store r).status ≡ RequestStatus.waiting_for_streaming_req
          → or_else (s.store r).streaming_queue [] ≡ [])
      → Promoted r s (try_promote_blocked_waiting_request u r s)
  unfolding try_promote_blocked_waiting_request
  promote-Promoted r s = promote_by-Promoted (s.store r).status r s

  promote_remote-true :
      (r : Ref) (s : Scheduler u)
      → u.has_connector ≡ true
      → member String_discrete (s.store r).request_id s.finished_recving_kv_req_ids ≡ true
      → (promote_remote u r s).0 ≡ ok true
  unfolding promote_remote
  promote_remote-true r s c e =
      ap (λ (x : Outcome Error Bool × Scheduler u). x.0) (if_true _ _ e)
      ∙ ap
          (λ (o : Outcome Error (Unit {0}) × Scheduler u).
            (bind o (λ _ t.
              (ok true, set_status u r (resumed_status u (t.store r).num_preemptions) t))).0)
          (update_waiting-ok u r s c e)

  -- A request whose transfer has been reported is promoted, if there is a connector.
  pub promote_received :
      (r : Ref) (s : Scheduler u)
      → (s.store r).status ≡ RequestStatus.waiting_for_remote_kvs
      → u.has_connector ≡ true
      → member String_discrete (s.store r).request_id s.finished_recving_kv_req_ids ≡ true
      → (try_promote_blocked_waiting_request u r s).0 ≡ ok true
  unfolding try_promote_blocked_waiting_request
  promote_received r s waits c e =
      ap (λ st. (promote_by u st r s).0) waits ∙ promote_remote-true r s c e
