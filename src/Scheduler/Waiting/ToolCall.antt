-- ===== src/Scheduler/Waiting/ToolCall.antt =====
-- When a request that waits for a tool is taken up again.
use edmm.Prelude.{
  ◌≡◌, refl, sym, subst, ap, ◌∙◌, ◌↔◌, inl, inr, Option, none, some, Bool, true, false,
  if◌then◌else◌, String_discrete, Bool-cases, if_true,
}
use edmm.Prelude.Effect.{Outcome, ok}
use edmm.Prelude.Dict.{is_some, get-erase_self}
use edmm.Request.Status.{RequestStatus}
use edmm.Hook.{Hook, get_active_pause, is_tool_response_ready, on_tool_call_resume}
use edmm.Scheduler.State.{Setup, Scheduler, Ref, Error, set_status}
use edmm.Scheduler.State.Frame.{set_status-status}
use edmm.Scheduler.Waiting.{
  try_promote_blocked_waiting_request, promote_by, promote_tool_call, resume_tool_call,
}

module _ (u : Setup) where
  gate :
      {P : Type 0} (b : Bool) (x : Outcome Error Bool × Scheduler u) (s : Scheduler u)
      → ((x.0 ≡ ok true) ↔ P)
      → ((if b then x else (ok false, s)).0 ≡ ok true) ↔ ((b ≡ true) × P)
  gate true x s (to, from) = (λ e. (refl, to e), λ (t, p). from p)
  gate false x s (to, from) = (λ e. cc e, λ (t, p). cc t)

  promote_tool_call-ready :
      (o : Option (Hook u.floats)) (r : Ref) (s : Scheduler u)
      → ((promote_tool_call u o r s).0 ≡ ok true) ↔ (
          (h : Hook u.floats) × (o ≡ some h)
          × (is_tool_response_ready u.floats h (s.store r).request_id ≡ true))
  unfolding promote_tool_call
  promote_tool_call-ready none r s = (λ e. cc e, λ (h, e, i). cc e)
  promote_tool_call-ready (some h) r s =
      elim (Bool-cases (is_tool_response_ready u.floats h (s.store r).request_id)) [
        | inl e ↦ rw e (λ _. (h, refl, e), λ _. refl)
        | inr e ↦ rw e (λ f. cc f, λ (g, i, j). cc)
      ]

  -- A request that waits for a tool is promoted exactly if EDMM is enabled, the scheduler has a
  -- hook, and the hook has the response.
  pub promote-ready :
      (r : Ref) (s : Scheduler u)
      → (s.store r).status ≡ RequestStatus.waiting_for_tool_call
      → ((try_promote_blocked_waiting_request u r s).0 ≡ ok true) ↔ (
          (u.edmm_enabled ≡ true)
          × ((h : Hook u.floats) × (s.edmm_hook ≡ some h)
              × (is_tool_response_ready u.floats h (s.store r).request_id ≡ true)))
  unfolding try_promote_blocked_waiting_request
  promote-ready r s e = rw e (
      gate u.edmm_enabled (promote_tool_call u s.edmm_hook r s) s
        (promote_tool_call-ready s.edmm_hook r s))

  promote-resumes :
      (r : Ref) (s : Scheduler u) (h : Hook u.floats)
      → (s.store r).status ≡ RequestStatus.waiting_for_tool_call
      → s.edmm_hook ≡ some h
      → u.edmm_enabled ≡ true
      → is_tool_response_ready u.floats h (s.store r).request_id ≡ true
      → try_promote_blocked_waiting_request u r s
        ≡ (ok true, set_status u r RequestStatus.waiting (resume_tool_call u h r s))
  unfolding try_promote_blocked_waiting_request promote_tool_call
  promote-resumes r s h e f enabled ready =
      ap (λ status. promote_by u status r s) e
      ∙ if_true _ _ enabled
      ∙ ap (λ o. promote_tool_call u o r s) f
      ∙ if_true _ _ ready

  abbrev Forgotten : Ref → Scheduler u → Outcome Error Bool × Scheduler u → Type 0
  Forgotten r s (o, t) =
      (h' : Hook u.floats) × (t.edmm_hook ≡ some h')
      × ((t.store r).status ≡ RequestStatus.waiting)
      × (get_active_pause u.floats h' (s.store r).request_id ≡ none)
      × (is_tool_response_ready u.floats h' (s.store r).request_id ≡ false)

  resume-Forgotten :
      (r : Ref) (s : Scheduler u) (h : Hook u.floats)
      → Forgotten r s (ok true, set_status u r RequestStatus.waiting (resume_tool_call u h r s))
  unfolding set_status resume_tool_call on_tool_call_resume get_active_pause is_tool_response_ready
  resume-Forgotten r s h = (
    (on_tool_call_resume u.floats h (s.store r).request_id).0,
    refl,
    set_status-status u r RequestStatus.waiting (resume_tool_call u h r s),
    get-erase_self String_discrete (s.store r).request_id h.active_pauses,
    ap is_some (get-erase_self String_discrete (s.store r).request_id h.tool_responses),
  )

  -- When a request that waits for a tool is promoted, the hook forgets its pause and its response:
  -- the next pause of the request waits for a response of its own.
  pub promote-forgets :
      (r : Ref) (s : Scheduler u) (h : Hook u.floats)
      → (s.store r).status ≡ RequestStatus.waiting_for_tool_call
      → s.edmm_hook ≡ some h
      → (try_promote_blocked_waiting_request u r s).0 ≡ ok true
      → let t = (try_promote_blocked_waiting_request u r s).1 in
        (h' : Hook u.floats) × (t.edmm_hook ≡ some h')
        × ((t.store r).status ≡ RequestStatus.waiting)
        × (get_active_pause u.floats h' (s.store r).request_id ≡ none)
        × (is_tool_response_ready u.floats h' (s.store r).request_id ≡ false)
  unfolding try_promote_blocked_waiting_request
  promote-forgets r s h e f p =
      let (enabled, (g, i, ready)) = (promote-ready r s e).0 p in
      subst (Forgotten r s) (sym (promote-resumes r s h e f enabled (cc (i, f, ready))))
        (resume-Forgotten r s h)
