-- ===== src/Scheduler/Finish/Freed.antt =====
-- What the end of one request changes.
use edmm.Prelude.{
  ℕ, ◌≡◌, refl, sym, subst, ap, ◌∙◌, ◌⊎◌, inl, inr, ◌||◌, Option, none, Bool, true, false,
  String_discrete, Bool-cases, if_true, if_false,
}
use edmm.Prelude.Dict.{erase, contains}
use edmm.Prelude.Effect.{Outcome, ok, bind, pure}
use edmm.Prelude.Sets.{insert}
use edmm.Request.Status.{is_finished}
use edmm.Scheduler.State.{Setup, Store, Scheduler, Ref, Call, Error, invoke}
use edmm.Scheduler.Finish.{
  drop_request, free_blocks, free_registered, connector_finished, notify_connector, note_finished,
  free_after, free_request,
}

module _ (u : Setup) where
  -- Only services were called.
  record Quiet (s t : Scheduler u) : Type 0 where
    pub store : t.store ≡ s.store
    pub requests : t.requests ≡ s.requests
    pub waiting : t.waiting ≡ s.waiting
    pub skipped_waiting : t.skipped_waiting ≡ s.skipped_waiting
    pub running : t.running ≡ s.running
    pub finished_req_ids : t.finished_req_ids ≡ s.finished_req_ids
    pub edmm_hook : t.edmm_hook ≡ s.edmm_hook

  Quiet-refl : (s : Scheduler u) → Quiet s s
  Quiet-refl s = record {
    store = refl;
    requests = refl;
    waiting = refl;
    skipped_waiting = refl;
    running = refl;
    finished_req_ids = refl;
    edmm_hook = refl;
  }

  Quiet-trans : {s t v : Scheduler u} → Quiet s t → Quiet t v → Quiet s v
  Quiet-trans a b = record {
    store = b.store ∙ a.store;
    requests = b.requests ∙ a.requests;
    waiting = b.waiting ∙ a.waiting;
    skipped_waiting = b.skipped_waiting ∙ a.skipped_waiting;
    running = b.running ∙ a.running;
    finished_req_ids = b.finished_req_ids ∙ a.finished_req_ids;
    edmm_hook = b.edmm_hook ∙ a.edmm_hook;
  }

  invoke-Quiet : (call : Call u.floats) (s : Scheduler u) → Quiet s (invoke u call s).1
  unfolding invoke
  invoke-Quiet call s = record {
    store = refl;
    requests = refl;
    waiting = refl;
    skipped_waiting = refl;
    running = refl;
    finished_req_ids = refl;
    edmm_hook = refl;
  }

  -- The connector is told, if there is one, and nothing else changes.
  connector_finished-Quiet :
      (r : Ref) (s : Scheduler u)
      → (u.has_connector ≡ true → u.supports_hma ≡ true)
      → (reply : Bool × Option ℕ) × (t : Scheduler u) × (connector_finished u r s ≡ (ok reply, t))
        × Quiet s t
  unfolding connector_finished notify_connector
  connector_finished-Quiet r s fits = elim (Bool-cases u.has_connector) [
    | inl e ↦
        let q = s.store r in
        let c1 = Call.remove_skipped_blocks q.request_id q.num_computed_tokens in
        let s1 = (invoke u c1 s).1 in
        let (ids, s2) = invoke u (Call.get_block_ids q.request_id) s1 in
        let c3 = Call.request_finished_all_groups (s2.store r) ids in
        (
          (invoke u c3 s2).0,
          (invoke u c3 s2).1,
          if_true _ _ e ∙ if_true _ _ (fits e),
          Quiet-trans (invoke-Quiet c1 s) (
              Quiet-trans (invoke-Quiet (Call.get_block_ids q.request_id) s1) (invoke-Quiet c3 s2)),
        )
    | inr e ↦ ((false, none), s, if_false _ _ e, Quiet-refl s)
  ]

  -- The request counts as finished, and its entry stays or is deleted.
  pub record Freed (r : Ref) (s t : Scheduler u) : Type 0 where
    pub store : t.store ≡ s.store
    pub requests :
        (t.requests ≡ s.requests)
        ⊎ (t.requests ≡ erase String_discrete (s.store r).request_id s.requests)
    pub waiting : t.waiting ≡ s.waiting
    pub skipped_waiting : t.skipped_waiting ≡ s.skipped_waiting
    pub running : t.running ≡ s.running
    pub finished_req_ids :
        t.finished_req_ids ≡ insert String_discrete (s.store r).request_id s.finished_req_ids
    pub edmm_hook : t.edmm_hook ≡ s.edmm_hook

  Quiet-Freed : {r : Ref} {s t v : Scheduler u} → Quiet s t → Freed r t v → Freed r s v
  Quiet-Freed {r} a b = record {
    store = b.store ∙ a.store;
    requests = elim b.requests [
      | inl e ↦ inl (e ∙ a.requests)
      | inr e ↦ inr (cc (e, a.requests, a.store))
    ];
    waiting = b.waiting ∙ a.waiting;
    skipped_waiting = b.skipped_waiting ∙ a.skipped_waiting;
    running = b.running ∙ a.running;
    finished_req_ids = cc (b.finished_req_ids, a.finished_req_ids, a.store);
    edmm_hook = b.edmm_hook ∙ a.edmm_hook;
  }

  note_finished-Freed : (r : Ref) (s : Scheduler u) → Freed r s (note_finished u r s)
  unfolding note_finished
  note_finished-Freed r s = record {
    store = refl;
    requests = inl refl;
    waiting = refl;
    skipped_waiting = refl;
    running = refl;
    finished_req_ids = refl;
    edmm_hook = refl;
  }

  -- The scheduler after the entry of a request is deleted.
  after_free : Ref → Scheduler u → Scheduler u
  after_free r s = drop_request u (s.store r).request_id (invoke u (Call.kv_free (s.store r)) s).1

  drop_request-Freed : (r : Ref) (s : Scheduler u) → Freed r s (after_free r (note_finished u r s))
  unfolding note_finished after_free drop_request invoke
  drop_request-Freed r s = record {
    store = refl;
    requests = inr refl;
    waiting = refl;
    skipped_waiting = refl;
    running = refl;
    finished_req_ids = refl;
    edmm_hook = refl;
  }

  free_blocks-ok :
      (r : Ref) (s : Scheduler u)
      → is_finished (s.store r).status ≡ true
      → contains String_discrete (s.store r).request_id s.requests ≡ true
      → free_blocks u r s ≡ (ok tt, after_free r s)
  unfolding free_blocks free_registered after_free
  free_blocks-ok r s fin known =
      if_true _ _ fin
      ∙ if_true _ _ (
          ap (contains String_discrete (s.store r).request_id)
            (invoke-Quiet (Call.kv_free (s.store r)) s).requests
          ∙ known)

  released :
      (r : Ref) (s : Scheduler u)
      → is_finished (s.store r).status ≡ true
      → contains String_discrete (s.store r).request_id s.requests ≡ true
      → let s2 = note_finished u r (invoke u (Call.encoder_free (s.store r)) s).1 in
        free_blocks u r s2 ≡ (ok tt, after_free r s2)
  unfolding note_finished invoke
  released r s fin known =
      free_blocks-ok r (note_finished u r (invoke u (Call.encoder_free (s.store r)) s).1) fin known

  abbrev pub Frees : Ref → Scheduler u → Outcome Error (Option ℕ) × Scheduler u → Type 0
  Frees r s x = (params : Option ℕ) × (t : Scheduler u) × (x ≡ (ok params, t)) × Freed r s t

  free_after-Freed :
      (r : Ref) (delay : Bool) (reply : Bool × Option ℕ) (s : Scheduler u)
      → is_finished (s.store r).status ≡ true
      → contains String_discrete (s.store r).request_id s.requests ≡ true
      → Frees r s (free_after u r delay reply s)
  unfolding free_after
  free_after-Freed r delay (connector_delay, params) s fin known =
      let quiet = invoke-Quiet (Call.encoder_free (s.store r)) s in
      let s1 = (invoke u (Call.encoder_free (s.store r)) s).1 in
      let s2 = note_finished u r s1 in
      elim (Bool-cases (delay || connector_delay)) [
        | inl e ↦ (params, s2, if_true _ _ e, Quiet-Freed quiet (note_finished-Freed r s1))
        | inr e ↦ (
          params,
          after_free r s2,
          if_false _ _ e ∙ ap (λ o. bind o (λ _. pure params)) (released r s fin known),
          Quiet-Freed quiet (drop_request-Freed r s1),
        )
      ]

  pub free_request-Freed :
      (r : Ref) (delay : Bool) (s : Scheduler u)
      → (u.has_connector ≡ true → u.supports_hma ≡ true)
      → is_finished (s.store r).status ≡ true
      → contains String_discrete (s.store r).request_id s.requests ≡ true
      → Frees r s (free_request u r delay s)
  unfolding free_request
  free_request-Freed r delay s fits fin known =
      let (reply, s1, told, quiet) = connector_finished-Quiet r s fits in
      let (params, t, freed, e) =
        free_after-Freed r delay reply s1
          (subst (λ (st : Store u.floats). is_finished (st r).status ≡ true) (sym quiet.store) fin)
          (cc (known, quiet.store, quiet.requests)) in
      (
        params,
        t,
        if_true _ _ fin ∙ ap (λ o. bind o (free_after u r delay)) told ∙ freed,
        Quiet-Freed quiet e,
      )
