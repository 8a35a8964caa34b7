-- ===== src/Scheduler/Finish/Ended.antt =====
-- What one round of the second pass of `finish_requests` changes.
use edmm.Prelude.{
  ℕ, String, ◌≡◌, refl, sym, subst, ap, ◌∙◌, ◌⊎◌, inl, inr, Option, Bool, true, false, ◌==◌, not,
  String_discrete, Bool-cases, if_true, if_false,
}
use edmm.Prelude.Dict.{erase, contains}
use edmm.Prelude.Effect.{Outcome, ok}
use edmm.Prelude.Sets.{insert, member}
use edmm.Request.Status.{RequestStatus, is_finished}
use edmm.Scheduler.State.{Setup, Scheduler, Ref, Error, set_status}
use edmm.Scheduler.State.Frame.{eq_self, set_status-status}
use edmm.Scheduler.Waiting.{same_status, drop_finished_recving, drop_failed_recving}
use edmm.Scheduler.Finish.{finish_one, free_request}
use edmm.Scheduler.Finish.Freed.{Freed, free_request-Freed}

module _ (u : Setup) where
  -- The request has the status and counts as finished; the other requests, the queues and the hook
  -- are as they were, and so are the other entries of the dictionary.
  pub record Ended (r : Ref) (status : RequestStatus) (s t : Scheduler u) : Type 0 where
    pub ended : (t.store r).status ≡ status
    pub same_id : (t.store r).request_id ≡ (s.store r).request_id
    pub same_client : (t.store r).client_index ≡ (s.store r).client_index
    pub others : (q : Ref) → (q == r) ≡ false → t.store q ≡ s.store q
    pub requests :
        (t.requests ≡ s.requests)
        ⊎ (t.requests ≡ erase String_discrete (s.store r).request_id s.requests)
    pub waiting : t.waiting ≡ s.waiting
    pub skipped_waiting : t.skipped_waiting ≡ s.skipped_waiting
    pub running : t.running ≡ s.running
    pub finished_req_ids :
        t.finished_req_ids ≡ insert String_discrete (s.store r).request_id s.finished_req_ids
    pub edmm_hook : t.edmm_hook ≡ s.edmm_hook

  id_kept :
      (r : Ref) (status : RequestStatus) (s : Scheduler u)
      → ((set_status u r status s).store r).request_id ≡ (s.store r).request_id
  unfolding set_status
  id_kept r status s = rw (eq_self r) refl

  Freed-Ended :
      (r : Ref) (status : RequestStatus) (s t : Scheduler u)
      → Freed u r (set_status u r status s) t
      → Ended r status s t
  unfolding set_status
  Freed-Ended r status s t f = record {
    ended = ap (λ st. (st r).status) f.store ∙ set_status-status u r status s;
    same_id = ap (λ st. (st r).request_id) f.store ∙ rw (eq_self r) refl;
    same_client = ap (λ st. (st r).client_index) f.store ∙ rw (eq_self r) refl;
    others = λ q differ. ap (λ st. st q) f.store ∙ rw differ refl;
    requests = elim f.requests [
      | inl e ↦ inl e
      | inr e ↦ inr (e ∙ ap (λ i. erase String_discrete i s.requests) (id_kept r status s))
    ];
    waiting = f.waiting;
    skipped_waiting = f.skipped_waiting;
    running = f.running;
    finished_req_ids =
        f.finished_req_ids
        ∙ ap (λ i. insert String_discrete i s.finished_req_ids) (id_kept r status s);
    edmm_hook = f.edmm_hook;
  }

  -- The transfers that are forgotten matter to none of this.
  forget_transfers : String → Scheduler u → Scheduler u
  forget_transfers id s = drop_failed_recving u id (drop_finished_recving u id s)

  forget_transfers-Ended :
      (id : String) (r : Ref) (status : RequestStatus) (s t : Scheduler u)
      → Ended r status (forget_transfers id s) t
      → Ended r status s t
  unfolding forget_transfers drop_failed_recving drop_finished_recving
  forget_transfers-Ended id r status s t e = record {
    ended = e.ended;
    same_id = e.same_id;
    same_client = e.same_client;
    others = e.others;
    requests = e.requests;
    waiting = e.waiting;
    skipped_waiting = e.skipped_waiting;
    running = e.running;
    finished_req_ids = e.finished_req_ids;
    edmm_hook = e.edmm_hook;
  }

  known_kept :
      (r : Ref) (status : RequestStatus) (s : Scheduler u)
      → contains String_discrete (s.store r).request_id s.requests ≡ true
      → contains String_discrete
          ((set_status u r status s).store r).request_id
          (set_status u r status s).requests
        ≡ true
  unfolding set_status
  known_kept r status s known = rw (eq_self r) known

  forget-known :
      (r : Ref) (id : String) (s : Scheduler u)
      → contains String_discrete (s.store r).request_id s.requests ≡ true
      → contains String_discrete
          ((forget_transfers id s).store r).request_id
          (forget_transfers id s).requests
        ≡ true
  unfolding forget_transfers drop_failed_recving drop_finished_recving
  forget-known r id s known = known

  abbrev pub Ends :
      Ref → RequestStatus → Scheduler u → Outcome Error (Option ℕ) × Scheduler u → Type 0
  Ends r status s x =
      (params : Option ℕ) × (t : Scheduler u) × (x ≡ (ok params, t)) × Ended r status s t

  set_free-Ends :
      (r : Ref) (status : RequestStatus) (delay : Bool) (s : Scheduler u)
      → (u.has_connector ≡ true → u.supports_hma ≡ true)
      → is_finished status ≡ true
      → contains String_discrete (s.store r).request_id s.requests ≡ true
      → Ends r status s (free_request u r delay (set_status u r status s))
  set_free-Ends r status delay s fits fin known =
      let (params, t, e, freed) =
        free_request-Freed u r delay (set_status u r status s) fits
          (subst (λ st. is_finished st ≡ true) (sym (set_status-status u r status s)) fin)
          (known_kept r status s known) in
      (params, t, e, Freed-Ended r status s t freed)

  pub finish_one-Ends :
      (r : Ref) (status : RequestStatus) (s : Scheduler u)
      → (u.has_connector ≡ true → u.supports_hma ≡ true)
      → is_finished status ≡ true
      → contains String_discrete (s.store r).request_id s.requests ≡ true
      → Ends r status s (finish_one u status r s)
  unfolding finish_one forget_transfers
  finish_one-Ends r status s fits fin known =
      let id = (s.store r).request_id in
      elim (Bool-cases (same_status (s.store r).status RequestStatus.waiting_for_remote_kvs)) [
        | inl e ↦
            let delay = not (member String_discrete id s.finished_recving_kv_req_ids) in
            let (params, t, x, ended) =
              set_free-Ends r status delay (forget_transfers id s) fits fin
                (forget-known r id s known) in
            (params, t, if_true _ _ e ∙ x, forget_transfers-Ended id r status s t ended)
        | inr e ↦
            let (params, t, x, ended) = set_free-Ends r status false s fits fin known in
            (params, t, if_false _ _ e ∙ x, ended)
      ]
