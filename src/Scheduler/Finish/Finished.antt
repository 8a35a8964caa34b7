-- ===== src/Scheduler/Finish/Finished.antt =====
-- What `finish_requests` does to the requests it is called for.
use edmm.Prelude.{
  ℕ, String, ◌≡◌, subst, ap, ◌∙◌, ◌⊎◌, inl, inr, List, some, true, false, ◌==◌, String_discrete,
  Bool-cases, if_true,
}
use edmm.Prelude.Dict.{get}
use edmm.Prelude.Effect.{ok, bind}
use edmm.Prelude.Sets.{member, count}
use edmm.Request.Status.{RequestStatus, is_finished}
use edmm.Scheduler.State.{Setup, Scheduler, Ref}
use edmm.Scheduler.Waiting.{same_status}
use edmm.Scheduler.Finish.{
  RequestIds, valid_requests, running_of, waiting_of, remove_from_queues, finish_requests, ids_of,
  clients, some_of,
}
use edmm.Scheduler.Finish.Each.{Ready, ids, Finishes, finish_each-Finishes}
use edmm.Scheduler.State.Laws.{Laws, NoRepeat}
use edmm.Scheduler.Finish.Valid.{IsValid, valid-Ready, keys-NoRepeat}
use edmm.Scheduler.Finish.Counts.{
  count-valid, count-running_of, count-waiting_of, some_of-gone, AllEnded-at,
}

module _ (u : Setup) where
  ids_of-NoRepeat :
      (laws : Laws u) (request_ids : RequestIds) (s : Scheduler u)
      → IsValid u s
      → NoRepeat (ids_of u request_ids s)
  ids_of-NoRepeat laws (RequestIds.one id) s v = (tt, tt)
  ids_of-NoRepeat laws (RequestIds.several is) s v = laws.iterate_set-NoRepeat is
  ids_of-NoRepeat laws RequestIds.all s v = keys-NoRepeat s.requests v.distinct

  -- The removal leaves the dictionary, the requests and the hook as they are.
  removed-Ready :
      (rs : List Ref) (s : Scheduler u)
      → Ready (ids u s) s.requests rs
      → Ready (ids u (remove_from_queues u rs s)) (remove_from_queues u rs s).requests rs
  unfolding remove_from_queues
  removed-Ready rs s h = h

  -- In no queue any more.
  pub record Gone (r : Ref) (t : Scheduler u) : Type 0 where
    pub running : count r t.running ≡ 0
    pub waiting : count r (u.elements t.waiting) ≡ 0
    pub skipped_waiting : count r (u.elements t.skipped_waiting) ≡ 0

  removed-Gone :
      (laws : Laws u) (r : Ref) (rs : List Ref) (s : Scheduler u)
      → IsValid u s
      → (count r rs == 0) ≡ false
      → Gone r (remove_from_queues u rs s)
  unfolding remove_from_queues
  removed-Gone laws r rs s v h =
      let w = waiting_of u rs s in
      let gone : (q : u.Queue)
          → ((count r w == 0) ≡ false) ⊎ (count r (u.elements q) ≡ 0)
          → count r (u.elements (some_of u w (u.queue_remove w q) q)) ≡ 0 =
        λ q f.
          some_of-gone u (λ p. count r (u.elements p)) r w (u.queue_remove w q) q
            (laws.count-queue_remove w q r) f in
      let ran =
        some_of-gone u (count r) r (running_of u rs s) (u.remove_all s.running (running_of u rs s))
          s.running (laws.count-remove_all s.running (running_of u rs s) r) in
      elim (Bool-cases (same_status (s.store r).status RequestStatus.running)) [
        | inl e ↦ record {
          running = ran (inl (count-running_of u r rs s e h));
          waiting = gone s.waiting (inr (v.running_waits r e).0);
          skipped_waiting = gone s.skipped_waiting (inr (v.running_waits r e).1);
        }
        | inr e ↦ record {
          running = ran (inr (v.waiting_runs r e));
          waiting = gone s.waiting (inl (count-waiting_of u r rs s e h));
          skipped_waiting = gone s.skipped_waiting (inl (count-waiting_of u r rs s e h));
        }
      ]

  Gone-Finishes :
      {r : Ref} {status : RequestStatus} {rs : List Ref} {s t : Scheduler u}
      → Finishes u status rs s t
      → Gone r s
      → Gone r t
  Gone-Finishes {r} f g = record {
    running = ap (count r) f.running ∙ g.running;
    waiting = ap (λ q. count r (u.elements q)) f.waiting ∙ g.waiting;
    skipped_waiting = ap (λ q. count r (u.elements q)) f.skipped_waiting ∙ g.skipped_waiting;
  }

  -- If the status is a finished one and a connector supports hybrid memory, `finish_requests`
  -- succeeds on a valid scheduler. Each request that it is called for, if it is known and was not
  -- finished, then has the status, counts as finished, and is in no queue. The requests that it does
  -- not find are as they were, and so is the hook.
  pub finish-Finished :
      (laws : Laws u) (request_ids : RequestIds) (status : RequestStatus) (s : Scheduler u)
      → IsValid u s
      → (u.has_connector ≡ true → u.supports_hma ≡ true)
      → is_finished status ≡ true
      → (pairs : List (String × ℕ)) × (t : Scheduler u) × (finish_requests u request_ids status s
          ≡ (ok pairs, t))
        × ((id : String) (r : Ref)
            → member String_discrete id (ids_of u request_ids s) ≡ true
            → get String_discrete id s.requests ≡ some r
            → is_finished (s.store r).status ≡ false
            → ((t.store r).status ≡ status)
              × (member String_discrete id t.finished_req_ids ≡ true)
              × Gone r t)
        × ((q : Ref)
            → count q (valid_requests u (ids_of u request_ids s) s) ≡ 0
            → t.store q ≡ s.store q)
        × (t.edmm_hook ≡ s.edmm_hook)
  unfolding finish_requests remove_from_queues
  finish-Finished laws request_ids status s v fits fin =
      let is = ids_of u request_ids s in
      let rs = valid_requests u is s in
      let (t, done, f) =
        finish_each-Finishes u status rs (remove_from_queues u rs s) fits fin
          (removed-Ready rs s (valid-Ready u is s v (ids_of-NoRepeat laws request_ids s v))) in
      (
        clients u rs t,
        t,
        if_true _ _ fin ∙ ap (λ o. bind o (λ _ t. (ok (clients u rs t), t))) done,
        λ id r listed known live.
            let found = count-valid u id r is s known live listed in
            let (ended, noted) = AllEnded-at u (ids u s) status r rs t f.ended found in
            (
              ended,
              subst (λ i. member String_discrete i t.finished_req_ids ≡ true) (v.keyed id r known)
                  noted,
              Gone-Finishes f (removed-Gone laws r rs s v found),
            ),
        f.others,
        f.edmm_hook,
      )
