-- ===== src/Scheduler/Transfers/Promoted.antt =====
-- A request whose transfer is reported can be promoted.
use edmm.Prelude.{String, ◌≡◌, refl, ap, ◌∙◌, some, true, String_discrete, if_true}
use edmm.Prelude.Dict.{get}
use edmm.Prelude.Effect.{ok}
use edmm.Prelude.Sets.{member, member-insert_self}
use edmm.Request.Status.{RequestStatus, value}
use edmm.Scheduler.State.{Setup, Scheduler, Ref}
use edmm.Scheduler.Waiting.{same_status, try_promote_blocked_waiting_request}
use edmm.Scheduler.Waiting.Promotion.{promote_received}
use edmm.Scheduler.Transfers.{receive_one, receive_known, add_finished_recving}

module _ (u : Setup) where
  -- The report that the transfer of a known request, which waits for it, has ended is taken without
  -- an error, changes no request, and the request's next promotion succeeds. This takes a connector.
  pub receive-promote :
      (id : String) (r : Ref) (s : Scheduler u)
      → u.has_connector ≡ true
      → get String_discrete id s.requests ≡ some r
      → (s.store r).request_id ≡ id
      → (s.store r).status ≡ RequestStatus.waiting_for_remote_kvs
      → (t : Scheduler u) × (receive_one u id s ≡ (ok tt, t))
        × (t.store ≡ s.store)
        × ((try_promote_blocked_waiting_request u r t).0 ≡ ok true)
  unfolding receive_one receive_known add_finished_recving try_promote_blocked_waiting_request value
  receive-promote id r s c known same waits =
      let t = add_finished_recving u id s in
      (
        t,
        ap (λ o. receive_known u o id s) known
            ∙ if_true _ _ (ap (λ st. same_status st RequestStatus.waiting_for_remote_kvs) waits),
        refl,
        promote_received u r t waits c (
            ap (λ i. member String_discrete i t.finished_recving_kv_req_ids) same
            ∙ member-insert_self String_discrete id s.finished_recving_kv_req_ids),
      )
