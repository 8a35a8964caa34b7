-- ===== src/Scheduler/Waiting/Transfer.antt =====
-- What the end of a transfer changes.
use edmm.Prelude.{
  String, ◌-◌, ◌≡◌, refl, ap, ◌∙◌, inl, inr, true, ◌==◌, String_discrete, Bool-cases, if_true,
}
use edmm.Prelude.Effect.{ok}
use edmm.Prelude.Sets.{member}
use edmm.Request.{num_tokens}
use edmm.Scheduler.State.{Setup, Scheduler, Ref, Call, invoke, modify}
use edmm.Scheduler.State.Frame.{SameQueues, SameQueues-trans, modify-SameQueues, invoke-SameQueues}
use edmm.Scheduler.Waiting.{
  update_waiting_for_remote_kv, received, retry_failed, recompute_last, cache_received,
  remove_finished_recving, drop_finished_recving, drop_failed_recving,
}

module _ (u : Setup) where
  drop_failed-SameQueues :
      (id : String) (r : Ref) (s : Scheduler u) → SameQueues u r s (drop_failed_recving u id s)
  unfolding drop_failed_recving
  drop_failed-SameQueues id r s = record {
    waiting = refl;
    skipped_waiting = refl;
    running = refl;
    requests = refl;
    others = λ q differ. refl;
  }

  pub drop_finished-SameQueues :
      (id : String) (r : Ref) (s : Scheduler u) → SameQueues u r s (drop_finished_recving u id s)
  unfolding drop_finished_recving
  drop_finished-SameQueues id r s = record {
    waiting = refl;
    skipped_waiting = refl;
    running = refl;
    requests = refl;
    others = λ q differ. refl;
  }

  -- What a transfer changes before its request is taken off the finished ones.
  abbrev pub Received : Ref → Scheduler u → Scheduler u → Type 0
  Received r s t =
      SameQueues u r s t × (t.finished_recving_kv_req_ids ≡ s.finished_recving_kv_req_ids)

  Received-trans :
      {r : Ref} {s t v : Scheduler u} → Received r s t → Received r t v → Received r s v
  Received-trans (a, e) (b, f) = (SameQueues-trans u a b, f ∙ e)

  drop_failed-Received :
      (id : String) (r : Ref) (s : Scheduler u) → Received r s (drop_failed_recving u id s)
  unfolding drop_failed_recving
  drop_failed-Received id r s = (drop_failed-SameQueues id r s, refl)

  invoke-Received :
      (r : Ref) (call : Call u.floats) (s : Scheduler u) → Received r s (invoke u call s).1
  unfolding invoke
  invoke-Received r call s = (invoke-SameQueues u r call s, refl)

  retry_failed-Received : (r : Ref) (s : Scheduler u) → Received r s (retry_failed u r s)
  unfolding retry_failed
  retry_failed-Received r s = elim (Bool-cases ((s.store r).num_computed_tokens == 0)) [
    | inl e ↦ rw e (
        Received-trans (invoke-Received r (Call.kv_free (s.store r)) s)
          (drop_failed-Received (s.store r).request_id r (invoke u (Call.kv_free (s.store r)) s).1))
    | inr e ↦
        let c = Call.cache_blocks (s.store r) (s.store r).num_computed_tokens in
        rw e (
          Received-trans (invoke-Received r c s)
            (drop_failed-Received (s.store r).request_id r (invoke u c s).1))
  ]

  recompute_last-Received : (r : Ref) (s : Scheduler u) → Received r s (recompute_last u r s)
  unfolding recompute_last modify
  recompute_last-Received r s = (
    modify-SameQueues u r (λ p. record p { num_computed_tokens = num_tokens u.floats p - 1 }) s,
    refl,
  )

  cache_received-Received : (r : Ref) (s : Scheduler u) → Received r s (cache_received u r s)
  unfolding cache_received
  cache_received-Received r s =
      let c = Call.cache_blocks (s.store r) (s.store r).num_computed_tokens in
      elim (Bool-cases ((s.store r).num_computed_tokens == num_tokens u.floats (s.store r))) [
        | inl e ↦
            rw e
              (Received-trans (invoke-Received r c s) (recompute_last-Received r (invoke u c s).1))
        | inr e ↦ rw e (invoke-Received r c s)
      ]

  pub received-Received : (r : Ref) (s : Scheduler u) → Received r s (received u r s)
  unfolding received
  received-Received r s =
      elim (Bool-cases
        (member String_discrete (s.store r).request_id s.failed_recving_kv_req_ids)) [
          | inl e ↦ rw e (retry_failed-Received r s)
          | inr e ↦ rw e (cache_received-Received r s)
        ]

  -- The transfer succeeds, and the request is off the finished ones.
  pub update_waiting-ok :
      (r : Ref) (s : Scheduler u)
      → u.has_connector ≡ true
      → member String_discrete (s.store r).request_id s.finished_recving_kv_req_ids ≡ true
      → update_waiting_for_remote_kv u r s
        ≡ (ok tt, drop_finished_recving u (s.store r).request_id (received u r s))
  unfolding update_waiting_for_remote_kv remove_finished_recving
  update_waiting-ok r s c e =
      if_true _ _ c
      ∙ if_true _ _
          (ap (member String_discrete (s.store r).request_id) (received-Received r s).1 ∙ e)
