-- ===== src/Scheduler/Invalid/Handle/Settled.antt =====
-- What becomes of the requests that lost blocks, by the policy on failures.
use edmm.Prelude.{
  ℕ, ◌+◌, String, List, [], ◌∷◌, Bool, true, false, if◌then◌else◌, ◌==◌, ◌≡◌, refl, sym, ◌∙◌, ap,
  subst, ◌||◌, ◌⊎◌, inl, inr, arith, String_discrete, length, if_both, Bool-cases, if_true,
  if_false,
}
use edmm.Prelude.Dict.{Dict}
use edmm.Prelude.Effect.{Outcome, ok, raised, outcome_cases}
use edmm.Prelude.Sets.{member, insert, member-insert}
use edmm.Scheduler.State.{Setup, Scheduler, Error, invoke}
use edmm.Scheduler.Invalid.{Affected, update_requests_with_invalid_blocks}
use edmm.Scheduler.Invalid.Handle.{
  union, async_load_reqs, evict_lost, by_policy, settle, handle_invalid_blocks,
}

abbrev has : String → List String → Bool
has x s = member String_discrete x s

member-union :
    (x : String) (s names : List String) → has x (union s names) ≡ (has x s || has x names)
unfolding union member
member-union x s [] = ground arith
member-union x s (y ∷ names) =
    ground (
      arith,
      member-union x (insert String_discrete y s) names,
      member-insert String_discrete y x s,
    )

empty_of : (s : List String) → length s ≡ 0 → s ≡ []
empty_of [] h = refl
empty_of (x ∷ s) h = absurd (omega (arith, h))

module _ (u : Setup) where
  -- With recomputation (`true`) the running requests are returned, and those that wait for a transfer
  -- are noted for a retry; without it all are returned, and none is noted. The requests, the queues
  -- and the dictionary are left alone.
  pub record Settled (recompute : Bool) (async sync : List String) (s t : Scheduler u)
      (ids : List String) : Type 0 where
    pub returned :
        (x : String) → has x ids ≡ (if recompute then has x sync else (has x async || has x sync))
    pub noted :
        (x : String)
        → has x t.failed_recving_kv_req_ids ≡ (
            if recompute
            then (has x s.failed_recving_kv_req_ids || has x async)
            else has x s.failed_recving_kv_req_ids)
    pub store : t.store ≡ s.store
    pub running : t.running ≡ s.running
    pub waiting : t.waiting ≡ s.waiting
    pub skipped_waiting : t.skipped_waiting ≡ s.skipped_waiting
    pub requests : t.requests ≡ s.requests

  abbrev pub SettledOk :
      Bool
      → List String
      → List String
      → Scheduler u
      → Outcome Error (List String) × Scheduler u
      → Type 0
  SettledOk recompute async sync s (ok ids, t) = Settled recompute async sync s t ids
  SettledOk recompute async sync s (raised e, t) = ⊥

  -- What `evict_lost` keeps.
  record Kept (s t : Scheduler u) : Type 0 where
    pub failed : t.failed_recving_kv_req_ids ≡ s.failed_recving_kv_req_ids
    pub store : t.store ≡ s.store
    pub running : t.running ≡ s.running
    pub waiting : t.waiting ≡ s.waiting
    pub skipped_waiting : t.skipped_waiting ≡ s.skipped_waiting
    pub requests : t.requests ≡ s.requests

  evict_lost-Kept : (blocks : List ℕ) (s : Scheduler u) → Kept s (evict_lost u blocks s)
  unfolding evict_lost invoke
  evict_lost-Kept blocks s =
      if_both (Kept s) _ _ s
        (record {
          failed = refl;
          store = refl;
          running = refl;
          waiting = refl;
          skipped_waiting = refl;
          requests = refl;
        })
        (record {
          failed = refl;
          store = refl;
          running = refl;
          waiting = refl;
          skipped_waiting = refl;
          requests = refl;
        })

  by_policy-Settled :
      (recompute : Bool) (async sync : List String) (s t : Scheduler u)
      → Kept s t
      → SettledOk recompute async sync s (by_policy u recompute async sync t)
  unfolding by_policy
  by_policy-Settled true async sync s t k = record {
    returned = λ x. refl;
    noted = λ x.
        member-union x t.failed_recving_kv_req_ids async
        ∙ ap (λ ids. has x ids || has x async) k.failed;
    store = k.store;
    running = k.running;
    waiting = k.waiting;
    skipped_waiting = k.skipped_waiting;
    requests = k.requests;
  }
  by_policy-Settled false async sync s t k = record {
    returned = λ x. member-union x async sync;
    noted = λ x. ap (has x) k.failed;
    store = k.store;
    running = k.running;
    waiting = k.waiting;
    skipped_waiting = k.skipped_waiting;
    requests = k.requests;
  }

  -- Nothing is lost, nothing to do.
  none-Settled : (recompute : Bool) (s : Scheduler u) → Settled recompute [] [] s s []
  unfolding member
  none-Settled true s = record {
    returned = λ x. refl;
    noted = λ x. ground arith;
    store = refl;
    running = refl;
    waiting = refl;
    skipped_waiting = refl;
    requests = refl;
  }
  none-Settled false s = record {
    returned = λ x. refl;
    noted = λ x. refl;
    store = refl;
    running = refl;
    waiting = refl;
    skipped_waiting = refl;
    requests = refl;
  }

  nobody :
      (s : Scheduler u) (async sync : List String)
      → ((length async + length sync) == 0) ≡ true
      → Settled u.recompute_kv_load_failures async sync s s []
  nobody s [] [] h = none-Settled u.recompute_kv_load_failures s
  nobody s [] (x ∷ sync) h = absurd (ground (arith, h))
  nobody s (x ∷ async) sync h = absurd (ground (arith, h))

  settle-Settled :
      (async sync : Affected) (s : Scheduler u)
      → SettledOk u.recompute_kv_load_failures async.affected_req_ids sync.affected_req_ids s
          (settle u async sync s)
  unfolding settle
  settle-Settled async sync s =
      let P =
        SettledOk u.recompute_kv_load_failures async.affected_req_ids sync.affected_req_ids s in
      elim (Bool-cases ((length async.affected_req_ids + length sync.affected_req_ids) == 0)) [
        | inl none_lost ↦
            subst P (sym (if_true _ _ none_lost))
              (nobody s async.affected_req_ids sync.affected_req_ids none_lost)
        | inr lost ↦ subst P (sym (if_false _ _ lost)) (
            by_policy-Settled u.recompute_kv_load_failures _ _ s (evict_lost u sync.evict s)
              (evict_lost-Kept sync.evict s))
      ]

  -- The scan of the requests that wait for a transfer, and then that of the running ones.
  abbrev pub Scanned : Type 0
  Scanned = Outcome Error Affected × Scheduler u

  abbrev pub scan_async : List ℕ → Dict String ℕ → Scheduler u → Scanned
  scan_async invalid scheduled s =
      update_requests_with_invalid_blocks u (async_load_reqs u (u.elements s.skipped_waiting) s)
        invalid scheduled false s

  abbrev pub scan_running : List ℕ → Dict String ℕ → Scheduler u → Scanned
  scan_running invalid scheduled t =
      update_requests_with_invalid_blocks u t.running invalid scheduled true t

  -- One of the scans raises, and so does the whole, or both return.
  abbrev pub HandledOr :
      List ℕ → Dict String ℕ → Scheduler u → Outcome Error (List String) × Scheduler u → Type 0
  HandledOr invalid scheduled s r =
      ((e : Error) × (t : Scheduler u) × (scan_async invalid scheduled s ≡ (raised e, t))
        × (r ≡ (raised e, t)))
      ⊎ ((async : Affected) × (t : Scheduler u) × (scan_async invalid scheduled s ≡ (ok async, t))
          × (((e : Error) × (t' : Scheduler u) × (scan_running invalid scheduled t ≡ (raised e, t'))
                × (r ≡ (raised e, t')))
              ⊎ ((sync : Affected) × (t' : Scheduler u) × (scan_running invalid scheduled t
                    ≡ (ok sync, t'))
                  × SettledOk u.recompute_kv_load_failures async.affected_req_ids
                      sync.affected_req_ids t' r)))

  -- The handler of lost blocks raises what one of its scans raises. If none does, it returns, by the
  -- policy. With recomputation the affected
  -- running requests are returned, and the affected ones that wait for a transfer are noted for a
  -- retry; otherwise both are returned, and none is noted. Beyond the scans the requests, the queues
  -- and the dictionary stay as they were.
  pub handle_invalid_blocks-Settled :
      (invalid : List ℕ) (scheduled : Dict String ℕ) (s : Scheduler u)
      → HandledOr invalid scheduled s (handle_invalid_blocks u invalid scheduled s)
  unfolding handle_invalid_blocks
  handle_invalid_blocks-Settled invalid scheduled s =
      elim (outcome_cases (scan_async invalid scheduled s)) [
        | inr (e, t, first) ↦ inl (e, t, first, rw first refl)
        | inl (async, t, first) ↦ inr (async, t, first, after async t first)
      ]
    where
      after :
          (async : Affected) (t : Scheduler u)
          → scan_async invalid scheduled s ≡ (ok async, t)
          → ((e : Error) × (t' : Scheduler u) × (scan_running invalid scheduled t ≡ (raised e, t'))
              × (handle_invalid_blocks u invalid scheduled s ≡ (raised e, t')))
            ⊎ ((sync : Affected) × (t' : Scheduler u) × (scan_running invalid scheduled t
                  ≡ (ok sync, t'))
                × SettledOk u.recompute_kv_load_failures async.affected_req_ids
                    sync.affected_req_ids t'
                    (handle_invalid_blocks u invalid scheduled s))
      after async t first = elim (outcome_cases (scan_running invalid scheduled t)) [
        | inr (e, t', second) ↦ inl (e, t', second, rw (first, second) refl)
        | inl (sync, t', second) ↦
            inr (sync, t', second, rw (first, second) (settle-Settled async sync t'))
      ]
