-- ===== src/Scheduler/Preempt/Reset.antt =====
-- What the preemption of all running requests changes.
use edmm.Prelude.{
  ℕ, ◌+◌, ◌≡◌, ◌⊎◌, inl, inr, refl, sym, subst, ap, ◌∙◌, List, [], ◌∷◌, ◌++◌, Bool, true, false,
  ◌==◌, arith, if_true, if_both, ◌&&◌, not, if◌then◌else◌, Bool-cases,
}
use edmm.Prelude.Effect.{Outcome, ok, raised, bind, ◌>>=◌}
use edmm.Prelude.Sets.{count}
use edmm.Request.{Request, record_event}
use edmm.Request.Status.{RequestStatus}
use edmm.Scheduler.State.{Setup, Scheduler, Ref, Error, runtime_error, Call, invoke, modify}
use edmm.Scheduler.State.Frame.{eq_self}
use edmm.Scheduler.State.Laws.{Laws}
use edmm.Scheduler.Waiting.{same_status}
use edmm.Scheduler.Preempt.{
  preempted, prepend, freed, preempt_request, mark_stale, set_running, preempt_last, reverse,
  preempt_all, reset_kv, reset_connector_cache, also_connector, reset_prefix_cache,
}

reverse-snoc : {A : Type 0} (xs : List A) (x : A) → reverse (xs ++ (x ∷ [])) ≡ x ∷ reverse xs
reverse-snoc [] x = refl
reverse-snoc (y ∷ xs) x = ap (λ l. l ++ (y ∷ [])) (reverse-snoc xs x)

reverse-reverse : {A : Type 0} (xs : List A) → reverse (reverse xs) ≡ xs
reverse-reverse [] = refl
reverse-reverse (x ∷ xs) = reverse-snoc (reverse xs) x ∙ ap (λ l. x ∷ l) (reverse-reverse xs)

count_apart : (r q : ℕ) (rs : List ℕ) → count r (q ∷ rs) ≡ 0 → ((q == r) ≡ false) × (count r rs ≡ 0)
unfolding count
count_apart r q rs h = ground arith

count_absent :
    (q r : ℕ) (rs : List ℕ) → count q (r ∷ rs) ≡ 0 → ((q == r) ≡ false) × (count q rs ≡ 0)
unfolding count
count_absent q r rs h = ground arith

count-plus :
    (x r : ℕ) (rs ws : List ℕ) → count x rs + count x (r ∷ ws) ≡ count x (r ∷ rs) + count x ws
unfolding count
count-plus x r rs ws = ground arith

count_member :
    (x r : ℕ) (rs : List ℕ)
    → (count x (r ∷ rs) == 0) ≡ false
    → ((r ≡ x) × (count x rs ≡ 0)) ⊎ ((count x rs == 0) ≡ false)
unfolding count
count_member x r rs h = ground arith

and_true : (b : Bool) → (b && true) ≡ b
and_true true = refl
and_true false = refl

module _ (u : Setup) where
  -- One round of the loop.
  step : Ref → List Ref → Scheduler u → Scheduler u
  step r rs s =
      mark_stale u r
        (prepend u r (modify u r (preempted u) (freed u r (set_running u (reverse rs) s))))

  record Stepped (r : Ref) (rs : List Ref) (s t : Scheduler u) : Type 0 where
    pub running : t.running ≡ reverse rs
    pub waiting : (x : Ref) → count x (u.elements t.waiting) ≡ count x (r ∷ u.elements s.waiting)
    pub status : (t.store r).status ≡ RequestStatus.preempted
    pub computed : (t.store r).num_computed_tokens ≡ 0
    pub others : (q : Ref) → (q == r) ≡ false → t.store q ≡ s.store q

  preempted-status :
      (q : Request u.floats)
      → ((preempted u q).status ≡ RequestStatus.preempted)
        × ((preempted u q).num_computed_tokens ≡ 0)
  unfolding preempted record_event
  preempted-status q =
      if_both
        (λ (p : Request u.floats).
          (p.status ≡ RequestStatus.preempted) × (p.num_computed_tokens ≡ 0))
        u.log_stats _ _ (refl, refl) (refl, refl)

  step-Stepped :
      (laws : Laws u) (r : Ref) (rs : List Ref) (s : Scheduler u) → Stepped r rs s (step r rs s)
  unfolding step mark_stale prepend modify freed invoke
  step-Stepped laws r rs s = record {
    running = refl;
    waiting = λ x. laws.count-queue_prepend _ r s.waiting x;
    status = rw (eq_self r) (preempted-status (s.store r)).0;
    computed = rw (eq_self r) (preempted-status (s.store r)).1;
    others = λ q differ. rw differ refl;
  }

  -- Each request of the list runs, and occurs once.
  abbrev pub AllRunning : List Ref → Scheduler u → Type 0
  AllRunning [] s = Unit
  AllRunning (r ∷ rs) s =
      (same_status (s.store r).status RequestStatus.running ≡ true)
      × (count r rs ≡ 0)
      × AllRunning rs s

  AllRunning-stays :
      (r : Ref) (rs : List Ref) (s t : Scheduler u)
      → ((q : Ref) → (q == r) ≡ false → t.store q ≡ s.store q)
      → count r rs ≡ 0
      → AllRunning rs s
      → AllRunning rs t
  AllRunning-stays r [] s t others h a = tt
  AllRunning-stays r (q ∷ rs) s t others h (e, once, a) =
      let (differ, rest) = count_apart r q rs h in
      (
        ap (λ x. same_status x.status RequestStatus.running) (others q differ) ∙ e,
        once,
        AllRunning-stays r rs s t others rest a,
      )

  -- All that ran waits, and nothing runs.
  pub record Drained (rs : List Ref) (s t : Scheduler u) : Type 0 where
    pub running : t.running ≡ []
    pub waiting :
        (x : Ref) → count x (u.elements t.waiting) ≡ count x rs + count x (u.elements s.waiting)
    pub preempted :
        (x : Ref)
        → (count x rs == 0) ≡ false
        → ((t.store x).status ≡ RequestStatus.preempted) × ((t.store x).num_computed_tokens ≡ 0)
    pub others : (q : Ref) → count q rs ≡ 0 → t.store q ≡ s.store q

  step_rest :
      (r : Ref) (rs : List Ref) (s : Scheduler u)
      → same_status (s.store r).status RequestStatus.running ≡ true
      → preempt_last u (r ∷ rs) s ≡ preempt_last u rs (step r rs s)
  unfolding preempt_last preempt_request step
  step_rest r rs s e =
      ap
        (λ (o : Outcome Error (Unit {0}) × Scheduler u).
          bind o (λ _ t. preempt_last u rs (mark_stale u r t)))
        (if_true _ _ e)

  Drained-cons :
      {r : Ref} {rs : List Ref} {s v t : Scheduler u}
      → count r rs ≡ 0
      → Stepped r rs s v
      → Drained rs v t
      → Drained (r ∷ rs) s t
  Drained-cons {r} {rs} {s} {v} {t} once p d = record {
    running = d.running;
    waiting = λ x.
        d.waiting x
        ∙ ap (λ n. count x rs + n) (p.waiting x)
        ∙ count-plus x r rs (u.elements s.waiting);
    preempted = λ x h. elim (count_member x r rs h) [
      | inl (same, absent) ↦
          let here = d.others x absent ∙ ap v.store (sym same) in
          (ap (λ q. q.status) here ∙ p.status, ap (λ q. q.num_computed_tokens) here ∙ p.computed)
      | inr rest ↦ d.preempted x rest
    ];
    others =
        λ q h. let (differ, rest) = count_absent q r rs h in d.others q rest ∙ p.others q differ;
  }

  preempt_last-Drained :
      (laws : Laws u) (rs : List Ref) (s : Scheduler u)
      → s.running ≡ reverse rs
      → AllRunning rs s
      → (t : Scheduler u) × (preempt_last u rs s ≡ (ok tt, t)) × Drained rs s t
  unfolding preempt_last count
  preempt_last-Drained laws [] s e a = (
    s,
    refl,
    record { running = e; waiting = λ x. omega arith; preempted = λ x h. cc; others = λ q h. refl },
  )
  preempt_last-Drained laws (r ∷ rs) s e (running, once, a) =
      let p = step-Stepped laws r rs s in
      let (t, done, d) =
        preempt_last-Drained laws rs (step r rs s) p.running
          (AllRunning-stays r rs s (step r rs s) p.others once a) in
      (t, step_rest r rs s running ∙ done, Drained-cons once p d)

  -- What is returned after the cache manager's reset: with `reset_connector`, the connector's answer,
  -- or `False` without a connector.
  pub record Answered (reset_connector b : Bool) : Type 0 where
    pub alone : reset_connector ≡ false → b ≡ true
    pub missing : reset_connector ≡ true → u.has_connector ≡ false → b ≡ false
    pub asked :
        reset_connector ≡ true
        → u.has_connector ≡ true
        → (services : u.Services) × (b ≡ (u.answer Call.reset_cache services).0)

  abbrev pub Done : Bool → Scheduler u → Outcome Error Bool × Scheduler u → Type 0
  Done reset_connector s (o, t) =
      ((o ≡ raised runtime_error) ⊎ ((b : Bool) × (o ≡ ok b) × Answered reset_connector b))
      × Drained (reverse s.running) s t
      × (t.prev_step_scheduled_req_ids ≡ [])

  also_connector-Done :
      (reset_connector : Bool) (s t : Scheduler u)
      → Drained (reverse s.running) s t
      → t.prev_step_scheduled_req_ids ≡ []
      → Done reset_connector s (also_connector u reset_connector true t)
  unfolding also_connector reset_connector_cache invoke
  also_connector-Done false s t d e = (
    inr (
      true,
      refl,
      record { alone = λ h. refl; missing = λ h. absurd (cc h); asked = λ h. absurd (cc h) },
    ),
    d,
    e,
  )
  also_connector-Done true s t d e = elim (Bool-cases u.has_connector) [
    | inl has ↦ rw has (
      inr (
        _,
        refl,
        record {
          alone = λ h. absurd (cc h);
          missing = λ h none. absurd (cc (has, none));
          asked = λ h k. (t.services, and_true _);
        },
      ),
      record {
        running = d.running;
        waiting = d.waiting;
        preempted = d.preempted;
        others = d.others;
      },
      e,
    )
    | inr none ↦ rw none (
      inr (
        false,
        refl,
        record {
          alone = λ h. absurd (cc h);
          missing = λ h k. refl;
          asked = λ h has. absurd (cc (has, none));
        },
      ),
      d,
      e,
    )
  ]

  reset_result-Done :
      (done reset_connector : Bool) (s t : Scheduler u)
      → Drained (reverse s.running) s t
      → t.prev_step_scheduled_req_ids ≡ []
      → Done reset_connector s (
          bind
            (if true && not done then (raised runtime_error, t) else (ok done, t))
            (also_connector u reset_connector))
  reset_result-Done true reset_connector s t d e = also_connector-Done reset_connector s t d e
  reset_result-Done false reset_connector s t d e = (inl refl, d, e)

  reset_kv-Done :
      (reset_connector : Bool) (s t : Scheduler u)
      → Drained (reverse s.running) s t
      → Done reset_connector s (
          (reset_kv u true >>= also_connector u reset_connector)
            (record t { prev_step_scheduled_req_ids = [] }))
  unfolding reset_kv invoke
  reset_kv-Done reset_connector s t d =
      reset_result-Done (invoke u Call.reset_prefix_cache t).0 reset_connector s
        (invoke u Call.reset_prefix_cache (record t { prev_step_scheduled_req_ids = [] })).1
        (record {
          running = d.running;
          waiting = d.waiting;
          preempted = d.preempted;
          others = d.others;
        })
        refl

  -- A reset of the prefix cache that preempts the running requests, if the queues keep to what is
  -- documented and each running request runs and occurs once, raises a RuntimeError or returns: `True`
  -- without `reset_connector`, and with it the connector's answer, or `False` if there is no connector.
  -- In all cases nothing runs any more, each request that ran waits once more than before, is preempted
  -- and has no computed tokens, the other requests are as they were, and no request counts as scheduled
  -- in the previous step.
  pub reset-Done :
      (laws : Laws u) (reset_connector : Bool) (s : Scheduler u)
      → AllRunning (reverse s.running) s
      → Done reset_connector s (reset_prefix_cache u true reset_connector s)
  unfolding reset_prefix_cache preempt_all
  reset-Done laws reset_connector s a =
      let (t, done, d) =
        preempt_last-Drained laws (reverse s.running) s (sym (reverse-reverse s.running)) a in
      subst
        (λ (o : Outcome Error (Unit {0}) × Scheduler u). Done reset_connector s (
          bind (bind o (λ _ t. (ok tt, record t { prev_step_scheduled_req_ids = [] })))
            (λ _. reset_kv u true >>= also_connector u reset_connector)))
        (sym done) (reset_kv-Done reset_connector s t d)
