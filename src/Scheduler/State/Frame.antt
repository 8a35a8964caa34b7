-- ===== src/Scheduler/State/Frame.antt =====
-- What the elementary steps of the scheduler leave as it was.
use edmm.Prelude.{ℕ, ◌≡◌, refl, ◌∙◌, true, false, ◌==◌, arith}
use edmm.Request.{Request}
use edmm.Request.Status.{RequestStatus}
use edmm.Scheduler.State.{Setup, Scheduler, Ref, Call, modify, set_status, invoke}

pub eq_self : (n : ℕ) → (n == n) ≡ true
eq_self n = ground arith

module _ (u : Setup) where
  -- The queues, the dictionary and the other requests are as they were.
  pub record SameQueues (r : Ref) (s t : Scheduler u) : Type 0 where
    pub waiting : t.waiting ≡ s.waiting
    pub skipped_waiting : t.skipped_waiting ≡ s.skipped_waiting
    pub running : t.running ≡ s.running
    pub requests : t.requests ≡ s.requests
    pub others : (q : Ref) → (q == r) ≡ false → t.store q ≡ s.store q

  pub SameQueues-refl : (r : Ref) (s : Scheduler u) → SameQueues r s s
  SameQueues-refl r s = record {
    waiting = refl;
    skipped_waiting = refl;
    running = refl;
    requests = refl;
    others = λ q differ. refl;
  }

  pub SameQueues-trans :
      {r : Ref} {s t v : Scheduler u} → SameQueues r s t → SameQueues r t v → SameQueues r s v
  SameQueues-trans a b = record {
    waiting = b.waiting ∙ a.waiting;
    skipped_waiting = b.skipped_waiting ∙ a.skipped_waiting;
    running = b.running ∙ a.running;
    requests = b.requests ∙ a.requests;
    others = λ q differ. b.others q differ ∙ a.others q differ;
  }

  pub modify-SameQueues :
      (r : Ref) (g : Request u.floats → Request u.floats) (s : Scheduler u)
      → SameQueues r s (modify u r g s)
  unfolding modify
  modify-SameQueues r g s = record {
    waiting = refl;
    skipped_waiting = refl;
    running = refl;
    requests = refl;
    others = λ q differ. rw differ refl;
  }

  pub set_status-status :
      (r : Ref) (status : RequestStatus) (s : Scheduler u)
      → ((set_status u r status s).store r).status ≡ status
  unfolding set_status
  set_status-status r status s = rw (eq_self r) refl

  pub set_status-SameQueues :
      (r : Ref) (status : RequestStatus) (s : Scheduler u)
      → SameQueues r s (set_status u r status s)
  unfolding set_status
  set_status-SameQueues r status s = modify-SameQueues r (λ q. record q { status = status }) s

  pub modify-store :
      (r : Ref) (g : Request u.floats → Request u.floats) (s : Scheduler u)
      → (modify u r g s).store r ≡ g (s.store r)
  unfolding modify
  modify-store r g s = rw (eq_self r) refl

  pub invoke-SameQueues :
      (r : Ref) (call : Call u.floats) (s : Scheduler u) → SameQueues r s (invoke u call s).1
  unfolding invoke
  invoke-SameQueues r call s = record {
    waiting = refl;
    skipped_waiting = refl;
    running = refl;
    requests = refl;
    others = λ q differ. refl;
  }

  pub invoke-store : (call : Call u.floats) (s : Scheduler u) → (invoke u call s).1.store ≡ s.store
  unfolding invoke
  invoke-store call s = refl
