-- ===== src/Scheduler/Schedule/Room.antt =====
-- `schedule`: how the search for slots ends, and what preemption does to the budgets.
use edmm.Prelude.{
  ℕ, zero, suc, ◌+◌, ◌≤◌, ◌<◌, String, List, [], ◌∷◌, Option, none, some, true, if◌then◌else◌, ◌==◌,
  length, ◌≡◌, refl, sym, subst, ap, ◌∙◌, arith, if_both, get_elem?, String_discrete,
}
use edmm.Prelude.Dict.{get}
use edmm.Prelude.Partial.{◌>>=◌ as ◌then◌}
use edmm.Prelude.Ends.{
  Ends, Ends-bind, Ends-then, Ends-lookup, Ends-if, Ends-option, Ends-test, Ends-weaken, raises,
  returns,
}
use edmm.Prelude.Totals.{sum_values, sum_values-erase_known}
use edmm.Request.{Request, MultiModalFeature, num_tokens, record_event}
use edmm.Request.Status.{RequestStatus}
use edmm.Scheduler.State.{Setup, Scheduler, Ref, Policy, Store, Call, invoke, modify}
use edmm.Scheduler.State.Proper.{
  IsProper, assertion, key, index, value, Same, Same-trans, Same-invoke,
}
use edmm.Scheduler.Waiting.{same_status}
use edmm.Scheduler.Preempt.{preempt_request, preempted, freed, prepend, set_running}
use edmm.Scheduler.Schedule.{
  Progress, remove_first, is_in, last, without_last, sum_embeds, is_after, max_from, max_request,
  unscheduled, unschedule, take_by_priority, take_last, take_lowest, preempt_lowest, make_room,
}

remove_first-shorter :
    (x : Ref) (xs : List Ref) → is_in x xs ≡ true → length (remove_first x xs) + 1 ≡ length xs
remove_first-shorter x [] h = cc
remove_first-shorter x (y ∷ ys) h = ground (arith, remove_first-shorter x ys)

without_last-shorter :
    (r : Ref) (xs : List Ref) → last xs ≡ some r → length (without_last xs) + 1 ≡ length xs
without_last-shorter r [] h = cc
without_last-shorter r (x ∷ []) h = refl
without_last-shorter r (x ∷ y ∷ ys) h = omega (arith, without_last-shorter r (y ∷ ys) h)

-- What a preemption does to the variables: budgets only grow, and nothing is gained.
pub record Less (p p' : Progress) : Type 0 where
  pub total :
      sum_values p'.num_scheduled_tokens + p'.token_budget
      ≤ sum_values p.num_scheduled_tokens + p.token_budget
  pub token_budget : p.token_budget ≤ p'.token_budget
  pub req_index : p.req_index ≤ p'.req_index + 1

Less-refl : (p : Progress) → Less p p
Less-refl p = record { total = omega arith; token_budget = omega arith; req_index = omega arith }

module _ (u : Setup) where
  -- A request has computed no more than its tokens and placeholders, and less than the model's limit.
  pub record IsReady (q : Request u.floats) : Type 0 where
    pub known : q.num_computed_tokens ≤ num_tokens u.floats q + q.num_output_placeholders
    pub fits : q.num_computed_tokens < u.max_model_len

  abbrev pub Ready : Scheduler u → Type 0
  Ready s = (x : Ref) → IsReady (s.store x)

  -- One request less runs, and the requests stay ready.
  pub record Lowered (s t : Scheduler u) : Type 0 where
    pub running : length t.running + 1 ≡ length s.running
    pub ready : Ready s → Ready t

  max_from-is_in :
      (store : Store u.floats) (best : Ref) (rs : List Ref)
      → is_in (max_from u store best rs) (best ∷ rs) ≡ true
  max_from-is_in store best [] = ground arith
  max_from-is_in store best (r ∷ rs) =
      ground
        (arith, max_from-is_in store (if is_after u (store r) (store best) then r else best) rs)

  max_request-is_in :
      (store : Store u.floats) (r : Ref) (rs : List Ref)
      → max_request u store rs ≡ some r
      → is_in r rs ≡ true
  max_request-is_in store r [] h = cc
  max_request-is_in store r (x ∷ xs) h = ground (arith, max_from-is_in store x xs, h)

  pub sum_embeds-Ends :
      (P : Scheduler u → Type 0) (features : List MultiModalFeature) (is : List ℕ) (s : Scheduler u)
      → P s
      → Ends IsProper (λ (n : ℕ) t. P t) (sum_embeds features is, s)
  unfolding sum_embeds
  sum_embeds-Ends P features [] s h = returns h
  sum_embeds-Ends P features (i ∷ is) s h =
      Ends-then {P = λ m t. P t} _ _ s (Ends-lookup (get_elem? features i) _ s assertion (λ m e. h))
        (λ m k. Ends-then _ _ s (sum_embeds-Ends P features is s k) (λ n l. returns l))

  unscheduled-Less :
      (r : Ref) (id : String) (n embeds : ℕ) (p : Progress)
      → get String_discrete id p.num_scheduled_tokens ≡ some n
      → Less p (unscheduled u r id n embeds p)
  unfolding unscheduled
  unscheduled-Less r id n embeds p known = record {
    total = omega (arith, sum_values-erase_known String_discrete id n p.num_scheduled_tokens known);
    token_budget = omega arith;
    req_index = omega arith;
  }

  unschedule-Ends :
      (r : Ref) (q : Request u.floats) (p : Progress) (s : Scheduler u)
      → Ends IsProper (λ p' t. Less p p') (unschedule u r q p, s)
  unfolding unschedule
  unschedule-Ends r q p s =
      Ends-then {P = λ n t. get String_discrete q.request_id p.num_scheduled_tokens ≡ some n} _ _ s
        (Ends-lookup (get String_discrete q.request_id p.num_scheduled_tokens) _ s key (λ n e. e))
        (λ n known.
          Ends-then {P = λ b t. Unit {0}} _ _ s
            (Ends-lookup (get String_discrete q.request_id p.req_to_new_blocks) _ s key (λ b e. tt))
            (λ b _.
              Ends-then _ _ s (sum_embeds-Ends (λ t. Unit {0}) q.mm_features _ s tt)
                (λ embeds _. returns (unscheduled-Less r q.request_id n embeds p known))))

  take_by_priority-Ends :
      (o : Option Ref) (p : Progress) (s : Scheduler u)
      → ((r : Ref) → o ≡ some r → is_in r s.running ≡ true)
      → Ends IsProper (λ a t. Less p a.1 × Lowered s t) (take_by_priority u o p s)
  unfolding take_by_priority
  take_by_priority-Ends none p s runs = raises value
  take_by_priority-Ends (some r) p s runs =
      Ends-then {P = λ p' t. Less p p'} _ _ _
        (if_both
          (λ o. Ends IsProper (λ p' t. Less p p') (o, set_running u (remove_first r s.running) s))
          (is_in r p.scheduled_running_reqs) _ _ (unschedule-Ends r (s.store r) p _)
          (returns (Less-refl p)))
        (λ p' less. returns (
          less,
          record { running = remove_first-shorter r s.running (runs r refl); ready = λ h. h },
        ))

  take_last-Ends :
      (o : Option Ref) (p : Progress) (s : Scheduler u)
      → last s.running ≡ o
      → Ends IsProper (λ a t. Less p a.1 × Lowered s t) (take_last u o p s)
  unfolding take_last
  take_last-Ends none p s e = raises index
  take_last-Ends (some r) p s e =
      returns (Less-refl p, record { running = without_last-shorter r s.running e; ready = λ h. h })

  take_lowest-Ends :
      (policy : Policy) (p : Progress) (s : Scheduler u)
      → Ends IsProper (λ a t. Less p a.1 × Lowered s t) (take_lowest u policy p s)
  unfolding take_lowest
  take_lowest-Ends Policy.priority p s =
      take_by_priority-Ends (max_request u s.store s.running) p s
        (λ r. max_request-is_in s.store r s.running)
  take_lowest-Ends Policy.fcfs p s = take_last-Ends (last s.running) p s refl

  preempted-IsReady : (q : Request u.floats) → IsReady q → IsReady (preempted u q)
  unfolding preempted record_event
  preempted-IsReady q h =
      let fits : 0 < u.max_model_len = omega (arith, h.fits) in
      if_both IsReady u.log_stats _ _ (record { known = omega arith; fits = fits })
        (record { known = omega arith; fits = fits })

  pub modify-Ready :
      (r : Ref) (g : Request u.floats → Request u.floats) (s : Scheduler u)
      → ((q : Request u.floats) → IsReady q → IsReady (g q))
      → Ready s
      → Ready (modify u r g s)
  unfolding modify
  modify-Ready r g s keep h = λ x. if_both IsReady (x == r) _ _ (keep _ (h x)) (h x)

  pub Same-Ready : {s t : Scheduler u} → Same u s t → Ready s → Ready t
  Same-Ready same h = subst (λ (f : Store u.floats). (x : Ref) → IsReady (f x)) (sym same.store) h

  freed-Same : (r : Ref) (s : Scheduler u) → Same u s (freed u r s)
  unfolding freed
  freed-Same r s = Same-trans u (Same-invoke u _ s) (Same-invoke u _ _)

  pub modify-running :
      (r : Ref) (g : Request u.floats → Request u.floats) (s : Scheduler u)
      → (modify u r g s).running ≡ s.running
  unfolding modify
  modify-running r g s = refl

  preempt_request-Ends :
      (r : Ref) (s : Scheduler u)
      → Ends IsProper (λ a t. (t.running ≡ s.running) × (Ready s → Ready t)) (preempt_request u r s)
  unfolding preempt_request prepend
  preempt_request-Ends r s =
      Ends-if (same_status (s.store r).status RequestStatus.running) _ _
        (λ e. returns {w = prepend u r (modify u r (preempted u) (freed u r s))} (
          modify-running r (preempted u) (freed u r s) ∙ (freed-Same r s).running,
          λ h.
              modify-Ready r (preempted u) (freed u r s) preempted-IsReady
                (Same-Ready (freed-Same r s) h),
        ))
        (λ e. raises assertion)

  preempt_lowest-Ends :
      (p : Progress) (s : Scheduler u)
      → Ends IsProper (λ a t. Less p a.1 × Lowered s t) (preempt_lowest u p s)
  unfolding preempt_lowest
  preempt_lowest-Ends p s = Ends-bind _ _ (take_lowest-Ends u.policy p s) (λ a t h.
      Ends-bind _ _ (preempt_request-Ends a.0 t) (λ _ v k. returns (
        record { total = h.0.total; token_budget = h.0.token_budget; req_index = h.0.req_index },
        record {
          running = ap (λ xs. length xs + 1) k.0 ∙ h.1.running;
          ready = λ ready. k.1 (h.1.ready ready);
        },
      )))

  -- What is the case after requests were preempted for the one at `req_index`.
  pub record Within (p : Progress) (s : Scheduler u) (p' : Progress) (t : Scheduler u)
      : Type 0 where
    pub total :
        sum_values p'.num_scheduled_tokens + p'.token_budget
        ≤ sum_values p.num_scheduled_tokens + p.token_budget
    pub token_budget : p.token_budget ≤ p'.token_budget
    pub left : length t.running + p.req_index ≤ length s.running + p'.req_index
    pub running : length t.running ≤ length s.running
    pub ready : Ready s → Ready t

  Same-Within : (p : Progress) {s t : Scheduler u} → Same u s t → Within p s p t
  Same-Within p same = record {
    total = omega arith;
    token_budget = omega arith;
    left = omega (arith, ap (λ (xs : List Ref). length xs) same.running);
    running = omega (arith, ap (λ (xs : List Ref). length xs) same.running);
    ready = Same-Ready same;
  }

  Lowered-Within :
      (p : Progress) (s : Scheduler u) (p' : Progress) (t : Scheduler u)
      → Less p p'
      → Lowered s t
      → Within p s p' t
  Lowered-Within p s p' t less lowered = record {
    total = less.total;
    token_budget = less.token_budget;
    left = omega (arith, less.req_index, lowered.running);
    running = omega (arith, lowered.running);
    ready = lowered.ready;
  }

  Within-trans :
      {p p' p'' : Progress} {s t v : Scheduler u}
      → Within p s p' t
      → Within p' t p'' v
      → Within p s p'' v
  Within-trans a b = record {
    total = omega (arith, a.total, b.total);
    token_budget = omega (arith, a.token_budget, b.token_budget);
    left = omega (arith, a.left, b.left);
    running = omega (arith, a.running, b.running);
    ready = λ h. b.ready (a.ready h);
  }

  -- The search for slots ends.
  pub make_room-Ends :
      (fuel : ℕ) (r : Ref) (n : ℕ) (p : Progress) (s : Scheduler u)
      → length s.running < fuel
      → Ends IsProper (λ a t. Within p s a.1 t) (make_room u fuel r n p s)
  unfolding make_room
  make_room-Ends zero r n p s h = absurd (omega arith)
  make_room-Ends (suc fuel) r n p s h =
      let asked = Call.allocate_slots (s.store r) n u.num_lookahead_tokens in
      let t = (invoke u asked s).1 in
      let same : Same u s t = Same-invoke u asked s in
      Ends-option (invoke u asked s).0 _ _ (λ b e. returns (Same-Within p same))
        (λ e. Ends-bind (preempt_lowest u p t) _ (preempt_lowest-Ends p t) (λ a v k.
          let here : Within p s a.1 v =
            Within-trans (Same-Within p same) (Lowered-Within p t a.1 v k.0 k.1) in
          Ends-test (a.0 == r) _ _ (λ last. returns here)
            (λ more.
              Ends-weaken _
                (make_room-Ends fuel r n a.1 v
                  (omega (arith, k.1.running, ap (λ (xs : List Ref). length xs) same.running)))
                (λ b w rest. Within-trans here rest))))
