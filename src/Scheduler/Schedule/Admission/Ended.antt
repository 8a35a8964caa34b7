-- ===== src/Scheduler/Schedule/Admission/Ended.antt =====
-- `schedule`: how the loop over the waiting requests ends, and what it runs.
use edmm.Prelude.{
  ℕ, zero, suc, ◌+◌, ◌≤◌, ◌<◌, List, Option, none, some, Bool, true, false, ◌&&◌, ◌||◌, not, ltb,
  ◌==◌, length, ◌≡◌, refl, ap, ◌∙◌, arith, if_both, ltb-true,
}
use edmm.Prelude.Ends.{Ends, Ends-bind, Ends-weaken, Ends-test, Ends-go, raises, returns}
use edmm.Prelude.Totals.{sum_values}
use edmm.Request.{Request}
use edmm.Scheduler.State.{Setup, Scheduler, Ref}
use edmm.Scheduler.State.Laws.{Laws}
use edmm.Scheduler.State.Proper.{IsProper, assertion, Steady, Steady-trans}
use edmm.Scheduler.Waiting.{
  WaitingQueue, in_waiting, in_skipped, queue_of, nonempty, select_waiting_queue,
  is_blocked_waiting_status,
}
use edmm.Scheduler.Waiting.Select.{HasRequest, select-HasRequest}
use edmm.Scheduler.Waiting.Steady.{promote-Steady}
use edmm.Scheduler.Encoder.Budget.{GrantsFitting}
use edmm.Scheduler.Schedule.Waiting.{Found, Share, Line, pop_from, skip_waiting, exceeds_loras}
use edmm.Scheduler.Schedule.Waiting.Shares.{
  ShareFits, find_computed-Ends, plan_found-Ends, split_plan-Ends,
}
use edmm.Scheduler.Schedule.Admission.{
  admit, admit_if, admit_share, admit_found, visit_unblocked, visit_promoted, visit_waiting,
  visit_selected, schedule_waiting_reqs,
}
use edmm.Scheduler.Schedule.Admission.Admitted.{
  num_waiting, Round, Round-after, stop-Round, Popped, Admitted, await_load-Ends, run_request-Ends,
  allocate_first-Ends,
}

module _ (u : Setup) where
  -- After the loop.
  pub record Ended (w w' : Line u) (t : Scheduler u) : Type 0 where
    pub total :
        sum_values w'.progress.num_scheduled_tokens + w'.progress.token_budget
        ≤ sum_values w.progress.num_scheduled_tokens + w.progress.token_budget
    pub running : length t.running ≤ u.max_num_running_reqs

  module _ (laws : Laws u) where
    pop_from-Popped :
        (which : WaitingQueue) (s : Scheduler u)
        → nonempty u (queue_of u which s) ≡ true
        → Popped u s (pop_from u which s)
    unfolding pop_from
    pop_from-Popped in_waiting s e = record {
      running = refl;
      waits = omega (arith, laws.length-queue_pop s.store s.waiting (ltb-true _ _ e));
    }
    pop_from-Popped in_skipped s e = record {
      running = refl;
      waits = omega (arith, laws.length-queue_pop s.store s.skipped_waiting (ltb-true _ _ e));
    }

    skip-Ends :
        (which : WaitingQueue) (r : Ref) (w : Line u) (s : Scheduler u)
        → nonempty u (queue_of u which s) ≡ true
        → Ends IsProper (Round u w s) (skip_waiting u which r w s)
    unfolding skip_waiting
    skip-Ends which r w s e =
        let popped = pop_from-Popped which s e in
        returns (record {
          total = omega arith;
          running = omega (arith, ap (λ (xs : List Ref). length xs) popped.running);
          left = λ e'. omega (arith, popped.waits);
        })

    admit-Ends :
        (which : WaitingQueue) (r : Ref) (found : Found) (share : Share) (w : Line u)
        (s : Scheduler u)
        → nonempty u (queue_of u which s) ≡ true
        → share.num_new_tokens ≤ w.progress.token_budget
        → Ends IsProper (Round u w s) (admit u which r found share w s)
    unfolding admit
    admit-Ends which r found share w s e fits =
        let t = pop_from u which s in
        let popped = pop_from-Popped which s e in
        Ends-weaken _
          (if_both (Ends IsProper (Admitted u w t)) found.load_kv_async _ _
            (await_load-Ends u r found w t) (run_request-Ends u r found share w t fits))
          (λ a v h. record {
            total = h.total;
            running = omega (arith, ap (λ (xs : List Ref). length xs) popped.running, h.running);
            left = λ e'. omega (
              arith,
              popped.waits,
              ap (λ (q : u.Queue). length (u.elements q)) h.waiting,
              ap (λ (q : u.Queue). length (u.elements q)) h.skipped_waiting,
            );
          })

    -- The queue that was looked at still has the request.
    still :
        (which : WaitingQueue) {s t : Scheduler u}
        → Steady u s t
        → nonempty u (queue_of u which s) ≡ true
        → nonempty u (queue_of u which t) ≡ true
    still in_waiting same e = ap (nonempty u) same.waiting ∙ e
    still in_skipped same e = ap (nonempty u) same.skipped_waiting ∙ e

    admit_if-Ends :
        (which : WaitingQueue) (r : Ref) (found : Found) (share : Share) (w : Line u) (slots : Bool)
        (s : Scheduler u)
        → nonempty u (queue_of u which s) ≡ true
        → share.num_new_tokens ≤ w.progress.token_budget
        → Ends IsProper (Round u w s) (admit_if u which r found share w slots s)
    unfolding admit_if
    admit_if-Ends which r found share w true s e fits = admit-Ends which r found share w s e fits
    admit_if-Ends which r found share w false s e fits = returns (stop-Round u w s)

    admit_share-Ends :
        (which : WaitingQueue) (r : Ref) (found : Found) (w : Line u) (share : Option Share)
        (s : Scheduler u)
        → nonempty u (queue_of u which s) ≡ true
        → ShareFits w.progress.token_budget share
        → Ends IsProper (Round u w s) (admit_share u which r found w share s)
    unfolding admit_share
    admit_share-Ends which r found w none s e fits = returns (stop-Round u w s)
    admit_share-Ends which r found w (some share) s e fits =
        Ends-bind _ _ (allocate_first-Ends u r found share s) (λ slots t same.
          Ends-weaken _ (admit_if-Ends which r found share w slots t (still which same e) fits)
            (λ a v round. Round-after u w a v same round))

    module _ (grants : (q : Request u.floats) → GrantsFitting u q) where
      admit_found-Ends :
          (which : WaitingQueue) (r : Ref) (w : Line u) (found : Option Found) (s : Scheduler u)
          → nonempty u (queue_of u which s) ≡ true
          → Ends IsProper (Round u w s) (admit_found u which r w found s)
      unfolding admit_found
      admit_found-Ends which r w none s e = skip-Ends which r w s e
      admit_found-Ends which r w (some found) s e =
          Ends-bind _ _ (plan_found-Ends u grants r found w.progress s) (λ plan t h.
            Ends-bind _ _ (split_plan-Ends u r found plan w.progress.token_budget t h.0)
              (λ share v k.
                let same = Steady-trans u h.1 k.1 in
                Ends-weaken _ (admit_share-Ends which r found w share v (still which same e) k.0)
                  (λ a z round. Round-after u w a z same round)))

      visit_unblocked-Ends :
          (which : WaitingQueue) (r : Ref) (w : Line u) (s : Scheduler u)
          → nonempty u (queue_of u which s) ≡ true
          → Ends IsProper (Round u w s) (visit_unblocked u which r w s)
      unfolding visit_unblocked
      visit_unblocked-Ends which r w s e =
          if_both (Ends IsProper (Round u w s))
            (exceeds_loras u u.max_loras (s.store r).lora_request w.scheduled_loras) _ _
            (skip-Ends which r w s e)
            (Ends-bind _ _ (find_computed-Ends u r s) (λ found t same.
              Ends-weaken _ (admit_found-Ends which r w found t (still which same e))
                (λ a v round. Round-after u w a v same round)))

      visit_promoted-Ends :
          (which : WaitingQueue) (r : Ref) (w : Line u) (promoted : Bool) (s : Scheduler u)
          → nonempty u (queue_of u which s) ≡ true
          → Ends IsProper (Round u w s) (visit_promoted u which r w promoted s)
      unfolding visit_promoted
      visit_promoted-Ends which r w true s e = visit_unblocked-Ends which r w s e
      visit_promoted-Ends which r w false s e = skip-Ends which r w s e

      visit_waiting-Ends :
          (which : WaitingQueue) (w : Line u) (s : Scheduler u)
          → nonempty u (queue_of u which s) ≡ true
          → Ends IsProper (Round u w s) (visit_waiting u which w s)
      unfolding visit_waiting
      visit_waiting-Ends which w s e =
          let r = u.peek (queue_of u which s) in
          if_both (Ends IsProper (Round u w s)) (is_blocked_waiting_status (s.store r).status) _ _
            (Ends-bind _ _ (promote-Steady u r s) (λ promoted t same.
              Ends-weaken _ (visit_promoted-Ends which r w promoted t (still which same e))
                (λ a v round. Round-after u w a v same round)))
            (visit_unblocked-Ends which r w s e)

      visit_selected-Ends :
          (o : Option WaitingQueue) (w : Line u) (s : Scheduler u)
          → HasRequest u s o
          → Ends IsProper (Round u w s) (visit_selected u o w s)
      unfolding visit_selected
      visit_selected-Ends none w s e = raises assertion
      visit_selected-Ends (some which) w s e = visit_waiting-Ends which w s e

      pub schedule_waiting_reqs-Ended :
          (fuel : ℕ) (w : Line u) (s : Scheduler u)
          → num_waiting u s < fuel
          → length s.running ≤ u.max_num_running_reqs
          → Ends IsProper (Ended w) (schedule_waiting_reqs u fuel w s)
      unfolding schedule_waiting_reqs
      schedule_waiting_reqs-Ended zero w s enough bound = absurd (omega arith)
      schedule_waiting_reqs-Ended (suc fuel) w s enough bound =
          Ends-go
            ((nonempty u s.waiting || nonempty u s.skipped_waiting)
              && (ltb 0 w.progress.token_budget
                  && not (length s.running == u.max_num_running_reqs)))
            _ _
            (λ goes_on.
              Ends-bind _ _
                (visit_selected-Ends (select_waiting_queue u s) w s (select-HasRequest u s))
                (λ a t round.
                  let more : length s.running < u.max_num_running_reqs =
                    ground (arith, goes_on, bound) in
                  Ends-test a.0 _ _
                    (λ again.
                      Ends-weaken _
                        (schedule_waiting_reqs-Ended fuel a.1 t (omega (arith, round.left again))
                          (omega (arith, round.running)))
                        (λ w' v rest. record {
                          total = omega (arith, rest.total, round.total);
                          running = rest.running;
                        }))
                    (λ stops.
                      returns
                        (record { total = round.total; running = omega (arith, round.running) }))))
            (λ stops. returns (record { total = omega arith; running = bound }))
