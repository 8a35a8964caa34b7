-- ===== src/Scheduler/Schedule/Method/Limits.antt =====
-- `schedule`: the limits on tokens and on running requests.
use edmm.Prelude.{
  ℕ, suc, ◌+◌, ◌≤◌, List, [], Option, none, some, true, ◌&&◌, not, ltb, leb, length, ◌≡◌, refl, ap,
  arith, if_both,
}
use edmm.Prelude.Ends.{Ends, Ends-bind, Ends-if, raises, returns}
use edmm.Prelude.Totals.{sum_values}
use edmm.Request.{Request}
use edmm.Scheduler.State.{Setup, Scheduler, Ref, PauseState, Call, invoke}
use edmm.Scheduler.State.Laws.{Laws}
use edmm.Scheduler.State.Proper.{IsProper, assertion, Same, Same-refl, Same-invoke}
use edmm.Scheduler.Waiting.{nonempty}
use edmm.Scheduler.Encoder.Budget.{GrantsFitting}
use edmm.Scheduler.Schedule.{Progress}
use edmm.Scheduler.Schedule.Room.{Ready, Same-Ready}
use edmm.Scheduler.Schedule.Running.Ended.{schedule_running_reqs-Ended}
use edmm.Scheduler.Schedule.Waiting.{Line}
use edmm.Scheduler.Schedule.Admission.Ended.{schedule_waiting_reqs-Ended}
use edmm.Scheduler.Schedule.Method.{
  token_budget, beginning, running_loras, record_loras, requeue, is_unpaused, schedule_waiting,
  schedule_reqs, keeps_limits,
}

module _ (u : Setup) where
  token_budget-le : (state : PauseState) → token_budget u state ≤ u.max_num_scheduled_tokens
  unfolding token_budget
  token_budget-le PauseState.paused_all = omega arith
  token_budget-le PauseState.paused_new = omega arith
  token_budget-le PauseState.unpaused = omega arith

  record_loras-Ends :
      (o : Option ℕ) (rs : List Ref) (s : Scheduler u)
      → Ends IsProper (λ loras t. Same u s t) (record_loras u o rs s)
  unfolding record_loras
  record_loras-Ends none rs s = returns (Same-refl u s)
  record_loras-Ends (some max_loras) rs s =
      Ends-if (leb (length (running_loras u rs [] s)) max_loras) _ _ (λ e. returns (Same-refl u s))
        (λ e. raises assertion)

  requeue-running : (w : Line u) (s : Scheduler u) → (requeue u w s).running ≡ s.running
  unfolding requeue
  requeue-running w s =
      if_both (λ (t : Scheduler u). t.running ≡ s.running) (nonempty u w.step_skipped_waiting) _ _
        refl refl

  limits-hold :
      (p : Progress) (s : Scheduler u)
      → sum_values p.num_scheduled_tokens ≤ u.max_num_scheduled_tokens
      → length s.running ≤ u.max_num_running_reqs
      → keeps_limits u p s ≡ true
  limits-hold p s tokens running = ground (arith, tokens, running)

  module _ (laws : Laws u) (grants : (q : Request u.floats) → GrantsFitting u q) where
    schedule_waiting-Ends :
        (p : Progress) (loras : List ℕ) (s : Scheduler u)
        → sum_values p.num_scheduled_tokens + p.token_budget ≤ u.max_num_scheduled_tokens
        → length s.running ≤ u.max_num_running_reqs
        → Ends IsProper (λ p' t. keeps_limits u p' t ≡ true) (schedule_waiting u p loras s)
    unfolding schedule_waiting
    schedule_waiting-Ends p loras s total bound =
        let w : Line u = record {
          progress = p;
          scheduled_loras = loras;
          step_skipped_waiting = u.empty_queue;
        } in
        Ends-if (not (ltb 0 (length p.preempted_reqs)) && is_unpaused u s.pause_state) _ _
          (λ e.
            Ends-bind _ _
              (schedule_waiting_reqs-Ended u laws grants
                (suc (length (u.elements s.waiting) + length (u.elements s.skipped_waiting))) w s
                (omega arith) bound)
              (λ w' t ended. returns (
                limits-hold w'.progress (requeue u w' t) (omega (arith, ended.total)) (
                  omega (
                    arith,
                    ended.running,
                    ap (λ (xs : List Ref). length xs) (requeue-running w' t),
                  )))))
          (λ e. returns (limits-hold p s (omega arith) bound))

    -- If the cache manager grants only what fits, the queues keep to what is documented, the requests
    -- are ready and no more of them run than are allowed, both loops end: an exception of the code is
    -- raised, or they return with no more tokens scheduled and no more requests running than are
    -- allowed, so that the method's assertions on this do not fail.
    pub schedule_reqs-Limits :
        (s : Scheduler u)
        → Ready u s
        → length s.running ≤ u.max_num_running_reqs
        → Ends IsProper (λ p t. keeps_limits u p t ≡ true) (schedule_reqs u s)
    unfolding schedule_reqs beginning
    schedule_reqs-Limits s ready bound =
        let t = (invoke u Call.new_step_starts s).1 in
        let same = Same-invoke u Call.new_step_starts s in
        let runs = ap (λ (xs : List Ref). length xs) same.running in
        Ends-bind _ _
          (schedule_running_reqs-Ended u grants (suc (length t.running)) (beginning u t) t
            (omega arith) (Same-Ready u same ready))
          (λ p v ended.
            Ends-bind _ _ (record_loras-Ends u.max_loras p.scheduled_running_reqs v)
              (λ loras w kept.
                schedule_waiting-Ends p loras w
                  (omega (arith, ended.total, token_budget-le t.pause_state))
                  (omega (
                    arith,
                    ended.running,
                    runs,
                    bound,
                    ap (λ (xs : List Ref). length xs) kept.running,
                  ))))
