-- ===== src/Scheduler/Schedule/Admission/Admitted.antt =====
-- `schedule`: what the admission of a waiting request does.
use edmm.Prelude.{
  ℕ, ◌+◌, ◌-◌, ◌≤◌, String, List, [], ◌∷◌, ◌++◌, Bool, true, false, ◌&&◌, length, length-append,
  ◌≡◌, refl, ap, ◌∙◌, arith, if_both, String_discrete,
}
use edmm.Prelude.Dict.{Dict, put}
use edmm.Prelude.Ends.{Ends, Ends-bind, Ends-weaken, Ends-if, Ends-option, raises, returns}
use edmm.Prelude.Totals.{sum_values, sum_values-put}
use edmm.Request.{Request, has_encoder_inputs}
use edmm.Request.Status.{RequestStatus}
use edmm.Scheduler.State.{Setup, Scheduler, Ref, Blocks, Call, invoke, modify}
use edmm.Scheduler.State.Proper.{
  IsProper, runtime, Steady, Steady-refl, Steady-trans, Same-Steady, invoke-Steady, modify-Steady,
}
use edmm.Scheduler.Schedule.{Progress}
use edmm.Scheduler.Schedule.Room.{sum_embeds-Ends}
use edmm.Scheduler.Schedule.Running.Ended.{SameBudget, note_inputs-SameBudget, allocate_inputs-Same}
use edmm.Scheduler.Schedule.Waiting.{Found, Share, Line, encoder_tokens, slot_arguments}
use edmm.Scheduler.Schedule.Admission.{
  notify_slots, let_go, allocate_first, await_load, list_by, admitted, start, start_running,
  append_running, run_request,
}

module _ (u : Setup) where
  notify_slots-Steady :
      (r : Ref) (external : ℕ) (s : Scheduler u) → Steady u s (notify_slots u r external s)
  unfolding notify_slots
  notify_slots-Steady r external s =
      let asked = Call.get_blocks (s.store r).request_id in
      let (blocks, t) = invoke u asked s in
      if_both (Steady u s) u.has_connector _ _
        (Steady-trans u (invoke-Steady u asked s)
          (invoke-Steady u (Call.update_state_after_alloc (t.store r) blocks external) t))
        (Steady-refl u s)

  let_go-Steady : (r : Ref) (s : Scheduler u) → Steady u s (let_go u r s)
  unfolding let_go
  let_go-Steady r s =
      if_both (Steady u s) (has_encoder_inputs u.floats (s.store r)) _ _
        (invoke-Steady u (Call.encoder_free (s.store r)) s) (Steady-refl u s)

  encoder_tokens-Ends :
      (r : Ref) (inputs : List ℕ) (s : Scheduler u)
      → Ends IsProper (λ n t. Steady u s t) (encoder_tokens u r inputs s)
  unfolding encoder_tokens
  encoder_tokens-Ends r inputs s =
      Ends-if (u.is_encoder_decoder && has_encoder_inputs u.floats (s.store r)) _ _
        (λ e.
          sum_embeds-Ends u (λ t. Steady u s t) (s.store r).mm_features inputs s (Steady-refl u s))
        (λ e. returns (Steady-refl u s))

  pub allocate_first-Ends :
      (r : Ref) (found : Found) (share : Share) (s : Scheduler u)
      → Ends IsProper (λ b t. Steady u s t) (allocate_first u r found share s)
  unfolding allocate_first
  allocate_first-Ends r found share s =
      Ends-bind _ _ (encoder_tokens-Ends r share.plan.encoder_inputs_to_schedule s) (λ n t same.
        let asked =
          Call.allocate_waiting (t.store r) (slot_arguments u (t.store r) found share n) in
        let v = (invoke u asked t).1 in
        let next : Steady u s v = Steady-trans u same (invoke-Steady u asked t) in
        Ends-option (invoke u asked t).0 _ _
          (λ b e.
            returns
              (Steady-trans u next (notify_slots-Steady r found.num_external_computed_tokens v)))
          (λ e. returns (Steady-trans u next (let_go-Steady r v))))

  -- After a round: nothing is gained, at most one request more runs, and if the loop goes on, one
  -- request less waits.
  abbrev pub num_waiting : Scheduler u → ℕ
  num_waiting s = length (u.elements s.waiting) + length (u.elements s.skipped_waiting)

  pub record Round (w : Line u) (s : Scheduler u) (a : Bool × Line u) (t : Scheduler u)
      : Type 0 where
    pub total :
        sum_values a.1.progress.num_scheduled_tokens + a.1.progress.token_budget
        ≤ sum_values w.progress.num_scheduled_tokens + w.progress.token_budget
    pub running : length t.running ≤ length s.running + 1
    pub left : a.0 ≡ true → num_waiting t + 1 ≤ num_waiting s

  pub Round-after :
      (w : Line u) {s t : Scheduler u} (a : Bool × Line u) (v : Scheduler u)
      → Steady u s t
      → Round w t a v
      → Round w s a v
  Round-after w a v same round =
      let runs = ap (λ (xs : List Ref). length xs) same.running in
      let waits = ap (λ (q : u.Queue). length (u.elements q)) same.waiting in
      let skips = ap (λ (q : u.Queue). length (u.elements q)) same.skipped_waiting in
      record {
        total = round.total;
        running = omega (arith, runs, round.running);
        left = λ e. omega (arith, waits, skips, round.left e);
      }

  pub stop-Round : (w : Line u) (s : Scheduler u) → Round w s (false, w) s
  stop-Round w s = record { total = omega arith; running = omega arith; left = λ e. absurd (cc e) }

  -- A queue loses its first request.
  pub record Popped (s t : Scheduler u) : Type 0 where
    pub running : t.running ≡ s.running
    pub waits : num_waiting t + 1 ≡ num_waiting s

  -- After the admission of a request that is no longer in its queue.
  pub record Admitted (w : Line u) (s : Scheduler u) (a : Bool × Line u) (t : Scheduler u)
      : Type 0 where
    pub total :
        sum_values a.1.progress.num_scheduled_tokens + a.1.progress.token_budget
        ≤ sum_values w.progress.num_scheduled_tokens + w.progress.token_budget
    pub running : length t.running ≤ length s.running + 1
    pub waiting : t.waiting ≡ s.waiting
    pub skipped_waiting : t.skipped_waiting ≡ s.skipped_waiting

  pub await_load-Ends :
      (r : Ref) (found : Found) (w : Line u) (s : Scheduler u)
      → Ends IsProper (Admitted w s) (await_load u r found w s)
  unfolding await_load modify
  await_load-Ends r found w s = returns (record {
    total = omega arith;
    running = omega arith;
    waiting = refl;
    skipped_waiting = refl;
  })

  list_by-Ends :
      (status : RequestStatus) (r : Ref) (p : Progress) (s : Scheduler u)
      → Ends IsProper (λ p' t. SameBudget u p p' × Steady u s t) (list_by u status r p, s)
  unfolding list_by
  list_by-Ends RequestStatus.waiting r p s =
      returns
        (record { num_scheduled = refl; token_budget = refl; req_index = refl }, Steady-refl u s)
  list_by-Ends RequestStatus.preempted r p s =
      returns
        (record { num_scheduled = refl; token_budget = refl; req_index = refl }, Steady-refl u s)
  list_by-Ends status r p s = raises runtime

  admitted-total :
      (q : Request u.floats) (blocks : Blocks) (share : Share) (w : Line u) (p : Progress)
      → share.num_new_tokens ≤ p.token_budget
      → sum_values (admitted u q blocks share w p).progress.num_scheduled_tokens
          + (admitted u q blocks share w p).progress.token_budget
        ≤ sum_values p.num_scheduled_tokens + p.token_budget
  unfolding admitted
  admitted-total q blocks share w p fits =
      let p' : Progress = record p {
        req_to_new_blocks = put String_discrete q.request_id blocks p.req_to_new_blocks;
        num_scheduled_tokens =
            put String_discrete q.request_id share.num_new_tokens p.num_scheduled_tokens;
        token_budget = p.token_budget - share.num_new_tokens;
      } in
      let noted = note_inputs-SameBudget u q.request_id share.plan p' in
      omega (
        arith,
        ap (λ (d : Dict String ℕ). sum_values d) noted.num_scheduled,
        noted.token_budget,
        sum_values-put String_discrete q.request_id share.num_new_tokens p.num_scheduled_tokens,
      )

  start_running-Ends :
      (r : Ref) (found : Found) (share : Share) (w : Line u) (p : Progress) (s : Scheduler u)
      → share.num_new_tokens ≤ p.token_budget
      → Ends IsProper
          (λ a t.
            (sum_values a.1.progress.num_scheduled_tokens + a.1.progress.token_budget
              ≤ sum_values p.num_scheduled_tokens + p.token_budget)
            × Steady u s t)
          (start_running u r found share w p s)
  unfolding start_running start
  start_running-Ends r found share w p s fits =
      let asked = Call.get_blocks (s.store r).request_id in
      let (blocks, t) = invoke u asked s in
      let v = modify u r (start u found) t in
      returns (
        admitted-total (s.store r) blocks share w p fits,
        Steady-trans u (invoke-Steady u asked s) (
            Steady-trans u (modify-Steady u r (start u found) t) (
              Steady-trans u
                (Same-Steady u (allocate_inputs-Same u r share.plan.encoder_inputs_to_schedule v))
                (Same-Steady u
                  (allocate_inputs-Same u r share.plan.external_load_encoder_input _)))),
      )

  -- One request more runs.
  record Joined (r : Ref) (s t : Scheduler u) : Type 0 where
    running : t.running ≡ s.running ++ (r ∷ [])
    waiting : t.waiting ≡ s.waiting
    skipped_waiting : t.skipped_waiting ≡ s.skipped_waiting

  append_running-Joined : (r : Ref) (s : Scheduler u) → Joined r s (append_running u r s)
  unfolding append_running modify
  append_running-Joined r s =
      if_both (Joined r s) u.log_stats _ _
        (record { running = refl; waiting = refl; skipped_waiting = refl })
        (record { running = refl; waiting = refl; skipped_waiting = refl })

  pub run_request-Ends :
      (r : Ref) (found : Found) (share : Share) (w : Line u) (s : Scheduler u)
      → share.num_new_tokens ≤ w.progress.token_budget
      → Ends IsProper (Admitted w s) (run_request u r found share w s)
  unfolding run_request
  run_request-Ends r found share w s fits =
      let t = append_running u r s in
      let joined = append_running-Joined r s in
      Ends-bind _ _ (list_by-Ends (t.store r).status r w.progress t) (λ p v h.
        Ends-weaken _
          (start_running-Ends r found share w p v (omega (arith, fits, h.0.token_budget)))
          (λ a z k. record {
            total = omega (
              arith,
              k.0,
              ap (λ (d : Dict String ℕ). sum_values d) h.0.num_scheduled,
              h.0.token_budget,
            );
            running = omega (
              arith,
              ap (λ (xs : List Ref). length xs) (k.1.running ∙ h.1.running ∙ joined.running),
              length-append s.running (r ∷ []),
            );
            waiting = k.1.waiting ∙ h.1.waiting ∙ joined.waiting;
            skipped_waiting = k.1.skipped_waiting ∙ h.1.skipped_waiting ∙ joined.skipped_waiting;
          }))
