-- ===== src/Scheduler/Schedule/Running/Ended.antt =====
-- `schedule`: how the loop over the running requests ends, and its token budget.
use edmm.Prelude.{
  ℕ, zero, suc, ◌+◌, ◌-◌, ◌≤◌, ◌<◌, String, List, [], ◌∷◌, ◌++◌, Option, none, some, Bool, true,
  ◌&&◌, ◌||◌, ltb, ◌==◌, length, get_elem?, get_elem?-lt, ◌≡◌, refl, ap, ◌∙◌, arith, if_both,
  String_discrete,
}
use edmm.Prelude.Dict.{Dict, put}
use edmm.Prelude.Effect.{Outcome}
use edmm.Prelude.Ends.{
  Ends, Ends-bind, Ends-weaken, Ends-if, Ends-option, Ends-test, raises, returns,
}
use edmm.Prelude.Totals.{sum_values, sum_values-put}
use edmm.Request.{Request, num_tokens_with_spec, has_encoder_inputs}
use edmm.Scheduler.State.{Setup, Scheduler, Ref, Blocks, Call, Error, invoke, modify}
use edmm.Scheduler.State.Proper.{
  IsProper, assertion, zero_division, Same, Same-refl, Same-trans, Same-invoke,
}
use edmm.Scheduler.Split.{in_prefill, last_cache_position, mamba_block_aligned_split}
use edmm.Scheduler.Split.Aligned.{cut-le}
use edmm.Scheduler.Encoder.{Plan}
use edmm.Scheduler.Encoder.Budget.{GrantsFitting, Kept, fails, try_schedule_encoder_inputs-Kept}
use edmm.Scheduler.Encoder.Quiet.{try_schedule_encoder_inputs-Same}
use edmm.Scheduler.Schedule.{Progress}
use edmm.Scheduler.Schedule.Room.{
  IsReady, Ready, Within, make_room-Ends, Same-Ready, modify-Ready, modify-running,
}
use edmm.Scheduler.Schedule.Running.{
  will_stop, wanted_tokens, shift_computed_tokens, plan_encoder, split, note_drafts, clear_drafts,
  num_scheduled_spec_tokens, allocate_inputs, note_inputs, schedule_running, after_running,
  schedule_or_stop, with_tokens, visit_running, schedule_running_reqs,
}

module _ (u : Setup) where
  wanted-Ends :
      (q : Request u.floats) (budget : ℕ) (s : Scheduler u)
      → IsReady u q
      → Ends IsProper (λ n t. (n ≤ budget) × Same u s t) (wanted_tokens u q budget s)
  unfolding wanted_tokens
  wanted-Ends q budget s h =
      Ends-if
        (ltb (num_tokens_with_spec u.floats q + q.num_output_placeholders) q.num_computed_tokens
          || ltb u.max_model_len (q.num_computed_tokens + 1))
        _ _ (λ e. absurd (ground (arith, e, h.known, h.fits)))
        (λ e. returns (omega arith, Same-refl u s))

  Kept-Ends :
      (q : Request u.floats) (n budget : ℕ) (s : Scheduler u) (x : Outcome Error Plan × Scheduler u)
      → Kept u q n budget x
      → Ends IsProper (λ (plan : Plan) t. Same u s t) x
      → Ends IsProper (λ (plan : Plan) t. (plan.num_new_tokens ≤ n) × Same u s t) x
  Kept-Ends q n budget s _ fails (raises e) = raises e
  Kept-Ends q n budget s _ (Kept.returns less spent) (returns same) = returns (less, same)

  pub plan_encoder-Ends :
      (r : Ref) (nc n budget : ℕ) (s : Scheduler u)
      → GrantsFitting u (s.store r)
      → Ends IsProper
          (λ (plan : Plan) t. (plan.num_new_tokens ≤ n) × Same u s t)
          (plan_encoder u r nc n budget s)
  unfolding plan_encoder
  plan_encoder-Ends r nc n budget s grants =
      Ends-if (has_encoder_inputs u.floats (s.store r)) _ _
        (λ e.
          Kept-Ends (s.store r) n budget s _
            (try_schedule_encoder_inputs-Kept u r s nc n budget (shift_computed_tokens u) grants)
            (try_schedule_encoder_inputs-Same u r s nc n budget (shift_computed_tokens u)))
        (λ e. returns (omega arith, Same-refl u s))

  pub split-Ends :
      (r : Ref) (n num_local num_external : ℕ) (s : Scheduler u)
      → Ends IsProper (λ m t. (m ≤ n) × Same u s t) (split u r n num_local num_external s)
  unfolding split mamba_block_aligned_split
  split-Ends r n num_local num_external s =
      let P = λ (m : ℕ) (t : Scheduler u). (m ≤ n) × Same u s t in
      let at = λ (o : Outcome Error ℕ). Ends IsProper P (o, s) in
      let c = (s.store r).num_computed_tokens + num_local + num_external in
      let same = Same-refl u s in
      if_both (Ends IsProper P) u.need_mamba_block_aligned_split _ _
        (if_both at (num_external == 0) _ _
          (if_both at (in_prefill u (s.store r) c) _ _
            (if_both at (u.block_size == 0) _ _ (raises zero_division)
              (returns (cut-le u.block_size c n (last_cache_position u (s.store r)), same)))
            (returns (omega arith, same)))
          (raises assertion))
        (returns (omega arith, same))

  -- The budgets and the index are not touched.
  pub record SameBudget (p p' : Progress) : Type 0 where
    pub num_scheduled : p'.num_scheduled_tokens ≡ p.num_scheduled_tokens
    pub token_budget : p'.token_budget ≡ p.token_budget
    pub req_index : p'.req_index ≡ p.req_index

  SameBudget-refl : (p : Progress) → SameBudget p p
  SameBudget-refl p = record { num_scheduled = refl; token_budget = refl; req_index = refl }

  pub note_inputs-SameBudget :
      (id : String) (plan : Plan) (p : Progress) → SameBudget p (note_inputs u id plan p)
  unfolding note_inputs
  note_inputs-SameBudget id plan p =
      if_both (SameBudget p) (ltb 0 (length plan.encoder_inputs_to_schedule)) _ _
        (record { num_scheduled = refl; token_budget = refl; req_index = refl }) (SameBudget-refl p)

  forget_drafts : Request u.floats → Request u.floats
  forget_drafts x = record x { spec_token_ids = [] }

  note_drafts-SameBudget :
      (n : ℕ) (q : Request u.floats) (p : Progress) → SameBudget p (note_drafts u n q p)
  unfolding note_drafts
  note_drafts-SameBudget n q p =
      if_both (SameBudget p)
        (ltb 0 (length q.spec_token_ids) && ltb 0 (num_scheduled_spec_tokens u n q)) _ _
        (record { num_scheduled = refl; token_budget = refl; req_index = refl }) (SameBudget-refl p)

  clear_drafts-running : (r : Ref) (s : Scheduler u) → (clear_drafts u r s).running ≡ s.running
  unfolding clear_drafts forget_drafts
  clear_drafts-running r s =
      if_both (λ (t : Scheduler u). t.running ≡ s.running)
        (ltb 0 (length (s.store r).spec_token_ids)) (modify u r forget_drafts s) s
        (modify-running u r forget_drafts s) refl

  clear_drafts-Ready : (r : Ref) (s : Scheduler u) → Ready u s → Ready u (clear_drafts u r s)
  unfolding clear_drafts forget_drafts
  clear_drafts-Ready r s h =
      if_both (Ready u) (ltb 0 (length (s.store r).spec_token_ids)) (modify u r forget_drafts s) s
        (modify-Ready u r forget_drafts s (λ q k. record { known = k.known; fits = k.fits }) h) h

  pub allocate_inputs-Same :
      (r : Ref) (is : List ℕ) (s : Scheduler u) → Same u s (allocate_inputs u r is s)
  unfolding allocate_inputs
  allocate_inputs-Same r [] s = Same-refl u s
  allocate_inputs-Same r (i ∷ is) s =
      let t = (invoke u (Call.encoder_allocate (s.store r) i) s).1 in
      let first : Same u s t = Same-invoke u (Call.encoder_allocate (s.store r) i) s in
      Same-trans u
        (if_both (Same u s) u.has_ec_connector _ _
          (Same-trans u first (Same-invoke u (Call.ec_update_state_after_alloc (t.store r) i) t))
          first)
        (allocate_inputs-Same r is _)

  -- After a round: nothing is gained, no more requests run, they stay ready, and if the loop goes on,
  -- one request less is left.
  record Round (p : Progress) (s : Scheduler u) (a : Bool × Progress) (t : Scheduler u)
      : Type 0 where
    total :
        sum_values a.1.num_scheduled_tokens + a.1.token_budget
        ≤ sum_values p.num_scheduled_tokens + p.token_budget
    running : length t.running ≤ length s.running
    left : a.0 ≡ true → length t.running + p.req_index + 1 ≤ length s.running + a.1.req_index
    ready : Ready u s → Ready u t

  scheduled-Round :
      (r : Ref) (n : ℕ) (blocks : Blocks) (plan : Plan) (p p' : Progress) (s t : Scheduler u)
      → Within u p s p' t
      → n ≤ p'.token_budget
      → Round p s (true, schedule_running u r n blocks plan p' t) (after_running u r plan t)
  unfolding schedule_running after_running
  scheduled-Round r n blocks plan p p' s t within fits =
      let id = (t.store r).request_id in
      let p1 : Progress = record p' {
        scheduled_running_reqs = p'.scheduled_running_reqs ++ (r ∷ []);
        req_to_new_blocks = put String_discrete id blocks p'.req_to_new_blocks;
        num_scheduled_tokens = put String_discrete id n p'.num_scheduled_tokens;
        token_budget = p'.token_budget - n;
        req_index = p'.req_index + 1;
      } in
      let drafts = note_drafts-SameBudget n (t.store r) p1 in
      let noted = note_inputs-SameBudget id plan (note_drafts u n (t.store r) p1) in
      let v = clear_drafts u r t in
      let allocated =
        Same-trans u (allocate_inputs-Same r plan.encoder_inputs_to_schedule v)
          (allocate_inputs-Same r plan.external_load_encoder_input _) in
      let num = noted.num_scheduled ∙ drafts.num_scheduled in
      let budget = noted.token_budget ∙ drafts.token_budget in
      let index = noted.req_index ∙ drafts.req_index in
      let runs = ap (λ (xs : List Ref). length xs) (allocated.running ∙ clear_drafts-running r t) in
      record {
        total = omega (
          arith,
          ap (λ (d : Dict String ℕ). sum_values d) num,
          budget,
          within.total,
          sum_values-put String_discrete id n p'.num_scheduled_tokens,
        );
        running = omega (arith, runs, within.running);
        left = λ e. omega (arith, runs, index, within.left);
        ready = λ h. Same-Ready u allocated (clear_drafts-Ready r t (within.ready h));
      }

  schedule_or_stop-Ends :
      (r : Ref) (n : ℕ) (plan : Plan) (o : Option Blocks) (p p' : Progress) (s t : Scheduler u)
      → Within u p s p' t
      → n ≤ p'.token_budget
      → Ends IsProper (Round p s) (schedule_or_stop u r n plan (o, p') t)
  unfolding schedule_or_stop
  schedule_or_stop-Ends r n plan none p p' s t within fits = returns (record {
    total = within.total;
    running = within.running;
    left = λ e. absurd (cc e);
    ready = within.ready;
  })
  schedule_or_stop-Ends r n plan (some blocks) p p' s t within fits =
      returns (scheduled-Round r n blocks plan p p' s t within fits)

  skip-Round :
      (p : Progress) (s t : Scheduler u)
      → Same u s t
      → Round p s (true, record p { req_index = p.req_index + 1 }) t
  skip-Round p s t same =
      let runs = ap (λ (xs : List Ref). length xs) same.running in
      record {
        total = omega arith;
        running = omega (arith, runs);
        left = λ e. omega (arith, runs);
        ready = Same-Ready u same;
      }

  Round-after :
      (p : Progress) {s t : Scheduler u} (a : Bool × Progress) (v : Scheduler u)
      → Same u s t
      → Round p t a v
      → Round p s a v
  Round-after p a v same round =
      let runs = ap (λ (xs : List Ref). length xs) same.running in
      record {
        total = round.total;
        running = omega (arith, runs, round.running);
        left = λ e. omega (arith, runs, round.left e);
        ready = λ h. round.ready (Same-Ready u same h);
      }

  with_tokens-Ends :
      (r : Ref) (plan : Plan) (p : Progress) (n : ℕ) (s : Scheduler u)
      → n ≤ p.token_budget
      → Ends IsProper (Round p s) (with_tokens u r plan p n s)
  unfolding with_tokens
  with_tokens-Ends r plan p n s fits =
      if_both (Ends IsProper (Round p s)) (n == 0) _ _ (returns (skip-Round p s s (Same-refl u s)))
        (Ends-bind _ _ (make_room-Ends u (suc (length s.running)) r n p s (omega arith))
          (λ a t within.
            schedule_or_stop-Ends r n plan a.0 p a.1 s t within
              (omega (arith, within.token_budget))))

  visit_running-Ends :
      (r : Ref) (p : Progress) (s : Scheduler u)
      → ((q : Request u.floats) → GrantsFitting u q)
      → Ready u s
      → Ends IsProper (Round p s) (visit_running u r p s)
  unfolding visit_running
  visit_running-Ends r p s grants ready =
      if_both (Ends IsProper (Round p s)) (will_stop u (s.store r)) _ _
        (returns (skip-Round p s s (Same-refl u s)))
        (Ends-bind _ _ (wanted-Ends (s.store r) p.token_budget s (ready r)) (λ n t k.
          Ends-bind _ _
            (plan_encoder-Ends r (s.store r).num_computed_tokens n p.encoder_compute_budget t
              (grants (t.store r)))
            (λ plan v m. Ends-bind _ _ (split-Ends r plan.num_new_tokens 0 0 v) (λ x w h.
              Ends-weaken _ (with_tokens-Ends r plan p x w (omega (arith, k.0, m.0, h.0)))
                (λ a z round. Round-after p a z (Same-trans u k.1 (Same-trans u m.1 h.1)) round)))))

  -- After the loop.
  pub record Ended (p : Progress) (s : Scheduler u) (p' : Progress) (t : Scheduler u) : Type 0 where
    pub total :
        sum_values p'.num_scheduled_tokens + p'.token_budget
        ≤ sum_values p.num_scheduled_tokens + p.token_budget
    pub running : length t.running ≤ length s.running
    pub ready : Ready u s → Ready u t

  Ended-refl : (p : Progress) (s : Scheduler u) → Ended p s p s
  Ended-refl p s = record { total = omega arith; running = omega arith; ready = λ h. h }

  Round-Ended :
      {p : Progress} {s : Scheduler u} {a : Bool × Progress} {t : Scheduler u}
      → Round p s a t
      → Ended p s a.1 t
  Round-Ended round = record { total = round.total; running = round.running; ready = round.ready }

  Ended-trans :
      {p p' p'' : Progress} {s t v : Scheduler u}
      → Ended p s p' t
      → Ended p' t p'' v
      → Ended p s p'' v
  Ended-trans a b = record {
    total = omega (arith, a.total, b.total);
    running = omega (arith, a.running, b.running);
    ready = λ h. b.ready (a.ready h);
  }

  -- If the cache manager grants only what fits and the requests are ready, the loop over the running
  -- requests ends: it raises an exception of the code, or returns. Then the tokens that are scheduled
  -- and what is left of the token budget are together no more than before, no more requests run, and
  -- all of them are ready.
  pub schedule_running_reqs-Ended :
      ((q : Request u.floats) → GrantsFitting u q)
      → (fuel : ℕ) (p : Progress) (s : Scheduler u) → length s.running - p.req_index < fuel
      → Ready u s
      → Ends IsProper (Ended p s) (schedule_running_reqs u fuel p s)
  unfolding schedule_running_reqs
  schedule_running_reqs-Ended grants zero p s enough ready = absurd (omega arith)
  schedule_running_reqs-Ended grants (suc fuel) p s enough ready =
      Ends-option (get_elem? s.running p.req_index) _ _
        (λ r e.
          Ends-test (ltb 0 p.token_budget) _ _
            (λ some_left.
              Ends-bind (visit_running u r p s) _ (visit_running-Ends r p s grants ready)
                (λ a t round.
                  Ends-test a.0 _ _
                    (λ goes_on.
                      Ends-weaken _
                        (schedule_running_reqs-Ended grants fuel a.1 t
                          (omega
                            (arith, round.left goes_on, get_elem?-lt s.running p.req_index r e))
                          (round.ready ready))
                        (λ p' v rest. Ended-trans (Round-Ended round) rest))
                    (λ stops. returns (Round-Ended round))))
            (λ none_left. returns (Ended-refl p s)))
        (λ e. returns (Ended-refl p s))
