-- ===== src/Scheduler/Schedule/Waiting/Shares.antt =====
-- `schedule`: how the share of a waiting request is found, and that it fits in the token budget.
use edmm.Prelude.{
  ℕ, ◌+◌, ◌-◌, ◌≤◌, min, Option, none, some, Bool, ◌&&◌, not, ltb, leb, ◌==◌, arith, if_both,
}
use edmm.Prelude.Ends.{Ends, Ends-bind, Ends-weaken, Ends-if, raises, returns}
use edmm.Request.{Request, PrefillStats, num_tokens}
use edmm.Scheduler.State.{Setup, Scheduler, Ref, Blocks, Call, invoke}
use edmm.Scheduler.State.Proper.{
  IsProper, assertion, Steady, Steady-refl, Steady-trans, Same-Steady, invoke-Steady, modify-Steady,
}
use edmm.Scheduler.Encoder.{Plan}
use edmm.Scheduler.Encoder.Budget.{GrantsFitting}
use edmm.Scheduler.Schedule.{Progress}
use edmm.Scheduler.Schedule.Running.{cap_prefill}
use edmm.Scheduler.Schedule.Running.Ended.{plan_encoder-Ends, split-Ends}
use edmm.Scheduler.Schedule.Waiting.{
  Found, Share, find_external, note_prefill, track_prefill, check_found, find_computed,
  unless_empty, plan_tokens, plan_found, split_plan,
}

-- No more new tokens than there is budget.
abbrev pub PlanFits : ℕ → Option Plan → Type 0
PlanFits budget none = Unit {0}
PlanFits budget (some plan) = plan.num_new_tokens ≤ budget

abbrev pub ShareFits : ℕ → Option Share → Type 0
ShareFits budget none = Unit {0}
ShareFits budget (some share) = share.num_new_tokens ≤ budget

module _ (u : Setup) where
  find_external-Steady :
      (q : Request u.floats) (n : ℕ) (s : Scheduler u) → Steady u s (find_external u q n s).1
  unfolding find_external
  find_external-Steady q n s =
      if_both (λ (x : (Option ℕ × Bool) × Scheduler u). Steady u s x.1) u.has_connector _ _
        (invoke-Steady u (Call.get_num_new_matched_tokens q n) s) (Steady-refl u s)

  track_prefill-Ends :
      (r : Ref) (local external : ℕ) (stats : Option PrefillStats) (s : Scheduler u)
      → Ends IsProper (λ a t. Steady u s t) (track_prefill u r local external stats s)
  unfolding track_prefill
  track_prefill-Ends r local external none s = returns (Steady-refl u s)
  track_prefill-Ends r local external (some stats) s =
      Ends-if (leb (local + external) (s.store r).num_prompt_tokens) _ _
        (λ e. returns (modify-Steady u r (note_prefill u local external) s)) (λ e. raises assertion)

  check_found-Ends :
      (r : Ref) (blocks : Blocks) (local : ℕ) (external : Option ℕ × Bool) (s : Scheduler u)
      → Ends IsProper (λ a t. Steady u s t) (check_found u r blocks local external s)
  unfolding check_found
  check_found-Ends r blocks local (none, load_async) s = returns (Steady-refl u s)
  check_found-Ends r blocks local (some external, load_async) s =
      Ends-if (leb (local + external) (num_tokens u.floats (s.store r))) _ _
        (λ e.
          Ends-bind _ _ (track_prefill-Ends r local external (s.store r).prefill_stats s)
            (λ a t same. returns same))
        (λ e. raises assertion)

  pub find_computed-Ends :
      (r : Ref) (s : Scheduler u) → Ends IsProper (λ a t. Steady u s t) (find_computed u r s)
  unfolding find_computed
  find_computed-Ends r s =
      let asked = Call.get_computed_blocks (s.store r) in
      let (found, t) = invoke u asked s in
      let first = invoke-Steady u asked s in
      let (external, v) = find_external u (t.store r) found.1 t in
      Ends-if ((s.store r).num_computed_tokens == 0) _ _
        (λ e. Ends-weaken _ (check_found-Ends r found.0 found.1 external v) (λ a w same.
          Steady-trans u first (Steady-trans u (find_external-Steady (t.store r) found.1 t) same)))
        (λ e. returns (Steady-refl u s))

  unless_empty-PlanFits :
      (b : Bool) (plan : Plan) (budget : ℕ)
      → plan.num_new_tokens ≤ budget
      → PlanFits budget (unless_empty b plan)
  unless_empty-PlanFits b plan budget h =
      if_both (PlanFits budget) (b && (plan.num_new_tokens == 0)) _ _ tt h

  plan_tokens-Ends :
      ((q : Request u.floats) → GrantsFitting u q)
      → (r : Ref) (nc : ℕ) (p : Progress) (s : Scheduler u)
      → Ends IsProper
          (λ plan t. PlanFits p.token_budget plan × Steady u s t)
          (plan_tokens u r nc p s)
  unfolding plan_tokens
  plan_tokens-Ends grants r nc p s =
      let n = cap_prefill u (num_tokens u.floats (s.store r) - nc) in
      Ends-if (not u.enable_chunked_prefill && ltb p.token_budget n) _ _
        (λ e. returns (tt, Steady-refl u s))
        (λ e.
          Ends-if (min n p.token_budget == 0) _ _ (λ e'. raises assertion)
            (λ e'.
              Ends-bind _ _
                (plan_encoder-Ends u r nc (min n p.token_budget) p.encoder_compute_budget s
                  (grants (s.store r)))
                (λ plan t h. returns (
                  unless_empty-PlanFits _ plan p.token_budget (omega (arith, h.0)),
                  Same-Steady u h.1,
                ))))

  pub plan_found-Ends :
      ((q : Request u.floats) → GrantsFitting u q)
      → (r : Ref) (found : Found) (p : Progress) (s : Scheduler u)
      → Ends IsProper
          (λ plan t. PlanFits p.token_budget plan × Steady u s t)
          (plan_found u r found p s)
  unfolding plan_found
  plan_found-Ends grants r found p s =
      Ends-if found.load_kv_async _ _
        (λ e.
          Ends-if (found.num_external_computed_tokens == 0) _ _ (λ e'. raises assertion)
            (λ e'. returns (omega arith, Steady-refl u s)))
        (λ e. plan_tokens-Ends grants r found.num_computed_tokens p s)

  pub split_plan-Ends :
      (r : Ref) (found : Found) (plan : Option Plan) (budget : ℕ) (s : Scheduler u)
      → PlanFits budget plan
      → Ends IsProper
          (λ share t. ShareFits budget share × Steady u s t)
          (split_plan u r found plan s)
  unfolding split_plan
  split_plan-Ends r found none budget s h = returns (tt, Steady-refl u s)
  split_plan-Ends r found (some plan) budget s h =
      Ends-bind _ _
        (split-Ends u r plan.num_new_tokens found.num_new_local_computed_tokens
          found.num_external_computed_tokens s)
        (λ n t k. returns (
          if_both (ShareFits budget) (u.need_mamba_block_aligned_split && (n == 0)) _ _ tt
              (omega (arith, h, k.0)),
          Same-Steady u k.1,
        ))
