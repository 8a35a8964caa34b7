-- ===== src/Scheduler/Encoder/Quiet.antt =====
-- `_try_schedule_encoder_inputs`: what it raises, and what it leaves alone.
use edmm.Prelude.{
  ℕ, suc, List, [], ◌∷◌, ◌&&◌, ◌||◌, not, ltb, leb, ◌==◌, if_both, String_discrete, ◌+◌,
}
use edmm.Prelude.Effect.{Outcome, ok}
use edmm.Prelude.Ends.{Ends, raises, returns}
use edmm.Prelude.Sets.{member}
use edmm.Request.{Request, MultiModalFeature, has_encoder_inputs}
use edmm.Scheduler.State.{Setup, Scheduler, Ref, Call, Error, invoke}
use edmm.Scheduler.State.Proper.{IsProper, assertion, Same, Same-refl, Same-trans, Same-invoke}
use edmm.Scheduler.Encoder.{
  Plan, Decision, stop, skip, load, compute, load_or_compute, schedule_in_range, fit, look_up,
  at_beginning, decide_input, plan_inputs, go_on, try_schedule_encoder_inputs,
}

module _ (u : Setup) (q : Request u.floats) (nc sh : ℕ) where
  abbrev Quiet : {A : Type 0} → Scheduler u → Outcome Error A × Scheduler u → Type 0
  Quiet s = Ends IsProper (λ a t. Same u s t)

  quiet : {A : Type 0} (a : A) (s t : Scheduler u) → Same u s t → Quiet s (ok a, t)
  quiet a s t same = returns same

  module _ (i : ℕ) (m : MultiModalFeature) (p : Plan) where
    in_range-Quiet :
        (n : ℕ) (s t : Scheduler u) → Same u s t → Quiet s (schedule_in_range u q nc sh m n t)
    unfolding schedule_in_range load_or_compute
    in_range-Quiet n s t same = if_both (Quiet s) _ _ _ (quiet skip s t same) (
        if_both (Quiet s) u.has_ec_connector _ _
          (quiet _ s _ (Same-trans u same (Same-invoke u (Call.has_cache_item m.identifier) t)))
          (quiet compute s t same))

    fit-Quiet : (s t : Scheduler u) → Same u s t → Quiet s (fit u q nc sh i m p t)
    unfolding fit
    fit-Quiet s t same =
        let asked = Call.can_allocate q i p.encoder_compute_budget p.num_embeds_to_schedule in
        let same' : Same u s (invoke u asked t).1 = Same-trans u same (Same-invoke u asked t) in
        if_both (Quiet s)
          (u.disable_chunked_mm_input
            && (ltb nc m.offset && ltb (nc + p.num_new_tokens) (m.offset + m.num_tokens)))
          _ _ (quiet _ s t same)
          (if_both (Quiet s) (invoke u asked t).0 _ _ (in_range-Quiet p.num_new_tokens s _ same')
            (quiet _ s _ same'))

    look_up-Quiet : (s t : Scheduler u) → Same u s t → Quiet s (look_up u q nc sh i m p t)
    unfolding look_up
    look_up-Quiet s t same =
        let asked = Call.check_and_update_cache q i in
        let same' : Same u s (invoke u asked t).1 = Same-trans u same (Same-invoke u asked t) in
        if_both (Quiet s) u.is_encoder_decoder _ _ (fit-Quiet s t same) (
          if_both (Quiet s) (member String_discrete m.identifier p.mm_hashes_to_schedule) _ _
            (quiet skip s t same)
            (if_both (Quiet s) (invoke u asked t).0 _ _ (quiet skip s _ same')
              (fit-Quiet s _ same')))

    decide-Quiet : (s t : Scheduler u) → Same u s t → Quiet s (decide_input u q nc sh i m p t)
    unfolding decide_input at_beginning
    decide-Quiet s t same =
        if_both (Quiet s) (leb (nc + p.num_new_tokens + sh) m.offset) _ _ (quiet _ s t same) (
          if_both (Quiet s) (u.is_encoder_decoder && ltb 0 nc) _ _
            (if_both (Quiet s) (m.offset == 0) _ _ (quiet skip s t same) (raises assertion))
            (if_both (Quiet s) (leb (m.offset + m.num_tokens) nc) _ _ (quiet skip s t same)
              (look_up-Quiet s t same)))

    go_on-Quiet :
        (s : Scheduler u) (rest : Plan → Scheduler u → Outcome Error Plan × Scheduler u)
        → ((p' : Plan) (t : Scheduler u) → Same u s t → Quiet s (rest p' t))
        → (d : Outcome Error Decision × Scheduler u) → Quiet s d
        → Quiet s (go_on u q nc sh i m p rest d)
    unfolding go_on
    go_on-Quiet s rest after _ (raises e) = raises e
    go_on-Quiet s rest after _ (returns {a = stop n} {w = t} same) = returns same
    go_on-Quiet s rest after _ (returns {a = skip} {w = t} same) = after _ t same
    go_on-Quiet s rest after _ (returns {a = load} {w = t} same) = after _ t same
    go_on-Quiet s rest after _ (returns {a = compute} {w = t} same) = after _ t same

  plan_inputs-Quiet :
      (i : ℕ) (ms : List MultiModalFeature) (p : Plan) (s t : Scheduler u)
      → Same u s t
      → Quiet s (plan_inputs u q nc sh i ms p t)
  unfolding plan_inputs
  plan_inputs-Quiet i [] p s t same = returns same
  plan_inputs-Quiet i (m ∷ ms) p s t same =
      go_on-Quiet i m p s _ (λ p' v same'. plan_inputs-Quiet (suc i) ms p' s v same') _
        (decide-Quiet i m p s t same)

module _ (u : Setup) (r : Ref) (s : Scheduler u) where
  pub try_schedule_encoder_inputs-Same :
      (nc n budget sh : ℕ)
      → Ends IsProper
          (λ (plan : Plan) t. Same u s t)
          (try_schedule_encoder_inputs u r nc n budget sh s)
  unfolding try_schedule_encoder_inputs
  try_schedule_encoder_inputs-Same nc n budget sh =
      if_both (Quiet u (s.store r) nc sh s)
        (n == 0 || not (has_encoder_inputs u.floats (s.store r))) _ _ (returns (Same-refl u s))
        (plan_inputs-Quiet u (s.store r) nc sh 0 (s.store r).mm_features _ s s (Same-refl u s))
