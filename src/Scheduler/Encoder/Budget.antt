-- ===== src/Scheduler/Encoder/Budget.antt =====
-- `_try_schedule_encoder_inputs`: the new tokens and the encoder's budget.
use edmm.Prelude.{
  ℕ, suc, ◌+◌, ◌≤◌, List, [], ◌∷◌, ◌++◌, Bool, true, false, if◌then◌else◌, ◌&&◌, ltb, leb, ◌==◌,
  ◌≡◌, refl, sym, ap, ◌∙◌, subst, arith, if_both, if_cases, String_discrete, not, ◌||◌,
}
use edmm.Prelude.Effect.{Outcome, ok, raised}
use edmm.Prelude.Sets.{member}
use edmm.Request.{Request, MultiModalFeature, has_encoder_inputs}
use edmm.Scheduler.State.{Setup, Scheduler, Ref, Call, Error, invoke}
use edmm.Scheduler.Encoder.{
  Plan, Decision, stop, skip, load, compute, embeds_at, tokens_before, load_or_compute,
  schedule_in_range, fit, look_up, at_beginning, decide_input, note_loaded, note_computed,
  plan_inputs, go_on, try_schedule_encoder_inputs,
}

plus_none : (i : ℕ) → 0 + i ≡ i
plus_none i = omega arith

shifted : (k i : ℕ) → suc k + i ≡ k + suc i
shifted k i = omega arith

module _ (u : Setup) (q : Request u.floats) where
  -- The cache manager grants only an input whose embeddings fit in the budget.
  abbrev pub GrantsFitting : Type 0
  GrantsFitting =
      (i budget n : ℕ) (st : u.Services)
      → (u.answer (Call.can_allocate q i budget n) st).0 ≡ true
      → embeds_at q.mm_features i ≤ budget

  -- The embeddings of the inputs at a list of indices.
  abbrev pub total_embeds : List ℕ → ℕ
  total_embeds [] = 0
  total_embeds (i ∷ is) = embeds_at q.mm_features i + total_embeds is

  -- No more tokens than there were, and what is left of the budget is what the inputs to compute leave.
  pub data Kept (num_new_tokens budget : ℕ) : Outcome Error Plan × Scheduler u → Type 0 where
    fails : {e : Error} {s : Scheduler u} → Kept num_new_tokens budget (raised e, s)
    returns :
        {p : Plan} {s : Scheduler u}
        → p.num_new_tokens ≤ num_new_tokens
        → p.encoder_compute_budget + total_embeds p.encoder_inputs_to_schedule ≡ budget
        → Kept num_new_tokens budget (ok p, s)

module _ (u : Setup) (q : Request u.floats) (num_computed_tokens shift_computed_tokens : ℕ) where
  -- A stop takes no more tokens than there were, and what is computed fits.
  data Sound (m : MultiModalFeature) (p : Plan)
      : Outcome Error Decision × Scheduler u → Type 0 where
    raises : {e : Error} {s : Scheduler u} → Sound m p (raised e, s)
    stops : {n : ℕ} {s : Scheduler u} → n ≤ p.num_new_tokens → Sound m p (ok (stop n), s)
    skips : {s : Scheduler u} → Sound m p (ok skip, s)
    loads : {s : Scheduler u} → Sound m p (ok load, s)
    computes :
        {s : Scheduler u} → m.num_embeds ≤ p.encoder_compute_budget → Sound m p (ok compute, s)

  module _ (grants : GrantsFitting u q) (i : ℕ) (m : MultiModalFeature) (p : Plan)
      (here : embeds_at q.mm_features i ≡ m.num_embeds) where
    loads-Sound :
        (has : Bool) (t : Scheduler u)
        → m.num_embeds ≤ p.encoder_compute_budget
        → Sound m p (ok (if has then load else compute), t)
    loads-Sound true t fits = loads
    loads-Sound false t fits = computes fits

    schedule_in_range-Sound :
        (s : Scheduler u)
        → m.num_embeds ≤ p.encoder_compute_budget
        → Sound m p
            (schedule_in_range u q num_computed_tokens shift_computed_tokens m p.num_new_tokens s)
    unfolding schedule_in_range load_or_compute
    schedule_in_range-Sound s fits =
        if_both (Sound m p) _ _ _ skips
          (if_both (Sound m p) u.has_ec_connector _ _ (loads-Sound _ _ fits) (computes fits))

    granted-Sound :
        (granted : Bool) (s : Scheduler u)
        → (granted ≡ true → m.num_embeds ≤ p.encoder_compute_budget)
        → tokens_before u q num_computed_tokens shift_computed_tokens m.offset ≤ p.num_new_tokens
        → Sound m p (
            if granted
            then schedule_in_range u q num_computed_tokens shift_computed_tokens m p.num_new_tokens
                s
            else (
              ok (stop (tokens_before u q num_computed_tokens shift_computed_tokens m.offset)),
              s,
            ))
    granted-Sound true s fits short = schedule_in_range-Sound s (fits refl)
    granted-Sound false s fits short = stops short

    fit-Sound :
        (s : Scheduler u)
        → tokens_before u q num_computed_tokens shift_computed_tokens m.offset ≤ p.num_new_tokens
        → Sound m p (fit u q num_computed_tokens shift_computed_tokens i m p s)
    unfolding fit invoke
    fit-Sound s short =
        if_both (Sound m p)
          (u.disable_chunked_mm_input
            && (ltb num_computed_tokens m.offset
                && ltb (num_computed_tokens + p.num_new_tokens) (m.offset + m.num_tokens)))
          _ _ (stops {s = s} short)
          (granted-Sound _ _
            (λ granted.
              subst (λ n. n ≤ p.encoder_compute_budget) here
                (grants i _ p.num_embeds_to_schedule s.services granted))
            short)

    cached-Sound :
        (cached : Bool) (s : Scheduler u)
        → tokens_before u q num_computed_tokens shift_computed_tokens m.offset ≤ p.num_new_tokens
        → Sound m p (
            if cached
            then (ok skip, s)
            else fit u q num_computed_tokens shift_computed_tokens i m p s)
    cached-Sound true s short = skips
    cached-Sound false s short = fit-Sound s short

    look_up-Sound :
        (s : Scheduler u)
        → tokens_before u q num_computed_tokens shift_computed_tokens m.offset ≤ p.num_new_tokens
        → Sound m p (look_up u q num_computed_tokens shift_computed_tokens i m p s)
    unfolding look_up
    look_up-Sound s short = if_both (Sound m p) u.is_encoder_decoder _ _ (fit-Sound s short) (
        if_both (Sound m p) (member String_discrete m.identifier p.mm_hashes_to_schedule) _ _
          (skips {s = s}) (cached-Sound _ _ short))

    at_beginning-Sound :
        (start_pos : ℕ) (s : Scheduler u)
        → Sound m p (at_beginning u q num_computed_tokens shift_computed_tokens start_pos s)
    unfolding at_beginning
    at_beginning-Sound start_pos s =
        if_both (Sound m p) (start_pos == 0) _ _ (skips {s = s}) (raises {s = s})

    decide_input-Sound :
        (s : Scheduler u)
        → Sound m p (decide_input u q num_computed_tokens shift_computed_tokens i m p s)
    unfolding decide_input
    decide_input-Sound s =
        if_cases (Sound m p)
          (leb (num_computed_tokens + p.num_new_tokens + shift_computed_tokens) m.offset) _ _
          (λ beyond. stops {s = s} (omega arith))
          (λ inside.
            if_both (Sound m p) (u.is_encoder_decoder && ltb 0 num_computed_tokens) _ _
              (at_beginning-Sound m.offset s)
              (if_both (Sound m p) (leb (m.offset + m.num_tokens) num_computed_tokens) _ _
                (skips {s = s}) (look_up-Sound s (ground (arith, inside)))))

  total_embeds-append :
      (is : List ℕ) (i : ℕ)
      → total_embeds u q (is ++ (i ∷ [])) ≡ total_embeds u q is + embeds_at q.mm_features i
  total_embeds-append [] i = omega arith
  total_embeds-append (j ∷ is) i = omega (arith, total_embeds-append is i)

  module _ (num_new_tokens budget : ℕ) (i : ℕ) (m : MultiModalFeature) (p : Plan)
      (here : embeds_at q.mm_features i ≡ m.num_embeds) (short : p.num_new_tokens ≤ num_new_tokens)
      (spent : p.encoder_compute_budget + total_embeds u q p.encoder_inputs_to_schedule
        ≡ budget) where
    go_on-Kept :
        (rest : Plan → Scheduler u → Outcome Error Plan × Scheduler u)
        → ((p' : Plan) (s : Scheduler u)
            → p'.num_new_tokens ≤ num_new_tokens
            → p'.encoder_compute_budget + total_embeds u q p'.encoder_inputs_to_schedule ≡ budget
            → Kept u q num_new_tokens budget (rest p' s))
        → (d : Outcome Error Decision × Scheduler u) → Sound m p d
        → Kept u q num_new_tokens budget
            (go_on u q num_computed_tokens shift_computed_tokens i m p rest d)
    unfolding go_on note_computed note_loaded
    go_on-Kept rest after _ raises = fails
    go_on-Kept rest after _ (stops fewer) = returns (omega arith) spent
    go_on-Kept rest after _ skips = after _ _ short spent
    go_on-Kept rest after _ loads = after _ _ short spent
    go_on-Kept rest after _ (computes fits) =
        after _ _ short (omega (arith, total_embeds-append p.encoder_inputs_to_schedule i))

  module _ (grants : GrantsFitting u q) (num_new_tokens budget : ℕ) where
    plan_inputs-Kept :
        (i : ℕ) (ms : List MultiModalFeature) (p : Plan) (s : Scheduler u)
        → ((k : ℕ) → embeds_at q.mm_features (k + i) ≡ embeds_at ms k)
        → p.num_new_tokens ≤ num_new_tokens
        → p.encoder_compute_budget + total_embeds u q p.encoder_inputs_to_schedule ≡ budget
        → Kept u q num_new_tokens budget
            (plan_inputs u q num_computed_tokens shift_computed_tokens i ms p s)
    unfolding plan_inputs
    plan_inputs-Kept i [] p s same short spent = returns short spent
    plan_inputs-Kept i (m ∷ ms) p s same short spent =
        let here = ap (embeds_at q.mm_features) (sym (plus_none i)) ∙ same 0 in
        go_on-Kept num_new_tokens budget i m p here short spent
          (plan_inputs u q num_computed_tokens shift_computed_tokens (suc i) ms)
          (λ p' t short' spent'.
            plan_inputs-Kept (suc i) ms p' t
              (λ k. ap (embeds_at q.mm_features) (sym (shifted k i)) ∙ same (suc k)) short' spent')
          _ (decide_input-Sound grants i m p here s)

module _ (u : Setup) (r : Ref) (s : Scheduler u) where
  -- A step takes no more tokens than asked for, and the encoder's inputs that it computes fit in the
  -- budget: what is left of it and their embeddings make up the budget. The cache manager grants only
  -- an input that fits.
  pub try_schedule_encoder_inputs-Kept :
      (num_computed_tokens num_new_tokens encoder_compute_budget shift_computed_tokens : ℕ)
      → GrantsFitting u (s.store r)
      → Kept u (s.store r) num_new_tokens encoder_compute_budget (
          try_schedule_encoder_inputs u r num_computed_tokens num_new_tokens encoder_compute_budget
            shift_computed_tokens s)
  unfolding try_schedule_encoder_inputs
  try_schedule_encoder_inputs-Kept nc nn b sh grants =
      if_both (Kept u (s.store r) nn b) (nn == 0 || not (has_encoder_inputs u.floats (s.store r))) _
        _ (returns {s = s} (omega arith) (omega arith))
        (plan_inputs-Kept u (s.store r) nc sh grants nn b 0 (s.store r).mm_features _ s
          (λ k. ap (embeds_at (s.store r).mm_features) (omega arith)) (omega arith) (omega arith))
