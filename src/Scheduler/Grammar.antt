-- ===== src/Scheduler/Grammar.antt =====
-- `get_grammar_bitmask`: the requests whose next token a grammar restricts.
mod Tests
use edmm.Prelude.{
  ℕ, String, List, [], ◌∷◌, Option, none, some, Bool, true, false, if◌then◌else◌, ◌&&◌, not, ◌≡◌,
  refl, ap, ite, arith, String_discrete,
}
use edmm.Prelude.Dict.{Dict, get, keys}
use edmm.Prelude.Sets.{member}
use edmm.Request.{Request}
use edmm.Scheduler.State.{Setup, Scheduler, Ref, Call, invoke}
use edmm.Scheduler.Step.{use_structured_output}

-- What is read of `SchedulerOutput`.
pub record GrammarInput : Type 0 where
  pub has_structured_output_requests : Bool
  pub num_scheduled_tokens : Dict String ℕ
  pub scheduled_spec_decode_tokens : Dict String (List ℕ)

-- `GrammarOutput`, of vLLM.
pub record GrammarOutput : Type 0 where
  pub structured_output_request_ids : List String
  pub bitmask : List ℕ

member-chosen :
    (x y : String) (ys : List String) (b c m : Bool)
    → (y ≡ x → b ≡ c)
    → member String_discrete x ys ≡ (m && c)
    → member String_discrete x (if b then y ∷ ys else ys) ≡ (ite (String_discrete y x) true m && c)
unfolding member
member-chosen x y ys true true m same h = ground (arith, h)
member-chosen x y ys true false m same h = ground (arith, h, same)
member-chosen x y ys false true m same h = ground (arith, h, same)
member-chosen x y ys false false m same h = ground (arith, h)

module _ (u : Setup) where
  -- A known request with structured output whose prompt is computed.
  abbrev pub is_restricted : Scheduler u → Option Ref → Bool
  is_restricted s none = false
  is_restricted s (some r) = use_structured_output u (s.store r) && not (s.store r).is_prefill_chunk

  unfoldable pub restricted : Scheduler u → List String → List String
  unfolding get
  restricted s [] = []
  restricted s (req_id ∷ req_ids) =
      let rest = restricted s req_ids in
      if is_restricted s (get String_discrete req_id s.requests) then req_id ∷ rest else rest

  grammar_of : GrammarInput → List String → Scheduler u → Option GrammarOutput × Scheduler u
  unfolding invoke
  grammar_of scheduler_output [] s = (none, s)
  grammar_of scheduler_output (req_id ∷ req_ids) s =
      let (bitmask, t) =
        invoke u
          (Call.grammar_bitmask s.store s.requests (req_id ∷ req_ids)
            scheduler_output.scheduled_spec_decode_tokens)
          s in
      (some (record { structured_output_request_ids = req_id ∷ req_ids; bitmask = bitmask }), t)

  -- `get_grammar_bitmask`
  unfoldable pub get_grammar_bitmask :
      GrammarInput → Scheduler u → Option GrammarOutput × Scheduler u
  unfolding restricted grammar_of
  get_grammar_bitmask scheduler_output s =
      if scheduler_output.has_structured_output_requests
      then grammar_of scheduler_output (restricted s (keys scheduler_output.num_scheduled_tokens)) s
      else (none, s)

  -- The requests of the step are restricted that are known, have structured output and are past their
  -- prompts, and no others.
  member-restricted :
      (s : Scheduler u) (x : String) (xs : List String)
      → member String_discrete x (restricted s xs)
        ≡ (member String_discrete x xs && is_restricted s (get String_discrete x s.requests))
  unfolding restricted member
  member-restricted s x [] = refl
  member-restricted s x (y ∷ xs) =
      member-chosen x y (restricted s xs) _ _ (member String_discrete x xs)
        (λ e. ap (λ i. is_restricted s (get String_discrete i s.requests)) e)
        (member-restricted s x xs)
