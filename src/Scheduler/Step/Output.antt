-- ===== src/Scheduler/Step/Output.antt =====
-- `_update_request_with_output`: which of the model's tokens a request takes.
use edmm.Prelude.{
  ℕ, List, [], ◌∷◌, ◌++◌, Bool, true, false, ◌≡◌, refl, sym, ap, ap₂, length, ◌∙◌, subst,
  append-nil, append_assoc, if_both, if_true,
}
use edmm.Request.{Request, append_output_token_ids, or_else, zeros}
use edmm.Request.Tokens.{IsConsistent, prompt_of, append_output-IsConsistent}
use edmm.Scheduler.State.{Setup, Scheduler, Ref, modify}
use edmm.Scheduler.State.Frame.{
  SameQueues, SameQueues-refl, SameQueues-trans, modify-SameQueues, eq_self,
}
use edmm.Scheduler.Step.{append_until_stop}

module _ (u : Setup) where
  -- `check_stop` may set the status and the reason of a stop, and leaves the tokens alone.
  pub record KeepsTokens : Type 0 where
    pub output :
        (q : Request u.floats) (n : ℕ) → (u.check_stop q n).0.output_token_ids ≡ q.output_token_ids
    pub all : (q : Request u.floats) (n : ℕ) → (u.check_stop q n).0.all_token_ids ≡ q.all_token_ids
    pub prompt_tokens :
        (q : Request u.floats) (n : ℕ) → (u.check_stop q n).0.prompt_token_ids ≡ q.prompt_token_ids
    pub prompt :
        (q : Request u.floats) (n : ℕ)
        → (u.check_stop q n).0.num_prompt_tokens ≡ q.num_prompt_tokens

  -- What taking the tokens `new` does to the request at `r`.
  pub record Taken (r : Ref) (new : List ℕ) (s : Scheduler u)
      (result : (List ℕ × Bool) × Scheduler u) : Type 0 where
    -- A part from the start on is kept, all of it unless the request stops.
    pub rest : List ℕ
    pub split : result.0.0 ++ rest ≡ new
    pub whole : result.0.1 ≡ false → rest ≡ []
    -- The output goes on with just these.
    pub output : (result.1.store r).output_token_ids ≡ (s.store r).output_token_ids ++ result.0.0
    pub consistent :
        IsConsistent u.floats u.block_hasher (s.store r)
        → IsConsistent u.floats u.block_hasher (result.1.store r)
    pub same : SameQueues u r s result.1

  module _ (law : KeepsTokens) (r : Ref) where
    appended : ℕ → Scheduler u → Request u.floats
    appended t s = append_output_token_ids u.floats u.block_hasher (s.store r) (t ∷ [])

    one_more : ℕ → Scheduler u → Scheduler u
    one_more t s = modify u r (λ q. (u.check_stop (appended t s) u.max_model_len).0) s

    checked : ℕ → Scheduler u → Request u.floats
    checked t s = (u.check_stop (appended t s) u.max_model_len).0

    store-one_more : (t : ℕ) (s : Scheduler u) → (one_more t s).store r ≡ checked t s
    unfolding one_more checked modify
    store-one_more t s = if_true _ _ (eq_self r)

    output-one_more :
        (t : ℕ) (s : Scheduler u)
        → ((one_more t s).store r).output_token_ids ≡ (s.store r).output_token_ids ++ (t ∷ [])
    unfolding checked appended append_output_token_ids
    output-one_more t s =
        ap (λ (q : Request u.floats). q.output_token_ids) (store-one_more t s)
        ∙ law.output (appended t s) u.max_model_len

    one_more-IsConsistent :
        (t : ℕ) (s : Scheduler u)
        → IsConsistent u.floats u.block_hasher (s.store r)
        → IsConsistent u.floats u.block_hasher ((one_more t s).store r)
    unfolding checked appended
    one_more-IsConsistent t s c =
        let (kept, _, _) =
          append_output-IsConsistent u.floats u.block_hasher (s.store r) (t ∷ []) c in
        let same_prompt : prompt_of u.floats (checked t s) ≡ prompt_of u.floats (appended t s) =
          ap₂ (λ o n. or_else o (zeros n)) (law.prompt_tokens (appended t s) u.max_model_len)
            (law.prompt (appended t s) u.max_model_len) in
        subst (IsConsistent u.floats u.block_hasher) (sym (store-one_more t s)) (record {
          prompt_length =
              ap length same_prompt
              ∙ kept.prompt_length
              ∙ sym (law.prompt (appended t s) u.max_model_len);
          tokens =
              law.all (appended t s) u.max_model_len
              ∙ kept.tokens
              ∙ ap₂ (λ ps ts. ps ++ ts) (sym same_prompt)
                  (sym (law.output (appended t s) u.max_model_len));
        })

    one_more-SameQueues : (t : ℕ) (s : Scheduler u) → SameQueues u r s (one_more t s)
    unfolding one_more
    one_more-SameQueues t s =
        modify-SameQueues u r (λ q. (u.check_stop (appended t s) u.max_model_len).0) s

    -- The tokens after one that does not stop the request.
    Taken-more :
        (t : ℕ) (ts : List ℕ) (s : Scheduler u) (after : (List ℕ × Bool) × Scheduler u)
        → Taken r ts (one_more t s) after
        → Taken r (t ∷ ts) s ((t ∷ after.0.0, after.0.1), after.1)
    Taken-more t ts s after h = record {
      rest = h.rest;
      split = ap (λ xs. t ∷ xs) h.split;
      whole = h.whole;
      output =
          h.output
          ∙ ap (λ xs. xs ++ after.0.0) (output-one_more t s)
          ∙ append_assoc (s.store r).output_token_ids (t ∷ []) after.0.0;
      consistent = λ c. h.consistent (one_more-IsConsistent t s c);
      same = SameQueues-trans u (one_more-SameQueues t s) h.same;
    }

    Taken-last :
        (t : ℕ) (ts : List ℕ) (s : Scheduler u) → Taken r (t ∷ ts) s ((t ∷ [], true), one_more t s)
    Taken-last t ts s = record {
      rest = ts;
      split = refl;
      whole = λ e. cc e;
      output = output-one_more t s;
      consistent = one_more-IsConsistent t s;
      same = one_more-SameQueues t s;
    }

    -- If the test for a stop leaves a request's tokens alone, a request takes a part of the model's
    -- tokens from the start on, all of them unless it stops; its output goes on with just these, it
    -- stays consistent, and the queues and the other requests are as they were.
    pub append_until_stop-Taken :
        (new : List ℕ) (s : Scheduler u) → Taken r new s (append_until_stop u r new s)
    unfolding append_until_stop one_more appended
    append_until_stop-Taken [] s = record {
      rest = [];
      split = refl;
      whole = λ e. refl;
      output = sym (append-nil (s.store r).output_token_ids);
      consistent = λ c. c;
      same = SameQueues-refl u r s;
    }
    append_until_stop-Taken (t ∷ ts) s =
        if_both (Taken r (t ∷ ts) s) (u.check_stop (appended t s) u.max_model_len).1 _ _
          (Taken-last t ts s) (Taken-more t ts s _ (append_until_stop-Taken ts (one_more t s)))
