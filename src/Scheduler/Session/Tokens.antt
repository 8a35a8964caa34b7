-- ===== src/Scheduler/Session/Tokens.antt =====
-- The tokens of a streaming session stay those of its prompt and its output.
use edmm.Prelude.{
  ℕ, zero, suc, ◌-◌, ◌≤◌, ◌≡◌, refl, sym, subst, ap, ◌∙◌, List, [], ◌∷◌, ◌++◌, some, arith, length,
  take, drop, append-nil, if_both,
}
use edmm.Prelude.Effect.{ok}
use edmm.Request.{Request, StreamingUpdate, or_else, zeros, update_block_hashes, record_event}
use edmm.Request.Tokens.{IsConsistent, prompt_of}
use edmm.Scheduler.State.{Setup, Scheduler, Ref, modify}
use edmm.Scheduler.State.Frame.{modify-store}
use edmm.Scheduler.Waiting.{same_status}
use edmm.Request.Status.{RequestStatus}
use edmm.Scheduler.Session.{
  continued, uncount_streaming, update_request_as_session, continue_with, truncated,
}

minus_zero : (n : ℕ) → n ≡ n - 0
minus_zero n = omega arith

minus_suc : (n m : ℕ) → n - m ≡ suc n - suc m
minus_suc n m = omega arith

module _ {A : Type 0} where
  drop-append : (xs ys : List A) → drop (length xs) (xs ++ ys) ≡ ys
  drop-append [] ys = refl
  drop-append (x ∷ xs) ys = drop-append xs ys

  take-append :
      (xs ys : List A) (n : ℕ) → length xs ≤ n → take n (xs ++ ys) ≡ xs ++ take (n - length xs) ys
  take-append [] ys n h = ap (λ m. take m ys) (minus_zero n)
  take-append (x ∷ xs) ys zero h = let no : ⊥ = omega (arith, h) in elim no [ ]
  take-append (x ∷ xs) ys (suc n) h =
      ap (λ l. x ∷ l) (take-append xs ys n (omega (arith, h)))
      ∙ ap (λ m. x ∷ (xs ++ take m ys)) (minus_suc n (length xs))

module _ (u : Setup) where
  -- The tokens and the prompt of a request that goes on.
  record Continued (update : StreamingUpdate u.floats) (prompt : List ℕ) (q t : Request u.floats)
      : Type 0 where
    pub tokens :
        t.all_token_ids
        ≡ take q.num_computed_tokens q.all_token_ids ++ or_else update.prompt_token_ids []
    pub output : t.output_token_ids ≡ []
    pub prompt_tokens :
        t.prompt_token_ids
        ≡ some (
            (prompt
              ++ take
                  (q.num_computed_tokens - q.num_prompt_tokens)
                  (drop q.num_prompt_tokens q.all_token_ids))
            ++ or_else update.prompt_token_ids [])
    pub num_prompt :
        t.num_prompt_tokens
        ≡ length (
            (prompt
              ++ take
                  (q.num_computed_tokens - q.num_prompt_tokens)
                  (drop q.num_prompt_tokens q.all_token_ids))
            ++ or_else update.prompt_token_ids [])

  continued-Continued :
      (update : StreamingUpdate u.floats) (prompt : List ℕ) (q : Request u.floats)
      → Continued update prompt q (continued u update prompt q)
  unfolding continued truncated update_block_hashes record_event
  continued-Continued update prompt q =
      if_both (Continued update prompt q) u.log_stats _ _
        (record { tokens = refl; output = refl; prompt_tokens = refl; num_prompt = refl })
        (record { tokens = refl; output = refl; prompt_tokens = refl; num_prompt = refl })

  kept_tokens :
      (q : Request u.floats) (prompt : List ℕ)
      → q.all_token_ids ≡ prompt ++ q.output_token_ids
      → length prompt ≡ q.num_prompt_tokens
      → q.num_prompt_tokens ≤ q.num_computed_tokens
      → take q.num_computed_tokens q.all_token_ids
        ≡ prompt
          ++ take
              (q.num_computed_tokens - q.num_prompt_tokens)
              (drop q.num_prompt_tokens q.all_token_ids)
  kept_tokens q prompt all len computed =
      rw (all, sym len)
        (take-append prompt q.output_token_ids q.num_computed_tokens (omega (arith, len, computed))
          ∙ ap (λ l. prompt ++ take (q.num_computed_tokens - length prompt) l)
              (sym (drop-append prompt q.output_token_ids)))

  -- If the request was consistent and its prompt computed, it is consistent again, without output.
  Continued-IsConsistent :
      (update : StreamingUpdate u.floats) (prompt : List ℕ) (q t : Request u.floats)
      → Continued update prompt q t
      → q.all_token_ids ≡ prompt ++ q.output_token_ids
      → length prompt ≡ q.num_prompt_tokens
      → q.num_prompt_tokens ≤ q.num_computed_tokens
      → IsConsistent u.floats u.block_hasher t
  Continued-IsConsistent update prompt q t c all len computed =
      let new = or_else update.prompt_token_ids [] in
      let kept =
        take (q.num_computed_tokens - q.num_prompt_tokens)
          (drop q.num_prompt_tokens q.all_token_ids) in
      let is_prompt : prompt_of u.floats t ≡ (prompt ++ kept) ++ new =
        ap (λ o. or_else o (zeros t.num_prompt_tokens)) c.prompt_tokens in
      record {
        prompt_length = ap length is_prompt ∙ sym c.num_prompt;
        tokens =
            c.tokens
            ∙ ap (λ l. l ++ new) (kept_tokens q prompt all len computed)
            ∙ sym (append-nil ((prompt ++ kept) ++ new))
            ∙ ap (λ o. ((prompt ++ kept) ++ new) ++ o) (sym c.output)
            ∙ ap (λ p. p ++ t.output_token_ids) (sym is_prompt);
      }

  continued_store :
      (r : Ref) (update : StreamingUpdate u.floats) (prompt : List ℕ) (s : Scheduler u)
      → (modify u r (continued u update prompt) (uncount_streaming u (s.store r).status s)).store r
        ≡ continued u update prompt (s.store r)
  unfolding uncount_streaming
  continued_store r update prompt s =
      modify-store u r (continued u update prompt) (uncount_streaming u (s.store r).status s)
      ∙ if_both
          (λ (x : Scheduler u).
            continued u update prompt (x.store r) ≡ continued u update prompt (s.store r))
          (same_status (s.store r).status RequestStatus.waiting_for_streaming_req) _ _ refl refl

  -- The next part of a stream is taken up, if the session has its prompt's tokens, they and the
  -- output are its tokens, and the prompt is computed. The tokens that were computed are then
  -- followed by the new ones, all are the prompt's, and there is no output.
  pub session-IsConsistent :
      (r : Ref) (update : StreamingUpdate u.floats) (prompt : List ℕ) (s : Scheduler u)
      → (s.store r).prompt_token_ids ≡ some prompt
      → (s.store r).all_token_ids ≡ prompt ++ (s.store r).output_token_ids
      → length prompt ≡ (s.store r).num_prompt_tokens
      → (s.store r).num_prompt_tokens ≤ (s.store r).num_computed_tokens
      → (t : Scheduler u) × (update_request_as_session u r update s ≡ (ok tt, t))
        × IsConsistent u.floats u.block_hasher (t.store r)
        × ((t.store r).all_token_ids
            ≡ take (s.store r).num_computed_tokens (s.store r).all_token_ids
              ++ or_else update.prompt_token_ids [])
        × ((t.store r).prompt_token_ids ≡ some (t.store r).all_token_ids)
        × ((t.store r).output_token_ids ≡ [])
  unfolding update_request_as_session continue_with
  session-IsConsistent r update prompt s has all len computed =
      let c =
        subst (Continued update prompt (s.store r)) (sym (continued_store r update prompt s))
          (continued-Continued update prompt (s.store r)) in
      (
        modify u r (continued u update prompt) (uncount_streaming u (s.store r).status s),
        ap (λ o. continue_with u o r update s) has,
        Continued-IsConsistent update prompt (s.store r) _ c all len computed,
        c.tokens,
        c.prompt_tokens
            ∙ ap some (
                sym (
                  c.tokens
                  ∙ ap (λ l. l ++ or_else update.prompt_token_ids [])
                      (kept_tokens (s.store r) prompt all len computed))),
        c.output,
      )
