-- ===== src/Request/Tokens.antt =====
-- The tokens of a request are those of its prompt and, after them, its output.
use edmm.Prelude.{
  ℕ, zero, suc, ◌+◌, ◌≡◌, refl, sym, ap, subst, List, [], ◌++◌, Option, none, some, arith, length,
  length-append, append_assoc, append-nil,
}
use edmm.Floats.{Floats}
use edmm.Gpu.{Tensor}
use edmm.Request.{
  Request, Arguments, SamplingParams, StructuredOutput, ok, append_output_token_ids, new_request,
  num_tokens, num_output_tokens, zeros, limits, or_else, >>=-eq-ok, ok_injective,
}

length-zeros : (n : ℕ) → length (zeros n) ≡ n
length-zeros zero = refl
length-zeros (suc n) = ap suc (length-zeros n)

length-prompt :
    (prompt_length : Option (List ℕ) → Option Tensor → ℕ) (o : Option (List ℕ)) (e : Option Tensor)
    → ((ts : List ℕ) (e' : Option Tensor) → prompt_length (some ts) e' ≡ length ts)
    → length (or_else o (zeros (prompt_length o e))) ≡ prompt_length o e
length-prompt prompt_length none e law = length-zeros (prompt_length none e)
length-prompt prompt_length (some ts) e law = sym (law ts e)

module _ (f : Floats) where
  -- `prompt_token_ids`, or `[0] * num_prompt_tokens` for a prompt of embeddings.
  abbrev pub prompt_of : Request f → List ℕ
  prompt_of r = or_else r.prompt_token_ids (zeros r.num_prompt_tokens)

module _ (f : Floats) (block_hasher : Request f → List ℕ) where
  -- The tokens are those of the prompt, which are as many as it counts, and then the output.
  pub record IsConsistent (r : Request f) : Type 0 where
    pub prompt_length : length (prompt_of f r) ≡ r.num_prompt_tokens
    pub tokens : r.all_token_ids ≡ prompt_of f r ++ r.output_token_ids

  -- Appending output keeps a request consistent, and makes the output longer by what is appended.
  pub append_output-IsConsistent :
      (r : Request f) (ts : List ℕ)
      → IsConsistent r
      → IsConsistent (append_output_token_ids f block_hasher r ts)
        × (num_output_tokens f (append_output_token_ids f block_hasher r ts)
            ≡ num_output_tokens f r + length ts)
        × (num_tokens f (append_output_token_ids f block_hasher r ts)
            ≡ r.num_prompt_tokens
              + num_output_tokens f (append_output_token_ids f block_hasher r ts))
  unfolding append_output_token_ids
  append_output-IsConsistent r ts c = (
    record {
      prompt_length = c.prompt_length;
      tokens = rw c.tokens (append_assoc (prompt_of f r) r.output_token_ids ts);
    },
    length-append r.output_token_ids ts,
    omega (
      arith,
      ap length c.tokens,
      length-append r.all_token_ids ts,
      length-append r.output_token_ids ts,
      length-append (prompt_of f r) r.output_token_ids,
      c.prompt_length,
    ),
  )

  -- If the prompt's length is that of its tokens wherever it has any, a new request keeps the prompt
  -- that it is given, its tokens are those of the prompt, or as many zeros as it counts, and it has no
  -- output.
  pub new_request-IsConsistent :
      (prompt_length : Option (List ℕ) → Option Tensor → ℕ)
      (structured : Option SamplingParams → Option StructuredOutput) (now : f.Float)
      (a : Arguments f) (r : Request f)
      → ((ts : List ℕ) (e : Option Tensor) → prompt_length (some ts) e ≡ length ts)
      → new_request f block_hasher prompt_length structured now a ≡ ok r
      → IsConsistent r
        × (r.prompt_token_ids ≡ a.prompt_token_ids)
        × (r.all_token_ids ≡ prompt_of f r)
        × (r.output_token_ids ≡ [])
  unfolding new_request
  new_request-IsConsistent prompt_length structured now a r law e =
      let (l, _, made) =
        >>=-eq-ok (limits a.sampling_params a.pooling_params (structured a.sampling_params)) _ e in
      subst
        (λ (q : Request f).
          IsConsistent q
          × (q.prompt_token_ids ≡ a.prompt_token_ids)
          × (q.all_token_ids ≡ prompt_of f q)
          × (q.output_token_ids ≡ []))
        (ok_injective made)
        (
          record {
            prompt_length = length-prompt prompt_length a.prompt_token_ids a.prompt_embeds law;
            tokens = sym (append-nil _);
          },
          refl,
          refl,
          refl,
        )
