-- ===== src/Scheduler/Cached/Columns.antt =====
-- `_make_cached_request_data`: the columns of its record, request by request.
use edmm.Prelude.{
  ℕ, suc, ◌+◌, ◌≤◌, String, List, [], ◌∷◌, ◌++◌, map, Option, none, some, Bool, true, false,
  if◌then◌else◌, leb, length, ◌≡◌, refl, sym, ap, append_assoc, append-nil, length-append, ◌∙◌,
  arith, String_discrete, leb-true,
}
use edmm.Prelude.Dict.{Dict, get}
use edmm.Prelude.Effect.{Outcome, ok, raised}
use edmm.Prelude.Partial.{◌>>=◌, or_raise}
use edmm.Prelude.Sets.{member}
use edmm.Request.{num_output_tokens}
use edmm.Scheduler.State.{Setup, Scheduler, Ref, Error, key_error, assertion_error}
use edmm.Scheduler.Cached.{
  CachedRequestData, no_data, sent_tokens, note_resumed, add_cached_request, add_cached_requests,
  make_cached_request_data,
}

module _ {X : Type 0} (P : Outcome Error CachedRequestData → Type 0) (e : Error)
    (k : X → Outcome Error CachedRequestData) (kept : (x : X) → P (k x)) where
  after_lookup : (o : Option X) → (o ≡ none → P (raised e)) → P (or_raise o e >>= k)
  after_lookup none missing = missing refl
  after_lookup (some x) missing = kept x

  after_sent :
      (c : Bool) (o : Option ℕ) (f : ℕ → X) (x : X)
      → (o ≡ none → P (raised e))
      → P ((if c then or_raise o e >>= (λ n. ok (f n)) else ok x) >>= k)
  after_sent true none f x missing = missing refl
  after_sent true (some n) f x missing = kept (f n)
  after_sent false o f x missing = kept x

  after_note :
      (b c : Bool) (x y : X)
      → (b ≡ true → c ≡ true → P (raised e))
      → P ((if b then if c then raised e else ok x else ok y) >>= k)
  after_note true true x y away = away refl refl
  after_note true false x y away = kept x
  after_note false c x y away = kept y

module _ (u : Setup) (Blocks : Type 0) (get_block_ids : Blocks → Option (List (List ℕ)))
    (s : Scheduler u) (num_scheduled_tokens : Dict String ℕ)
    (spec_decode_tokens : Dict String (List ℕ)) (req_to_new_blocks : Dict String Blocks)
    (num_running_reqs : ℕ) where
  abbrev id : Ref → String
  id r = (s.store r).request_id

  -- Why the record is not made: a request has no number of scheduled tokens, or no new blocks, or it
  -- comes back although it was scheduled in the step before.
  pub data Misses : ℕ → List Ref → Error → Type 0 where
    unscheduled :
        {i : ℕ} {r : Ref} {rs : List Ref}
        → get String_discrete (id r) num_scheduled_tokens ≡ none
        → Misses i (r ∷ rs) key_error
    no_blocks :
        {i : ℕ} {r : Ref} {rs : List Ref}
        → get String_discrete (id r) req_to_new_blocks ≡ none
        → Misses i (r ∷ rs) key_error
    not_away :
        {i : ℕ} {r : Ref} {rs : List Ref}
        → num_running_reqs ≤ i
        → member String_discrete (id r) s.prev_step_scheduled_req_ids ≡ true
        → Misses i (r ∷ rs) assertion_error
    later :
        {i : ℕ} {r : Ref} {rs : List Ref} {e : Error} → Misses (suc i) rs e → Misses i (r ∷ rs) e

  -- The columns after the requests, from what they were before.
  pub record Columns (rs : List Ref) (d d' : CachedRequestData) : Type 0 where
    pub req_ids : d'.req_ids ≡ d.req_ids ++ map id rs
    pub num_computed_tokens :
        d'.num_computed_tokens
        ≡ d.num_computed_tokens ++ map (λ r. (s.store r).num_computed_tokens) rs
    pub num_output_tokens :
        d'.num_output_tokens
        ≡ d.num_output_tokens
          ++ map
              (λ r. num_output_tokens u.floats (s.store r) + (s.store r).num_output_placeholders)
              rs
    pub new_block_ids : length d'.new_block_ids ≡ length d.new_block_ids + length rs

  pub data Made (i : ℕ) (rs : List Ref) (d : CachedRequestData)
      : Outcome Error CachedRequestData → Type 0 where
    raises : {e : Error} → Misses i rs e → Made i rs d (raised e)
    returns : {d' : CachedRequestData} → Columns rs d d' → Made i rs d (ok d')

  add_cached_request-Made :
      (i : ℕ) (r : Ref) (d : CachedRequestData)
      → Made i (r ∷ []) d (
          add_cached_request u Blocks get_block_ids s num_scheduled_tokens spec_decode_tokens
            req_to_new_blocks
            (leb num_running_reqs i)
            (s.store r)
            d)
  unfolding add_cached_request sent_tokens note_resumed
  add_cached_request-Made i r d =
      after_sent (Made i (r ∷ []) d) key_error _
        (λ sent.
          after_note (Made i (r ∷ []) d) assertion_error _
            (λ ids.
              after_lookup (Made i (r ∷ []) d) key_error _
                (λ blocks. returns (record {
                  req_ids = refl;
                  num_computed_tokens = refl;
                  num_output_tokens = refl;
                  new_block_ids = length-append d.new_block_ids (get_block_ids blocks ∷ []);
                }))
                _ (λ missing. raises (no_blocks missing)))
            _ _ _ _
            (λ resumed scheduled.
              raises (not_away (leb-true num_running_reqs i resumed) scheduled)))
        _ _ _ _ (λ missing. raises (unscheduled missing))

  Misses-head :
      {i : ℕ} {r : Ref} {rs : List Ref} {e : Error} → Misses i (r ∷ []) e → Misses i (r ∷ rs) e
  Misses-head (unscheduled missing) = unscheduled missing
  Misses-head (no_blocks missing) = no_blocks missing
  Misses-head (not_away at scheduled) = not_away at scheduled
  Misses-head (later none_left) = elim none_left [ ]

  Columns-cons :
      (r : Ref) (rs : List Ref) (d d' d'' : CachedRequestData)
      → Columns (r ∷ []) d d'
      → Columns rs d' d''
      → Columns (r ∷ rs) d d''
  Columns-cons r rs d d' d'' one rest = record {
    req_ids = rest.req_ids ∙ ap (λ xs. xs ++ map id rs) one.req_ids ∙ append_assoc d.req_ids _ _;
    num_computed_tokens =
        rest.num_computed_tokens
        ∙ ap (λ xs. xs ++ map (λ r. (s.store r).num_computed_tokens) rs) one.num_computed_tokens
        ∙ append_assoc d.num_computed_tokens _ _;
    num_output_tokens =
        rest.num_output_tokens
        ∙ ap
            (λ xs.
              xs
              ++ map
                  (λ r.
                    num_output_tokens u.floats (s.store r) + (s.store r).num_output_placeholders)
                  rs)
            one.num_output_tokens
        ∙ append_assoc d.num_output_tokens _ _;
    new_block_ids = omega (arith, rest.new_block_ids, one.new_block_ids);
  }

  Made-cons :
      (i : ℕ) (r : Ref) (rs : List Ref) (d : CachedRequestData)
      (k : CachedRequestData → Outcome Error CachedRequestData)
      → ((d' : CachedRequestData) → Made (suc i) rs d' (k d'))
      → (m : Outcome Error CachedRequestData) → Made i (r ∷ []) d m
      → Made i (r ∷ rs) d (m >>= k)
  Made-cons i r rs d k after _ (raises why) = raises (Misses-head why)
  Made-cons i r rs d k after _ (returns {d'} one) = on (k d') (after d')
    where
      on : (m : Outcome Error CachedRequestData) → Made (suc i) rs d' m → Made i (r ∷ rs) d m
      on _ (raises why) = raises (later why)
      on _ (returns rest) = returns (Columns-cons r rs d _ _ one rest)

  add_cached_requests-Made :
      (i : ℕ) (rs : List Ref) (d : CachedRequestData)
      → Made i rs d (
          add_cached_requests u Blocks get_block_ids s num_scheduled_tokens spec_decode_tokens
            req_to_new_blocks num_running_reqs i rs d)
  unfolding add_cached_requests
  add_cached_requests-Made i [] d = returns (record {
    req_ids = sym (append-nil d.req_ids);
    num_computed_tokens = sym (append-nil d.num_computed_tokens);
    num_output_tokens = sym (append-nil d.num_output_tokens);
    new_block_ids = omega arith;
  })
  add_cached_requests-Made i (r ∷ rs) d =
      Made-cons i r rs d _ (add_cached_requests-Made (suc i) rs) _ (add_cached_request-Made i r d)

module _ (u : Setup) (Blocks : Type 0) (get_block_ids : Blocks → Option (List (List ℕ)))
    (s : Scheduler u) (num_scheduled_tokens : Dict String ℕ)
    (spec_decode_tokens : Dict String (List ℕ)) (req_to_new_blocks : Dict String Blocks) where
  -- The record of the running and the resumed requests is made, and has for each of them, in this
  -- order, its id, its numbers of computed and of output tokens, and an entry of new blocks; or a
  -- KeyError is raised and some request has no scheduled tokens or no blocks, or an assertion fails
  -- and a resumed request was scheduled in the step before.
  pub make_cached-Made :
      (running_reqs resumed_reqs : List Ref)
      → Made u Blocks get_block_ids s num_scheduled_tokens spec_decode_tokens req_to_new_blocks
          (length running_reqs)
          0
          (running_reqs ++ resumed_reqs)
          no_data
          (make_cached_request_data u Blocks get_block_ids s num_scheduled_tokens spec_decode_tokens
            req_to_new_blocks running_reqs resumed_reqs)
  unfolding make_cached_request_data
  make_cached-Made running_reqs resumed_reqs =
      add_cached_requests-Made u Blocks get_block_ids s num_scheduled_tokens spec_decode_tokens
        req_to_new_blocks (length running_reqs) 0 (running_reqs ++ resumed_reqs) no_data
