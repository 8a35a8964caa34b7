-- ===== src/Scheduler/Finish/Valid.antt =====
-- The requests that the first pass of `finish_requests` finds are registered, under different ids.
use edmm.Prelude.{
  String, ◌≡◌, refl, sym, subst, ap, ◌∙◌, ◌≢◌, List, [], ◌∷◌, Option, none, some, Bool, true, false,
  if◌then◌else◌, String_discrete, arith,
}
use edmm.Prelude.Dict.{Dict, get, keys, Distinct}
use edmm.Prelude.Sets.{count}
use edmm.Request.Status.{RequestStatus, is_finished}
use edmm.Scheduler.State.{Setup, Scheduler, Ref}
use edmm.Scheduler.Waiting.{same_status}
use edmm.Scheduler.Finish.{valid_requests, add_valid}
use edmm.Scheduler.State.Laws.{NotIn, NoRepeat}
use edmm.Scheduler.Finish.Each.{Apart, Ready, ids}

get-NotIn : (k : String) (d : Dict String Ref) → get String_discrete k d ≡ none → NotIn k (keys d)
unfolding get
get-NotIn k [] h = tt
get-NotIn k ((j, v) ∷ d) h = ground (arith, get-NotIn k d)

pub keys-NoRepeat : (d : Dict String Ref) → Distinct String_discrete d → NoRepeat (keys d)
keys-NoRepeat [] h = tt
keys-NoRepeat ((k, v) ∷ d) (new, h) = (get-NotIn k d new, keys-NoRepeat d h)

module _ (u : Setup) where
  -- Each entry of the dictionary has its request's id; a running request does not wait, and one
  -- that is not running is not among the running ones.
  pub record IsValid (s : Scheduler u) : Type 0 where
    pub distinct : Distinct String_discrete s.requests
    pub keyed :
        (id : String) (r : Ref)
        → get String_discrete id s.requests ≡ some r
        → (s.store r).request_id ≡ id
    pub running_waits :
        (r : Ref)
        → same_status (s.store r).status RequestStatus.running ≡ true
        → (count r (u.elements s.waiting) ≡ 0) × (count r (u.elements s.skipped_waiting) ≡ 0)
    pub waiting_runs :
        (r : Ref)
        → same_status (s.store r).status RequestStatus.running ≡ false
        → count r s.running ≡ 0

  -- A list stays apart, or ready, with or without one more that is.
  pick-Apart :
      (i : Ref → String) (r q : Ref) (b : Bool) (rest : List Ref)
      → i r ≢ i q
      → Apart i r rest
      → Apart i r (if b then rest else q ∷ rest)
  pick-Apart i r q true rest ne h = h
  pick-Apart i r q false rest ne h = (ne, h)

  add-Apart :
      (o : Option Ref) (r : Ref) (rest : List Ref) (s : Scheduler u)
      → ((q : Ref) → o ≡ some q → ids u s r ≢ ids u s q)
      → Apart (ids u s) r rest
      → Apart (ids u s) r (add_valid u o s rest)
  unfolding add_valid
  add-Apart none r rest s ne h = h
  add-Apart (some q) r rest s ne h =
      pick-Apart (ids u s) r q (is_finished (s.store q).status) rest (ne q refl) h

  valid-Apart :
      (r : Ref) (is : List String) (s : Scheduler u)
      → IsValid s
      → NotIn (ids u s r) is
      → Apart (ids u s) r (valid_requests u is s)
  unfolding valid_requests
  valid-Apart r [] s v h = tt
  valid-Apart r (id ∷ is) s v (ne, h) =
      add-Apart (get String_discrete id s.requests) r (valid_requests u is s) s
        (λ q e same. ne (same ∙ v.keyed id q e)) (valid-Apart r is s v h)

  pick-Ready :
      (i : Ref → String) (d : Dict String Ref) (q : Ref) (b : Bool) (rest : List Ref)
      → get String_discrete (i q) d ≡ some q
      → Apart i q rest
      → Ready i d rest
      → Ready i d (if b then rest else q ∷ rest)
  pick-Ready i d q true rest known a h = h
  pick-Ready i d q false rest known a h = (known, a, h)

  add-Ready :
      (o : Option Ref) (rest : List Ref) (s : Scheduler u)
      → ((q : Ref) → o ≡ some q → get String_discrete (ids u s q) s.requests ≡ some q)
      → ((q : Ref) → o ≡ some q → Apart (ids u s) q rest)
      → Ready (ids u s) s.requests rest
      → Ready (ids u s) s.requests (add_valid u o s rest)
  unfolding add_valid
  add-Ready none rest s known a h = h
  add-Ready (some q) rest s known a h =
      pick-Ready (ids u s) s.requests q (is_finished (s.store q).status) rest (known q refl)
        (a q refl) h

  pub valid-Ready :
      (is : List String) (s : Scheduler u)
      → IsValid s
      → NoRepeat is
      → Ready (ids u s) s.requests (valid_requests u is s)
  unfolding valid_requests
  valid-Ready [] s v h = tt
  valid-Ready (id ∷ is) s v (new, h) =
      add-Ready (get String_discrete id s.requests) (valid_requests u is s) s
        (λ q e. ap (λ i. get String_discrete i s.requests) (v.keyed id q e) ∙ e)
        (λ q e. valid-Apart q is s v (subst (λ i. NotIn i is) (sym (v.keyed id q e)) new))
        (valid-Ready is s v h)
