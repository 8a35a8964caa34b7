-- ===== src/Scheduler/Finish/Counts.antt =====
-- Where the requests that `finish_requests` finds occur in its lists.
use edmm.Prelude.{
  ℕ, String, ◌≡◌, refl, sym, subst, ap, ◌∙◌, ◌⊎◌, inl, inr, List, [], ◌∷◌, Option, none, some, Bool,
  true, false, if◌then◌else◌, ◌==◌, String_discrete, arith, if_true, if_false, if_neg,
}
use edmm.Prelude.Dict.{get}
use edmm.Prelude.Sets.{member, count}
use edmm.Request.Status.{RequestStatus, is_finished}
use edmm.Scheduler.State.{Setup, Scheduler, Ref}
use edmm.Scheduler.Waiting.{same_status}
use edmm.Scheduler.Finish.{valid_requests, add_valid, running_of, waiting_of, some_of}
use edmm.Scheduler.Finish.Each.{AllEnded}

-- How often an element occurs in a longer list.
count-pick :
    (r q : ℕ) (b : Bool) (rest : List ℕ)
    → (count r rest == 0) ≡ false
    → (count r (if b then rest else q ∷ rest) == 0) ≡ false
unfolding count
count-pick r q true rest h = h
count-pick r q false rest h = ground arith

count-keep :
    (r q : ℕ) (b : Bool) (rest : List ℕ)
    → (count r rest == 0) ≡ false
    → (count r (if b then q ∷ rest else rest) == 0) ≡ false
unfolding count
count-keep r q true rest h = ground arith
count-keep r q false rest h = h

count-head :
    (r q : ℕ) (rs : List ℕ)
    → (count r (q ∷ rs) == 0) ≡ false
    → (q ≡ r) ⊎ ((count r rs == 0) ≡ false)
unfolding count
count-head r q rs h = ground arith

count_self : (r : ℕ) (rest : List ℕ) → (count r (r ∷ rest) == 0) ≡ false
unfolding count
count_self r rest = ground arith

if_zero : (b : Bool) (n : ℕ) → n ≡ 0 → (if b then n else 0) ≡ 0
if_zero true n h = h
if_zero false n h = refl

module _ (u : Setup) where
  count-add_valid :
      (o : Option Ref) (r : Ref) (s : Scheduler u) (rest : List Ref)
      → (count r rest == 0) ≡ false
      → (count r (add_valid u o s rest) == 0) ≡ false
  unfolding add_valid
  count-add_valid none r s rest h = h
  count-add_valid (some q) r s rest h = count-pick r q (is_finished (s.store q).status) rest h

  -- A known request that is not finished is found by its id.
  pub count-valid :
      (id : String) (r : Ref) (is : List String) (s : Scheduler u)
      → get String_discrete id s.requests ≡ some r
      → is_finished (s.store r).status ≡ false
      → member String_discrete id is ≡ true
      → (count r (valid_requests u is s) == 0) ≡ false
  unfolding valid_requests member add_valid
  count-valid id r [] s known live h = cc
  count-valid id r (i ∷ is) s known live h = elim (String_discrete i id) [
    | yes e ↦ rw (e, known, live) (count_self r (valid_requests u is s))
    | no ne ↦ count-add_valid (get String_discrete i s.requests) r s (valid_requests u is s) (
        count-valid id r is s known live
          (sym (if_neg (String_discrete i id) ne true (member String_discrete id is)) ∙ h))
  ]

  pub count-running_of :
      (r : Ref) (rs : List Ref) (s : Scheduler u)
      → same_status (s.store r).status RequestStatus.running ≡ true
      → (count r rs == 0) ≡ false
      → (count r (running_of u rs s) == 0) ≡ false
  unfolding running_of
  count-running_of r [] s e h = h
  count-running_of r (q ∷ rs) s e h = elim (count-head r q rs h) [
    | inl same ↦
        subst
          (λ x.
            (count r (
                if same_status (s.store x).status RequestStatus.running
                then x ∷ running_of u rs s
                else running_of u rs s)
              == 0)
            ≡ false)
          (sym same) (ap (λ l. count r l == 0) (if_true _ _ e) ∙ count_self r (running_of u rs s))
    | inr rest ↦
        count-keep r q (same_status (s.store q).status RequestStatus.running) (running_of u rs s)
          (count-running_of r rs s e rest)
  ]

  pub count-waiting_of :
      (r : Ref) (rs : List Ref) (s : Scheduler u)
      → same_status (s.store r).status RequestStatus.running ≡ false
      → (count r rs == 0) ≡ false
      → (count r (waiting_of u rs s) == 0) ≡ false
  unfolding waiting_of
  count-waiting_of r [] s e h = h
  count-waiting_of r (q ∷ rs) s e h = elim (count-head r q rs h) [
    | inl same ↦
        subst
          (λ x.
            (count r (
                if same_status (s.store x).status RequestStatus.running
                then waiting_of u rs s
                else x ∷ waiting_of u rs s)
              == 0)
            ≡ false)
          (sym same) (ap (λ l. count r l == 0) (if_false _ _ e) ∙ count_self r (waiting_of u rs s))
    | inr rest ↦
        count-pick r q (same_status (s.store q).status RequestStatus.running) (waiting_of u rs s)
          (count-waiting_of r rs s e rest)
  ]

  -- A removal that is only made for a list that is not empty takes what is in the list, and brings
  -- nothing.
  pub some_of-gone :
      {A : Type 0} (c : A → ℕ) (r : Ref) (rs : List Ref) (x y : A)
      → c x ≡ (if count r rs == 0 then c y else 0)
      → ((count r rs == 0) ≡ false) ⊎ (c y ≡ 0)
      → c (some_of u rs x y) ≡ 0
  unfolding count
  some_of-gone c r [] x y e (inl h) = cc
  some_of-gone c r [] x y e (inr h) = h
  some_of-gone c r (q ∷ rs) x y e (inl h) = e ∙ if_false (c y) 0 h
  some_of-gone c r (q ∷ rs) x y e (inr h) = e ∙ if_zero (count r (q ∷ rs) == 0) (c y) h

  pub AllEnded-at :
      (i : Ref → String) (status : RequestStatus) (r : Ref) (rs : List Ref) (t : Scheduler u)
      → AllEnded u i status rs t
      → (count r rs == 0) ≡ false
      → ((t.store r).status ≡ status) × (member String_discrete (i r) t.finished_req_ids ≡ true)
  unfolding count
  AllEnded-at i status r [] t a h = cc
  AllEnded-at i status r (q ∷ rs) t (e, m, a) h = elim (count-head r q rs h) [
    | inl same ↦ (
      subst (λ x. (t.store x).status ≡ status) same e,
      subst (λ x. member String_discrete (i x) t.finished_req_ids ≡ true) same m,
    )
    | inr rest ↦ AllEnded-at i status r rs t a rest
  ]
