-- ===== src/Scheduler/Finish/Each.antt =====
-- What the second pass of `finish_requests` changes.
use edmm.Prelude.{
  ℕ, String, ◌≡◌, refl, sym, subst, ap, ◌∙◌, ◌≢◌, inl, inr, List, [], ◌∷◌, some, true, false, ◌==◌,
  fun_ext, String_discrete, arith, Bool-cases,
}
use edmm.Prelude.Dict.{Dict, get, erase, is_some, get-erase_ne}
use edmm.Prelude.Effect.{ok, bind}
use edmm.Prelude.Sets.{member, count, member-insert_self, member-insert_kept}
use edmm.Request.Status.{RequestStatus, is_finished}
use edmm.Scheduler.State.{Setup, Scheduler, Ref}
use edmm.Scheduler.Finish.{finish_each}
use edmm.Scheduler.Finish.Ended.{Ended, finish_one-Ends}

-- The request at `r` has another id than each of the list.
abbrev pub Apart : (Ref → String) → Ref → List Ref → Type 0
Apart ids r [] = Unit
Apart ids r (q ∷ rs) = (ids r ≢ ids q) × Apart ids r rs

-- The requests are registered, under different ids.
abbrev pub Ready : (Ref → String) → Dict String Ref → List Ref → Type 0
Ready ids d [] = Unit
Ready ids d (r ∷ rs) = (get String_discrete (ids r) d ≡ some r) × Apart ids r rs × Ready ids d rs

beq_false : (a b : ℕ) → a ≢ b → (a == b) ≡ false
beq_false a b ne = ground arith

beq_true : (a b : ℕ) → (a == b) ≡ true → a ≡ b
beq_true a b e = ground arith

count_cons : (q r : ℕ) (rs : List ℕ) → count q (r ∷ rs) ≡ 0 → ((q == r) ≡ false) × (count q rs ≡ 0)
unfolding count
count_cons q r rs h = ground arith

Apart-count : (ids : Ref → String) (r : Ref) (rs : List Ref) → Apart ids r rs → count r rs ≡ 0
unfolding count
Apart-count ids r [] a = refl
Apart-count ids r (q ∷ rs) (ne, a) = ground (arith, Apart-count ids r rs a)

Ready-erase :
    (ids : Ref → String) (d : Dict String Ref) (r : Ref) (rs : List Ref)
    → Apart ids r rs
    → Ready ids d rs
    → Ready ids (erase String_discrete (ids r) d) rs
Ready-erase ids d r [] a h = tt
Ready-erase ids d r (q ∷ rs) (ne, a) (known, apart, ready) = (
  get-erase_ne String_discrete (ids r) (ids q) d ne ∙ known,
  apart,
  Ready-erase ids d r rs a ready,
)

module _ (u : Setup) where
  abbrev pub ids : Scheduler u → Ref → String
  ids s r = (s.store r).request_id

  ids-Ended :
      {r : Ref} {status : RequestStatus} {s t : Scheduler u} → Ended u r status s t → ids t ≡ ids s
  ids-Ended {r} {status} {s} {t} e = fun_ext (λ q. elim (Bool-cases (q == r)) [
    | inl same ↦
        subst (λ x. (t.store x).request_id ≡ (s.store x).request_id) (sym (beq_true q r same))
          e.same_id
    | inr differ ↦ ap (λ x. x.request_id) (e.others q differ)
  ])

  Ready-Ended :
      {r : Ref} {status : RequestStatus} {s t : Scheduler u} (rs : List Ref)
      → Ended u r status s t
      → Apart (ids s) r rs
      → Ready (ids s) s.requests rs
      → Ready (ids t) t.requests rs
  Ready-Ended {r} {s} {t} rs e a h =
      subst (λ i. Ready i t.requests rs) (sym (ids-Ended e))
        (elim e.requests [
          | inl same ↦ subst (λ d. Ready (ids s) d rs) (sym same) h
          | inr erased ↦
              subst (λ d. Ready (ids s) d rs) (sym erased) (Ready-erase (ids s) s.requests r rs a h)
        ])

  -- The requests of the list have the status and count as finished.
  abbrev pub AllEnded : (Ref → String) → RequestStatus → List Ref → Scheduler u → Type 0
  AllEnded i status [] t = Unit
  AllEnded i status (r ∷ rs) t =
      ((t.store r).status ≡ status)
      × (member String_discrete (i r) t.finished_req_ids ≡ true)
      × AllEnded i status rs t

  pub record Finishes (status : RequestStatus) (rs : List Ref) (s t : Scheduler u) : Type 0 where
    pub ended : AllEnded (ids s) status rs t
    pub others : (q : Ref) → count q rs ≡ 0 → t.store q ≡ s.store q
    pub same_ids : ids t ≡ ids s
    pub same_clients : (q : Ref) → (t.store q).client_index ≡ (s.store q).client_index
    pub finished :
        (id : String)
        → member String_discrete id s.finished_req_ids ≡ true
        → member String_discrete id t.finished_req_ids ≡ true
    pub waiting : t.waiting ≡ s.waiting
    pub skipped_waiting : t.skipped_waiting ≡ s.skipped_waiting
    pub running : t.running ≡ s.running
    pub edmm_hook : t.edmm_hook ≡ s.edmm_hook

  same_client-Ended :
      {r : Ref} {status : RequestStatus} {s t : Scheduler u}
      → Ended u r status s t
      → (q : Ref) → (t.store q).client_index ≡ (s.store q).client_index
  same_client-Ended {r} {s} {t} e q = elim (Bool-cases (q == r)) [
    | inl same ↦
        subst (λ x. (t.store x).client_index ≡ (s.store x).client_index) (sym (beq_true q r same))
          e.same_client
    | inr differ ↦ ap (λ x. x.client_index) (e.others q differ)
  ]

  Finishes-nil : (status : RequestStatus) (s : Scheduler u) → Finishes status [] s s
  Finishes-nil status s = record {
    ended = tt;
    others = λ q h. refl;
    same_ids = refl;
    same_clients = λ q. refl;
    finished = λ id h. h;
    waiting = refl;
    skipped_waiting = refl;
    running = refl;
    edmm_hook = refl;
  }

  Finishes-cons :
      {r : Ref} {rs : List Ref} {status : RequestStatus} {s v t : Scheduler u}
      → Apart (ids s) r rs
      → Ended u r status s v
      → Finishes status rs v t
      → Finishes status (r ∷ rs) s t
  Finishes-cons {r} {rs} {status} {s} {v} {t} a e f = record {
    ended = (
      ap (λ x. x.status) (f.others r (Apart-count (ids s) r rs a)) ∙ e.ended,
      f.finished (ids s r) (
          ap (member String_discrete (ids s r)) e.finished_req_ids
          ∙ member-insert_self String_discrete (ids s r) s.finished_req_ids),
      subst (λ i. AllEnded i status rs t) (ids-Ended e) f.ended,
    );
    others = λ q h. let (differ, rest) = count_cons q r rs h in f.others q rest ∙ e.others q differ;
    same_ids = f.same_ids ∙ ids-Ended e;
    same_clients = λ q. f.same_clients q ∙ same_client-Ended e q;
    finished = λ id h. f.finished id (
        ap (member String_discrete id) e.finished_req_ids
        ∙ member-insert_kept String_discrete (ids s r) id s.finished_req_ids h);
    waiting = f.waiting ∙ e.waiting;
    skipped_waiting = f.skipped_waiting ∙ e.skipped_waiting;
    running = f.running ∙ e.running;
    edmm_hook = f.edmm_hook ∙ e.edmm_hook;
  }

  -- The second pass succeeds on registered requests with different ids.
  pub finish_each-Finishes :
      (status : RequestStatus) (rs : List Ref) (s : Scheduler u)
      → (u.has_connector ≡ true → u.supports_hma ≡ true)
      → is_finished status ≡ true
      → Ready (ids s) s.requests rs
      → (t : Scheduler u) × (finish_each u status rs s ≡ (ok tt, t)) × Finishes status rs s t
  unfolding finish_each
  finish_each-Finishes status [] s fits fin h = (s, refl, Finishes-nil status s)
  finish_each-Finishes status (r ∷ rs) s fits fin (known, a, h) =
      let (params, v, e, ended) = finish_one-Ends u r status s fits fin (ap is_some known) in
      let (t, x, f) = finish_each-Finishes status rs v fits fin (Ready-Ended rs ended a h) in
      (t, ap (λ o. bind o (λ _. finish_each u status rs)) e ∙ x, Finishes-cons a ended f)
