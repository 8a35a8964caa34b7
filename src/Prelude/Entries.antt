-- ===== src/Prelude/Entries.antt =====
-- What holds of every entry of a dictionary, sums over its values, and its values in the order of
-- its keys.
use mathlib.Core.Path.{◌≡◌, refl, sym, subst, ◌∙◌}
use mathlib.Core.Logic.{ite, if_pos, if_neg}
use mathlib.Core.List.{List, [], ◌∷◌, ◌++◌}
use mathlib.Core.Option.{none, some}
use native.Mathlib.Omega.{arith}
use Prim.Native.Nat.{ℕ, suc, ◌+◌}
use edmm.Prelude.Dict.{Dict, keys, get, put, Distinct, some_injective}

-- How often an element occurs.
unfoldable pub occurrences : {A : Type 0} → Discrete A → A → List A → ℕ
occurrences dec x [] = 0
occurrences dec x (y ∷ s) = let rest = occurrences dec x s in ite (dec y x) (suc rest) rest

pub occurrences-append :
    {A : Type 0} (dec : Discrete A) (x : A) (s s' : List A)
    → occurrences dec x (s ++ s') ≡ occurrences dec x s + occurrences dec x s'
unfolding occurrences
occurrences-append dec x [] s' = omega arith
occurrences-append dec x (y ∷ s) s' = ground (arith, occurrences-append dec x s s')

-- The sum of a measure over a list.
abbrev pub total : {V : Type 0} → (V → ℕ) → List V → ℕ
total f [] = 0
total f (v ∷ vs) = f v + total f vs

module _ {K V : Type 0} where
  abbrev pub values : Dict K V → List V
  values [] = []
  values ((k, v) ∷ d) = v ∷ values d

  abbrev pub AllEntries : (K → V → Type 0) → Dict K V → Type 0
  AllEntries P [] = Unit {0}
  AllEntries P ((k, v) ∷ d) = P k v × AllEntries P d

  module _ (dec : Discrete K) where
    pub total-put_new :
        (f : V → ℕ) (k : K) (v : V) (d : Dict K V)
        → get dec k d ≡ none
        → total f (values (put dec k v d)) ≡ total f (values d) + f v
    unfolding get put
    total-put_new f k v [] h = omega arith
    total-put_new f k v ((j, u) ∷ d) h = ground (arith, total-put_new f k v d)

    pub total-put_known :
        (f : V → ℕ) (k : K) (v u : V) (more : ℕ) (d : Dict K V)
        → get dec k d ≡ some u
        → f v ≡ f u + more
        → total f (values (put dec k v d)) ≡ total f (values d) + more
    unfolding get put
    total-put_known f k v u more [] h e = cc
    total-put_known f k v u more ((j, w) ∷ d) h e = ground (arith, total-put_known f k v u more d)

    pub keys-put_new :
        (k : K) (v : V) (d : Dict K V)
        → get dec k d ≡ none
        → keys (put dec k v d) ≡ keys d ++ (k ∷ [])
    unfolding get put
    keys-put_new k v [] h = refl
    keys-put_new k v ((j, u) ∷ d) h = ground (arith, keys-put_new k v d)

    pub keys-put_known :
        (k : K) (v u : V) (d : Dict K V) → get dec k d ≡ some u → keys (put dec k v d) ≡ keys d
    unfolding get put
    keys-put_known k v u [] h = cc
    keys-put_known k v u ((j, w) ∷ d) h = ground (arith, keys-put_known k v u d)

    pub AllEntries-get :
        (P : K → V → Type 0) (k : K) (v : V) (d : Dict K V)
        → AllEntries P d
        → get dec k d ≡ some v
        → P k v
    unfolding get
    AllEntries-get P k v [] all h = absurd (cc h)
    AllEntries-get P k v ((j, u) ∷ d) all h = elim (dec j k) [
      | yes p ↦
          subst (λ (i : K). P i v) p
            (subst (P j) (some_injective (sym (if_pos (dec j k) p _ _) ∙ h)) all.0)
      | no p ↦ AllEntries-get P k v d all.1 (sym (if_neg (dec j k) p _ _) ∙ h)
    ]

    pub AllEntries-put :
        (P : K → V → Type 0) (k : K) (v : V) (d : Dict K V)
        → P k v
        → AllEntries P d
        → AllEntries P (put dec k v d)
    unfolding put
    AllEntries-put P k v [] p all = (p, tt)
    AllEntries-put P k v ((j, u) ∷ d) p all = elim (dec j k) [
      | yes e ↦
          subst (AllEntries P) (sym (if_pos (dec j k) e _ _))
            (subst (λ (i : K). P i v) (sym e) p, all.1)
      | no e ↦
          subst (AllEntries P) (sym (if_neg (dec j k) e _ _))
            (all.0, AllEntries-put P k v d p all.1)
    ]

    -- Every entry of the first is found in the second.
    abbrev pub Found : Dict K V → Dict K V → Type 0
    Found e d = AllEntries (λ k v. get dec k d ≡ some v) e

    Found-cons :
        (j : K) (u : V) (e d : Dict K V) → get dec j e ≡ none → Found e d → Found e ((j, u) ∷ d)
    unfolding get
    Found-cons j u [] d absent h = tt
    Found-cons j u ((k, v) ∷ e) d absent h = elim (dec k j) [
      | yes p ↦ absurd (cc (sym (if_pos (dec k j) p _ _) ∙ absent))
      | no p ↦ (
        if_neg (dec j k) (λ q. p (sym q)) (some u) (get dec k d) ∙ h.0,
        Found-cons j u e d (sym (if_neg (dec k j) p _ _) ∙ absent) h.1,
      )
    ]

    pub Found-self : (d : Dict K V) → Distinct dec d → Found d d
    unfolding get
    Found-self [] h = tt
    Found-self ((k, v) ∷ d) h =
        (if_pos (dec k k) refl (some v) (get dec k d), Found-cons k v d d h.0 (Found-self d h.1))
