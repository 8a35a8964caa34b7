-- ===== src/Prelude/Dict.antt =====
-- Python dictionaries: association lists in insertion order, over keys with decidable equality.
use mathlib.Core.Path.{◌≡◌, refl, sym, subst, ◌∙◌}
use mathlib.Core.Logic.{ite, if_pos, if_neg, ◌≢◌}
use mathlib.Core.Bool.{Bool, true, false}
use mathlib.Core.List.{List, [], ◌∷◌}
use mathlib.Core.Option.{Option, none, some}
use native.Mathlib.Omega.{arith}

abbrev pub Dict {ℓ} : Type ℓ → Type ℓ → Type ℓ
Dict K V = List (K × V)

abbrev pub keys {ℓ} : {K V : Type ℓ} → Dict K V → List K
keys [] = []
keys ((k, v) ∷ d) = k ∷ keys d

abbrev pub is_some {ℓ} : {V : Type ℓ} → Option V → Bool
is_some none = false
is_some (some v) = true

pub some_injective {ℓ} : {V : Type ℓ} {a b : V} → some a ≡ some b → a ≡ b
some_injective e = cc

pub none≢some {ℓ} : {V : Type ℓ} {a : V} → none ≡ some a → ⊥
none≢some e = cc

module _ {ℓ} {K V : Type ℓ} (dec : Discrete K) where
  -- `d.get(k)`
  unfoldable pub get : K → Dict K V → Option V
  get k [] = none
  get k ((j, v) ∷ d) = ite (dec j k) (some v) (get k d)

  -- `k in d`
  abbrev pub contains : K → Dict K V → Bool
  contains k d = is_some (get k d)

  -- `d[k] = v`: in place for a known key, at the end for a new one.
  unfoldable pub put : K → V → Dict K V → Dict K V
  put k v [] = (k, v) ∷ []
  put k v ((j, u) ∷ d) = let rest = put k v d in ite (dec j k) ((j, v) ∷ d) ((j, u) ∷ rest)

  -- `d.pop(k, None)`, the dictionary that is left.
  unfoldable pub erase : K → Dict K V → Dict K V
  erase k [] = []
  erase k ((j, u) ∷ d) = let rest = erase k d in ite (dec j k) rest ((j, u) ∷ rest)

  -- Every key occurs once.
  abbrev pub Distinct : Dict K V → Type ℓ
  Distinct [] = Unit
  Distinct ((k, v) ∷ d) = (get k d ≡ none) × Distinct d

  pub get-put :
      (k j : K) (v : V) (d : Dict K V) → get j (put k v d) ≡ ite (dec k j) (some v) (get j d)
  unfolding get put
  get-put k j v [] = refl
  get-put k j v ((i, u) ∷ d) = ground (arith, get-put k j v d)

  pub get-erase : (k j : K) (d : Dict K V) → get j (erase k d) ≡ ite (dec k j) none (get j d)
  unfolding get erase
  get-erase k j [] = ground arith
  get-erase k j ((i, u) ∷ d) = ground (arith, get-erase k j d)

  pub put-Distinct : (k : K) (v : V) (d : Dict K V) → Distinct d → Distinct (put k v d)
  unfolding get put
  put-Distinct k v [] h = (refl, tt)
  put-Distinct k v ((j, u) ∷ d) h = ground (arith, get-put k j v d, put-Distinct k v d h.1)

  pub erase-Distinct : (k : K) (d : Dict K V) → Distinct d → Distinct (erase k d)
  unfolding get erase
  erase-Distinct k [] h = tt
  erase-Distinct k ((j, u) ∷ d) h = ground (arith, get-erase k j d, erase-Distinct k d h.1)

  pub get-put_self : (k : K) (v : V) (d : Dict K V) → get k (put k v d) ≡ some v
  get-put_self k v d = get-put k k v d ∙ if_pos (dec k k) refl (some v) (get k d)

  pub get-put_ne : (k j : K) (v : V) (d : Dict K V) → k ≢ j → get j (put k v d) ≡ get j d
  get-put_ne k j v d h = get-put k j v d ∙ if_neg (dec k j) h (some v) (get j d)

  pub put-put_self : (k : K) (u v : V) (d : Dict K V) → put k v (put k u d) ≡ put k v d
  unfolding put
  put-put_self k u v [] = ground arith
  put-put_self k u v ((j, x) ∷ d) = ground (arith, put-put_self k u v d)

  -- Writing the value that is there changes nothing.
  pub put-get : (k : K) (v : V) (d : Dict K V) → get k d ≡ some v → put k v d ≡ d
  unfolding get put
  put-get k v [] h = cc
  put-get k v ((j, x) ∷ d) h = ground (arith, put-get k v d)

  -- A property of every entry.
  abbrev pub Each {κ} : (K → V → Type κ) → Dict K V → Type (ℓ ⊔ κ)
  Each P d = (k : K) (v : V) → get k d ≡ some v → P k v

  pub put-Each {κ} :
      (P : K → V → Type κ) (k : K) (v : V) (d : Dict K V) → P k v → Each P d → Each P (put k v d)
  put-Each P k v d here h = λ j u e. elim (dec k j) [
    | yes p ↦
        let stored : some v ≡ some u =
          sym (get-put_self k v d) ∙ subst (λ (i : K). get i (put k v d) ≡ some u) (sym p) e in
        subst (λ (i : K). P i u) p (subst (P k) (some_injective stored) here)
    | no p ↦ h j u (sym (get-put_ne k j v d p) ∙ e)
  ]

  pub erase-Each {κ} : (P : K → V → Type κ) (k : K) (d : Dict K V) → Each P d → Each P (erase k d)
  erase-Each P k d h = λ j u e. elim (dec k j) [
    | yes p ↦ absurd (none≢some (sym (if_pos (dec k j) p _ _) ∙ sym (get-erase k j d) ∙ e))
    | no p ↦ h j u (sym (if_neg (dec k j) p _ _) ∙ sym (get-erase k j d) ∙ e)
  ]

  -- Dropping a key that is not there changes nothing.
  pub erase_absent : (k : K) (d : Dict K V) → get k d ≡ none → erase k d ≡ d
  unfolding get erase
  erase_absent k [] h = refl
  erase_absent k ((j, u) ∷ d) h = ground (arith, erase_absent k d)

  pub get-erase_self : (k : K) (d : Dict K V) → get k (erase k d) ≡ none
  get-erase_self k d = get-erase k k d ∙ if_pos (dec k k) refl none (get k d)

  pub get-erase_ne : (k j : K) (d : Dict K V) → k ≢ j → get j (erase k d) ≡ get j d
  get-erase_ne k j d h = get-erase k j d ∙ if_neg (dec k j) h none (get j d)
