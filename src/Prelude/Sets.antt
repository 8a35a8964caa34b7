-- ===== src/Prelude/Sets.antt =====
-- Python sets, as lists in which each element occurs once.
use mathlib.Core.Path.{◌≡◌, refl, ◌∙◌}
use mathlib.Core.Logic.{ite, if_pos, if_neg}
use mathlib.Core.Bool.{Bool, true, false}
use mathlib.Core.List.{List, [], ◌∷◌}
use native.Mathlib.Omega.{arith}
use native.Mathlib.Decide.{ℕ_discrete}
use Prim.Native.Nat.{ℕ, suc}

module _ {A : Type 0} (dec : Discrete A) where
  -- `x in s`
  unfoldable pub member : A → List A → Bool
  member x [] = false
  member x (y ∷ s) = let rest = member x s in ite (dec y x) true rest

  -- `s.add(x)`
  unfoldable pub insert : A → List A → List A
  insert x [] = x ∷ []
  insert x (y ∷ s) = let rest = insert x s in ite (dec y x) (y ∷ s) (y ∷ rest)

  -- `s.discard(x)`
  unfoldable pub discard : A → List A → List A
  discard x [] = []
  discard x (y ∷ s) = let rest = discard x s in ite (dec y x) rest (y ∷ rest)

  pub member-cons_self : (x : A) (s : List A) → member x (x ∷ s) ≡ true
  unfolding member
  member-cons_self x s = if_pos (dec x x) refl true (member x s)

  pub member-cons_kept : (x y : A) (s : List A) → member x s ≡ true → member x (y ∷ s) ≡ true
  unfolding member
  member-cons_kept x y s h = ground (arith, h)

  pub member-insert :
      (x z : A) (s : List A) → member z (insert x s) ≡ ite (dec x z) true (member z s)
  unfolding member insert
  member-insert x z [] = ground arith
  member-insert x z (y ∷ s) = ground (arith, member-insert x z s)

  pub member-insert_self : (x : A) (s : List A) → member x (insert x s) ≡ true
  member-insert_self x s = member-insert x x s ∙ if_pos (dec x x) refl true (member x s)

  pub member-insert_kept : (x z : A) (s : List A) → member z s ≡ true → member z (insert x s) ≡ true
  member-insert_kept x z s h = member-insert x z s ∙ elim (dec x z) [
    | yes e ↦ if_pos (dec x z) e true (member z s)
    | no ne ↦ if_neg (dec x z) ne true (member z s) ∙ h
  ]

  pub member-discard :
      (x z : A) (s : List A) → member z (discard x s) ≡ ite (dec x z) false (member z s)
  unfolding member discard
  member-discard x z [] = ground arith
  member-discard x z (y ∷ s) = ground (arith, member-discard x z s)

-- How often a number occurs.
unfoldable pub count : ℕ → List ℕ → ℕ
count x [] = 0
count x (y ∷ s) = let rest = count x s in ite (ℕ_discrete y x) (suc rest) rest
