-- ===== src/Prelude/Tests.antt =====
-- Boolean tests on the native numbers and on texts, and the conditional.
use Prim.Native.Nat.{ℕ, compare, Ordering, ◌≤◌, ◌<◌}
use Prim.Native.String.{String}
use mathlib.Core.Path.{◌≡◌, refl, ap, ap₂}
use native.Mathlib.Omega.{arith}
use mathlib.Core.Logic.{◌↔◌, ◌⊎◌, inl, inr}
use mathlib.Core.Bool.{Bool, true, false}
use mathlib.Core.Option.{Option, none, some}
use text.Mathlib.Text.{◌==◌ as str_eq}
use text.Mathlib.TextEquality.{eq_iff}

abbrev pub ltb : ℕ → ℕ → Bool
ltb a b = elim (compare a b) [ Ordering.lt ↦ true | _ ↦ false ]

abbrev pub leb : ℕ → ℕ → Bool
leb a b = elim (compare a b) [ Ordering.gt ↦ false | _ ↦ true ]

infix 50 ◌==◌
abbrev pub ◌==◌ : ℕ → ℕ → Bool
a == b = elim (compare a b) [ Ordering.eq ↦ true | _ ↦ false ]

infix 1 if◌then◌else◌
abbrev pub if◌then◌else◌ {ℓ} : {A : Type ℓ} → Bool → A → A → A
if true then x else y = x
if false then x else y = y

pub if_true {ℓ} : {A : Type ℓ} {b : Bool} (x y : A) → b ≡ true → (if b then x else y) ≡ x
if_true x y e = rw e refl

pub if_false {ℓ} : {A : Type ℓ} {b : Bool} (x y : A) → b ≡ false → (if b then x else y) ≡ y
if_false x y e = rw e refl

-- What holds of both branches.
pub if_both {ℓ κ} :
    {A : Type ℓ} (P : A → Type κ) (b : Bool) (x y : A) → P x → P y → P (if b then x else y)
if_both P true x y p q = p
if_both P false x y p q = q

-- To split on a computed value and keep the equation.
pub Bool-cases : (b : Bool) → (b ≡ true) ⊎ (b ≡ false)
Bool-cases true = inl refl
Bool-cases false = inr refl

pub Option-cases {ℓ} : {A : Type ℓ} (o : Option A) → (o ≡ none) ⊎ ((a : A) × (o ≡ some a))
Option-cases none = inl refl
Option-cases (some a) = inr (a, refl)

decide_by : {s t : String} (b : Bool) → ((b ≡ true) ↔ (s ≡ t)) → b ≡ str_eq s t → Dec (s ≡ t)
decide_by true iff _ = yes (iff.0 refl)
decide_by false iff _ = no (λ e. cc (iff.1 e))

-- Texts are keys of dictionaries.
unfoldable pub String_discrete : Discrete String
unfolding decide_by
String_discrete s t = decide_by (str_eq s t) (eq_iff s t) refl

pub text_ne : (s t : String) → str_eq s t ≡ false → s ≡ t → ⊥
text_ne s t differ e = cc (differ, (eq_iff s t).1 e)

-- Pairs are keys too; this decision computes.
unfoldable pub pair_discrete : {A B : Type 0} → Discrete A → Discrete B → Discrete (A × B)
pair_discrete da db x y = elim (da x.0 y.0) [
  | yes p ↦ elim (db x.1 y.1) [
    | yes q ↦ yes (ap₂ (λ a b. (a, b)) p q)
    | no nq ↦ no (λ e. nq (ap (λ z. z.1) e))
  ]
  | no np ↦ no (λ e. np (ap (λ z. z.0) e))
]

-- The same, where each branch knows the test.
pub if_cases {ℓ κ} :
    {A : Type ℓ} (P : A → Type κ) (b : Bool) (x y : A)
    → (b ≡ true → P x)
    → (b ≡ false → P y)
    → P (if b then x else y)
if_cases P true x y p q = p refl
if_cases P false x y p q = q refl

pub leb-true : (m n : ℕ) → leb m n ≡ true → m ≤ n
leb-true m n e = ground (arith, e)

pub ltb-true : (m n : ℕ) → ltb m n ≡ true → m < n
ltb-true m n e = ground (arith, e)
