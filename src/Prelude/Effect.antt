-- ===== src/Prelude/Effect.antt =====
-- Stateful code that may raise: a state and exception monad over any state and exception type.
use mathlib.Core.Path.{◌≡◌, refl}
use mathlib.Core.Logic.{◌⊎◌, inl, inr}

pub data Outcome {ℓ κ} (E : Type ℓ) (A : Type κ) : Type (ℓ ⊔ κ) where
  ok : A → Outcome E A
  raised : E → Outcome E A

-- A computation takes the state and returns its outcome beside the new state. A raise keeps what
-- was done to the state before it.
abbrev pub M {ℓ κ μ} : Type ℓ → Type κ → Type μ → Type (ℓ ⊔ κ ⊔ μ)
M W E A = W → Outcome E A × W

abbrev pub bind {ℓ κ μ ν} :
    {W : Type ℓ} {E : Type κ} {A : Type μ} {B : Type ν}
    → Outcome E A × W
    → (A → M W E B)
    → Outcome E B × W
bind (ok a, w) f = f a w
bind (raised e, w) f = (raised e, w)

infixl 5 ◌>>=◌ ◌>>◌
abbrev pub ◌>>=◌ {ℓ κ μ ν} :
    {W : Type ℓ} {E : Type κ} {A : Type μ} {B : Type ν} → M W E A → (A → M W E B) → M W E B
◌>>=◌ m f w = bind (m w) f

abbrev pub ◌>>◌ {ℓ κ μ ν} :
    {W : Type ℓ} {E : Type κ} {A : Type μ} {B : Type ν} → M W E A → M W E B → M W E B
◌>>◌ m k w = bind (m w) (λ _. k)

module _ {ℓ κ μ} {W : Type ℓ} {E : Type κ} {A : Type μ} where
  abbrev pub pure : A → M W E A
  pure a w = (ok a, w)

  abbrev pub raise : E → M W E A
  raise e w = (raised e, w)

  pub outcome_cases :
      (r : Outcome E A × W)
      → ((a : A) × (w : W) × (r ≡ (ok a, w))) ⊎ ((e : E) × (w : W) × (r ≡ (raised e, w)))
  outcome_cases (ok a, w) = inl (a, w, refl)
  outcome_cases (raised e, w) = inr (e, w, refl)
