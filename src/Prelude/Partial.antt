-- ===== src/Prelude/Partial.antt =====
-- Code that changes no state and may raise: outcomes in sequence.
use edmm.Prelude.Effect.{Outcome, ok, raised}
use mathlib.Core.Option.{Option, none, some}
use mathlib.Core.List.{List, ◌∷◌}
use mathlib.Core.Path.{◌≡◌, refl}

infixl 5 ◌>>=◌
abbrev pub ◌>>=◌ {ℓ κ μ} :
    {E : Type ℓ} {A : Type κ} {B : Type μ} → Outcome E A → (A → Outcome E B) → Outcome E B
ok a >>= f = f a
raised e >>= f = raised e

-- `d[k]`: what is found, or the exception.
abbrev pub or_raise {ℓ κ} : {E : Type ℓ} {A : Type κ} → Option A → E → Outcome E A
or_raise none e = raised e
or_raise (some a) e = ok a

-- A list whose head is looked up and whose rest is computed, if both return.
pub cons-ok {ℓ κ} :
    {E : Type ℓ} {A : Type κ} (o : Option A) (e : E) (r : Outcome E (List A)) (ys : List A)
    → (or_raise o e >>= (λ x. r >>= (λ rest. ok (x ∷ rest)))) ≡ ok ys
    → (x : A) × (rest : List A) × (o ≡ some x) × (r ≡ ok rest) × (x ∷ rest ≡ ys)
cons-ok none e r ys h = absurd (cc h)
cons-ok (some x) e (raised e') ys h = absurd (cc h)
cons-ok (some x) e (ok rest) ys h = (x, rest, refl, refl, cc h)
