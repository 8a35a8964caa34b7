-- ===== src/Prelude/Ends.antt =====
-- How code with a state ends: what holds of what it raises, and of what it returns with its state.
use mathlib.Core.Bool.{Bool, true, false}
use mathlib.Core.Option.{Option, none, some}
use mathlib.Core.Path.{◌≡◌, refl}
use edmm.Prelude.Tests.{if◌then◌else◌}
use edmm.Prelude.Partial.{◌>>=◌ as ◌then◌, or_raise}
use edmm.Prelude.Effect.{Outcome, ok, raised, M, bind}

pub data Ends {W E A : Type 0} (R : E → Type 0) (P : A → W → Type 0)
    : Outcome E A × W → Type 0 where
  raises : {e : E} {w : W} → R e → Ends R P (raised e, w)
  returns : {a : A} {w : W} → P a w → Ends R P (ok a, w)

module _ {W E A : Type 0} {R : E → Type 0} where
  -- The rule of sequence.
  pub Ends-bind :
      {B : Type 0} {P : A → W → Type 0} {Q : B → W → Type 0} (x : Outcome E A × W) (f : A → M W E B)
      → Ends R P x
      → ((a : A) (w : W) → P a w → Ends R Q (f a w))
      → Ends R Q (bind x f)
  Ends-bind _ f (raises r) next = raises r
  Ends-bind _ f (returns {a = a} {w = w} p) next = next a w p

  -- The rule of consequence.
  pub Ends-weaken :
      {P Q : A → W → Type 0} (x : Outcome E A × W)
      → Ends R P x
      → ((a : A) (w : W) → P a w → Q a w)
      → Ends R Q x
  Ends-weaken _ (raises r) next = raises r
  Ends-weaken _ (returns {a = a} {w = w} p) next = returns (next a w p)

  -- Two rules for the same code.
  pub Ends-both :
      {P Q : A → W → Type 0} (x : Outcome E A × W)
      → Ends R P x
      → Ends R Q x
      → Ends R (λ a w. P a w × Q a w) x
  Ends-both _ (raises r) h = raises r
  Ends-both _ (returns p) (returns q) = returns (p, q)

module _ {W E A : Type 0} {R : E → Type 0} where
  -- Lookups, and code that changes no state.
  pub Ends-lookup :
      {P : A → W → Type 0} (o : Option A) (e : E) (w : W)
      → R e
      → ((a : A) → o ≡ some a → P a w)
      → Ends R P (or_raise o e, w)
  Ends-lookup none e w r found = raises r
  Ends-lookup (some a) e w r found = returns (found a refl)

  pub Ends-then :
      {B : Type 0} {P : A → W → Type 0} {Q : B → W → Type 0} (o : Outcome E A) (f : A → Outcome E B)
      (w : W)
      → Ends R P (o, w)
      → ((a : A) → P a w → Ends R Q (f a, w))
      → Ends R Q (o then f, w)
  Ends-then (ok a) f w (returns p) next = next a p
  Ends-then (raised e) f w (raises r) next = raises r

  -- The branches of a test.
  pub Ends-if :
      {P : A → W → Type 0} (b : Bool) (x y : Outcome E A × W)
      → (b ≡ true → Ends R P x)
      → (b ≡ false → Ends R P y)
      → Ends R P (if b then x else y)
  Ends-if true x y p q = p refl
  Ends-if false x y p q = q refl

  pub Ends-option :
      {B : Type 0} {P : A → W → Type 0} (o : Option B) (f : B → Outcome E A × W)
      (y : Outcome E A × W)
      → ((b : B) → o ≡ some b → Ends R P (f b))
      → (o ≡ none → Ends R P y)
      → Ends R P (elim o [ some b ↦ f b | none ↦ y ])
  Ends-option (some b) f y found missing = found b refl
  Ends-option none f y found missing = missing refl

  pub Ends-test :
      {P : A → W → Type 0} (b : Bool) (x y : Outcome E A × W)
      → (b ≡ true → Ends R P x)
      → (b ≡ false → Ends R P y)
      → Ends R P (elim b [ true ↦ x | false ↦ y ])
  Ends-test true x y p q = p refl
  Ends-test false x y p q = q refl

  pub Ends-go :
      {P : A → W → Type 0} (b : Bool) (x y : Outcome E A × W)
      → (b ≡ true → Ends R P x)
      → (b ≡ false → Ends R P y)
      → Ends R P (elim b [ false ↦ y | true ↦ x ])
  Ends-go true x y p q = p refl
  Ends-go false x y p q = q refl
