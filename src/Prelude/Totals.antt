-- ===== src/Prelude/Totals.antt =====
-- The sum of a dictionary's numbers, and what writing and erasing make of it.
use mathlib.Core.Path.{◌≡◌}
use mathlib.Core.List.{[], ◌∷◌}
use mathlib.Core.Option.{some}
use native.Mathlib.Omega.{arith}
use Prim.Native.Nat.{ℕ, ◌+◌, ◌≤◌}
use edmm.Prelude.Dict.{Dict, get, put, erase}

-- `sum(d.values())`
abbrev pub sum_values : {K : Type 0} → Dict K ℕ → ℕ
sum_values [] = 0
sum_values ((k, n) ∷ d) = n + sum_values d

module _ {K : Type 0} (dec : Discrete K) where
  pub sum_values-put :
      (k : K) (n : ℕ) (d : Dict K ℕ) → sum_values (put dec k n d) ≤ sum_values d + n
  unfolding put
  sum_values-put k n [] = omega arith
  sum_values-put k n ((j, m) ∷ d) = ground (arith, sum_values-put k n d)

  pub sum_values-erase : (k : K) (d : Dict K ℕ) → sum_values (erase dec k d) ≤ sum_values d
  unfolding erase
  sum_values-erase k [] = omega arith
  sum_values-erase k ((j, m) ∷ d) = ground (arith, sum_values-erase k d)

  pub sum_values-erase_known :
      (k : K) (n : ℕ) (d : Dict K ℕ)
      → get dec k d ≡ some n
      → sum_values (erase dec k d) + n ≤ sum_values d
  unfolding get erase
  sum_values-erase_known k n [] h = cc
  sum_values-erase_known k n ((j, m) ∷ d) h =
      ground (arith, sum_values-erase k d, sum_values-erase_known k n d)
