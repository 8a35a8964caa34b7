-- ===== src/Benchmark/Statistics.antt =====
-- The statistics of both benchmarks, and the criteria of validate_edmm_core_v2.py.
pub mod Trimming
use edmm.Prelude.{
  ℕ, zero, suc, ◌+◌, ◌-◌, ◌*◌, ◌<◌, ◌≤◌, max, ℤ, pos, negsuc, List, [], ◌∷◌, map, Option, none,
  some, Bool, if◌then◌else◌, ◌||◌, length, take, drop, ◌≡◌, refl, ◌⊎◌, inl, inr, arith, ap, subst,
}
use edmm.Prelude.Effect.{Outcome, ok, raised}
use edmm.Prelude.Partial.{◌>>=◌}
use edmm.Floats.{Floats}
use edmm.Benchmark.Machine.{Error, zero_division_error}

-- Three more operations of the machine's arithmetic: `x ** 2`, `x ** 0.5` and `int(x)` for x ≥ 0.
pub record Powers (f : Floats) : Type 0 where
  pub square : f.Float → f.Float
  pub root : f.Float → f.Float
  pub int : f.Float → ℕ

module _ (f : Floats) (p : Powers f) where
  -- A natural number in an operation with a float.
  abbrev of_nat : ℕ → f.Float
  of_nat n = f.decimal n 0

  -- `sum(values)`
  unfoldable pub sum_from : f.Float → List f.Float → f.Float
  sum_from acc [] = acc
  sum_from acc (x ∷ xs) = sum_from (f.add acc x) xs

  -- `sum(values) / len(values)`
  unfoldable pub mean_of : List f.Float → Outcome Error f.Float
  unfolding sum_from
  mean_of [] = raised zero_division_error
  mean_of (x ∷ xs) = ok (f.div (sum_from (of_nat 0) (x ∷ xs)) (of_nat (length (x ∷ xs))))

  -- `stats`: the mean and the standard deviation.
  unfoldable pub stats : List f.Float → Outcome Error (f.Float × f.Float)
  unfolding mean_of
  stats values = do
    mean ← mean_of values
    variance ← mean_of (map (λ x. p.square (f.sub x mean)) values)
    ok (mean, p.root variance)

  -- `sorted(values)`, which keeps the order of equal values.
  unfoldable pub insert_sorted : f.Float → List f.Float → List f.Float
  insert_sorted x [] = x ∷ []
  insert_sorted x (y ∷ ys) =
      let rest = insert_sorted x ys in if f.lt x y then x ∷ y ∷ ys else y ∷ rest

  unfoldable pub sort_onto : List f.Float → List f.Float → List f.Float
  unfolding insert_sorted
  sort_onto [] sorted = sorted
  sort_onto (x ∷ xs) sorted = sort_onto xs (insert_sorted x sorted)

  -- `max(1, int(len(s) * pct))`, with `pct` 0.1.
  abbrev pub trim_of : ℕ → ℕ
  trim_of n = max 1 (p.int (f.mul (of_nat n) (f.decimal 1 1)))

  -- `s[trim:-trim]`, for a positive `trim`.
  abbrev pub inner : ℕ → List f.Float → List f.Float
  inner trim s = take (length s - trim - trim) (drop trim s)

  -- `trimmed_stats`
  unfoldable pub trimmed_stats : List f.Float → Outcome Error (f.Float × f.Float)
  unfolding stats sort_onto
  trimmed_stats values = let s = sort_onto values [] in stats (inner (trim_of (length s)) s)

  -- `x >= y` and `x <= y`
  abbrev ge : f.Float → f.Float → Bool
  ge x y = f.lt y x || f.eq x y

  abbrev le : f.Float → f.Float → Bool
  le x y = f.lt x y || f.eq x y

  -- Whether the GPU counts as idle: its mean utilisation is below 5 %.
  abbrev pub bubble_passes : f.Float → Bool
  bubble_passes bubble_mu = f.lt bubble_mu (f.decimal 50 1)

  -- Whether the ratios of groups B and C to group A pass, if the mean of group A is positive.
  unfoldable pub criteria : f.Float → f.Float → f.Float → Option (Bool × Bool)
  criteria tmu_a tmu_b tmu_c =
      let radix_ratio = f.div tmu_b tmu_a in
      let recovery_ratio = f.div tmu_c tmu_a in
      if f.lt (of_nat 0) tmu_a
      then some (ge radix_ratio (f.decimal 25 1), le recovery_ratio (f.decimal 115 2))
      else none

  -- `float(x)`
  as_float : ℤ → f.Float
  as_float (pos n) = of_nat n
  as_float (negsuc n) = f.sub (of_nat 0) (of_nat (suc n))

  -- The summary of `run_benchmark`: the raw and the trimmed statistics, and the criteria.
  pub record Summary : Type 0 where
    pub raw : List (f.Float × f.Float)
    pub trimmed : List (f.Float × f.Float)
    pub bubble : f.Float × f.Float
    pub passed : Bool × Option (Bool × Bool)

  unfoldable pub summarise :
      List f.Float → List f.Float → List f.Float → List ℤ → Outcome Error Summary
  unfolding stats trimmed_stats criteria as_float
  summarise ttft_a ttft_b ttft_c bubble_utilizations = do
    raw_a ← stats ttft_a
    raw_b ← stats ttft_b
    raw_c ← stats ttft_c
    trimmed_a ← trimmed_stats ttft_a
    trimmed_b ← trimmed_stats ttft_b
    trimmed_c ← trimmed_stats ttft_c
    bubble ← stats (map as_float bubble_utilizations)
    ok (record {
      raw = raw_a ∷ raw_b ∷ raw_c ∷ [];
      trimmed = trimmed_a ∷ trimmed_b ∷ trimmed_c ∷ [];
      bubble = bubble;
      passed = (bubble_passes bubble.0, criteria trimmed_a.0 trimmed_b.0 trimmed_c.0);
    })
