-- ===== src/Benchmark/Statistics/Trimming.antt =====
-- The trimmed statistics of validate_edmm_core_v2.py: which values they are taken of.
use mathlib.Core.List.{Perm, perm_middle}
use mathlib.Core.List.Perm
use edmm.Prelude.{
  ℕ, zero, suc, ◌+◌, ◌-◌, ◌*◌, ◌<◌, ◌≤◌, List, [], ◌∷◌, ◌++◌, true, false, length, take, drop, ◌≡◌,
  refl, ◌∙◌, sym, ap, subst, ◌⊎◌, inl, inr, arith, Bool-cases, if_both, append-nil, ltb,
}
use edmm.Prelude.Effect.{Outcome, ok, raised}
use edmm.Floats.{Floats}
use edmm.Benchmark.Machine.{Error, zero_division_error}
use edmm.Benchmark.Statistics.{
  Powers, mean_of, stats, insert_sorted, sort_onto, trim_of, inner, trimmed_stats,
}

module _ {A : Type 0} where
  length-drop : (n : ℕ) (xs : List A) → length (drop n xs) ≡ length xs - n
  length-drop zero xs = omega arith
  length-drop (suc n) [] = omega arith
  length-drop (suc n) (x ∷ xs) = omega (arith, length-drop n xs)

  length-take : (n : ℕ) (xs : List A) → n ≤ length xs → length (take n xs) ≡ n
  length-take zero xs h = refl
  length-take (suc n) [] h = absurd (omega arith)
  length-take (suc n) (x ∷ xs) h = ap suc (length-take n xs (omega arith))

  take-drop : (n : ℕ) (xs : List A) → take n xs ++ drop n xs ≡ xs
  take-drop zero xs = refl
  take-drop (suc n) [] = refl
  take-drop (suc n) (x ∷ xs) = ap (λ l. x ∷ l) (take-drop n xs)

  Perm-append : (xs : List A) {ys zs : List A} → Perm ys zs → Perm (xs ++ ys) (xs ++ zs)
  Perm-append [] p = p
  Perm-append (x ∷ xs) p = Perm.cons x (Perm-append xs p)

module _ (f : Floats) (p : Powers f) where
  -- No value is less than the one before it.
  abbrev pub IsSorted : List f.Float → Type 0
  IsSorted [] = Unit {0}
  IsSorted (x ∷ []) = Unit {0}
  IsSorted (x ∷ y ∷ l) = (f.lt y x ≡ false) × IsSorted (y ∷ l)

  insert_sorted-perm : (x : f.Float) (ys : List f.Float) → Perm (x ∷ ys) (insert_sorted f p x ys)
  unfolding insert_sorted
  insert_sorted-perm x [] = Perm.refl (x ∷ [])
  insert_sorted-perm x (y ∷ ys) =
      if_both (Perm (x ∷ y ∷ ys)) (f.lt x y) _ _ (Perm.refl (x ∷ y ∷ ys))
        (Perm.trans (Perm.swap y x ys) (Perm.cons y (insert_sorted-perm x ys)))

  sort_onto-perm : (xs sorted : List f.Float) → Perm (xs ++ sorted) (sort_onto f p xs sorted)
  unfolding sort_onto
  sort_onto-perm [] sorted = Perm.refl sorted
  sort_onto-perm (x ∷ xs) sorted = Perm.trans (Perm.symm (perm_middle xs sorted)) (
      Perm.trans (Perm-append xs (insert_sorted-perm x sorted))
        (sort_onto-perm xs (insert_sorted f p x sorted)))

  module _ (lt_asymm : (x y : f.Float) → f.lt x y ≡ true → f.lt y x ≡ false) where
    insert_after-IsSorted :
        (x y : f.Float) (ys : List f.Float)
        → f.lt x y ≡ false
        → IsSorted (y ∷ ys)
        → IsSorted (y ∷ insert_sorted f p x ys)
    unfolding insert_sorted
    insert_after-IsSorted x y [] e h = (e, tt)
    insert_after-IsSorted x y (z ∷ zs) e h = elim (Bool-cases (f.lt x z)) [
      | inl less ↦ rw less (e, (lt_asymm x z less, h.1))
      | inr more ↦ rw more (h.0, insert_after-IsSorted x z zs more h.1)
    ]

    insert_sorted-IsSorted :
        (x : f.Float) (ys : List f.Float) → IsSorted ys → IsSorted (insert_sorted f p x ys)
    unfolding insert_sorted
    insert_sorted-IsSorted x [] h = tt
    insert_sorted-IsSorted x (y ∷ ys) h = elim (Bool-cases (f.lt x y)) [
      | inl less ↦ rw less (lt_asymm x y less, h)
      | inr more ↦ rw more (insert_after-IsSorted x y ys more h)
    ]

    sort_onto-IsSorted :
        (xs sorted : List f.Float) → IsSorted sorted → IsSorted (sort_onto f p xs sorted)
    unfolding sort_onto
    sort_onto-IsSorted [] sorted h = h
    sort_onto-IsSorted (x ∷ xs) sorted h =
        sort_onto-IsSorted xs (insert_sorted f p x sorted) (insert_sorted-IsSorted x sorted h)

  -- The statistics of the values between the lowest and the highest ones, `trim` at each end.
  pub record Middle (values : List f.Float) (trim : ℕ) (r : Outcome Error (f.Float × f.Float))
      : Type 0 where
    pub low : List f.Float
    pub mid : List f.Float
    pub high : List f.Float
    pub same_values : Perm values (low ++ (mid ++ high))
    pub sorted : IsSorted (low ++ (mid ++ high))
    pub length_low : length low ≡ trim
    pub length_high : length high ≡ trim
    pub result : r ≡ stats f p mid
    pub returned : (x : f.Float × f.Float) × (r ≡ ok x)

  abbrev pub Trimmed : List f.Float → ℕ → Outcome Error (f.Float × f.Float) → Type 0
  Trimmed values trim r =
      ((length values ≤ 2 * trim) × (r ≡ raised zero_division_error))
      ⊎ ((2 * trim < length values) × Middle values trim r)

  stats_some : (xs : List f.Float) → 0 < length xs → (x : f.Float × f.Float) × (stats f p xs ≡ ok x)
  unfolding stats mean_of
  stats_some [] h = absurd (omega arith)
  stats_some (x ∷ xs) h = (_, refl)

  stats_none : (xs : List f.Float) → length xs ≡ 0 → stats f p xs ≡ raised zero_division_error
  unfolding stats mean_of
  stats_none [] h = refl
  stats_none (x ∷ xs) h = absurd (omega arith)

  length-inner : (trim : ℕ) (s : List f.Float) → length (inner f p trim s) ≡ length s - trim - trim
  length-inner trim s = omega (
    arith,
    length-drop trim s,
    length-take (length s - trim - trim) (drop trim s) (omega (arith, length-drop trim s)),
  )

  stats-Middle :
      (values s : List f.Float) (trim : ℕ)
      → Perm values s
      → IsSorted s
      → 2 * trim < length s
      → Middle values trim (stats f p (inner f p trim s))
  stats-Middle values s trim same sorted more =
      let n = length s - trim - trim in
      let ends = drop n (drop trim s) in
      let whole : take trim s ++ (inner f p trim s ++ ends) ≡ s =
        ap (λ l. take trim s ++ l) (take-drop n (drop trim s)) ∙ take-drop trim s in
      let some_left = stats_some (inner f p trim s) (omega (arith, length-inner trim s)) in
      record {
        low = take trim s;
        mid = inner f p trim s;
        high = ends;
        same_values = subst (Perm values) (sym whole) same;
        sorted = subst IsSorted (sym whole) sorted;
        length_low = length-take trim s (omega arith);
        length_high = omega (arith, length-drop n (drop trim s), length-drop trim s);
        result = refl;
        returned = some_left;
      }

  length-insert_sorted :
      (x : f.Float) (ys : List f.Float) → length (insert_sorted f p x ys) ≡ suc (length ys)
  unfolding insert_sorted
  length-insert_sorted x [] = refl
  length-insert_sorted x (y ∷ ys) = ground (arith, length-insert_sorted x ys)

  length-sort_onto :
      (xs sorted : List f.Float) → length (sort_onto f p xs sorted) ≡ length xs + length sorted
  unfolding sort_onto
  length-sort_onto [] sorted = omega arith
  length-sort_onto (x ∷ xs) sorted =
      omega (arith, length-sort_onto xs (insert_sorted f p x sorted), length-insert_sorted x sorted)

  sorted-Trimmed :
      (values s : List f.Float) (trim : ℕ)
      → Perm values s
      → IsSorted s
      → length s ≡ length values
      → Trimmed values trim (stats f p (inner f p trim s))
  sorted-Trimmed values s trim same sorted as_long = elim (Bool-cases (ltb (2 * trim) (length s))) [
    | inl more ↦
        let lt : 2 * trim < length s = ground (arith, more) in
        inr (omega (arith, as_long), stats-Middle values s trim same sorted lt)
    | inr few ↦
        let le : length s ≤ 2 * trim = ground (arith, few) in
        inl (
          omega (arith, as_long),
          stats_none (inner f p trim s) (omega (arith, length-inner trim s)),
        )
  ]

  -- If the order of floats is asymmetric, the trimmed statistics are those of a middle part: of the
  -- values in ascending order, the same number, at least one, is cut off at each end, and the mean and
  -- deviation are of the others. If there are no others, a ZeroDivisionError is raised.
  pub trimmed_stats-Trimmed :
      ((x y : f.Float) → f.lt x y ≡ true → f.lt y x ≡ false)
      → (values : List f.Float)
      → (1 ≤ trim_of f p (length values))
        × Trimmed values (trim_of f p (length values)) (trimmed_stats f p values)
  unfolding trimmed_stats
  trimmed_stats-Trimmed lt_asymm values =
      let s = sort_onto f p values [] in
      let same : Perm values s =
        subst (λ (l : List f.Float). Perm l s) (append-nil values) (sort_onto-perm values []) in
      let as_long : length s ≡ length values = omega (arith, length-sort_onto values []) in
      (
        omega arith,
        subst
            (λ n. Trimmed values (trim_of f p n) (stats f p (inner f p (trim_of f p (length s)) s)))
            as_long
            (sorted-Trimmed values s (trim_of f p (length s)) same
              (sort_onto-IsSorted lt_asymm values [] tt) as_long),
      )
