-- ===== src/AttnUtils/Reshape/Order.antt =====
-- The order of the strides and its inverse.
use edmm.Prelude.{
  ℕ, zero, suc, ◌+◌, List, [], ◌∷◌, some, ◌≡◌, refl, sym, ◌∙◌, ap, subst, arith, length, get_elem?,
  get_elem?_of_lt, drop,
}
use edmm.Prelude.Dict.{some_injective}
use edmm.Prelude.Effect.{Outcome, ok}
use edmm.Prelude.Partial.{cons-ok}
use edmm.Gpu.{Exception, index_error, value_error, plain}
use edmm.AttnUtils.Reshape.{pick, index_of, inverse_from, inverse}

-- `order.index(i)` is a place of i.
get_elem?-index_of :
    (order : List ℕ) (i j : ℕ) → index_of order i ≡ some j → get_elem? order j ≡ some i
unfolding index_of
get_elem?-index_of [] i j h = cc
get_elem?-index_of (k ∷ order) i zero h = ground arith
get_elem?-index_of (k ∷ order) i (suc j) h = ground (arith, get_elem?-index_of order i j)

-- What is picked at a place is what the order names there.
get_elem?-pick :
    (xs order ys : List ℕ) (j i : ℕ)
    → pick xs order ≡ ok ys
    → get_elem? order j ≡ some i
    → get_elem? ys j ≡ get_elem? xs i
unfolding pick
get_elem?-pick xs [] ys j i h e = cc
get_elem?-pick xs (k ∷ order) ys zero i h e =
    let (x, rest, found, picked, whole) =
      cons-ok (get_elem? xs k) index_error (pick xs order) ys h in
    subst (λ zs. get_elem? zs 0 ≡ get_elem? xs i) whole
      (sym found ∙ ap (get_elem? xs) (some_injective e))
get_elem?-pick xs (k ∷ order) ys (suc j) i h e =
    let (x, rest, found, picked, whole) =
      cons-ok (get_elem? xs k) index_error (pick xs order) ys h in
    subst (λ zs. get_elem? zs (suc j) ≡ get_elem? xs i) whole
      (get_elem?-pick xs order rest j i picked e)

-- The list from a place on.
drop-get_elem? : (xs : List ℕ) (i x : ℕ) → get_elem? xs i ≡ some x → drop i xs ≡ x ∷ drop (suc i) xs
drop-get_elem? [] i x h = cc
drop-get_elem? (y ∷ xs) zero x h = ap (λ z. z ∷ xs) (some_injective h)
drop-get_elem? (y ∷ xs) (suc i) x h = drop-get_elem? xs i x h

drop_end : (xs : List ℕ) (i : ℕ) → length xs ≡ i → drop i xs ≡ []
drop_end [] zero h = refl
drop_end [] (suc i) h = refl
drop_end (x ∷ xs) zero h = absurd (omega arith)
drop_end (x ∷ xs) (suc i) h = drop_end xs i (omega arith)

empty : {inv : List ℕ} → (Path (Outcome Exception (List ℕ)) (ok []) (ok inv)) → [] ≡ inv
empty h = cc h

pick-inverse_from :
    (shape order physical : List ℕ) (n start : ℕ) (inv : List ℕ)
    → pick shape order ≡ ok physical
    → start + n ≡ length shape
    → inverse_from order n start ≡ ok inv
    → pick physical inv ≡ ok (drop start shape)
unfolding inverse_from pick
pick-inverse_from shape order physical zero start inv moved bound h =
    subst (λ is. pick physical is ≡ ok (drop start shape)) (empty h)
      (ap ok (sym (drop_end shape start (omega arith))))
pick-inverse_from shape order physical (suc n) start inv moved bound h =
    let (j, rest, place, others, whole) =
      cons-ok (index_of order start) (value_error (plain "tuple.index(x): x not in tuple"))
        (inverse_from order n (suc start)) inv h in
    let (x, here) = get_elem?_of_lt shape start (omega arith) in
    let there : get_elem? physical j ≡ some x =
      get_elem?-pick shape order physical j start moved (get_elem?-index_of order start j place)
      ∙ here in
    let later =
      pick-inverse_from shape order physical n (suc start) rest moved (omega arith) others in
    subst (λ is. pick physical is ≡ ok (drop start shape)) whole
      (rw (there, later, drop-get_elem? shape start x here) refl)

-- If the shape in the order of the strides and the inverse of that order are found, and the order is
-- as long as the shape, permuting by the inverse gives the shape back.
pub pick-inverse :
    (shape order physical inv : List ℕ)
    → length order ≡ length shape
    → pick shape order ≡ ok physical
    → inverse order ≡ ok inv
    → pick physical inv ≡ ok shape
pick-inverse shape order physical inv long moved h =
    pick-inverse_from shape order physical (length order) 0 inv moved (omega (arith, long)) h
