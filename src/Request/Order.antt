-- ===== src/Request/Order.antt =====
-- `Request.__lt__` orders requests strictly, as far as the machine's floats do.
use Prim.Native.Nat.{Ordering}
use Prim.Native.String.compare
use Prim.Native.String.{String, compare as compare_text}
use edmm.Prelude.{ℕ, ℤ, pos, negsuc, ◌≡◌, refl, true, false, arith}
use edmm.Floats.{Floats}
use edmm.Request.{Request, lt, compare_ℤ}

flip : Ordering → Ordering
flip Ordering.lt = Ordering.gt
flip Ordering.eq = Ordering.eq
flip Ordering.gt = Ordering.lt

compare_ℤ-flip : (a b : ℤ) → compare_ℤ b a ≡ flip (compare_ℤ a b)
unfolding flip
compare_ℤ-flip (pos m) (pos n) = ground arith
compare_ℤ-flip (pos m) (negsuc n) = refl
compare_ℤ-flip (negsuc m) (pos n) = refl
compare_ℤ-flip (negsuc m) (negsuc n) = ground arith

compare_text-flip : (s t : String) → compare_text t s ≡ flip (compare_text s t)
unfolding flip
compare_text-flip String.[] String.[] = refl
compare_text-flip String.[] (String.◌∷◌ d t) = rw (compare.nil-cons, compare.cons-nil) refl
compare_text-flip (String.◌∷◌ c s) String.[] = rw (compare.nil-cons, compare.cons-nil) refl
compare_text-flip (String.◌∷◌ c s) (String.◌∷◌ d t) =
    rw (compare.cons-cons c d s t, compare.cons-cons d c t s)
      (ground (arith, compare_text-flip s t))

module _ (f : Floats) where
  -- No two requests are each before the other, if that holds of their arrival times and equality of
  -- times is symmetric.
  pub lt_asymm :
      (m : ℕ) (r : Request f) (n : ℕ) (s : Request f)
      → ((a b : f.Float) → f.lt a b ≡ true → f.lt b a ≡ false)
      → ((a b : f.Float) → f.eq a b ≡ f.eq b a)
      → lt f m r n s ≡ true
      → lt f n s m r ≡ false
  unfolding lt flip
  lt_asymm m r n s time_asymm eq_symm h = ground (
    arith,
    compare_ℤ-flip r.priority s.priority,
    compare_text-flip r.request_id s.request_id,
    eq_symm r.arrival_time s.arrival_time,
    time_asymm r.arrival_time s.arrival_time,
  )
