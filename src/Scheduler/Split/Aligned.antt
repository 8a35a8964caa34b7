-- ===== src/Scheduler/Split/Aligned.antt =====
-- Where a chunk of a prefill ends.
use native.Mathlib.Nat.{div-add-mod'}
use edmm.Prelude.{ℕ, ◌+◌, ◌-◌, ◌*◌, ◌/◌, ◌≤◌, ◌<◌, ◌≡◌, ◌⊎◌, inl, inr, arith}
use edmm.Request.{Request}
use edmm.Scheduler.Split.{cut}

abbrev pub Multiple : ℕ → ℕ → Type 0
Multiple b n = (k : ℕ) × (n ≡ k * b)

cut-cases :
    (b c n last : ℕ)
    → ((c + n < last) × (cut b c n last ≡ n / b * b))
      ⊎ (((c < last) × (last < c + n) × (cut b c n last ≡ last - c))
          ⊎ (((last ≤ c) ⊎ (c + n ≡ last)) × (cut b c n last ≡ n)))
unfolding cut
cut-cases b c n last = ground arith

abbrev Aligned : ℕ → ℕ → ℕ → ℕ → ℕ → Type 0
Aligned b c n last m =
    (m ≤ n) × (Multiple b (c + m) ⊎ ((last ≤ c) × (m ≡ n))) × (c < last → c + m ≤ last)

-- A cut takes no more than asked for.
pub cut-le : (b c n last : ℕ) → cut b c n last ≤ n
cut-le b c n last = elim (cut-cases b c n last) [
  | inl (short, eq) ↦ rw eq (omega (arith, div-add-mod' n b))
  | inr (inl (before, after, eq)) ↦ rw eq (omega arith)
  | inr (inr (past, eq)) ↦ rw eq (omega arith)
]
