-- ===== src/Scheduler/Invalid/Prefix.antt =====
-- How many tokens a request keeps when it loses blocks.
use edmm.Prelude.{
  ℕ, zero, suc, ◌+◌, ◌*◌, ◌≡◌, refl, subst, ap, ◌∙◌, ◌⊎◌, inl, inr, List, [], ◌∷◌, ◌++◌, Bool, true,
  false, arith, length, ℕ_discrete,
}
use edmm.Prelude.Sets.{member}
use edmm.Scheduler.Invalid.{Scan, truncate, mark_block, scan_invalid, scan_block, scan}

module _ (invalid : List ℕ) (block_size : ℕ) (evict : Bool) (computed : ℕ) where
  -- After the first mark the number of computed tokens stays.
  scan_block-kept :
      (idx b : ℕ) (bs : List ℕ) (c : Scan)
      → c.marked_invalid_block ≡ true
      → let d = scan_block invalid block_size evict computed idx b bs c in
        (d.marked_invalid_block ≡ true) × (d.num_computed_tokens ≡ c.num_computed_tokens)
  unfolding scan_block scan_invalid mark_block truncate
  scan_block-kept idx b bs c h = ground arith

  scan-kept :
      (n idx : ℕ) (bs : List ℕ) (c : Scan)
      → c.marked_invalid_block ≡ true
      → (scan invalid block_size evict computed n idx bs c).num_computed_tokens
        ≡ c.num_computed_tokens
  unfolding scan
  scan-kept zero idx bs c h = refl
  scan-kept (suc n) idx [] c h = refl
  scan-kept (suc n) idx (b ∷ bs) c h =
      let (marked, same) = scan_block-kept idx b (b ∷ bs) c h in
      scan-kept n (suc idx) bs (scan_block invalid block_size evict computed idx b (b ∷ bs) c)
        marked
      ∙ same

  -- A block is not lost, or it is marked already.
  abbrev pub Kept : List ℕ → ℕ → Type 0
  Kept marked b = (member ℕ_discrete b invalid ≡ false) ⊎ (member ℕ_discrete b marked ≡ true)

  scan_block-cases :
      (idx b : ℕ) (bs : List ℕ) (c : Scan)
      → c.marked_invalid_block ≡ false
      → let d = scan_block invalid block_size evict computed idx b bs c in
        (Kept c.marked_invalid_block_ids b
          × (d.marked_invalid_block ≡ false)
          × (d.marked_invalid_block_ids ≡ c.marked_invalid_block_ids))
        ⊎ ((member ℕ_discrete b invalid ≡ true)
            × (member ℕ_discrete b c.marked_invalid_block_ids ≡ false)
            × (d.marked_invalid_block ≡ true)
            × (d.num_computed_tokens ≡ idx * block_size))
  unfolding scan_block scan_invalid mark_block truncate
  scan_block-cases idx b bs c h = ground arith

  abbrev pub AllKept : List ℕ → List ℕ → Type 0
  AllKept marked [] = Unit
  AllKept marked (b ∷ bs) = Kept marked b × AllKept marked bs

  -- The blocks split at the first one that is lost and not marked, and the tokens before it stay.
  abbrev pub SplitAt : List ℕ → ℕ → List ℕ → ℕ → Type 0
  SplitAt marked idx bs num_computed_tokens =
      (pre : List ℕ) × (b : ℕ) × (post : List ℕ) × (bs ≡ pre ++ (b ∷ post))
      × AllKept marked pre
      × (member ℕ_discrete b invalid ≡ true)
      × (member ℕ_discrete b marked ≡ false)
      × (num_computed_tokens ≡ (idx + length pre) * block_size)

  -- If the scan of a request's blocks, from an index on, marks a block first, the blocks split at
  -- one that is lost and not marked by a request before; all blocks before it are not lost or
  -- marked already, and the request keeps exactly the tokens of the blocks before it.
  pub scan-SplitAt :
      (n idx : ℕ) (bs : List ℕ) (c : Scan)
      → c.marked_invalid_block ≡ false
      → let d = scan invalid block_size evict computed n idx bs c in
        d.marked_invalid_block ≡ true
        → SplitAt c.marked_invalid_block_ids idx bs d.num_computed_tokens
  unfolding scan
  scan-SplitAt zero idx bs c h m = cc
  scan-SplitAt (suc n) idx [] c h m = cc
  scan-SplitAt (suc n) idx (b ∷ bs) c h m =
      let d = scan_block invalid block_size evict computed idx b (b ∷ bs) c in
      elim (scan_block-cases idx b (b ∷ bs) c h) [
        | inl (kept, unmarked, same) ↦
            let (pre, b', post, e, all, lost, fresh, num) =
              scan-SplitAt n (suc idx) bs d unmarked m in
            (
              b ∷ pre,
              b',
              post,
              ap (λ l. b ∷ l) e,
              (kept, subst (λ l. AllKept l pre) same all),
              lost,
              subst (λ l. member ℕ_discrete b' l ≡ false) same fresh,
              num ∙ ap (λ k. k * block_size) (omega arith),
            )
        | inr (lost, fresh, marked, num) ↦ (
          [],
          b,
          bs,
          refl,
          tt,
          lost,
          fresh,
          scan-kept n (suc idx) bs d marked ∙ num ∙ ap (λ k. k * block_size) (omega arith),
        )
      ]
