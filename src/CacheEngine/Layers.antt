-- ===== src/CacheEngine/Layers.antt =====
-- The allocation of the caches of all layers, over the allocator's theorem on one allocation.
use edmm.Prelude.{ℕ, suc, String, ◌*◌, ◌≤◌, ◌≡◌, List, true, length, ℕ_discrete}
use edmm.Prelude.Dict.{Dict, put}
use edmm.Prelude.Effect.{Outcome, ok, raised}
use edmm.Gpu.{Allocation, Exception, World}
use edmm.Torch.{Torch, prod}
use edmm.CacheEngine.{Config, Backend, by_pages}

-- The second table is the first with n more allocations, made one after the other, each of at least
-- the given number of bytes.
pub data Made (nbytes : ℕ) (before : Dict ℕ Allocation) : ℕ → Dict ℕ Allocation → Type 0 where
  start : Made nbytes before 0 before
  more :
      {n : ℕ} {table : Dict ℕ Allocation} (va : ℕ) (a : Allocation)
      → nbytes ≤ a.total_bytes
      → Made nbytes before n table
      → Made nbytes before (suc n) (put ℕ_discrete va a table)

module _ (t : Torch) (b : Backend t) (c : Config t) (before : Dict ℕ Allocation) where
  -- How a loop over n layers ends.
  abbrev pub MadeOr : ℕ → ℕ → Outcome Exception (List t.Array) × World t.driver → Type 0
  MadeOr nbytes n (ok caches, w) = (length caches ≡ n) × Made nbytes before n w.allocations
  MadeOr nbytes n (raised e, w) = (k : ℕ) × (k ≤ n) × Made nbytes before k w.allocations

  -- How one layer ends, after k others.
  abbrev LayerMade : ℕ → ℕ → Outcome Exception t.Array × World t.driver → Type 0
  LayerMade nbytes k (ok x, w) = Made nbytes before (suc k) w.allocations
  LayerMade nbytes k (raised e, w) = (j : ℕ) × (j ≤ suc k) × Made nbytes before j w.allocations

  module _ (shape : List ℕ) (dtype : t.Dtype) (device : String)
      (paged : by_pages t b c device ≡ true) where
    abbrev nbytes : ℕ
    nbytes = prod shape * t.element_size dtype
