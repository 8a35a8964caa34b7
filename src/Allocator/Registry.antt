-- ===== src/Allocator/Registry.antt =====
-- The registry `_allocations`: what holds of it after any sequence of calls, what the integrity
-- check says.
use edmm.Prelude.{
  ℕ, ◌*◌, ◌≡◌, refl, ◌⊎◌, inl, inr, none, some, true, arith, length, ℕ_discrete, Option-cases,
  length-set, ℤ,
}
use edmm.Prelude.Dict.{
  Dict, get, put, erase, Each, put-Each, erase-Each, put-Distinct, erase-Distinct, Distinct,
}
use edmm.Prelude.Effect.{Outcome, ok, raised}
use edmm.Gpu.{Tensor, Allocation, Exception, Driver, World, assertion_error, plain}
use edmm.Allocator.{get_vmm_allocation, verify_edmm_tensor_integrity}
use edmm.Allocator.Allocate.{AllocatedOr}
use edmm.Allocator.Remap.{Remapped, RemappedOr}

-- An entry stands under its own address, and its handles are the pages of its bytes.
pub record IsEntry (key : ℕ) (a : Allocation) : Type 0 where
  pub address : a.va_ptr ≡ key
  pub pages : length a.handles * a.page_size ≡ a.total_bytes

pub record IsRegistry (t : Dict ℕ Allocation) : Type 0 where
  pub distinct : Distinct ℕ_discrete t
  pub entries : Each ℕ_discrete IsEntry t

pub put-IsRegistry :
    (key : ℕ) (a : Allocation) (t : Dict ℕ Allocation)
    → IsEntry key a
    → IsRegistry t
    → IsRegistry (put ℕ_discrete key a t)
put-IsRegistry key a t here h = record {
  distinct = put-Distinct ℕ_discrete key a t h.distinct;
  entries = put-Each ℕ_discrete IsEntry key a t here h.entries;
}

pub erase-IsRegistry :
    (key : ℕ) (t : Dict ℕ Allocation) → IsRegistry t → IsRegistry (erase ℕ_discrete key t)
erase-IsRegistry key t h = record {
  distinct = erase-Distinct ℕ_discrete key t h.distinct;
  entries = erase-Each ℕ_discrete IsEntry key t h.entries;
}

module _ (d : Driver) where
  -- The integrity check passes exactly for a registered tensor, and changes nothing: with a valid
  -- registry its second assertion never fails.
  pub verify-IsRegistry :
      (t : Tensor) (w : World d)
      → IsRegistry w.allocations
      → ((get_vmm_allocation d t w ≡ none)
          × (verify_edmm_tensor_integrity d t w
              ≡ (raised (assertion_error (plain "tensor is NOT VMM-backed")), w)))
        ⊎ ((a : Allocation) × (get_vmm_allocation d t w ≡ some a)
            × (verify_edmm_tensor_integrity d t w ≡ (ok true, w)))
  unfolding verify_edmm_tensor_integrity get_vmm_allocation
  verify-IsRegistry t w h = elim (Option-cases (get ℕ_discrete t.data_ptr w.allocations)) [
    | inl e ↦ inl (e, rw e refl)
    | inr (a, e) ↦ inr (a, e, rw e (ground (arith, (h.entries t.data_ptr a e).address)))
  ]

  pub AllocatedOr-IsRegistry :
      (size_bytes device_id : ℕ) (w : World d) (r : Outcome Exception Tensor × World d)
      → IsRegistry w.allocations
      → AllocatedOr d size_bytes device_id w r
      → IsRegistry r.1.allocations
  AllocatedOr-IsRegistry size_bytes device_id w (ok t, w') h (page, big, a) =
      rw a.registered
        (put-IsRegistry a.va _ w.allocations (record { address = refl; pages = a.page_count }) h)
  AllocatedOr-IsRegistry size_bytes device_id w (raised e, w') h m = rw m.1 h

  Remapped-IsRegistry :
      (key : ℕ) (block_id : ℤ) (new_handle old : ℕ) (w w' : World d)
      → IsRegistry w.allocations
      → Remapped d key block_id new_handle w old w'
      → IsRegistry w'.allocations
  Remapped-IsRegistry key block_id new_handle old w w' h r =
      let was : IsEntry key r.alloc = h.entries key r.alloc r.found in
      rw r.table (
        put-IsRegistry key _ w.allocations
          (record {
            address = was.address;
            pages = rw (length-set r.alloc.handles r.index new_handle) was.pages;
          })
          h)

  pub RemappedOr-IsRegistry :
      (key : ℕ) (block_id : ℤ) (new_handle : ℕ) (w : World d) (r : Outcome Exception ℕ × World d)
      → IsRegistry w.allocations
      → RemappedOr d key block_id new_handle w r
      → IsRegistry r.1.allocations
  RemappedOr-IsRegistry key block_id new_handle w (ok old, w') h r =
      Remapped-IsRegistry key block_id new_handle old w w' h r
  RemappedOr-IsRegistry key block_id new_handle w (raised e, w') h (inl same) = rw same h
  RemappedOr-IsRegistry key block_id new_handle w (raised e, w') h (inr late) =
      Remapped-IsRegistry key block_id new_handle late.old w w' h late.remapped
