-- ===== src/Allocator/History.antt =====
-- Sequences of calls of the allocator, in any order and with any arguments.
use edmm.Prelude.{ℕ, ℤ, Option, List, [], ◌∷◌, inl, inr, Option-cases}
use edmm.Prelude.Effect.{Outcome, ok, raised}
use edmm.Gpu.{Tensor, Allocation, Exception, Driver, World}
use edmm.Allocator.{
  allocate_vmm_kv_cache, get_vmm_allocation, remap_block, free_vmm_kv_cache, device_id_of,
}
use edmm.Allocator.Allocate.{allocate-Allocated}
use edmm.Allocator.Remap.{remap_block-Remapped}
use edmm.Allocator.Free.{FreedOr, free-Freed, free_unregistered}
use edmm.Allocator.Registry.{
  IsRegistry, erase-IsRegistry, AllocatedOr-IsRegistry, RemappedOr-IsRegistry,
}

pub data Op : Type 0 where
  allocate : ℕ → Option ℕ → Op
  remap : Tensor → ℤ → ℕ → Op
  free : Tensor → Op

module _ (d : Driver) where
  -- The world after a call, whether it returned or raised.
  pub step : World d → Op → World d
  step w (allocate size device) = (allocate_vmm_kv_cache d size device w).1
  step w (remap t block_id new_handle) = (remap_block d t block_id new_handle w).1
  step w (free t) = (free_vmm_kv_cache d t w).1

  pub run : World d → List Op → World d
  run w [] = w
  run w (op ∷ ops) = run (step w op) ops

  FreedOr-IsRegistry :
      (key : ℕ) (a : Allocation) (w : World d) (r : Outcome Exception (Unit {0}) × World d)
      → IsRegistry w.allocations
      → FreedOr d key a w r
      → IsRegistry r.1.allocations
  FreedOr-IsRegistry key a w (ok u, w') h f = rw f.0 (erase-IsRegistry key w.allocations h)
  FreedOr-IsRegistry key a w (raised e, w') h f = rw f.0 (erase-IsRegistry key w.allocations h)

  step-IsRegistry :
      (w : World d) (op : Op) → IsRegistry w.allocations → IsRegistry (step w op).allocations
  unfolding step
  step-IsRegistry w (allocate size device) h =
      AllocatedOr-IsRegistry d size (device_id_of device) w _ h (allocate-Allocated d size device w)
  step-IsRegistry w (remap t block_id new_handle) h =
      RemappedOr-IsRegistry d t.data_ptr block_id new_handle w _ h
        (remap_block-Remapped d t block_id new_handle w)
  step-IsRegistry w (free t) h = elim (Option-cases (get_vmm_allocation d t w)) [
    | inl e ↦ rw (free_unregistered d t w e, step) h
    | inr (a, e) ↦ FreedOr-IsRegistry t.data_ptr a w _ h (free-Freed d t a w e)
  ]

  -- Whatever is allocated, remapped and freed, in whatever order, and whatever the driver answers:
  -- a valid registry stays valid. Its addresses are distinct, each entry stands under its own
  -- address, and its handles are as many as its bytes have pages.
  pub run-IsRegistry :
      (w : World d) (ops : List Op) → IsRegistry w.allocations → IsRegistry (run w ops).allocations
  unfolding run
  run-IsRegistry w [] h = h
  run-IsRegistry w (op ∷ ops) h = run-IsRegistry (step w op) ops (step-IsRegistry w op h)
