-- ===== src/Allocator/Tests.antt =====
-- A driver that counts its handles, tests of the allocator over it, and its theorems at concrete
-- inputs.
use edmm.Prelude.{
  ℕ, suc, ◌≡◌, refl, none, some, List, [], ◌∷◌, true, arith, pos, negsuc, ℕ_discrete, dec_lt,
}
use edmm.Prelude.Dict.{get, put, erase, none≢some}
use edmm.Prelude.Effect.{ok, raised}
use edmm.Gpu.{
  Call, Reply, Tensor, Allocation, Driver, World, value_error, ranged, invoke, check, checked,
}
use edmm.Allocator.{
  allocate_vmm_kv_cache, allocate_in_context, allocate_pages, open_pages, map_pages,
  ensure_driver_context, get_cuda, get_vmm_allocation, verify_edmm_tensor_integrity, remap_block,
  exchange, free_vmm_kv_cache, release_physical_handle,
}
use edmm.Allocator.Allocate
use edmm.Allocator.Allocate.{AllocatedOr}
use edmm.Allocator.Remap
use edmm.Allocator.Remap.{RemappedOr}
use edmm.Allocator.Registry
use edmm.Allocator.Registry.{IsRegistry}
use edmm.Allocator.Free
use edmm.Allocator.Free.{FreedOr}
use edmm.Allocator.History
use edmm.Allocator.History.{Op, run, step}
use edmm.Allocator.Success

-- Every call succeeds; a new handle is the next number.
abbrev counting_answer : ℕ → Call → Reply × ℕ
counting_answer n (Call.mem_create size prop flags) = (record { code = 0; out = n }, suc n)
counting_answer n (Call.address_reserve size align addr flags) =
    (record { code = 0; out = 4294967296 }, n)
counting_answer n c = (record { code = 0; out = 0 }, n)

abbrev pub counting : Driver
counting = record {
  State = ℕ;
  answer = counting_answer;
  as_tensor = λ buffer device. record { data_ptr = buffer.ptr; numel = buffer.nbytes };
}

abbrev pub fresh : World counting
fresh = record { driver = 7; calls = []; loaded = true; allocations = [] }

abbrev page : ℕ
page = 2097152

abbrev tensor : Tensor
tensor = record { data_ptr = 4294967296; numel = 3000000 }

abbrev two_pages : Allocation
two_pages = record {
  va_ptr = 4294967296;
  total_bytes = 4194304;
  page_size = page;
  handles = 7 ∷ 8 ∷ [];
  tensor = some tensor;
}

abbrev remapped : Allocation
remapped = record two_pages { handles = 7 ∷ 99 ∷ [] }

abbrev holding : Allocation → World counting
holding a = record fresh { allocations = (4294967296, a) ∷ [] }

program : Unit {0}
unfolding get put erase ℕ_discrete dec_lt invoke check checked allocate_vmm_kv_cache
    allocate_in_context allocate_pages open_pages map_pages ensure_driver_context get_cuda
    get_vmm_allocation verify_edmm_tensor_integrity remap_block exchange free_vmm_kv_cache
    release_physical_handle
program = tt

-- 3,000,000 bytes take two pages of 2 MiB.
allocate_two_pages :
    (allocate_vmm_kv_cache counting 3000000 none fresh).1.allocations ≡ (4294967296, two_pages) ∷ []
unfolding program
allocate_two_pages = refl

remap_second_page :
    ((remap_block counting tensor (pos 1) 99 (holding two_pages)).0 ≡ ok 8)
    × ((remap_block counting tensor (pos 1) 99 (holding two_pages)).1.allocations
        ≡ (4294967296, remapped) ∷ [])
unfolding program
remap_second_page = (refl, refl)

remap_out_of_range :
    (remap_block counting tensor (negsuc 0) 99 (holding two_pages)).0
    ≡ raised (value_error (ranged "block_id out of range" (negsuc 0) 2))
unfolding program
remap_out_of_range = refl

holding-IsRegistry : IsRegistry (holding two_pages).allocations
unfolding get put
holding-IsRegistry =
    Registry.put-IsRegistry 4294967296 two_pages [] (record { address = refl; pages = refl })
      (record { distinct = tt; entries = λ k a e. absurd (none≢some e) })

allocate-Allocated_example :
    AllocatedOr counting 3000000 0 fresh (allocate_vmm_kv_cache counting 3000000 none fresh)
allocate-Allocated_example = Allocate.allocate-Allocated counting 3000000 none fresh

remap_block-Remapped_example :
    RemappedOr counting 4294967296
      (pos 1)
      99
      (holding two_pages)
      (remap_block counting tensor (pos 1) 99 (holding two_pages))
remap_block-Remapped_example =
    Remap.remap_block-Remapped counting tensor (pos 1) 99 (holding two_pages)

free-Freed_example :
    FreedOr counting 4294967296 two_pages
      (holding two_pages)
      (free_vmm_kv_cache counting tensor (holding two_pages))
unfolding program
free-Freed_example = Free.free-Freed counting tensor two_pages (holding two_pages) refl

abbrev ops : List Op
ops = Op.remap tensor (pos 0) 50 ∷ Op.allocate 10 (some 1) ∷ Op.free tensor ∷ []

run-IsRegistry_example : IsRegistry (run counting (holding two_pages) ops).allocations
run-IsRegistry_example = History.run-IsRegistry counting (holding two_pages) ops holding-IsRegistry

counting_reliable : (n : ℕ) (c : Call) → (counting_answer n c).0.code ≡ 0
counting_reliable n (Call.mem_create size prop flags) = refl
counting_reliable n (Call.address_reserve size align addr flags) = refl
counting_reliable n c = refl

allocate-Returns_example :
    (t : Tensor) × (w' : World counting) × (allocate_vmm_kv_cache counting 3000000 none fresh
      ≡ (ok t, w'))
allocate-Returns_example = Success.allocate-Returns counting counting_reliable 3000000 none fresh

remap_block-Returns_example :
    (old : ℕ) × (w' : World counting) × (remap_block counting tensor (pos 1) 99 (holding two_pages)
      ≡ (ok old, w'))
unfolding program
remap_block-Returns_example =
    Success.remap_block-Returns counting counting_reliable tensor two_pages 1 99 (holding two_pages)
      refl (omega arith)
