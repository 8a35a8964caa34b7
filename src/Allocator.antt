-- ===== src/Allocator.antt =====
-- vllm-integration/vllm_v1_worker_gpu/edmm_allocator.py: KV cache memory whose pages can be
-- remapped one by one. Logging, and the declarations of argument types to ctypes, are left out.
pub mod Pages
pub mod Context
pub mod Allocate
pub mod Remap
pub mod Registry
pub mod Free
pub mod History
pub mod Success
pub mod Tests
use edmm.Prelude.{
  ℕ, zero, suc, String, ◌+◌, ◌-◌, ◌*◌, ◌/◌, min, max, List, [], ◌∷◌, ◌++◌, Option, none, some, Bool,
  true, false, if◌then◌else◌, ltb, leb, ◌==◌, ℕ_discrete, length, get_elem?, set, ℤ, pos, negsuc,
}
use edmm.Prelude.Dict.{get, put, erase}
use edmm.Prelude.Effect.{ok, raised, raise, pure, ◌>>=◌, ◌>>◌}
use edmm.Gpu.{
  AllocationProp, AccessDesc, Call, Tensor, Driver, Allocation, World, Gpu, invoke, checked, plain,
  numbered, ranged, value_error, assertion_error, os_error, out_of_fuel,
}

abbrev pub cu_mem_allocation_type_pinned : ℕ
cu_mem_allocation_type_pinned = 1

abbrev pub cu_mem_location_type_device : ℕ
cu_mem_location_type_device = 1

abbrev pub cu_mem_access_flags_prot_readwrite : ℕ
cu_mem_access_flags_prot_readwrite = 3

-- `num_pages`
abbrev pub num_pages : Allocation → ℕ
num_pages alloc = length alloc.handles

abbrev pub device_prop : ℕ → AllocationProp
device_prop device_id = record {
  type = cu_mem_allocation_type_pinned;
  location_type = cu_mem_location_type_device;
  location_id = device_id;
}

abbrev pub device_access : ℕ → AccessDesc
device_access device_id = record {
  location_type = cu_mem_location_type_device;
  location_id = device_id;
  flags = cu_mem_access_flags_prot_readwrite;
}

-- `page_size` from the granularity that the driver reports.
abbrev pub page_size_of : ℕ → ℕ
page_size_of granularity = max granularity (2 * 1024 * 1024)

-- `aligned_size`
abbrev pub align_up : ℕ → ℕ → ℕ
align_up size_bytes page_size = ((size_bytes + page_size - 1) / page_size) * page_size

abbrev pub device_id_of : Option ℕ → ℕ
device_id_of none = 0
device_id_of (some index) = index

module _ (d : Driver) where
  load_library : String → Gpu d (Unit {0})
  unfolding invoke
  load_library name = do
    reply ← invoke d (Call.load_library name)
    if reply.code == 0 then pure tt else raise (os_error name)

  -- `_load_cuda_driver`
  unfoldable pub load_cuda_driver : Gpu d (Unit {0})
  unfolding load_library
  load_cuda_driver = do load_library "libcuda.so.1"; load_library "libcudart.so"

  mark_loaded : Gpu d (Unit {0})
  mark_loaded w = (ok tt, record w { loaded = true })

  start_cuda : Bool → Gpu d (Unit {0})
  unfolding load_cuda_driver mark_loaded invoke
  start_cuda true = pure tt
  start_cuda false = do load_cuda_driver; mark_loaded; _ ← invoke d (Call.init 0); pure tt

  -- `_get_cuda`
  unfoldable pub get_cuda : Gpu d (Unit {0})
  unfolding start_cuda
  get_cuda w = start_cuda w.loaded w

  -- `_ensure_driver_context`
  unfoldable pub ensure_driver_context : ℕ → Gpu d (Unit {0})
  unfolding invoke
  ensure_driver_context device_id = do
    get_cuda
    dev ← invoke d (Call.device_get device_id)
    ctx ← invoke d (Call.primary_ctx_retain dev.out)
    _ ← invoke d (Call.ctx_push_current ctx.out)
    pure tt

  -- The `while offset < aligned_size` loop of `allocate_vmm_kv_cache`.
  unfoldable pub map_pages : ℕ → ℕ → ℕ → ℕ → ℕ → ℕ → List ℕ → Gpu d (List ℕ)
  unfolding checked
  map_pages zero va page_size aligned_size device_id offset handles = raise out_of_fuel
  map_pages (suc fuel) va page_size aligned_size device_id offset handles =
      let chunk = min page_size (aligned_size - offset) in
      let rest = (do
        handle ←
            checked d (Call.mem_create chunk (device_prop device_id) 0)
              (numbered "cuMemCreate at offset" offset)
        _ ←
            checked d (Call.mem_map (va + offset) chunk 0 handle 0)
              (numbered "cuMemMap at offset" offset)
        map_pages fuel va page_size aligned_size device_id (offset + chunk)
            (handles ++ (handle ∷ []))) in
      if ltb offset aligned_size then rest else pure handles

  -- `_allocations[va.value] = alloc`
  unfoldable pub register : Allocation → Gpu d (Unit {0})
  register alloc w =
      (ok tt, record w { allocations = put ℕ_discrete alloc.va_ptr alloc w.allocations })

  -- The end of `allocate_vmm_kv_cache`, with the pages mapped.
  unfoldable pub open_pages : ℕ → ℕ → ℕ → ℕ → List ℕ → Gpu d Tensor
  unfolding checked invoke register
  open_pages size_bytes device_id page_size va handles = do
    let aligned_size = align_up size_bytes page_size
    _ ←
        checked d (Call.mem_set_access va aligned_size (device_access device_id) 1)
          (plain "cuMemSetAccess")
    _ ← invoke d (Call.memset va 0 aligned_size)
    _ ← checked d Call.synchronize (plain "torch.cuda.synchronize")
    let tensor = d.as_tensor (record { ptr = va; nbytes = size_bytes }) device_id
    register (record {
      va_ptr = va;
      total_bytes = aligned_size;
      page_size = page_size;
      handles = handles;
      tensor = some tensor;
    })
    pure tensor

  -- Everything of `allocate_vmm_kv_cache` after the page size is known.
  unfoldable pub allocate_pages : ℕ → ℕ → ℕ → Gpu d Tensor
  allocate_pages size_bytes device_id page_size = do
    let aligned_size = align_up size_bytes page_size
    va ← checked d (Call.address_reserve aligned_size 0 0 0) (plain "cuMemAddressReserve")
    handles ← map_pages (suc (aligned_size / page_size)) va page_size aligned_size device_id 0 []
    open_pages size_bytes device_id page_size va handles

  -- The part of `allocate_vmm_kv_cache` from the granularity on.
  unfoldable pub allocate_in_context : ℕ → ℕ → Gpu d Tensor
  allocate_in_context size_bytes device_id = do
    granularity ←
        checked d (Call.get_allocation_granularity (device_prop device_id) 0)
          (plain "cuMemGetAllocationGranularity")
    allocate_pages size_bytes device_id (page_size_of granularity)

  -- `allocate_vmm_kv_cache`; a device is its optional index.
  unfoldable pub allocate_vmm_kv_cache : ℕ → Option ℕ → Gpu d Tensor
  allocate_vmm_kv_cache size_bytes device = do
    get_cuda
    ensure_driver_context (device_id_of device)
    allocate_in_context size_bytes (device_id_of device)

  -- `get_vmm_allocation`
  unfoldable pub get_vmm_allocation : Tensor → World d → Option Allocation
  unfolding get
  get_vmm_allocation tensor w = get ℕ_discrete tensor.data_ptr w.allocations

  integrity_of : Tensor → Option Allocation → Gpu d Bool
  integrity_of tensor none = raise (assertion_error (plain "tensor is NOT VMM-backed"))
  integrity_of tensor (some alloc) =
      if tensor.data_ptr == alloc.va_ptr
      then pure true
      else raise (assertion_error (plain "framework performed an implicit copy"))

  -- `verify_edmm_tensor_integrity`
  unfoldable pub verify_edmm_tensor_integrity : Tensor → Gpu d Bool
  unfolding get_vmm_allocation integrity_of
  verify_edmm_tensor_integrity tensor w = integrity_of tensor (get_vmm_allocation tensor w) w

  -- `old_handle = alloc.handles[block_id]; alloc.handles[block_id] = new`, on the object that the
  -- table and the caller share: the table's entry at `key` changes.
  swap_handle : ℕ → Allocation → ℕ → ℕ → Option ℕ → Gpu d ℕ
  unfolding put
  swap_handle key alloc block_id new_handle none w =
      (raised (value_error (numbered "list index out of range" block_id)), w)
  swap_handle key alloc block_id new_handle (some old) w = (
    ok old,
    record w {
      allocations =
          put ℕ_discrete key (record alloc { handles = set alloc.handles block_id new_handle })
            w.allocations;
    },
  )

  -- The critical section of `remap_block`, and the synchronisation after it.
  unfoldable pub exchange : ℕ → ℕ → ℕ → Allocation → Gpu d ℕ
  unfolding swap_handle checked
  exchange key block_id new_handle alloc = do
    let block_va = alloc.va_ptr + block_id * alloc.page_size
    _ ← checked d (Call.mem_unmap block_va alloc.page_size) (numbered "cuMemUnmap block" block_id)
    _ ←
        checked d (Call.mem_map block_va alloc.page_size 0 new_handle 0)
          (numbered "cuMemMap block" block_id)
    _ ←
        checked d (Call.mem_set_access block_va alloc.page_size (device_access 0) 1)
          (numbered "cuMemSetAccess block" block_id)
    old_handle ← swap_handle key alloc block_id new_handle (get_elem? alloc.handles block_id)
    _ ← checked d Call.synchronize (plain "torch.cuda.synchronize")
    pure old_handle

  remap_allocation : ℕ → ℕ → ℕ → Allocation → Gpu d ℕ
  remap_allocation key block_id new_handle alloc = do
    get_cuda
    exchange key block_id new_handle alloc

  remap_found : ℕ → ℤ → ℕ → Option Allocation → Gpu d ℕ
  unfolding remap_allocation
  remap_found key block_id new_handle none = raise (value_error (plain "Tensor is not VMM-backed"))
  remap_found key (negsuc n) new_handle (some alloc) =
      raise (value_error (ranged "block_id out of range" (negsuc n) (num_pages alloc)))
  remap_found key (pos n) new_handle (some alloc) =
      if leb (num_pages alloc) n
      then raise (value_error (ranged "block_id out of range" (pos n) (num_pages alloc)))
      else remap_allocation key n new_handle alloc

  -- `remap_block`
  unfoldable pub remap_block : Tensor → ℤ → ℕ → Gpu d ℕ
  unfolding get_vmm_allocation remap_found
  remap_block tensor block_id new_handle w =
      remap_found tensor.data_ptr block_id new_handle (get_vmm_allocation tensor w) w

  -- `create_physical_handle`
  unfoldable pub create_physical_handle : ℕ → ℕ → Gpu d ℕ
  create_physical_handle size_bytes device_id = do
    get_cuda
    ensure_driver_context device_id
    checked d (Call.mem_create size_bytes (device_prop device_id) 0)
        (plain "cuMemCreate (new handle)")

  -- `release_physical_handle`
  unfoldable pub release_physical_handle : ℕ → Gpu d (Unit {0})
  release_physical_handle handle = do
    get_cuda
    _ ← checked d (Call.mem_release handle) (plain "cuMemRelease")
    pure tt

  -- `for h in alloc.handles: cuda.cuMemRelease(h)`
  release_handles : List ℕ → Gpu d (Unit {0})
  unfolding invoke
  release_handles [] = pure tt
  release_handles (h ∷ hs) = do _ ← invoke d (Call.mem_release h); release_handles hs

  -- The calls of `free_vmm_kv_cache`; their results are not checked.
  unfoldable pub give_back : Allocation → Gpu d (Unit {0})
  unfolding invoke release_handles
  give_back alloc = do
    _ ← invoke d (Call.mem_unmap alloc.va_ptr alloc.total_bytes)
    release_handles alloc.handles
    _ ← invoke d (Call.address_free alloc.va_ptr alloc.total_bytes)
    pure tt

  free_allocation : Allocation → Gpu d (Unit {0})
  free_allocation alloc = do get_cuda; give_back alloc

  free_popped : Option Allocation → Gpu d (Unit {0})
  unfolding free_allocation
  free_popped none = pure tt
  free_popped (some alloc) = free_allocation alloc

  -- `free_vmm_kv_cache`
  unfoldable pub free_vmm_kv_cache : Tensor → Gpu d (Unit {0})
  unfolding get_vmm_allocation erase free_popped
  free_vmm_kv_cache tensor w =
      free_popped (get_vmm_allocation tensor w)
        (record w { allocations = erase ℕ_discrete tensor.data_ptr w.allocations })
