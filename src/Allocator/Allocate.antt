-- ===== src/Allocator/Allocate.antt =====
-- `allocate_vmm_kv_cache`: the sizes, the driver calls and the registry entry of an allocation.
use edmm.Prelude.{
  ℕ, ◌+◌, ◌-◌, ◌*◌, ◌/◌, ◌≤◌, ◌<◌, ◌≡◌, ◌≢◌, refl, ◌∙◌, Option, some, List, [], ◌∷◌, ◌++◌, arith,
  length, ℕ_discrete, append_assoc,
}
use native.Mathlib.Nat.{mul-div_cancel, div-mul-le_self, lt-div-mul-add}
use edmm.Prelude.Dict.{put}
use edmm.Prelude.Effect.{Outcome, ok, raised, ◌>>◌, bind}
use edmm.Gpu.{Call, Tensor, Allocation, Exception, Driver, World, out_of_fuel}
use edmm.Allocator.{
  device_access, device_id_of, page_size_of, align_up, allocate_pages, open_pages,
  allocate_in_context, allocate_vmm_kv_cache, ensure_driver_context,
}
use edmm.Allocator.Pages.{page_calls, after, checked_rule, Mapped, map_pages-Mapped}
use edmm.Allocator.Context.{
  Grows, Grows-trans, Grows-after, Started-Grows, get_cuda_rule, ensure_driver_context_rule,
}

-- The registry's entry for an allocation.
abbrev pub entry : ℕ → ℕ → ℕ → List ℕ → Tensor → Allocation
entry va size_bytes page_size handles tensor = record {
  va_ptr = va;
  total_bytes = align_up size_bytes page_size;
  page_size = page_size;
  handles = handles;
  tensor = some tensor;
}

-- The driver calls of an allocation, from the reservation on.
abbrev pub allocation_calls : ℕ → ℕ → ℕ → ℕ → List ℕ → List Call
allocation_calls size_bytes device_id page_size va handles =
    Call.address_reserve (align_up size_bytes page_size) 0 0 0
    ∷ (page_calls va page_size device_id 0 handles
        ++ (Call.mem_set_access va (align_up size_bytes page_size) (device_access device_id) 1
            ∷ Call.memset va 0 (align_up size_bytes page_size)
            ∷ Call.synchronize
            ∷ []))

-- The reserved bytes are whole pages, and the least that hold the request.
pub align_up_bounds :
    (size page : ℕ) → 0 < page → (size ≤ align_up size page) × (align_up size page < size + page)
align_up_bounds size page pos = omega (
  arith,
  div-mul-le_self (size + page - 1) page,
  lt-div-mul-add {a = size + page - 1} {b = page} pos,
)

module _ (d : Driver) where
  -- What an allocation leaves behind, in a world that it found as `w`.
  pub record Allocated (size_bytes device_id page_size : ℕ) (w : World d) (t : Tensor)
      (w' : World d) : Type 0 where
    pub va : ℕ
    pub handles : List ℕ
    pub tensor : t ≡ d.as_tensor (record { ptr = va; nbytes = size_bytes }) device_id
    pub registered :
        w'.allocations ≡ put ℕ_discrete va (entry va size_bytes page_size handles t) w.allocations
    pub page_count : length handles * page_size ≡ align_up size_bytes page_size
    pub before : List Call
    pub calls :
        w'.calls ≡ w.calls ++ (before ++ allocation_calls size_bytes device_id page_size va handles)

  abbrev pub AllocatedOr : ℕ → ℕ → World d → Outcome Exception Tensor × World d → Type 0
  AllocatedOr size_bytes device_id w (ok t, w') =
      (page_size : ℕ) × (2097152 ≤ page_size) × Allocated size_bytes device_id page_size w t w'
  AllocatedOr size_bytes device_id w (raised e, w') =
      (e ≢ out_of_fuel) × (w'.allocations ≡ w.allocations)

  open_pages-Allocated :
      (size_bytes device_id page_size va : ℕ) (w0 w : World d) (handles : List ℕ)
      → 2097152 ≤ page_size
      → length handles * page_size ≡ align_up size_bytes page_size
      → w.allocations ≡ w0.allocations
      → (before : List Call)
      → w.calls
        ≡ w0.calls
          ++ (before
              ++ (Call.address_reserve (align_up size_bytes page_size) 0 0 0
                  ∷ page_calls va page_size device_id 0 handles))
      → AllocatedOr size_bytes device_id w0
          (open_pages d size_bytes device_id page_size va handles w)
  unfolding open_pages
  open_pages-Allocated size_bytes device_id page_size va w0 w handles big count same before log =
      checked_rule d (AllocatedOr size_bytes device_id w0) _ _ w _ (λ k. (λ f. cc, same))
        (λ _.
          checked_rule d (AllocatedOr size_bytes device_id w0) _ _ _ _ (λ k. (λ f. cc, same))
            (λ _. (
              page_size,
              big,
              record {
                va = va;
                handles = handles;
                tensor = refl;
                registered = rw same refl;
                page_count = count;
                before = before;
                calls = rw log (simp append_assoc);
              },
            )))

  after_mapping :
      (size_bytes device_id page_size va n : ℕ) (w0 w : World d)
      (r : Outcome Exception (List ℕ) × World d)
      → 2097152 ≤ page_size
      → n * page_size ≡ align_up size_bytes page_size
      → Grows d w0 w
      → Mapped d n va page_size device_id 0 []
          (after d (Call.address_reserve (align_up size_bytes page_size) 0 0 0) w)
          r
      → AllocatedOr size_bytes device_id w0
          (bind r (open_pages d size_bytes device_id page_size va))
  after_mapping size_bytes device_id page_size va n w0 w (ok handles, w') big count g m =
      open_pages-Allocated size_bytes device_id page_size va w0 w' handles big
        (rw m.1 (rw m.2 count)) (m.4.allocations ∙ g.allocations) g.log
        (rw m.1 (m.3 ∙ rw g.calls (simp append_assoc)))
  after_mapping size_bytes device_id page_size va n w0 w (raised e, w') big count g m =
      (m.0, m.1.allocations ∙ g.allocations)

  allocate_pages-Allocated :
      (size_bytes device_id page_size : ℕ) (w0 w : World d)
      → 2097152 ≤ page_size
      → Grows d w0 w
      → AllocatedOr size_bytes device_id w0 (allocate_pages d size_bytes device_id page_size w)
  unfolding allocate_pages
  allocate_pages-Allocated size_bytes device_id page_size w0 w big g =
      let n = (size_bytes + page_size - 1) / page_size in
      checked_rule d (AllocatedOr size_bytes device_id w0) _ _ w _ (λ k. (λ f. cc, g.allocations))
        (λ va. after_mapping size_bytes device_id page_size va n w0 w _ big refl g (
          map_pages-Mapped d n _ va page_size _ device_id 0 [] _
            (omega (arith, mul-div_cancel n {n = page_size} (omega arith))) (omega arith)
            (omega arith)))

  allocate_in_context-Allocated :
      (size_bytes device_id : ℕ) (w0 w : World d)
      → Grows d w0 w
      → AllocatedOr size_bytes device_id w0 (allocate_in_context d size_bytes device_id w)
  unfolding allocate_in_context
  allocate_in_context-Allocated size_bytes device_id w0 w g =
      checked_rule d (AllocatedOr size_bytes device_id w0) _ _ w _ (λ k. (λ f. cc, g.allocations))
        (λ granularity.
          allocate_pages-Allocated size_bytes device_id (page_size_of granularity) w0 _
            (omega arith) (Grows-trans d g (Grows-after d _ w)))

  -- An allocation ends, whatever the driver answers. If it raises, the registry is as it was. If it
  -- returns a tensor, the pages are at least 2 MiB, whole pages were created and mapped one after
  -- the other from the reserved address on, and the registry has one more entry, at that address.
  pub allocate-Allocated :
      (size_bytes : ℕ) (device : Option ℕ) (w : World d)
      → AllocatedOr size_bytes (device_id_of device) w (allocate_vmm_kv_cache d size_bytes device w)
  unfolding allocate_vmm_kv_cache
  allocate-Allocated size_bytes device w =
      get_cuda_rule d
        (λ r. AllocatedOr size_bytes (device_id_of device) w (
          bind r (λ _.
            ensure_driver_context d (device_id_of device)
            >> allocate_in_context d size_bytes (device_id_of device))))
        w (λ _ w' g. (λ f. cc, g.allocations))
        (λ w' g.
          ensure_driver_context_rule d
            (λ r.
              AllocatedOr size_bytes (device_id_of device) w
                (bind r (λ _. allocate_in_context d size_bytes (device_id_of device))))
            (device_id_of device) w' (λ _ w'' g'. (λ f. cc, g'.allocations ∙ g.allocations))
            (λ w'' g'.
              allocate_in_context-Allocated size_bytes (device_id_of device) w w''
                (Grows-trans d (Started-Grows d g) g')))
