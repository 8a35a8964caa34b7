-- ===== src/Allocator/Success.antt =====
-- With a driver that never reports an error, the allocator's calls return.
use edmm.Prelude.{
  ℕ, zero, suc, ◌+◌, ◌-◌, ◌*◌, ◌/◌, ◌<◌, ◌≤◌, ◌≡◌, refl, Option, some, List, [], Bool, true, false,
  arith, ltb, leb, min, pos, get_elem?_of_lt,
}
use native.Mathlib.Nat.{mul-div_cancel}
use edmm.Prelude.Effect.{Outcome, ok, bind, M, ◌>>=◌}
use edmm.Gpu.{Call, Message, Tensor, Allocation, Exception, Driver, World, checked}
use edmm.Allocator.{
  num_pages, align_up, device_id_of, load_library, start_cuda, get_cuda, ensure_driver_context,
  map_pages, open_pages, allocate_pages, allocate_in_context, allocate_vmm_kv_cache, exchange,
  remap_allocation, remap_found, get_vmm_allocation, remap_block,
}
use edmm.Allocator.Pages.{after}

module _ (d : Driver) (reliable : (s : d.State) (c : Call) → (d.answer s c).0.code ≡ 0) where
  abbrev Returns : {A : Type 0} → Outcome Exception A × World d → Type 0
  Returns {A} r = (a : A) × (w' : World d) × (r ≡ (ok a, w'))

  checked_ok :
      {B : Type 0} (c : Call) (msg : Message) (w : World d) (f : ℕ → M (World d) Exception B)
      → Returns (f (d.answer w.driver c).0.out (after d c w))
      → Returns ((checked d c msg >>= f) w)
  unfolding checked
  checked_ok c msg w f h = rw (reliable w.driver c) h

  bind_ok :
      {A B : Type 0} (r : Outcome Exception A × World d) (f : A → M (World d) Exception B)
      → Returns r
      → ((a : A) (w' : World d) → Returns (f a w'))
      → Returns (bind r f)
  bind_ok r f (a, w', e) k = rw e (k a w')

  start_cuda_ok : (b : Bool) (w : World d) → Returns (start_cuda d b w)
  unfolding start_cuda load_library
  start_cuda_ok true w = (tt, w, refl)
  start_cuda_ok false w =
      rw (reliable w.driver (Call.load_library "libcuda.so.1"), reliable _ _) (tt, _, refl)

  get_cuda_ok : (w : World d) → Returns (get_cuda d w)
  unfolding get_cuda
  get_cuda_ok w = start_cuda_ok w.loaded w

  ensure_driver_context_ok :
      (device_id : ℕ) (w : World d) → Returns (ensure_driver_context d device_id w)
  unfolding ensure_driver_context
  ensure_driver_context_ok device_id w = let (_, w', e) = get_cuda_ok w in rw e (tt, _, refl)

  map_pages_ok :
      (n fuel va page_size aligned_size device_id offset : ℕ) (handles : List ℕ) (w : World d)
      → n < fuel
      → 0 < page_size
      → aligned_size ≡ offset + n * page_size
      → Returns (map_pages d fuel va page_size aligned_size device_id offset handles w)
  unfolding map_pages
  map_pages_ok n zero va page_size aligned_size device_id offset handles w lt positive e =
      elim lt [ ]
  map_pages_ok zero (suc fuel) va page_size aligned_size device_id offset handles w lt positive e =
      let done : ltb offset aligned_size ≡ false = ground arith in rw done (handles, w, refl)
  map_pages_ok (suc n) (suc fuel) va page_size aligned_size device_id offset handles w lt positive
        e =
      let rounds : suc n * page_size ≡ page_size + n * page_size = omega arith in
      let more : ltb offset aligned_size ≡ true = ground (arith, rounds) in
      let chunk : min page_size (aligned_size - offset) ≡ page_size = omega (arith, rounds) in
      rw (more, chunk)
        (checked_ok _ _ w _ (
          checked_ok _ _ _ _ (
            map_pages_ok n fuel va page_size aligned_size device_id (offset + page_size) _ _
              (omega arith) positive (omega (arith, rounds)))))

  allocate_pages_ok :
      (size_bytes device_id page_size : ℕ) (w : World d)
      → 2097152 ≤ page_size
      → Returns (allocate_pages d size_bytes device_id page_size w)
  unfolding allocate_pages open_pages
  allocate_pages_ok size_bytes device_id page_size w big =
      let n = (size_bytes + page_size - 1) / page_size in
      checked_ok _ _ w _ (
        bind_ok _ _
          (map_pages_ok n (suc (align_up size_bytes page_size / page_size)) _ page_size
            (align_up size_bytes page_size) device_id 0 [] _
            (omega (arith, mul-div_cancel n {n = page_size} (omega arith))) (omega arith)
            (omega arith))
          (λ hs w'. checked_ok _ _ w' _ (checked_ok _ _ _ _ (_, _, refl))))

  -- If the driver never reports an error, an allocation of any size, on any device, returns a
  -- tensor.
  pub allocate-Returns :
      (size_bytes : ℕ) (device : Option ℕ) (w : World d)
      → (t : Tensor) × (w' : World d) × (allocate_vmm_kv_cache d size_bytes device w ≡ (ok t, w'))
  unfolding allocate_vmm_kv_cache allocate_in_context
  allocate-Returns size_bytes device w =
      let (_, w1, e1) = get_cuda_ok w in
      let (_, w2, e2) = ensure_driver_context_ok (device_id_of device) w1 in
      rw (e1, e2)
        (checked_ok _ _ w2 _ (allocate_pages_ok size_bytes (device_id_of device) _ _ (omega arith)))

  -- If the driver never reports an error, a remap of a block in range of a registered tensor
  -- returns an old handle.
  pub remap_block-Returns :
      (t : Tensor) (a : Allocation) (n new_handle : ℕ) (w : World d)
      → get_vmm_allocation d t w ≡ some a
      → n < num_pages a
      → (old : ℕ) × (w' : World d) × (remap_block d t (pos n) new_handle w ≡ (ok old, w'))
  unfolding remap_block remap_found remap_allocation exchange
  remap_block-Returns t a n new_handle w found lt =
      let inside : leb (num_pages a) n ≡ false = ground arith in
      let (_, w1, e1) = get_cuda_ok w in
      let (old, here) = get_elem?_of_lt a.handles n lt in
      rw (found, inside, e1)
        (checked_ok _ _ w1 _
          (checked_ok _ _ _ _ (checked_ok _ _ _ _ (rw here (checked_ok _ _ _ _ (old, _, refl))))))
