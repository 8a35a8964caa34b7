-- ===== src/Allocator/Free.antt =====
-- `free_vmm_kv_cache`: every page of a registered tensor is given back once.
use edmm.Prelude.{
  ℕ, ◌≡◌, refl, sym, ap, ◌∙◌, none, some, List, [], ◌∷◌, ◌++◌, map, ℕ_discrete, inl, inr,
  Option-cases, append_assoc, append-nil, String,
}
use edmm.Prelude.Dict.{Dict, erase, erase_absent, get-erase_self}
use edmm.Prelude.Effect.{Outcome, ok, raised, bind}
use edmm.Gpu.{Call, Tensor, Allocation, Exception, Driver, World, os_error}
use edmm.Allocator.{
  get_vmm_allocation, free_vmm_kv_cache, free_popped, free_allocation, give_back, release_handles,
}
use edmm.Allocator.Pages.{after}
use edmm.Allocator.Context.{start_calls, get_cuda_rule}

abbrev pub release_calls : List ℕ → List Call
release_calls = map Call.mem_release

abbrev pub free_calls : Allocation → List Call
free_calls a =
    Call.mem_unmap a.va_ptr a.total_bytes
    ∷ (release_calls a.handles ++ (Call.address_free a.va_ptr a.total_bytes ∷ []))

module _ (d : Driver) where
  -- What a free leaves of a registered allocation.
  abbrev pub FreedOr : ℕ → Allocation → World d → Outcome Exception (Unit {0}) × World d → Type 0
  FreedOr key a w (ok u, w') =
      (w'.allocations ≡ erase ℕ_discrete key w.allocations)
      × (w'.calls ≡ w.calls ++ (start_calls w.loaded ++ free_calls a))
  FreedOr key a w (raised e, w') =
      (w'.allocations ≡ erase ℕ_discrete key w.allocations) × (name : String) × (e ≡ os_error name)

  -- Releasing is a run of calls that never raises.
  release_handles-runs :
      (hs : List ℕ) (w : World d)
      → (w' : World d) × (release_handles d hs w ≡ (ok tt, w'))
        × (w'.calls ≡ w.calls ++ release_calls hs)
        × (w'.allocations ≡ w.allocations)
  unfolding release_handles
  release_handles-runs [] w = (w, refl, sym (append-nil w.calls), refl)
  release_handles-runs (h ∷ hs) w =
      let (w', runs, calls, same) = release_handles-runs hs (after d (Call.mem_release h) w) in
      (w', runs, calls ∙ append_assoc w.calls _ _, same)

  give_back-Freed :
      (key : ℕ) (a : Allocation) (w0 w : World d)
      → w.allocations ≡ erase ℕ_discrete key w0.allocations
      → w.calls ≡ w0.calls ++ start_calls w0.loaded
      → FreedOr key a w0 (give_back d a w)
  unfolding give_back
  give_back-Freed key a w0 w same log =
      let (w', runs, calls, kept) =
        release_handles-runs a.handles (after d (Call.mem_unmap a.va_ptr a.total_bytes) w) in
      rw runs (kept ∙ same, rw (calls, log) (simp append_assoc))

  -- Freeing a registered tensor drops its entry. If it returns, the driver was started if it was not,
  -- and then there are just these calls: its whole range is unmapped, each of its handles is released
  -- once, in order, and the addresses are given back. It raises only if a driver library cannot be
  -- loaded.
  pub free-Freed :
      (t : Tensor) (a : Allocation) (w : World d)
      → get_vmm_allocation d t w ≡ some a
      → FreedOr t.data_ptr a w (free_vmm_kv_cache d t w)
  unfolding free_vmm_kv_cache free_popped free_allocation
  free-Freed t a w e =
      let w1 : World d = record w { allocations = erase ℕ_discrete t.data_ptr w.allocations } in
      rw e (
        get_cuda_rule d (λ r. FreedOr t.data_ptr a w (bind r (λ _. give_back d a))) w1
          (λ n w' g. (g.allocations, n, refl))
          (λ w' g. give_back-Freed t.data_ptr a w w' g.allocations g.calls))

  -- A tensor that is not registered is left alone: nothing is called and nothing changes.
  pub free_unregistered :
      (t : Tensor) (w : World d)
      → get_vmm_allocation d t w ≡ none
      → free_vmm_kv_cache d t w ≡ (ok tt, w)
  unfolding free_vmm_kv_cache free_popped get_vmm_allocation
  free_unregistered t w e = rw e (
      ap (λ (table : Dict ℕ Allocation). (ok tt, record w { allocations = table }))
        (erase_absent ℕ_discrete t.data_ptr w.allocations e))

  FreedOr-dropped :
      (t : Tensor) (a : Allocation) (w : World d) (r : Outcome Exception (Unit {0}) × World d)
      → FreedOr t.data_ptr a w r
      → get_vmm_allocation d t r.1 ≡ none
  unfolding get_vmm_allocation
  FreedOr-dropped t a w (ok u, w') f = rw f.0 (get-erase_self ℕ_discrete t.data_ptr w.allocations)
  FreedOr-dropped t a w (raised e, w') f =
      rw f.0 (get-erase_self ℕ_discrete t.data_ptr w.allocations)

  -- After a free, whether it raised or not, a second free of the tensor does nothing: no handle is
  -- released twice.
  pub free-free :
      (t : Tensor) (w : World d)
      → let w' = (free_vmm_kv_cache d t w).1 in free_vmm_kv_cache d t w' ≡ (ok tt, w')
  free-free t w = elim (Option-cases (get_vmm_allocation d t w)) [
    | inl e ↦ rw (free_unregistered t w e) (free_unregistered t w e)
    | inr (a, e) ↦ free_unregistered t _ (FreedOr-dropped t a w _ (free-Freed t a w e))
  ]
