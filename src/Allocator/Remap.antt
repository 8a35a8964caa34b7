-- ===== src/Allocator/Remap.antt =====
-- `remap_block`: one page gets other physical memory, under the same address.
use edmm.Prelude.{
  ℕ, zero, suc, ◌+◌, ◌*◌, ◌<◌, ◌≡◌, refl, sym, ap₂, subst, ◌∙◌, inl, inr, Option, none, some, List,
  [], ◌∷◌, ◌++◌, arith, get_elem?, set, leb, ◌⊎◌, ℤ, pos, negsuc, ℕ_discrete, Bool-cases,
  append_assoc, get_elem?_of_lt, set-set_self, set-get_elem?, get_elem?-set_self,
}
use mathlib.Core.List.{Perm}
use mathlib.Core.List.Perm
use edmm.Prelude.Dict.{Dict, some_injective, get, put, put-put_self, put-get, get-put_self}
use edmm.Prelude.Effect.{Outcome, ok, raised, bind}
use edmm.Gpu.{Call, Tensor, Allocation, Exception, Driver, World, runtime_error, plain}
use edmm.Allocator.{device_access, num_pages, exchange, remap_allocation, remap_found, remap_block}
use edmm.Allocator.Pages.{checked_rule}
use edmm.Allocator.Context.{start_calls, Started, get_cuda_rule}

abbrev pub remap_calls : Allocation → ℕ → ℕ → List Call
remap_calls alloc n new_handle =
    let block_va = alloc.va_ptr + n * alloc.page_size in
    Call.mem_unmap block_va alloc.page_size
    ∷ Call.mem_map block_va alloc.page_size 0 new_handle 0
    ∷ Call.mem_set_access block_va alloc.page_size (device_access 0) 1
    ∷ Call.synchronize
    ∷ []

pos-injective : {m n : ℕ} → pos m ≡ pos n → m ≡ n
pos-injective e = cc

set-perm :
    (hs : List ℕ) (i new old : ℕ) → get_elem? hs i ≡ some old → Perm (old ∷ set hs i new) (new ∷ hs)
set-perm [] i new old e = cc
set-perm (h ∷ hs) zero new old e = rw (some_injective (sym e)) (Perm.swap new h hs)
set-perm (h ∷ hs) (suc i) new old e =
    Perm.trans (Perm.swap h old (set hs i new))
      (Perm.trans (Perm.cons h (set-perm hs i new old e)) (Perm.swap new h hs))

-- Writing back what stood there, over the table that the first write left.
restore :
    (key i j new old : ℕ) (a b : Allocation) (t t' t'' : Dict ℕ Allocation)
    → get ℕ_discrete key t ≡ some a
    → get_elem? a.handles i ≡ some old
    → t' ≡ put ℕ_discrete key (record a { handles = set a.handles i new }) t
    → b ≡ record a { handles = set a.handles i new }
    → j ≡ i
    → t'' ≡ put ℕ_discrete key (record b { handles = set b.handles j old }) t'
    → t'' ≡ t
restore key i j new old a b t t' t'' found here p q r s =
    rw
      (
        s,
        q,
        r,
        p,
        put-put_self ℕ_discrete key,
        set-set_self a.handles i new old,
        set-get_elem? a.handles i old here,
      )
      (put-get ℕ_discrete key a t found)

module _ (d : Driver) where
  -- A successful remap of the block `block_id` of the allocation registered at `key`.
  pub record Remapped (key : ℕ) (block_id : ℤ) (new_handle : ℕ) (w : World d) (old : ℕ)
      (w' : World d) : Type 0 where
    pub alloc : Allocation
    pub index : ℕ
    pub block : block_id ≡ pos index
    pub in_range : index < num_pages alloc
    pub found : get ℕ_discrete key w.allocations ≡ some alloc
    pub old_handle : get_elem? alloc.handles index ≡ some old
    pub table :
        w'.allocations
        ≡ put ℕ_discrete key
            (record alloc { handles = set alloc.handles index new_handle })
            w.allocations
    pub calls : w'.calls ≡ w.calls ++ (start_calls w.loaded ++ remap_calls alloc index new_handle)

  -- The block is remapped, but the synchronisation after it raised: the old handle is not returned.
  pub record Unsynchronized (key : ℕ) (block_id : ℤ) (new_handle : ℕ) (w : World d) (e : Exception)
      (w' : World d) : Type 0 where
    pub code : ℕ
    pub raises : e ≡ runtime_error code (plain "torch.cuda.synchronize")
    pub old : ℕ
    pub remapped : Remapped key block_id new_handle w old w'

  abbrev pub RemappedOr : ℕ → ℤ → ℕ → World d → Outcome Exception ℕ × World d → Type 0
  RemappedOr key block_id new_handle w (ok old, w') = Remapped key block_id new_handle w old w'
  RemappedOr key block_id new_handle w (raised e, w') =
      (w'.allocations ≡ w.allocations) ⊎ Unsynchronized key block_id new_handle w e w'

  exchange-Remapped :
      (key n new_handle : ℕ) (alloc : Allocation) (w0 w : World d)
      → get ℕ_discrete key w0.allocations ≡ some alloc
      → n < num_pages alloc
      → Started d w0.loaded w0 w
      → RemappedOr key (pos n) new_handle w0 (exchange d key n new_handle alloc w)
  unfolding exchange
  exchange-Remapped key n new_handle alloc w0 w found lt g =
      let Post : Outcome Exception ℕ × World d → Type 0 = RemappedOr key (pos n) new_handle w0 in
      let (old, here) = get_elem?_of_lt alloc.handles n lt in
      checked_rule d Post _ _ w _ (λ _. inl g.allocations)
        (λ _.
          checked_rule d Post _ _ _ _ (λ _. inl g.allocations)
            (λ _.
              checked_rule d Post _ _ _ _ (λ _. inl g.allocations)
                (λ _. rw here (
                  checked_rule d Post _ _ _ _
                    (λ k. inr (record {
                      code = k;
                      raises = refl;
                      old = old;
                      remapped = made old here _ refl refl;
                    }))
                    (λ _. made old here _ refl refl)))))
    where
      made :
          (old : ℕ)
          → get_elem? alloc.handles n ≡ some old
          → (w' : World d)
          → w'.allocations
            ≡ put ℕ_discrete key
                (record alloc { handles = set alloc.handles n new_handle })
                w.allocations
          → w'.calls ≡ (
              (((w.calls
                    ++ (Call.mem_unmap (alloc.va_ptr + n * alloc.page_size) alloc.page_size ∷ []))
                  ++ (Call.mem_map
                        (alloc.va_ptr + n * alloc.page_size)
                        alloc.page_size
                        0
                        new_handle
                        0
                      ∷ []))
                ++ (Call.mem_set_access
                      (alloc.va_ptr + n * alloc.page_size)
                      alloc.page_size
                      (device_access 0)
                      1
                    ∷ []))
              ++ (Call.synchronize ∷ []))
          → Remapped key (pos n) new_handle w0 old w'
      made old here w' table calls = record {
        alloc = alloc;
        index = n;
        block = refl;
        in_range = lt;
        found = found;
        old_handle = here;
        table = rw (table, g.allocations) refl;
        calls = rw (calls, g.calls) (simp append_assoc);
      }

  remap_found-Remapped :
      (key : ℕ) (block_id : ℤ) (new_handle : ℕ) (o : Option Allocation) (w : World d)
      → get ℕ_discrete key w.allocations ≡ o
      → RemappedOr key block_id new_handle w (remap_found d key block_id new_handle o w)
  unfolding remap_found remap_allocation
  remap_found-Remapped key block_id new_handle none w found = inl refl
  remap_found-Remapped key (negsuc n) new_handle (some alloc) w found = inl refl
  remap_found-Remapped key (pos n) new_handle (some alloc) w found =
      elim (Bool-cases (leb (num_pages alloc) n)) [
        | inl out ↦ rw out (inl refl)
        | inr inside ↦ rw inside (
            get_cuda_rule d
              (λ r.
                RemappedOr key (pos n) new_handle w
                  (bind r (λ _. exchange d key n new_handle alloc)))
              w (λ _ w' g. inl g.allocations)
              (λ w' g. exchange-Remapped key n new_handle alloc w w' found (ground arith) g))
      ]

  -- `remap_block` raises and leaves the registry alone, or the block is in range and exactly its
  -- handle changes. The old handle is then returned, unless the synchronisation at the end raises,
  -- which loses it. The driver is started if it was not, and then unmaps, maps and opens this one
  -- page, in this order; there are no other calls.
  pub remap_block-Remapped :
      (t : Tensor) (block_id : ℤ) (new_handle : ℕ) (w : World d)
      → RemappedOr t.data_ptr block_id new_handle w (remap_block d t block_id new_handle w)
  unfolding remap_block
  remap_block-Remapped t block_id new_handle w =
      remap_found-Remapped t.data_ptr block_id new_handle _ w refl

  Remapped-handles :
      {key : ℕ} {block_id : ℤ} {new_handle old : ℕ} {w w' : World d}
      → Remapped key block_id new_handle w old w'
      → (a b : Allocation) × (get ℕ_discrete key w.allocations ≡ some a)
        × (get ℕ_discrete key w'.allocations ≡ some b)
        × Perm (old ∷ b.handles) (new_handle ∷ a.handles)
  Remapped-handles {key} {new_handle} {old} {w} r = (
    r.alloc,
    record r.alloc { handles = set r.alloc.handles r.index new_handle },
    r.found,
    rw r.table (get-put_self ℕ_discrete key _ w.allocations),
    set-perm r.alloc.handles r.index new_handle old r.old_handle,
  )

  -- The handles that the registry and the caller hold together are the same before and after: none
  -- is lost, none is held twice.
  pub remap_block-handles :
      (t : Tensor) (block_id : ℤ) (new_handle old : ℕ) (w w' : World d)
      → remap_block d t block_id new_handle w ≡ (ok old, w')
      → (a b : Allocation) × (get ℕ_discrete t.data_ptr w.allocations ≡ some a)
        × (get ℕ_discrete t.data_ptr w'.allocations ≡ some b)
        × Perm (old ∷ b.handles) (new_handle ∷ a.handles)
  remap_block-handles t block_id new_handle old w w' e = Remapped-handles (
      subst (RemappedOr t.data_ptr block_id new_handle w) e
        (remap_block-Remapped t block_id new_handle w))

  Remapped-Remapped :
      {key : ℕ} {block_id : ℤ} {new_handle old again : ℕ} {w w' w'' : World d}
      → Remapped key block_id new_handle w old w'
      → Remapped key block_id old w' again w''
      → (again ≡ new_handle) × (w''.allocations ≡ w.allocations)
  Remapped-Remapped {key} {new_handle} {old} {w} {w'} {w''} r q =
      let same_index : q.index ≡ r.index = pos-injective (sym q.block ∙ r.block) in
      let written : get ℕ_discrete key w'.allocations
          ≡ some (record r.alloc { handles = set r.alloc.handles r.index new_handle }) =
        rw r.table (get-put_self ℕ_discrete key _ w.allocations) in
      let same_alloc : q.alloc
          ≡ record r.alloc { handles = set r.alloc.handles r.index new_handle } =
        some_injective (sym q.found ∙ written) in
      let stored : get_elem? q.alloc.handles q.index ≡ some new_handle =
        ap₂ (λ (a : Allocation) (i : ℕ). get_elem? a.handles i) same_alloc same_index
        ∙ get_elem?-set_self r.alloc.handles r.index new_handle r.in_range in
      (
        some_injective (sym q.old_handle ∙ stored),
        restore key r.index q.index new_handle old r.alloc q.alloc w.allocations w'.allocations
            w''.allocations r.found r.old_handle r.table same_alloc same_index q.table,
      )

  -- A remap back to the handle that the first one returned restores the registry.
  pub remap_block-remap_block :
      (t : Tensor) (block_id : ℤ) (new_handle old again : ℕ) (w w' w'' : World d)
      → remap_block d t block_id new_handle w ≡ (ok old, w')
      → remap_block d t block_id old w' ≡ (ok again, w'')
      → (again ≡ new_handle) × (w''.allocations ≡ w.allocations)
  remap_block-remap_block t block_id new_handle old again w w' w'' e f =
      Remapped-Remapped
        (subst (RemappedOr t.data_ptr block_id new_handle w) e
          (remap_block-Remapped t block_id new_handle w))
        (subst (RemappedOr t.data_ptr block_id old w') f (remap_block-Remapped t block_id old w'))
