-- ===== src/Allocator/Pages.antt =====
-- The loop that creates and maps the pages of an allocation.
use edmm.Prelude.{
  ℕ, zero, suc, ◌+◌, ◌-◌, ◌*◌, ◌<◌, ◌≡◌, refl, sym, ap, ◌∙◌, ◌≢◌, inl, inr, List, [], ◌∷◌, ◌++◌,
  true, false, Bool-cases, arith, length, append_assoc, append-nil, ltb, min, ◌==◌,
}
use edmm.Prelude.Effect.{Outcome, ok, raised, M, ◌>>=◌}
use edmm.Gpu.{Call, Message, Exception, Driver, World, checked, runtime_error, out_of_fuel}
use edmm.Allocator.{device_prop, map_pages}

-- What a loop over pages of one size does to `handles`: one create and one map for each new handle,
-- at consecutive offsets.
abbrev pub page_calls : ℕ → ℕ → ℕ → ℕ → List ℕ → List Call
page_calls va page_size device_id offset [] = []
page_calls va page_size device_id offset (h ∷ hs) =
    Call.mem_create page_size (device_prop device_id) 0
    ∷ Call.mem_map (va + offset) page_size 0 h 0
    ∷ page_calls va page_size device_id (offset + page_size) hs

module _ (d : Driver) where
  -- The world after one call.
  abbrev pub after : Call → World d → World d
  after c w = record w { driver = (d.answer w.driver c).1; calls = w.calls ++ (c ∷ []) }

  -- A checked call is made whatever comes of it; it gives a value or raises.
  pub checked_rule {ℓ κ} :
      {B : Type κ} (P : Outcome Exception B × World d → Type ℓ) (c : Call) (msg : Message)
      (w : World d) (f : ℕ → M (World d) Exception B)
      → ((k : ℕ) → P (raised (runtime_error k msg), after c w))
      → ((v : ℕ) → P (f v (after c w)))
      → P ((checked d c msg >>= f) w)
  unfolding checked
  checked_rule P c msg w f bad good = elim (Bool-cases ((d.answer w.driver c).0.code == 0)) [
    | inl e ↦ rw e (good (d.answer w.driver c).0.out)
    | inr e ↦ rw e (bad (d.answer w.driver c).0.code)
  ]

  -- The table and the library handle are as they were.
  pub record SameTables (w w' : World d) : Type 0 where
    pub allocations : w'.allocations ≡ w.allocations
    pub loaded : w'.loaded ≡ w.loaded

  -- The loop ends with `n` new handles and their calls, or with an error of the driver.
  abbrev pub Mapped :
      ℕ → ℕ → ℕ → ℕ → ℕ → List ℕ → World d → Outcome Exception (List ℕ) × World d → Type 0
  Mapped n va page_size device_id offset handles w (ok all, w') =
      (new : List ℕ) × (all ≡ handles ++ new)
      × (length new ≡ n)
      × (w'.calls ≡ w.calls ++ page_calls va page_size device_id offset new)
      × SameTables w w'
  Mapped n va page_size device_id offset handles w (raised e, w') =
      (e ≢ out_of_fuel) × SameTables w w'

  pub SameTables-refl : (w : World d) → SameTables w w
  SameTables-refl w = record { allocations = refl; loaded = refl }

  pub SameTables-trans : {u v w : World d} → SameTables u v → SameTables v w → SameTables u w
  SameTables-trans p q = record {
    allocations = q.allocations ∙ p.allocations;
    loaded = q.loaded ∙ p.loaded;
  }

  pub same_after : (c : Call) (w : World d) → SameTables w (after c w)
  same_after c w = record { allocations = refl; loaded = refl }

  rounds_pos : (n k : ℕ) → suc n * k ≡ k + n * k
  rounds_pos n k = omega arith

  Mapped-cons :
      (n va page_size device_id offset h : ℕ) (handles : List ℕ) (w w2 : World d)
      (r : Outcome Exception (List ℕ) × World d)
      → w2.calls
        ≡ w.calls
          ++ (Call.mem_create page_size (device_prop device_id) 0
              ∷ Call.mem_map (va + offset) page_size 0 h 0
              ∷ [])
      → SameTables w w2
      → Mapped n va page_size device_id (offset + page_size) (handles ++ (h ∷ [])) w2 r
      → Mapped (suc n) va page_size device_id offset handles w r
  Mapped-cons n va page_size device_id offset h handles w w2 (ok all, w') log same m = (
    h ∷ m.0,
    m.1 ∙ append_assoc handles (h ∷ []) m.0,
    ap suc m.2,
    m.3 ∙ rw (log, append_assoc) refl,
    SameTables-trans same m.4,
  )
  Mapped-cons n va page_size device_id offset h handles w w2 (raised e, w') log same m =
      (m.0, SameTables-trans same m.1)

  -- With more fuel than pages left, the loop maps exactly these pages or stops at a driver error.
  pub map_pages-Mapped :
      (n fuel va page_size aligned_size device_id offset : ℕ) (handles : List ℕ) (w : World d)
      → n < fuel
      → 0 < page_size
      → aligned_size ≡ offset + n * page_size
      → Mapped n va page_size device_id offset handles w
          (map_pages d fuel va page_size aligned_size device_id offset handles w)
  unfolding map_pages
  map_pages-Mapped n zero va page_size aligned_size device_id offset handles w lt pos e =
      elim lt [ ]
  map_pages-Mapped zero (suc fuel) va page_size aligned_size device_id offset handles w lt pos e =
      let done : ltb offset aligned_size ≡ false = ground arith in
      rw done ([], sym (append-nil handles), refl, sym (append-nil w.calls), SameTables-refl w)
  map_pages-Mapped (suc n) (suc fuel) va page_size aligned_size device_id offset handles w lt pos
        e =
      let more : ltb offset aligned_size ≡ true = ground (arith, rounds_pos n page_size) in
      let chunk : min page_size (aligned_size - offset) ≡ page_size =
        omega (arith, rounds_pos n page_size) in
      let page : ℕ → World d = λ h.
        after (Call.mem_map (va + offset) page_size 0 h 0)
          (after (Call.mem_create page_size (device_prop device_id) 0) w) in
      rw (more, chunk)
        (checked_rule (Mapped (suc n) va page_size device_id offset handles w)
          (Call.mem_create page_size (device_prop device_id) 0) _ w _
          (λ k. (λ f. cc, same_after _ w))
          (λ h.
            checked_rule (Mapped (suc n) va page_size device_id offset handles w)
              (Call.mem_map (va + offset) page_size 0 h 0) _ _ _
              (λ k. (λ f. cc, SameTables-trans (same_after _ w) (same_after _ _)))
              (λ _.
                Mapped-cons n va page_size device_id offset h handles w (page h) _
                  (append_assoc w.calls _ _) (SameTables-trans (same_after _ w) (same_after _ _))
                  (map_pages-Mapped n fuel va page_size aligned_size device_id (offset + page_size)
                    (handles ++ (h ∷ [])) (page h) (omega arith) pos
                    (omega (arith, rounds_pos n page_size))))))
