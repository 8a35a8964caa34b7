-- ===== src/Allocator/Context.antt =====
-- Loading the driver and making a device's context current: what these steps leave alone.
use edmm.Prelude.{
  ◌≡◌, ℕ, refl, ◌∙◌, inl, inr, String, Bool, true, false, List, [], ◌∷◌, ◌++◌, Bool-cases, ◌==◌,
  append_assoc, append-nil, sym, ap,
}
use edmm.Prelude.Effect.{Outcome, ok, raised, bind, pure, ◌>>=◌, ◌>>◌}
use edmm.Gpu.{Call, Exception, Driver, World, Gpu, invoke, os_error}
use edmm.Allocator.{load_library, mark_loaded, start_cuda, get_cuda, ensure_driver_context}
use edmm.Allocator.Pages.{after}

-- The calls that make the driver ready.
abbrev pub start_calls : Bool → List Call
start_calls true = []
start_calls false =
    Call.load_library "libcuda.so.1" ∷ Call.load_library "libcudart.so" ∷ Call.init 0 ∷ []

module _ (d : Driver) where
  -- The table is as it was, and the log has only grown.
  pub record Grows (w w' : World d) : Type 0 where
    pub allocations : w'.allocations ≡ w.allocations
    pub log : List Call
    pub calls : w'.calls ≡ w.calls ++ log

  pub Grows-refl : (w : World d) → Grows w w
  Grows-refl w = record { allocations = refl; log = []; calls = sym (append-nil w.calls) }

  pub Grows-trans : {u v w : World d} → Grows u v → Grows v w → Grows u w
  Grows-trans {u} p q = record {
    allocations = q.allocations ∙ p.allocations;
    log = p.log ++ q.log;
    calls =
        q.calls ∙ (ap (λ (l : List Call). l ++ q.log) p.calls ∙ append_assoc u.calls p.log q.log);
  }

  pub Grows-after : (c : Call) (w : World d) → Grows w (after d c w)
  Grows-after c w = record { allocations = refl; log = c ∷ []; calls = refl }

  -- The driver is ready: it is loaded, and started, only if it was not before.
  pub record Started (b : Bool) (w w' : World d) : Type 0 where
    pub allocations : w'.allocations ≡ w.allocations
    pub calls : w'.calls ≡ w.calls ++ start_calls b

  pub Started-Grows : {b : Bool} {w w' : World d} → Started b w w' → Grows w w'
  Started-Grows {b} g = record { allocations = g.allocations; log = start_calls b; calls = g.calls }

  abbrev ready : Gpu d (Unit {0})
  unfolding mark_loaded invoke
  ready = mark_loaded d >> (invoke d (Call.init 0) >>= λ _. pure tt)

  module _ {ℓ} (Q : Outcome Exception (Unit {0}) × World d → Type ℓ) where
    load_library_rule :
        (name : String) (w : World d)
        → Q (raised (os_error name), after d (Call.load_library name) w)
        → Q (ok tt, after d (Call.load_library name) w)
        → Q (load_library d name w)
    unfolding load_library
    load_library_rule name w bad good =
        elim (Bool-cases ((d.answer w.driver (Call.load_library name)).0.code == 0)) [
          | inl e ↦ rw e good
          | inr e ↦ rw e bad
        ]

  module _ {ℓ} (Q : Outcome Exception (Unit {0}) × World d → Type ℓ) where
    start_cuda_rule :
        (b : Bool) (w : World d)
        → ((name : String) (w' : World d) → Grows w w' → Q (raised (os_error name), w'))
        → ((w' : World d) → Started b w w' → Q (ok tt, w'))
        → Q (start_cuda d b w)
    unfolding start_cuda ready
    start_cuda_rule true w bad good =
        good w (record { allocations = refl; calls = sym (append-nil w.calls) })
    start_cuda_rule false w bad good =
        load_library_rule (λ r. Q (bind (bind r (λ _. load_library d "libcudart.so")) (λ _. ready)))
          _ w (bad _ _ (Grows-after _ w))
          (load_library_rule (λ r. Q (bind r (λ _. ready))) _ _
            (bad _ _ (Grows-trans (Grows-after _ w) (Grows-after _ _)))
            (good _ (record { allocations = refl; calls = simp append_assoc })))

    -- Loading fails with an `OSError`, or the driver is ready.
    pub get_cuda_rule :
        (w : World d)
        → ((name : String) (w' : World d) → Grows w w' → Q (raised (os_error name), w'))
        → ((w' : World d) → Started w.loaded w w' → Q (ok tt, w'))
        → Q (get_cuda d w)
    unfolding get_cuda
    get_cuda_rule w bad good = start_cuda_rule w.loaded w bad good

  module _ {ℓ} (Q : Outcome Exception (Unit {0}) × World d → Type ℓ) where
    pub ensure_driver_context_rule :
        (device_id : ℕ) (w : World d)
        → ((name : String) (w' : World d) → Grows w w' → Q (raised (os_error name), w'))
        → ((w' : World d) → Grows w w' → Q (ok tt, w'))
        → Q (ensure_driver_context d device_id w)
    unfolding ensure_driver_context
    ensure_driver_context_rule device_id w bad good =
        get_cuda_rule (λ r. Q (bind r (λ _. push))) w bad
          (λ w' g. good _ (
            Grows-trans (Started-Grows g)
              (Grows-trans (Grows-after _ w') (Grows-trans (Grows-after _ _) (Grows-after _ _)))))
      where
        push : Gpu d (Unit {0})
        push = do
          dev ← invoke d (Call.device_get device_id)
          ctx ← invoke d (Call.primary_ctx_retain dev.out)
          _ ← invoke d (Call.ctx_push_current ctx.out)
          pure tt

  start_cuda_loaded : (b : Bool) (w : World d) → b ≡ true → start_cuda d b w ≡ (ok tt, w)
  unfolding start_cuda
  start_cuda_loaded true w e = refl
  start_cuda_loaded false w e = cc

  -- Once the driver is loaded, nothing is called for it again.
  pub get_cuda_loaded : (w : World d) → w.loaded ≡ true → get_cuda d w ≡ (ok tt, w)
  unfolding get_cuda
  get_cuda_loaded w e = start_cuda_loaded w.loaded w e
