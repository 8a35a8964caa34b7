-- ===== src/Scheduler/State/Proper.antt =====
-- Exceptions of the code, as against the places where the model stops, and calls that leave the
-- requests and the running ones alone.
use edmm.Prelude.{◌≡◌, refl, ◌∙◌}
use edmm.Request.{Request}
use edmm.Scheduler.State.{
  Setup, Scheduler, Call, Error, assertion_error, key_error, index_error, runtime_error,
  zero_division_error, value_error, invoke, modify, Ref,
}

-- The model does not stop: the exception is one of the code's.
pub data IsProper : Error → Type 0 where
  assertion : IsProper assertion_error
  key : IsProper key_error
  index : IsProper index_error
  runtime : IsProper runtime_error
  zero_division : IsProper zero_division_error
  value : IsProper value_error

-- Any exception.
abbrev pub Raised : Error → Type 0
Raised e = Unit {0}

module _ (u : Setup) where
  pub record Same (s t : Scheduler u) : Type 0 where
    pub store : t.store ≡ s.store
    pub running : t.running ≡ s.running
    pub waiting : t.waiting ≡ s.waiting
    pub skipped_waiting : t.skipped_waiting ≡ s.skipped_waiting

  pub Same-refl : (s : Scheduler u) → Same s s
  Same-refl s = record { store = refl; running = refl; waiting = refl; skipped_waiting = refl }

  pub Same-trans : {s t v : Scheduler u} → Same s t → Same t v → Same s v
  Same-trans a b = record {
    store = b.store ∙ a.store;
    running = b.running ∙ a.running;
    waiting = b.waiting ∙ a.waiting;
    skipped_waiting = b.skipped_waiting ∙ a.skipped_waiting;
  }

  pub Same-invoke : (call : Call u.floats) (s : Scheduler u) → Same s (invoke u call s).1
  unfolding invoke
  Same-invoke call s = record {
    store = refl;
    running = refl;
    waiting = refl;
    skipped_waiting = refl;
  }

  -- The requests may change, but not the three lists of them.
  pub record Steady (s t : Scheduler u) : Type 0 where
    pub running : t.running ≡ s.running
    pub waiting : t.waiting ≡ s.waiting
    pub skipped_waiting : t.skipped_waiting ≡ s.skipped_waiting

  pub Steady-refl : (s : Scheduler u) → Steady s s
  Steady-refl s = record { running = refl; waiting = refl; skipped_waiting = refl }

  pub Steady-trans : {s t v : Scheduler u} → Steady s t → Steady t v → Steady s v
  Steady-trans a b = record {
    running = b.running ∙ a.running;
    waiting = b.waiting ∙ a.waiting;
    skipped_waiting = b.skipped_waiting ∙ a.skipped_waiting;
  }

  pub Same-Steady : {s t : Scheduler u} → Same s t → Steady s t
  Same-Steady a = record {
    running = a.running;
    waiting = a.waiting;
    skipped_waiting = a.skipped_waiting;
  }

  pub invoke-Steady : (call : Call u.floats) (s : Scheduler u) → Steady s (invoke u call s).1
  invoke-Steady call s = Same-Steady (Same-invoke call s)

  pub modify-Steady :
      (r : Ref) (g : Request u.floats → Request u.floats) (s : Scheduler u)
      → Steady s (modify u r g s)
  unfolding modify
  modify-Steady r g s = record { running = refl; waiting = refl; skipped_waiting = refl }
