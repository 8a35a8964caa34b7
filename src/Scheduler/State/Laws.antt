-- ===== src/Scheduler/State/Laws.antt =====
-- What the scheduler relies on of code that is not of this repository.
use edmm.Prelude.{String, ◌≡◌, ◌≢◌, List, [], ◌∷◌, if◌then◌else◌, ◌==◌, length, ◌<◌, ◌+◌}
use edmm.Prelude.Sets.{count}
use edmm.Scheduler.State.{Setup, Store, Ref}

abbrev pub NotIn : String → List String → Type 0
NotIn x [] = Unit
NotIn x (y ∷ ys) = (x ≢ y) × NotIn x ys

abbrev pub NoRepeat : List String → Type 0
NoRepeat [] = Unit
NoRepeat (x ∷ xs) = NotIn x xs × NoRepeat xs

-- What is relied on of the queues, of `remove_all` and of Python's sets: a removal takes all of the
-- given requests and no other, an addition brings the one request, a set
-- has no element twice, and `pop_request` takes one request out of a queue that has one.
pub record Laws (u : Setup) : Type 0 where
  pub count-queue_remove :
      (rs : List Ref) (q : u.Queue) (r : Ref)
      → count r (u.elements (u.queue_remove rs q))
        ≡ (if count r rs == 0 then count r (u.elements q) else 0)
  pub count-remove_all :
      (xs rs : List Ref) (r : Ref)
      → count r (u.remove_all xs rs) ≡ (if count r rs == 0 then count r xs else 0)
  pub iterate_set-NoRepeat : (xs : List String) → NoRepeat (u.iterate_set xs)
  pub count-queue_add :
      (st : Store u.floats) (r : Ref) (q : u.Queue) (x : Ref)
      → count x (u.elements (u.queue_add st r q)) ≡ count x (r ∷ u.elements q)
  pub count-queue_prepend :
      (st : Store u.floats) (r : Ref) (q : u.Queue) (x : Ref)
      → count x (u.elements (u.queue_prepend st r q)) ≡ count x (r ∷ u.elements q)
  pub length-queue_pop :
      (st : Store u.floats) (q : u.Queue)
      → 0 < length (u.elements q)
      → length (u.elements (u.queue_pop st q)) + 1 ≡ length (u.elements q)
