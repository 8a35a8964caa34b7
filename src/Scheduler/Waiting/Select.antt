-- ===== src/Scheduler/Waiting/Select.antt =====
-- The waiting queue that is looked at next.
use edmm.Prelude.{Option, none, some, true, if◌then◌else◌, ◌≡◌, if_both, if_cases}
use edmm.Request.{lt}
use edmm.Scheduler.State.{Setup, Scheduler, Policy}
use edmm.Scheduler.Waiting.{
  WaitingQueue, in_waiting, in_skipped, queue_of, nonempty, first_of, select_by,
  select_waiting_queue,
}

module _ (u : Setup) (s : Scheduler u) where
  -- The queue, if there is one, has a request.
  abbrev pub HasRequest : Option WaitingQueue → Type 0
  HasRequest none = Unit {0}
  HasRequest (some which) = nonempty u (queue_of u which s) ≡ true

  chosen :
      (which : WaitingQueue) (o : Option WaitingQueue)
      → HasRequest o
      → HasRequest (if nonempty u (queue_of u which s) then some which else o)
  chosen which o h =
      if_cases HasRequest (nonempty u (queue_of u which s)) (some which) o (λ e. e) (λ e. h)

  first_of-HasRequest : (p q : WaitingQueue) → HasRequest (first_of u p q s)
  unfolding first_of
  first_of-HasRequest p q = chosen p _ (chosen q none tt)

  select_by-HasRequest : (policy : Policy) → HasRequest (select_by u policy s)
  unfolding select_by
  select_by-HasRequest Policy.fcfs = first_of-HasRequest in_skipped in_waiting
  select_by-HasRequest Policy.priority =
      if_cases HasRequest (nonempty u s.waiting) _ _
        (λ e.
          if_cases HasRequest (nonempty u s.skipped_waiting) _ (some in_waiting)
            (λ e'.
              if_both HasRequest
                (lt u.floats (u.peek s.waiting) (s.store (u.peek s.waiting))
                  (u.peek s.skipped_waiting) (s.store (u.peek s.skipped_waiting)))
                (some in_waiting) (some in_skipped) e e')
            (λ e'. e))
        (λ e. first_of-HasRequest in_waiting in_skipped)

  pub select-HasRequest : HasRequest (select_waiting_queue u s)
  unfolding select_waiting_queue
  select-HasRequest = select_by-HasRequest u.policy
