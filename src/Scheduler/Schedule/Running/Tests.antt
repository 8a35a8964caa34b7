-- ===== src/Scheduler/Schedule/Running/Tests.antt =====
-- Tests of the loop over the running requests, and its theorem at a concrete input.
use edmm.Prelude.{
  ℕ, ◌≡◌, refl, [], ◌∷◌, arith, String_discrete, leb-true, ◌==◌, if◌then◌else◌, if_both,
}
use edmm.Prelude.Effect.{ok}
use edmm.Prelude.Ends.{Ends}
use edmm.Request.{Request}
use edmm.Request.Tests.{sample_request}
use edmm.Hook.Tests.{hundredths}
use edmm.Request.Status.{value}
use edmm.Scheduler.State.{Scheduler, Ref}
use edmm.Scheduler.State.Proper.{IsProper}
use edmm.Scheduler.Encoder.{embeds_at}
use edmm.Scheduler.Schedule.{Progress}
use edmm.Scheduler.Schedule.Room.{Ready, IsReady}
use edmm.Scheduler.Schedule.Running.{schedule_running_reqs}
use edmm.Scheduler.Schedule.Running.Ended
use edmm.Scheduler.Schedule.Running.Ended.{Ended as EndsAt}
use edmm.Scheduler.Tests.{lists, one_runs}

-- Request 1 decodes, and request 2 is a prompt of four tokens.
abbrev two_requests : Ref → Request hundredths
two_requests r =
    if r == 2
    then record sample_request { request_id = "q"; num_computed_tokens = 0 }
    else sample_request

abbrev two_run : ℕ → Scheduler lists
two_run free = record one_runs {
  store = two_requests;
  requests = ("r", 1) ∷ ("q", 2) ∷ [];
  running = 1 ∷ 2 ∷ [];
  services = free;
}

abbrev beginning : Progress
beginning = record {
  scheduled_new_reqs = [];
  scheduled_resumed_reqs = [];
  scheduled_running_reqs = [];
  preempted_reqs = [];
  req_to_new_blocks = [];
  num_scheduled_tokens = [];
  token_budget = 4;
  scheduled_encoder_inputs = [];
  encoder_compute_budget = 4;
  scheduled_spec_decode_tokens = [];
  req_index = 0;
}

-- With room for both, the second request takes what is left of the budget.
both_run :
    (schedule_running_reqs lists 3 beginning (two_run 9)).0
    ≡ ok (record beginning {
      scheduled_running_reqs = 1 ∷ 2 ∷ [];
      req_to_new_blocks = ("r", 7) ∷ ("q", 7) ∷ [];
      num_scheduled_tokens = ("r", 1) ∷ ("q", 3) ∷ [];
      token_budget = 0;
      req_index = 2;
    })
unfolding schedule_running_reqs String_discrete
both_run = refl

-- Without, it is preempted itself, since it is the last.
last_preempted :
    (schedule_running_reqs lists 3 beginning (two_run 2)).0
    ≡ ok (record beginning {
      scheduled_running_reqs = 1 ∷ [];
      preempted_reqs = 2 ∷ [];
      req_to_new_blocks = ("r", 7) ∷ [];
      num_scheduled_tokens = ("r", 1) ∷ [];
      token_budget = 3;
      req_index = 1;
    })
unfolding schedule_running_reqs String_discrete value
last_preempted = refl

two_run-Ready : Ready lists (two_run 2)
two_run-Ready x =
    if_both (IsReady lists) (x == 2) _ _ (record { known = omega arith; fits = omega arith })
      (record { known = omega arith; fits = omega arith })

schedule_running_reqs-Ended_example :
    Ends IsProper
      (EndsAt lists beginning (two_run 2))
      (schedule_running_reqs lists 3 beginning (two_run 2))
schedule_running_reqs-Ended_example =
    Ended.schedule_running_reqs-Ended lists
      (λ q i budget n st granted. leb-true (embeds_at q.mm_features i) budget granted) 3 beginning
      (two_run 2) (omega arith) two_run-Ready
