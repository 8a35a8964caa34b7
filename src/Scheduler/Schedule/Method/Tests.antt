-- ===== src/Scheduler/Schedule/Method/Tests.antt =====
-- Tests of `schedule`, and its theorems at concrete inputs.
use edmm.Prelude.{
  ◌≡◌, refl, [], ◌∷◌, true, arith, String_discrete, leb-true, if_both, ◌==◌, if◌then◌else◌,
}
use edmm.Prelude.Effect.{ok}
use edmm.Prelude.Ends.{Ends}
use edmm.Hook.Tests.{hundredths}
use edmm.Request.{Request}
use edmm.Request.Status.{RequestStatus, value}
use edmm.Request.Tests.{sample_request}
use edmm.Scheduler.State.{Scheduler, Ref, PauseState}
use edmm.Scheduler.State.Proper.{IsProper}
use edmm.Scheduler.Encoder.{embeds_at}
use edmm.Scheduler.Schedule.Room.{Ready, IsReady}
use edmm.Scheduler.Schedule.Waiting.{Line}
use edmm.Scheduler.Schedule.Admission
use edmm.Scheduler.Schedule.Method.{schedule_reqs, keeps_limits, beginning}
use edmm.Scheduler.Schedule.Method.Limits
use edmm.Scheduler.Tests.{lists, lists-Laws, one_runs}

-- Request 1 decodes, and request 2, a prompt of four tokens, waits.
abbrev one_each : Ref → Request hundredths
one_each r =
    if r == 2
    then record sample_request {
      request_id = "q";
      num_computed_tokens = 0;
      status = RequestStatus.waiting;
    }
    else sample_request

abbrev one_waiting : Scheduler lists
one_waiting = record one_runs {
  store = one_each;
  requests = ("r", 1) ∷ ("q", 2) ∷ [];
  waiting = 2 ∷ [];
  services = 9;
}

-- The decoding request takes one token, and the other what its prompt lacks.
both-scheduled :
    (schedule_reqs lists one_waiting).0
    ≡ ok (record {
      scheduled_new_reqs = 2 ∷ [];
      scheduled_resumed_reqs = [];
      scheduled_running_reqs = 1 ∷ [];
      preempted_reqs = [];
      req_to_new_blocks = ("r", 7) ∷ ("q", 7) ∷ [];
      num_scheduled_tokens = ("r", 1) ∷ ("q", 3) ∷ [];
      token_budget = 4;
      scheduled_encoder_inputs = [];
      encoder_compute_budget = 4;
      scheduled_spec_decode_tokens = [];
      req_index = 1;
    })
unfolding schedule_reqs String_discrete value
both-scheduled = refl

-- In a full pause nothing is scheduled.
none-scheduled :
    (schedule_reqs lists (record one_waiting { pause_state = PauseState.paused_all })).1.running
    ≡ 1 ∷ []
unfolding schedule_reqs String_discrete value
none-scheduled = refl

one_waiting-Ready : Ready lists one_waiting
one_waiting-Ready x =
    if_both (IsReady lists) (x == 2) _ _ (record { known = omega arith; fits = omega arith })
      (record { known = omega arith; fits = omega arith })

schedule_reqs-Limits_example :
    Ends IsProper (λ p t. keeps_limits lists p t ≡ true) (schedule_reqs lists one_waiting)
schedule_reqs-Limits_example =
    Limits.schedule_reqs-Limits lists lists-Laws
      (λ q i budget n st granted. leb-true (embeds_at q.mm_features i) budget granted) one_waiting
      one_waiting-Ready (omega arith)

abbrev beginning_line : Line lists
unfolding beginning
beginning_line = record {
  progress = beginning lists one_waiting;
  scheduled_loras = [];
  step_skipped_waiting = lists.empty_queue;
}
