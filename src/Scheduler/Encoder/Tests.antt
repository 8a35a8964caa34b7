-- ===== src/Scheduler/Encoder/Tests.antt =====
-- Tests of the encoder's budget, and its theorem at a concrete input.
use edmm.Prelude.{◌≡◌, refl, [], ◌∷◌, String_discrete, leb-true}
use edmm.Prelude.Effect.{ok}
use edmm.Request.{MultiModalFeature}
use edmm.Request.Tests.{sample_request}
use edmm.Scheduler.State.{Scheduler}
use edmm.Scheduler.Encoder.{embeds_at, try_schedule_encoder_inputs}
use edmm.Scheduler.Encoder.Budget
use edmm.Scheduler.Encoder.Budget.{Kept}
use edmm.Scheduler.Tests.{lists, one_runs}

-- A request with two images, of which the first fits in the encoder's budget.
abbrev first_image : MultiModalFeature
first_image = record { offset = 0; num_tokens = 2; num_embeds = 2; identifier = "a" }

abbrev second_image : MultiModalFeature
second_image = record { offset = 2; num_tokens = 4; num_embeds = 3; identifier = "b" }

abbrev has_images : Scheduler lists
has_images = record one_runs {
  store = λ r. record sample_request {
    num_computed_tokens = 0;
    mm_features = first_image ∷ second_image ∷ [];
  };
}

first_image-computed :
    (try_schedule_encoder_inputs lists 1 0 6 4 0 has_images).0
    ≡ ok (record {
      num_new_tokens = 2;
      encoder_compute_budget = 2;
      encoder_inputs_to_schedule = 0 ∷ [];
      external_load_encoder_input = [];
      mm_hashes_to_schedule = "a" ∷ [];
      num_embeds_to_schedule = 2;
    })
unfolding try_schedule_encoder_inputs String_discrete
first_image-computed = refl

try_schedule_encoder_inputs-Kept_example :
    Kept lists (has_images.store 1) 6 4 (try_schedule_encoder_inputs lists 1 0 6 4 0 has_images)
try_schedule_encoder_inputs-Kept_example =
    Budget.try_schedule_encoder_inputs-Kept lists 1 has_images 0 6 4 0 (λ i budget n st granted.
      leb-true (embeds_at (has_images.store 1).mm_features i) budget granted)
