-- ===== src/Scheduler/Grammar/Tests.antt =====
-- Tests of the grammar's bitmask.
use edmm.Prelude.{◌≡◌, refl, [], ◌∷◌, some, none, true, String_discrete}
use edmm.Request.Tests.{sample_request}
use edmm.Scheduler.State.{Scheduler}
use edmm.Scheduler.Grammar.{GrammarInput, get_grammar_bitmask}
use edmm.Scheduler.Tests.{lists, one_runs}

abbrev with_grammar : Scheduler lists
with_grammar = record one_runs {
  store =
      λ r. record sample_request { structured_output_request = some (record { grammar = true }) };
}

abbrev both_scheduled : GrammarInput
both_scheduled = record {
  has_structured_output_requests = true;
  num_scheduled_tokens = ("q", 1) ∷ ("r", 1) ∷ [];
  scheduled_spec_decode_tokens = [];
}

one-bitmask :
    (get_grammar_bitmask lists both_scheduled with_grammar).0
    ≡ some (record { structured_output_request_ids = "r" ∷ []; bitmask = [] })
unfolding get_grammar_bitmask String_discrete
one-bitmask = refl

no-bitmask : get_grammar_bitmask lists both_scheduled one_runs ≡ (none, one_runs)
unfolding get_grammar_bitmask String_discrete
no-bitmask = refl
