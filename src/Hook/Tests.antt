-- ===== src/Hook/Tests.antt =====
-- Tests of the hook, and its theorems at concrete inputs. Loads are counted in hundredths here.
use edmm.Prelude.{
  ℕ, String, ◌+◌, ◌-◌, ◌*◌, ◌/◌, ◌≡◌, refl, List, [], ◌∷◌, ◌++◌, none, some, true, false, ltb, ◌==◌,
  ◌^◌, String_discrete, text_ne,
}
use edmm.Prelude.Dict.{get, put, erase}
use edmm.Floats.{Floats}
use edmm.Allocator.Free.{release_calls}
use edmm.Allocator.Tests.{counting, fresh}
use edmm.Hook.{
  Hook, ToolCallState, Surroundings, SpeculationDecision, should_pause_for_tool_call, init,
  new_state, decide, sample_cpu_load, sum_parsed, measured_load, on_tool_call_pause,
  submit_tool_response, is_tool_response_ready, get_active_pause, on_tool_call_resume, release_each,
  cleanup_request, cleanup_all,
}
use edmm.Hook.Events.{Event, IsValid, run, run-init-IsValid}
use edmm.Hook.Lifecycle
use edmm.Hook.Cleanup
use edmm.Hook.Cleanup.{held}

abbrev pub hundredths : Floats
hundredths = record {
  Float = ℕ;
  decimal = λ m e. m * 100 / 10 ^ e;
  add = λ a b. a + b;
  sub = λ a b. a - b;
  mul = λ a b. a * b / 100;
  div = λ a b. a * 100 / b;
  lt = ltb;
  eq = λ a b. a == b;
  parse = λ x. some 1000;
}

abbrev stat_line : List String
stat_line = "cpu" ∷ "1" ∷ "2" ∷ "3" ∷ "4" ∷ "5" ∷ "6" ∷ "7" ∷ "8" ∷ []

abbrev at_once : Surroundings hundredths
at_once = record { monotonic = 1000; stat = some stat_line; perf_counter_ns = 5 }

abbrev soon : Surroundings hundredths
soon = record { monotonic = 1005; stat = none; perf_counter_ns = 6 }

program : Unit {0}
unfolding get put erase init sum_parsed measured_load sample_cpu_load decide on_tool_call_pause
    submit_tool_response is_tool_response_ready get_active_pause on_tool_call_resume release_each
    cleanup_request cleanup_all should_pause_for_tool_call
program = tt

-- Six of seven equal shares busy: 86 %, above the threshold.
busy_defers :
    (on_tool_call_pause hundredths (init hundredths) "r" at_once).1 ≡ SpeculationDecision.defer
unfolding program
busy_defers = refl

-- A line that cannot be read counts as no load.
unreadable_speculates :
    (on_tool_call_pause hundredths
      (init hundredths)
      "r"
      (record { monotonic = 1000; stat = none; perf_counter_ns = 5 })).1
    ≡ SpeculationDecision.speculate
unfolding program
unreadable_speculates = refl

abbrev eleven : List ℕ
eleven = 1 ∷ 2 ∷ 3 ∷ 4 ∷ 5 ∷ 6 ∷ 7 ∷ 8 ∷ 9 ∷ 10 ∷ 11 ∷ []

abbrev sampled : Hook hundredths
sampled = record {
  active_pauses = [];
  tool_responses = [];
  cpu_load_cache = 4000;
  cpu_load_cache_time = 1000;
}

abbrev others : List (Event hundredths)
others = Event.pause "q" soon ∷ Event.submit "q" ∷ Event.cleanup "q" ∷ []

q≢r : ◌≡◌ {A = String} "q" "r" → ⊥
q≢r = text_ne "q" "r" refl

run-init-IsValid_example :
    IsValid hundredths (run hundredths counting true (init hundredths, fresh) others).0
run-init-IsValid_example = run-init-IsValid hundredths counting true fresh others

pause-submit-resume_example :
    let (h1, decision) = on_tool_call_pause hundredths sampled "r" at_once in
    let h2 = (run hundredths counting true (h1, fresh) others).0 in
    let h3 = submit_tool_response hundredths h2 "r" in
    let (h4, state) = on_tool_call_resume hundredths h3 "r" in
    (is_tool_response_ready hundredths h3 "r" ≡ true)
    × (state ≡ some (new_state hundredths "r" 5 decision))
    × (get_active_pause hundredths h4 "r" ≡ none)
    × (is_tool_response_ready hundredths h4 "r" ≡ false)
pause-submit-resume_example =
    Lifecycle.pause-submit-resume hundredths counting true sampled fresh "r" at_once others
      (q≢r, (q≢r, (q≢r, tt)))

abbrev holding : ToolCallState
holding = record {
  request_id = "r";
  paused_at_ns = 5;
  speculative_handles = 11 ∷ 12 ∷ [];
  speculation_decision = some SpeculationDecision.speculate;
  resumed = false;
}

abbrev paused : Hook hundredths
paused = record sampled { active_pauses = ("r", holding) ∷ [] }

cleanup_all-releases_example :
    let (h', w') = cleanup_all hundredths counting true paused fresh in
    (h'.active_pauses ≡ [])
    × (w'.calls ≡ [] ++ release_calls (11 ∷ 12 ∷ []))
    × (w'.allocations ≡ [])
unfolding get
cleanup_all-releases_example =
    Cleanup.cleanup_all-releases hundredths counting paused fresh (refl, tt) refl

cleanup_request-releases_example :
    let (h', w') = cleanup_request hundredths counting true paused "r" fresh in
    (w'.calls ≡ [] ++ release_calls (11 ∷ 12 ∷ []))
    × (get_active_pause hundredths h' "r" ≡ none)
    × (is_tool_response_ready hundredths h' "r" ≡ false)
unfolding get get_active_pause String_discrete
cleanup_request-releases_example =
    Cleanup.cleanup_request-releases hundredths counting paused "r" holding fresh refl refl

resume-cleanup_example :
    (cleanup_request hundredths counting true
      (on_tool_call_resume hundredths paused "r").0
      "r"
      fresh).1
    ≡ fresh
resume-cleanup_example = Cleanup.resume-cleanup hundredths counting paused "r" fresh
