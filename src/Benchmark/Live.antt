-- ===== src/Benchmark/Live.antt =====
-- edmm_vllm_live_e2e.py: the three groups of trials against vLLM's engine, which is not of this
-- repository: a machine answers each call, and the calls are logged.
use Prim.Native.String.{◌++◌ as str_append}
use edmm.Prelude.{
  ℕ, zero, suc, String, List, [], ◌∷◌, ◌++◌, Option, none, some, Bool, ◌||◌, if◌then◌else◌,
}
use edmm.Prelude.Effect.{Outcome, M, pure, ◌>>=◌}
use edmm.Floats.{Floats}
use edmm.Benchmark.Inputs.{repeat}
use edmm.Benchmark.Machine.{Error}
use edmm.Benchmark.Statistics.{Powers, stats, trimmed_stats}

pub data LiveCall : Type 0 where
  -- `llm.generate([prompt], sp)`
  generate : String → LiveCall
  sleep perf_counter uuid4 time_ns : LiveCall

module _ (f : Floats) where
  abbrev pub LiveReply : LiveCall → Type 0
  LiveReply (generate prompt) = Unit {0}
  LiveReply LiveCall.sleep = Unit {0}
  LiveReply LiveCall.perf_counter = f.Float
  LiveReply LiveCall.uuid4 = String
  LiveReply LiveCall.time_ns = String

  pub record Engine : Type 1 where
    pub State : Type 0
    pub answer : (c : LiveCall) → State → Outcome Error (LiveReply c) × State

  module _ (engine : Engine) where
    pub record LiveWorld : Type 0 where
      pub state : engine.State
      pub calls : List LiveCall

    abbrev pub Trial : Type 0 → Type 0
    Trial A = M LiveWorld Error A

    unfoldable pub call : (c : LiveCall) → Trial (LiveReply c)
    call c w =
        let (r, next) = engine.answer c w.state in
        (r, record w { state = next; calls = w.calls ++ (c ∷ []) })

    -- `_make_base_prompt`
    unfoldable pub make_base_prompt : String → ℕ → String
    unfolding repeat
    make_base_prompt context_block n_repeats = repeat n_repeats context_block

    -- `_make_tool_response`
    unfoldable pub make_tool_response : Trial String
    unfolding call
    make_tool_response = do
      tool_id ← call LiveCall.uuid4
      ts ← call LiveCall.time_ns
      pure (
          str_append "\nTraceback (most recent call last):\n" (
            str_append "  File \"/srv/app/views/api.py\", line 247, in dispatch_request\n" (
              str_append "    result = handler(request, **bound_args)\n" (
                str_append "marshmallow.exceptions.ValidationError: {'field': ['Unknown']}\n" (
                  str_append "[tool_id="
                    (str_append tool_id (str_append "] exit_code=1 ts=" (str_append ts "\n"))))))))

    -- The measured call, in milliseconds.
    unfoldable pub measured : String → Trial f.Float
    unfolding call
    measured prompt = do
      t0 ← call LiveCall.perf_counter
      _ ← call (generate prompt)
      t1 ← call LiveCall.perf_counter
      pure (f.mul (f.sub t1 t0) (f.decimal 1000 0))

    module _ (base : String) (suffix : String) where
      -- `base + "\n" + _SUFFIX`
      abbrev pub clean_prompt : String
      clean_prompt = str_append base (str_append "\n" suffix)

      abbrev pub contaminated_prompt : String → String
      contaminated_prompt tool_resp = str_append base (str_append tool_resp suffix)

      -- Group A: the same prompt twice.
      unfoldable pub trial_a : Trial f.Float
      unfolding call measured
      trial_a = do _ ← call (generate clean_prompt); _ ← call LiveCall.sleep; measured clean_prompt

      -- Group B: a prompt with a new response in the middle.
      unfoldable pub trial_b : Trial f.Float
      unfolding call measured make_tool_response
      trial_b = do
        _ ← call (generate clean_prompt)
        _ ← call LiveCall.sleep
        tool_resp ← make_tool_response
        measured (contaminated_prompt tool_resp)

      -- Group C: the anticipated prompt during the sleep, and again when it is measured.
      unfoldable pub trial_c : Trial f.Float
      unfolding call measured make_tool_response
      trial_c = do
        _ ← call (generate clean_prompt)
        tool_resp ← make_tool_response
        _ ← call (generate (contaminated_prompt tool_resp))
        _ ← call LiveCall.sleep
        measured (contaminated_prompt tool_resp)

      -- `for i in range(n)`
      unfoldable pub trials : Trial f.Float → ℕ → Trial (List f.Float)
      trials trial zero = pure []
      trials trial (suc n) = do ms ← trial; rest ← trials trial n; pure (ms ∷ rest)

      pub record LiveResults : Type 0 where
        pub results_a : List f.Float
        pub results_b : List f.Float
        pub results_c : List f.Float

      -- The warm-up and the three groups of `run`, of 10 trials.
      unfoldable pub run_groups : Trial LiveResults
      unfolding call make_tool_response trials trial_a trial_b trial_c
      run_groups = do
        _ ← call (generate clean_prompt)
        tool_resp ← make_tool_response
        _ ← call (generate (contaminated_prompt tool_resp))
        results_a ← trials trial_a 10
        results_b ← trials trial_b 10
        results_c ← trials trial_c 10
        pure (record { results_a = results_a; results_b = results_b; results_c = results_c })

-- `stats` and `trimmed_stats`, which are those of the other benchmark.
abbrev pub live_stats : (f : Floats) → Powers f → List f.Float → Outcome Error (f.Float × f.Float)
live_stats = stats

abbrev pub live_trimmed_stats :
    (f : Floats) → Powers f → List f.Float → Outcome Error (f.Float × f.Float)
live_trimmed_stats = trimmed_stats

-- The validation at the end of `run`: nothing if the mean of group A is not positive.
unfoldable pub live_criteria : (f : Floats) → f.Float → f.Float → f.Float → Option (Bool × Bool)
live_criteria f tmu_a tmu_b tmu_c =
    let ba = f.div tmu_b tmu_a in
    let ca = f.div tmu_c tmu_a in
    if f.lt (f.decimal 0 0) tmu_a
    then some (
      f.lt (f.decimal 20 1) ba || f.eq ba (f.decimal 20 1),
      f.lt ca (f.decimal 115 2) || f.eq ca (f.decimal 115 2),
    )
    else none
