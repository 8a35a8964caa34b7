-- ===== src/Benchmark/Phases.antt =====
-- validate_edmm_core_v2.py: the measured phases. An iteration of a group is a sequence of calls.
use Prim.Native.String.{◌++◌ as str_append}
use edmm.Prelude.{ℕ, zero, suc, ◌+◌, ◌-◌, String, ℤ, List, [], ◌∷◌, Option, none, some}
use edmm.Prelude.Effect.{pure, ◌>>=◌, ◌>>◌}
use edmm.Benchmark.Machine.{KvCache, no_cache, Call, Machine, Bench, invoke}
use edmm.Benchmark.Inputs.{
  clone_kv_cache, get_gpu_utilization, build_full_recompute_ids, build_speculative_prefix_ids,
  BenchmarkInputs,
}

abbrev concat : List String → String
concat [] = ""
concat (t ∷ ts) = str_append t (concat ts)

module _ (m : Machine) where
  -- A time in milliseconds, of a difference in nanoseconds; the clock never runs back.
  abbrev pub ms_of : ℕ → ℕ → m.floats.Float
  ms_of t0 t1 = m.floats.div (m.floats.decimal (t1 - t0) 0) (m.floats.decimal 1000000 0)

  -- `generate_dynamic_payload`
  unfoldable pub generate_dynamic_payload : Bench m String
  unfolding invoke
  generate_dynamic_payload = do
    ts ← invoke m Call.time_ns
    uid ← invoke m Call.uuid4
    pure (
        concat (
          "Traceback (most recent call last):\n"
          ∷ "  File \"/srv/app/views/api.py\", line 247, in dispatch_request\n"
          ∷ "    result = handler(request, **bound_args)\n"
          ∷ "  File \"/srv/app/views/api.py\", line 389, in update_resource\n"
          ∷ "    validated = schema.load(request.json, partial=True)\n"
          ∷ "  File \"/srv/app/lib/schemas.py\", line 112, in load\n"
          ∷ "    self._run_validators(data)\n"
          ∷ "  File \"/srv/app/lib/schemas.py\", line 78, in _run_validators\n"
          ∷ "    raise ValidationError(errors)\n"
          ∷ "marshmallow.exceptions.ValidationError: {'field_config': ['Unknown field.']}\n"
          ∷ "\n[tool_call_id="
          ∷ uid
          ∷ "] returned at "
          ∷ m.str ts
          ∷ "\nexit_code=1 runtime_ms=342 retries=0\n"
          ∷ []))

  -- `tokenize_to_device(tokenizer, f"\n{payload}", device)`
  abbrev pub dynamic_ids_of : String → List ℕ
  dynamic_ids_of payload = m.encode (str_append "\n" payload)

  -- `prefill_with_cache`
  unfoldable pub prefill_with_cache :
      List ℕ → KvCache m.Tensor → Bench m (m.floats.Float × KvCache m.Tensor)
  unfolding invoke
  prefill_with_cache new_ids past_kv = do
    _ ← invoke m Call.synchronize
    t0 ← invoke m Call.perf_counter_ns
    past_key_values ← invoke m (Call.run_model new_ids past_kv)
    _ ← invoke m Call.synchronize
    t1 ← invoke m Call.perf_counter_ns
    pure (ms_of t0 t1, past_key_values)

  -- `prefill_and_cache`: the same without a cache.
  unfoldable pub prefill_and_cache : List ℕ → Bench m (m.floats.Float × KvCache m.Tensor)
  unfolding prefill_with_cache
  prefill_and_cache input_ids = prefill_with_cache input_ids no_cache

  -- A copy of the cache, or the TypeError.
  abbrev cloned : KvCache m.Tensor → Bench m (KvCache m.Tensor)
  cloned past_kv w = (clone_kv_cache m past_kv, w)

  -- `gc.collect(); torch.cuda.empty_cache()`
  abbrev release : Bench m (Unit {0})
  release = do _ ← invoke m Call.collect; invoke m Call.empty_cache

  -- A row of the results; group A has the utilisation too. The last cache is not kept by the
  -- program, and is here for what is said of the iterations.
  pub record Row : Type 0 where
    pub iteration : ℕ
    pub cpu_overhead_ms : m.floats.Float
    pub ttft_ms : m.floats.Float
    pub cache_status : String
    pub gpu_util_during_sleep : Option ℤ
    pub last_kv : KvCache m.Tensor

  module _ (gpu_index : ℕ) (inputs : BenchmarkInputs m) where
    -- Group A: the suffix on a copy of the base's cache.
    unfoldable pub iteration_a : ℕ → Bench m Row
    unfolding invoke prefill_with_cache prefill_and_cache get_gpu_utilization clone_kv_cache
    iteration_a i = do
      t_cpu0 ← invoke m Call.perf_counter_ns
      base ← prefill_and_cache inputs.base_ids
      _ ← invoke m Call.sleep
      util_during ← get_gpu_utilization m gpu_index
      t_cpu1 ← invoke m Call.perf_counter_ns
      past_kv ← cloned base.1
      measured ← prefill_with_cache inputs.suffix_ids past_kv
      release
      pure (record {
        iteration = i + 1;
        cpu_overhead_ms = ms_of t_cpu0 t_cpu1;
        ttft_ms = measured.0;
        cache_status = "Hit";
        gpu_util_during_sleep = some util_during;
        last_kv = measured.1;
      })

    -- The rest of an iteration of group B, when the payload is there.
    unfoldable pub recompute : ℕ → String → Bench m Row
    unfolding invoke prefill_and_cache build_full_recompute_ids
    recompute i dynamic_payload = do
      t_cpu0 ← invoke m Call.perf_counter_ns
      let contaminated_ids =
          build_full_recompute_ids m inputs.base_ids (dynamic_ids_of dynamic_payload)
            inputs.suffix_ids
      t_cpu1 ← invoke m Call.perf_counter_ns
      measured ← prefill_and_cache contaminated_ids
      release
      pure (record {
        iteration = i + 1;
        cpu_overhead_ms = ms_of t_cpu0 t_cpu1;
        ttft_ms = measured.0;
        cache_status = "Miss";
        gpu_util_during_sleep = none;
        last_kv = measured.1;
      })

    -- Group B: everything from the start, since the payload is in the middle.
    unfoldable pub iteration_b : ℕ → Bench m Row
    unfolding invoke prefill_and_cache generate_dynamic_payload recompute
    iteration_b i = do
      _ ← prefill_and_cache inputs.base_ids
      _ ← invoke m Call.sleep
      dynamic_payload ← generate_dynamic_payload
      recompute i dynamic_payload

    -- The rest of an iteration of group C, when the payload is there.
    unfoldable pub speculate : ℕ → String → Bench m Row
    unfolding invoke prefill_with_cache prefill_and_cache build_speculative_prefix_ids
    speculate i dynamic_payload = do
      let anticipated_ids =
          build_speculative_prefix_ids m inputs.base_ids (dynamic_ids_of dynamic_payload)
      t_cpu0 ← invoke m Call.perf_counter_ns
      spec ← prefill_and_cache anticipated_ids
      _ ← invoke m Call.sleep
      t_cpu1 ← invoke m Call.perf_counter_ns
      measured ← prefill_with_cache inputs.suffix_ids spec.1
      release
      pure (record {
        iteration = i + 1;
        cpu_overhead_ms = ms_of t_cpu0 t_cpu1;
        ttft_ms = measured.0;
        cache_status = "Hit";
        gpu_util_during_sleep = none;
        last_kv = measured.1;
      })

    -- Group C: the anticipated prefix during the sleep, then the suffix on its cache.
    unfoldable pub iteration_c : ℕ → Bench m Row
    unfolding prefill_and_cache generate_dynamic_payload speculate
    iteration_c i = do
      _ ← prefill_and_cache inputs.base_ids
      dynamic_payload ← generate_dynamic_payload
      speculate i dynamic_payload

    -- The passes before the measurement.
    unfoldable pub warmup : Bench m (Unit {0})
    unfolding invoke prefill_with_cache prefill_and_cache clone_kv_cache generate_dynamic_payload
        build_full_recompute_ids build_speculative_prefix_ids
    warmup = do
      a ← prefill_and_cache inputs.base_ids
      past_kv ← cloned a.1
      _ ← prefill_with_cache inputs.suffix_ids past_kv
      payload_b ← generate_dynamic_payload
      _ ←
          prefill_and_cache (
            build_full_recompute_ids m inputs.base_ids (dynamic_ids_of payload_b) inputs.suffix_ids)
      _ ← prefill_and_cache inputs.base_ids
      payload_c ← generate_dynamic_payload
      c ←
          prefill_and_cache
            (build_speculative_prefix_ids m inputs.base_ids (dynamic_ids_of payload_c))
      copy_c ← cloned c.1
      _ ← prefill_with_cache inputs.suffix_ids copy_c
      release

    -- `for i in range(i, i + n)`
    unfoldable pub iterate : (ℕ → Bench m Row) → ℕ → ℕ → Bench m (List Row)
    iterate step zero i = pure []
    iterate step (suc n) i = do row ← step i; rows ← iterate step n (suc i); pure (row ∷ rows)

    -- `results_a`, `results_b` and `results_c`.
    pub record Results : Type 0 where
      pub results_a : List Row
      pub results_b : List Row
      pub results_c : List Row

    -- The measurement of `run_benchmark`, of 20 iterations.
    unfoldable pub measure : Bench m Results
    unfolding warmup iterate iteration_a iteration_b iteration_c
    measure = do
      warmup
      results_a ← iterate iteration_a 20 0
      results_b ← iterate iteration_b 20 0
      results_c ← iterate iteration_c 20 0
      pure (record { results_a = results_a; results_b = results_b; results_c = results_c })
