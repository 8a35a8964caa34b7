-- ===== src/Benchmark/Workloads.antt =====
-- The groups measure the same work: what stands in the cache after an iteration.
use edmm.Prelude.{ℕ, String, List, [], ◌∷◌, ◌++◌, ◌≡◌, refl, ◌∙◌, ap, append_assoc}
use edmm.Prelude.Effect.{Outcome, ok, bind}
use edmm.Benchmark.Machine.{KvCache, no_cache, Call, Reply, Error, Machine, World, Bench, invoke}
use edmm.Benchmark.Inputs.{build_full_recompute_ids, build_speculative_prefix_ids, BenchmarkInputs}
use edmm.Benchmark.Phases.{
  dynamic_ids_of, prefill_with_cache, prefill_and_cache, Row, recompute, speculate,
}

-- What is relied on of a machine whose calls succeed: the model's cache stands for the tokens of the
-- cache that it was given, and then for the new ones.
pub record Law (m : Machine) : Type 0 where
  pub tokens : KvCache m.Tensor → List ℕ
  pub empty : tokens no_cache ≡ []
  pub extended :
      (ids : List ℕ) (past kv : KvCache m.Tensor) (s : m.State)
      → (m.answer (Call.run_model ids past) s).0 ≡ ok kv
      → tokens kv ≡ tokens past ++ ids
  pub answers : (c : Call m.Tensor) (s : m.State) → (r : Reply c) × ((m.answer c s).0 ≡ ok r)

module _ (m : Machine) (law : Law m) (gpu_index : ℕ) (inputs : BenchmarkInputs m) where
  -- The computation returns, with a value of which `P` holds.
  abbrev pub Returns : {A : Type 0} → (A → Type 0) → Outcome Error A × World m → Type 0
  Returns {A} P r = (a : A) × (w : World m) × (r ≡ (ok a, w)) × P a

  Returns-invoke :
      {A : Type 0} (P : A → Type 0) (c : Call m.Tensor) (w : World m) (f : Reply c → Bench m A)
      → ((r : Reply c) (w' : World m) → (m.answer c w.state).0 ≡ ok r → Returns P (f r w'))
      → Returns P (bind (invoke m c w) f)
  unfolding invoke
  Returns-invoke P c w f h =
      let (r, e) = law.answers c w.state in
      rw e (h r (record { state = (m.answer c w.state).1; calls = w.calls ++ (c ∷ []) }) e)

  Returns-bind :
      {A B : Type 0} (Q : A → Type 0) (P : B → Type 0) (r : Outcome Error A × World m)
      (f : A → Bench m B)
      → Returns Q r
      → ((a : A) (w' : World m) → Q a → Returns P (f a w'))
      → Returns P (bind r f)
  Returns-bind Q P r f (a, w', e, q) h = rw e (h a w' q)

  -- The cache stands for these tokens.
  abbrev Holds : List ℕ → m.floats.Float × KvCache m.Tensor → Type 0
  Holds ids result = law.tokens result.1 ≡ ids

  prefill_with_cache-Holds :
      (ids : List ℕ) (past : KvCache m.Tensor) (w : World m)
      → Returns (Holds (law.tokens past ++ ids)) (prefill_with_cache m ids past w)
  unfolding prefill_with_cache
  prefill_with_cache-Holds ids past w =
      let P = Holds (law.tokens past ++ ids) in
      Returns-invoke P Call.synchronize w _ (λ _ w1 _.
        Returns-invoke P Call.perf_counter_ns w1 _ (λ t0 w2 _.
          Returns-invoke P (Call.run_model ids past) w2 _ (λ kv w3 e.
            Returns-invoke P Call.synchronize w3 _ (λ _ w4 _.
              Returns-invoke P Call.perf_counter_ns w4 _
                (λ t1 w5 _. (_, w5, refl, law.extended ids past kv _ e))))))

  prefill_and_cache-Holds :
      (ids : List ℕ) (w : World m) → Returns (Holds ids) (prefill_and_cache m ids w)
  unfolding prefill_and_cache
  prefill_and_cache-Holds ids w =
      let (a, w', e, holds) = prefill_with_cache-Holds ids no_cache w in
      (a, w', e, holds ∙ ap (λ ts. ts ++ ids) law.empty)

  -- The tokens of the base, of the payload and of the suffix.
  abbrev pub contaminated : String → List ℕ
  contaminated payload = inputs.base_ids ++ (dynamic_ids_of m payload ++ inputs.suffix_ids)

  abbrev pub Measured : String → Row m → Type 0
  Measured payload row = law.tokens row.last_kv ≡ contaminated payload

  released :
      (P : Row m → Type 0) (row : Row m) (w : World m)
      → P row
      → Returns P (
          bind
            (bind (invoke m Call.collect w) (λ _. invoke m Call.empty_cache))
            (λ _ w'. (ok row, w')))
  unfolding invoke
  released P row w p =
      Returns-bind (λ _. Unit {0}) P _ _
        (Returns-invoke (λ _. Unit {0}) Call.collect w _ (λ _ w1 _. done w1))
        (λ _ w' _. (row, w', refl, p))
    where
      done : (w1 : World m) → Returns (λ _. Unit {0}) (invoke m Call.empty_cache w1)
      done w1 = let (r, e) = law.answers Call.empty_cache w1.state in rw e (r, _, refl, tt)

  recompute-Measured :
      (i : ℕ) (payload : String) (w : World m)
      → Returns (Measured payload) (recompute m gpu_index inputs i payload w)
  unfolding recompute build_full_recompute_ids
  recompute-Measured i payload w =
      let P = Measured payload in
      Returns-invoke P Call.perf_counter_ns w _ (λ t0 w1 _.
        Returns-invoke P Call.perf_counter_ns w1 _ (λ t1 w2 _.
          Returns-bind (Holds (contaminated payload)) P _ _
            (prefill_and_cache-Holds (contaminated payload) w2)
            (λ measured w3 holds. released P _ w3 holds)))

  speculate-Measured :
      (i : ℕ) (payload : String) (w : World m)
      → Returns (Measured payload) (speculate m gpu_index inputs i payload w)
  unfolding speculate build_speculative_prefix_ids
  speculate-Measured i payload w =
      let P = Measured payload in
      let anticipated = inputs.base_ids ++ dynamic_ids_of m payload in
      Returns-invoke P Call.perf_counter_ns w _ (λ t0 w1 _.
        Returns-bind (Holds anticipated) P _ _ (prefill_and_cache-Holds anticipated w1)
          (λ spec w2 known. Returns-invoke P Call.sleep w2 _ (λ _ w3 _.
            Returns-invoke P Call.perf_counter_ns w3 _ (λ t1 w4 _.
              Returns-bind (Holds (law.tokens spec.1 ++ inputs.suffix_ids)) P _ _
                (prefill_with_cache-Holds inputs.suffix_ids spec.1 w4)
                (λ measured w5 holds. released P _ w5 (
                  holds
                  ∙ ap (λ ts. ts ++ inputs.suffix_ids) known
                  ∙ append_assoc inputs.base_ids (dynamic_ids_of m payload) inputs.suffix_ids))))))

  -- If the machine's calls succeed, and the model's cache stands for the tokens of the cache that it
  -- was given and then the new ones, an iteration of the full recompute and one of the speculative
  -- warm-up return for the same payload, and their caches stand for the same tokens: the base, the
  -- payload, the suffix.
  pub speculate-recompute :
      (i j : ℕ) (payload : String) (w w' : World m)
      → Returns (Measured payload) (recompute m gpu_index inputs i payload w)
        × Returns (Measured payload) (speculate m gpu_index inputs j payload w')
  speculate-recompute i j payload w w' =
      (recompute-Measured i payload w, speculate-Measured j payload w')
