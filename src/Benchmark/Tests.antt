-- ===== src/Benchmark/Tests.antt =====
-- A machine whose caches are lists of tokens, and the benchmarks' theorems at concrete inputs.
use Prim.Native.String.{◌++◌ as str_append}
use edmm.Benchmark.Characters.{encode, length-encode-append}
use edmm.Prelude.{ℕ, ◌≤◌, ◌<◌, ◌≡◌, refl, String, List, [], ◌∷◌, ◌++◌, some, arith, length, pos}
use edmm.Prelude.Effect.{Outcome, ok}
use edmm.Hook.Tests.{hundredths}
use edmm.Benchmark.Machine.{KvCache, tensor, Call, Reply, Error, Machine}
use edmm.Benchmark.Inputs.{BenchmarkInputs, repeat_to_token_floor}
use edmm.Benchmark.Floor
use edmm.Benchmark.Phases.{recompute, speculate}
use edmm.Benchmark.Statistics.{Powers, trim_of, trimmed_stats}
use edmm.Benchmark.Statistics.Trimming
use edmm.Benchmark.Statistics.Trimming.{Trimmed}
use edmm.Benchmark.Workloads
use edmm.Benchmark.Workloads.{Law, Returns, Measured}

abbrev held : KvCache (List ℕ) → List ℕ
held (tensor ts) = ts
held _ = []

abbrev reply : (c : Call (List ℕ)) → Reply c
reply Call.synchronize = tt
reply Call.perf_counter_ns = 5
reply Call.time_ns = 7
reply Call.uuid4 = "id"
reply Call.collect = tt
reply Call.empty_cache = tt
reply (Call.run_model ids past) = tensor (held past ++ ids)
reply Call.sleep = tt
reply (Call.nvidia_smi gpu_index) = "0"

abbrev machine : Machine
machine = record {
  floats = hundredths;
  Tensor = List ℕ;
  State = Unit {0};
  answer = λ c s. (ok (reply c), s);
  encode = encode;
  clone = λ ts. ts;
  parse_int = λ text. some (pos 0);
  str = λ n. "7";
}

extended_by :
    (ids : List ℕ) (past kv : KvCache (List ℕ))
    → Path (Outcome Error (KvCache (List ℕ))) (ok (tensor (held past ++ ids))) (ok kv)
    → held kv ≡ held past ++ ids
extended_by ids past kv e = cc e

abbrev law : Law machine
law = record {
  tokens = held;
  empty = refl;
  extended = λ ids past kv s e. extended_by ids past kv e;
  answers = λ c s. (reply c, refl);
}

abbrev inputs : BenchmarkInputs machine
inputs = record { base_ids = 1 ∷ 2 ∷ []; suffix_ids = 3 ∷ [] }

abbrev powers : Powers hundredths
powers = record { square = λ x. x; root = λ x. x; int = λ x. x }

longer : (text : String) → length (encode text) < length (encode (str_append text "ab"))
unfolding encode
longer text = omega (arith, length-encode-append text "ab")

repeat_to_token_floor-Returns_example :
    (result : String) × (repeat_to_token_floor machine 6 "ab" 5 ≡ ok result)
    × (5 ≤ length (encode result))
repeat_to_token_floor-Returns_example = Floor.repeat_to_token_floor-Returns machine "ab" longer 5

speculate-recompute_example :
    Returns machine law 0 inputs
      (Measured machine law 0 inputs "boom")
      (recompute machine 0 inputs 0 "boom" (record { state = tt; calls = [] }))
    × Returns machine law 0 inputs
        (Measured machine law 0 inputs "boom")
        (speculate machine 0 inputs 0 "boom" (record { state = tt; calls = [] }))
speculate-recompute_example =
    Workloads.speculate-recompute machine law 0 inputs 0 0 "boom"
      (record { state = tt; calls = [] }) (record { state = tt; calls = [] })

trimmed_stats-Trimmed_example :
    (1 ≤ trim_of hundredths powers 3)
    × Trimmed hundredths powers
        (100 ∷ 300 ∷ 200 ∷ [])
        (trim_of hundredths powers 3)
        (trimmed_stats hundredths powers (100 ∷ 300 ∷ 200 ∷ []))
trimmed_stats-Trimmed_example =
    Trimming.trimmed_stats-Trimmed hundredths powers (λ x y h. ground (arith, h))
      (100 ∷ 300 ∷ 200 ∷ [])
