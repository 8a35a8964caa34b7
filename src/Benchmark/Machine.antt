-- ===== src/Benchmark/Machine.antt =====
-- What both benchmarks call: the model, the clock, the sleep and the GPU's counters. None of it is
-- of this repository: a machine answers each call, and the calls are logged.
use edmm.Prelude.{ℕ, String, ℤ, List, [], ◌∷◌, ◌++◌, Option}
use edmm.Prelude.Effect.{Outcome, M}
use edmm.Floats.{Floats}

-- A cache of keys and values as `clone_kv_cache` tells them apart, over tensors `T`; a layer may lack
-- its keys or values.
mutual
  pub data KvCache (T : Type 0) : Type 0 where
    no_cache : KvCache T
    dynamic : List (Option T × Option T) → KvCache T
    tuple : KvCaches T → KvCache T
    list : KvCaches T → KvCache T
    tensor : T → KvCache T
    -- An object of another class, with a `clone` and without.
    clonable : T → KvCache T
    unsupported : KvCache T

  pub data KvCaches (T : Type 0) : Type 0 where
    nil : KvCaches T
    more : KvCache T → KvCaches T → KvCaches T

pub data Call (T : Type 0) : Type 0 where
  synchronize perf_counter_ns time_ns uuid4 collect empty_cache : Call T
  -- `model(input_ids=…, past_key_values=…, use_cache=True)`
  run_model : List ℕ → KvCache T → Call T
  sleep : Call T
  nvidia_smi : ℕ → Call T

-- What a call returns: the clocks nanoseconds, the model its cache, `nvidia-smi` its output.
abbrev pub Reply : {T : Type 0} → Call T → Type 0
Reply Call.synchronize = Unit {0}
Reply Call.perf_counter_ns = ℕ
Reply Call.time_ns = ℕ
Reply Call.uuid4 = String
Reply Call.collect = Unit {0}
Reply Call.empty_cache = Unit {0}
Reply {T} (Call.run_model ids past) = KvCache T
Reply Call.sleep = Unit {0}
Reply (Call.nvidia_smi gpu_index) = String

pub data Error : Type 0 where
  type_error runtime_error zero_division_error : Error
  -- An exception of a call.
  call_error : String → Error
  -- Not of the program: a loop of the model met its bound on rounds.
  out_of_fuel : Error

pub record Machine : Type 1 where
  pub floats : Floats
  pub Tensor : Type 0
  pub State : Type 0
  pub answer : (c : Call Tensor) → State → Outcome Error (Reply c) × State
  -- `tokenizer.encode(text, add_special_tokens=False)`
  pub encode : String → List ℕ
  -- `t.clone()`
  pub clone : Tensor → Tensor
  -- `int(text.strip())`; `none` is its ValueError.
  pub parse_int : String → Option ℤ
  -- `f"{n}"`
  pub str : ℕ → String

pub record World (m : Machine) : Type 0 where
  pub state : m.State
  pub calls : List (Call m.Tensor)

module _ (m : Machine) where
  abbrev pub Bench : Type 0 → Type 0
  Bench A = M (World m) Error A

  -- A call, recorded.
  unfoldable pub invoke : (c : Call m.Tensor) → Bench (Reply c)
  invoke c w =
      let (r, next) = m.answer c w.state in
      (r, record w { state = next; calls = w.calls ++ (c ∷ []) })
