-- ===== src/Benchmark/Inputs.antt =====
-- validate_edmm_core_v2.py: the texts, the token ids of the groups, and the helpers.
use Prim.Native.String.{◌++◌ as str_append}
use edmm.Prelude.{
  ℕ, zero, suc, ◌+◌, ◌/◌, max, String, String_discrete, ℤ, negsuc, List, [], ◌∷◌, ◌++◌, Option,
  none, some, Bool, if◌then◌else◌, ltb, length, take,
}
use edmm.Prelude.Effect.{Outcome, ok, raised}
use edmm.Prelude.Partial.{◌>>=◌}
use edmm.Benchmark.Machine.{
  KvCache, KvCaches, no_cache, dynamic, tuple, list, tensor, clonable, unsupported, nil, more, Call,
  Error, type_error, runtime_error, out_of_fuel, Machine, Bench, invoke,
}

abbrev pub base_context_tokens : ℕ
base_context_tokens = 16384

abbrev pub suffix_tokens : ℕ
suffix_tokens = 2048

-- `block * n`
unfoldable pub repeat : ℕ → String → String
repeat zero block = ""
repeat (suc n) block = str_append block (repeat n block)

module _ (m : Machine) where
  -- `while len(encode(text)) < num_tokens: text += block`
  unfoldable pub lengthen : ℕ → String → ℕ → String → Outcome Error String
  lengthen zero block num_tokens text = raised out_of_fuel
  lengthen (suc fuel) block num_tokens text =
      let rest = lengthen fuel block num_tokens (str_append text block) in
      if ltb (length (m.encode text)) num_tokens then rest else ok text

  abbrev pub tokens_per_block : String → ℕ
  tokens_per_block block = max 1 (length (m.encode block))

  -- `repeat_to_token_floor`, in at most `fuel` rounds of its loop.
  unfoldable pub repeat_to_token_floor : ℕ → String → ℕ → Outcome Error String
  unfolding repeat lengthen
  repeat_to_token_floor fuel block num_tokens =
      lengthen fuel block num_tokens (repeat (num_tokens / tokens_per_block block + 2) block)

  -- The branch of `clone_kv_cache` on a DynamicCache.
  clone_layers : List (Option m.Tensor × Option m.Tensor) → List (Option m.Tensor × Option m.Tensor)
  clone_layers [] = []
  clone_layers ((ks, vs) ∷ layers) = (clone_part ks, clone_part vs) ∷ clone_layers layers
    where
      clone_part : Option m.Tensor → Option m.Tensor
      clone_part none = none
      clone_part (some t) = some (m.clone t)

map_ok :
    {T : Type 0} → (KvCaches T → KvCache T) → Outcome Error (KvCaches T) → Outcome Error (KvCache T)
map_ok f (ok x) = ok (f x)
map_ok f (raised e) = raised e

cons_ok :
    {T : Type 0}
    → Outcome Error (KvCache T)
    → Outcome Error (KvCaches T)
    → Outcome Error (KvCaches T)
cons_ok (raised e) xs = raised e
cons_ok (ok x) (raised e) = raised e
cons_ok (ok x) (ok xs) = ok (more x xs)

module _ (m : Machine) where
  -- `clone_kv_cache`; a raise is a TypeError.
  unfoldable mutual
    unfolding clone_layers map_ok cons_ok

    pub clone_kv_cache : KvCache m.Tensor → Outcome Error (KvCache m.Tensor)
    clone_kv_cache no_cache = ok no_cache
    clone_kv_cache (dynamic layers) = ok (dynamic (clone_layers m layers))
    clone_kv_cache (tuple xs) = map_ok tuple (clone_all xs)
    clone_kv_cache (list xs) = map_ok list (clone_all xs)
    clone_kv_cache (tensor t) = ok (tensor (m.clone t))
    clone_kv_cache (clonable t) = ok (clonable (m.clone t))
    clone_kv_cache unsupported = raised type_error

    pub clone_all : KvCaches m.Tensor → Outcome Error (KvCaches m.Tensor)
    clone_all nil = ok nil
    clone_all (more x xs) = cons_ok (clone_kv_cache x) (clone_all xs)

  -- The literal texts of the benchmark.
  pub record Texts : Type 0 where
    pub static_context_block : String
    pub suffix_block : String
    pub query : String

  -- `_resolve_model_name`'s surroundings: the environment, and which directories there are.
  unfoldable pub first_dir : (String → Bool) → List String → String → String
  first_dir isdir [] model_name = model_name
  first_dir isdir (path ∷ paths) model_name =
      let rest = first_dir isdir paths model_name in if isdir path then path else rest

  abbrev pub local_model_fallbacks : List String
  local_model_fallbacks =
      "/tmp/qwen7b" ∷ "/tmp/Qwen2.5-7B-Instruct" ∷ "/tmp/qwen25-7b-instruct" ∷ []

  -- `resolve_model_name`; an override that is empty does not count.
  unfoldable pub resolve_model_name : Option String → (String → Bool) → String
  unfolding first_dir
  resolve_model_name none isdir = first_dir isdir local_model_fallbacks "Qwen/Qwen2.5-7B-Instruct"
  resolve_model_name (some override) isdir = elim (String_discrete override "") [
    | yes _ ↦ first_dir isdir local_model_fallbacks "Qwen/Qwen2.5-7B-Instruct"
    | no _ ↦ override
  ]

  utilization : Outcome Error String → ℤ
  utilization (raised e) = negsuc 0
  utilization (ok text) = elim (m.parse_int text) [ none ↦ negsuc 0 | some n ↦ n ]

  -- `get_gpu_utilization`: every exception is -1.
  unfoldable pub get_gpu_utilization : ℕ → Bench m ℤ
  unfolding invoke utilization
  get_gpu_utilization gpu_index w =
      let (r, w') = invoke m (Call.nvidia_smi gpu_index) w in (ok (utilization r), w')

  -- `base_ids` and `suffix_ids`.
  pub record BenchmarkInputs : Type 0 where
    pub base_ids : List ℕ
    pub suffix_ids : List ℕ

  -- The end of `build_benchmark_inputs`, with the ids of the three texts.
  unfoldable pub cut_inputs : List ℕ → List ℕ → List ℕ → Outcome Error BenchmarkInputs
  cut_inputs base_ids suffix_block_ids query_ids =
      if ltb (length base_ids) base_context_tokens
      then raised runtime_error
      else (if ltb (length suffix_block_ids) suffix_tokens
          then raised runtime_error
          else ok (record {
            base_ids = take base_context_tokens base_ids;
            suffix_ids = take suffix_tokens suffix_block_ids ++ query_ids;
          }))

  -- `build_benchmark_inputs`, where each text takes at most `fuel` rounds to be long enough.
  unfoldable pub build_benchmark_inputs : ℕ → Texts → Outcome Error BenchmarkInputs
  unfolding repeat_to_token_floor cut_inputs
  build_benchmark_inputs fuel texts = do
    base_text ← repeat_to_token_floor m fuel texts.static_context_block base_context_tokens
    suffix_text ← repeat_to_token_floor m fuel texts.suffix_block suffix_tokens
    cut_inputs (m.encode base_text) (m.encode (str_append "\n" suffix_text))
        (m.encode (str_append "\n" texts.query))

  unfoldable pub build_full_recompute_ids : List ℕ → List ℕ → List ℕ → List ℕ
  build_full_recompute_ids base_ids dynamic_ids suffix_ids = base_ids ++ (dynamic_ids ++ suffix_ids)

  unfoldable pub build_speculative_prefix_ids : List ℕ → List ℕ → List ℕ
  build_speculative_prefix_ids base_ids dynamic_ids = base_ids ++ dynamic_ids
