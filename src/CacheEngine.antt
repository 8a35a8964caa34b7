-- ===== src/CacheEngine.antt =====
-- vllm-integration/cache_engine_patched.py: the paged key-value cache of the first engine. What the
-- configurations and the attention backend answer is not of this repository, and a parameter.
pub mod Size
pub mod Layers
pub mod Swaps
mod Tests
use edmm.Prelude.{
  ℕ, zero, suc, ◌+◌, ◌*◌, ◌/◌, String, List, [], ◌∷◌, ◌++◌, Option, none, some, Bool, true, false,
  if◌then◌else◌, ◌&&◌, not, String_discrete,
}
use edmm.Prelude.Effect.{Outcome, ok, raised, raise, pure, bind, ◌>>=◌, ◌>>◌}
use edmm.Gpu.{Tensor, Exception, World, zero_division_error, key_error}
use edmm.Allocator.{allocate_vmm_kv_cache}
use edmm.Torch.{Torch, Step, prod, lift, zeros}

-- What the engine reads of its configurations. A count that is unset is `none`.
pub record Config (t : Torch) : Type 0 where
  pub head_size : ℕ
  pub num_attention_layers : ℕ
  pub num_kv_heads : ℕ
  pub block_size : ℕ
  pub num_gpu_blocks : Option ℕ
  pub num_cpu_blocks : Option ℕ
  pub pipeline_parallel_size : ℕ
  pub cache_dtype : String
  pub dtype : t.Dtype
  pub device_type : String
  pub edmm_enabled : Bool

-- vLLM's parts: the table of data types, and the attention backend.
pub record Backend (t : Torch) : Type 1 where
  -- `STR_DTYPE_TO_TORCH_DTYPE.get(name)`
  pub str_dtype_to_torch_dtype : String → Option t.Dtype
  -- `get_dtype_size`
  pub get_dtype_size : t.Dtype → ℕ
  -- `get_kv_cache_shape(num_blocks, block_size, num_kv_heads, head_size)`
  pub get_kv_cache_shape : Option ℕ → ℕ → ℕ → ℕ → List ℕ
  -- The tensor argument of the swaps and copies.
  pub Mapping : Type 0

pub record CacheEngine (t : Torch) : Type 0 where
  pub num_gpu_blocks : Option ℕ
  pub num_cpu_blocks : Option ℕ
  pub dtype : t.Dtype
  pub gpu_cache : List t.Array
  pub cpu_cache : List t.Array

abbrev pub same_text : String → String → Bool
same_text a b = elim (String_discrete a b) [ yes _ ↦ true | no _ ↦ false ]

-- A share of the blocks: `n // size` if the count `n` is set and not 0.
unfoldable pub share : Option ℕ → ℕ → Outcome Exception (Option ℕ)
share none size = ok none
share (some zero) size = ok (some zero)
share (some (suc n)) zero = raised zero_division_error
share (some (suc n)) (suc size) = ok (some (suc n / suc size))

module _ (t : Torch) (b : Backend t) (c : Config t) where
  named_dtype : Option t.Dtype → Outcome Exception t.Dtype
  named_dtype none = raised key_error
  named_dtype (some dtype) = ok dtype

  -- The data type of the cache: the model's for "auto".
  unfoldable pub cache_dtype : Outcome Exception t.Dtype
  unfolding named_dtype
  cache_dtype =
      if same_text c.cache_dtype "auto"
      then ok c.dtype
      else named_dtype (b.str_dtype_to_torch_dtype c.cache_dtype)

  -- The shape that the backend gives to the cache of a layer.
  abbrev pub kv_cache_shape : Option ℕ → List ℕ
  kv_cache_shape num_blocks =
      b.get_kv_cache_shape num_blocks c.block_size c.num_kv_heads c.head_size

  -- `EDMM_ENABLED and device != "cpu"`
  abbrev pub by_pages : String → Bool
  by_pages device = c.edmm_enabled && not (same_text device "cpu")

  -- One round of the loop: a layer's cache by pages, …
  unfoldable pub paged_layer : List ℕ → t.Dtype → String → Step t t.Array
  paged_layer shape dtype device = do
    raw ←
        allocate_vmm_kv_cache t.driver (prod shape * t.element_size dtype)
          (t.index (t.device device))
    typed ← lift t (t.view_dtype dtype (t.of_tensor raw))
    lift t (t.reshape shape typed)

  -- … or zeroed in one piece, pinned on the host if that can be.
  unfoldable pub zeroed_layer : List ℕ → t.Dtype → String → Step t t.Array
  unfolding zeros
  zeroed_layer shape dtype device =
      zeros t shape dtype (if same_text device "cpu" then t.is_pin_memory_available else false)
        (t.device device)

  unfoldable pub layer : List ℕ → t.Dtype → String → Step t t.Array
  layer shape dtype device =
      if by_pages device then paged_layer shape dtype device else zeroed_layer shape dtype device

  -- `for _ in range(n)`, with the caches that are made so far.
  unfoldable pub layers : ℕ → List ℕ → t.Dtype → String → List t.Array → Step t (List t.Array)
  layers zero shape dtype device made = pure made
  layers (suc n) shape dtype device made = do
    tensor ← layer shape dtype device
    layers n shape dtype device (made ++ (tensor ∷ []))

  -- `_allocate_kv_cache`
  unfoldable pub allocate_kv_cache : Option ℕ → t.Dtype → String → Step t (List t.Array)
  allocate_kv_cache num_blocks dtype device =
      layers c.num_attention_layers (kv_cache_shape num_blocks) dtype device []

  -- `__init__`
  unfoldable pub init : Step t (CacheEngine t)
  unfolding share cache_dtype allocate_kv_cache
  init = do
    num_gpu_blocks ← lift t (share c.num_gpu_blocks c.pipeline_parallel_size)
    num_cpu_blocks ← lift t (share c.num_cpu_blocks c.pipeline_parallel_size)
    dtype ← lift t cache_dtype
    gpu_cache ← allocate_kv_cache num_gpu_blocks dtype c.device_type
    cpu_cache ← allocate_kv_cache num_cpu_blocks dtype "cpu"
    pure (record {
      num_gpu_blocks = num_gpu_blocks;
      num_cpu_blocks = num_cpu_blocks;
      dtype = dtype;
      gpu_cache = gpu_cache;
      cpu_cache = cpu_cache;
    })

  block_bytes : Outcome Exception t.Dtype → Outcome Exception ℕ
  block_bytes (raised e) = raised e
  block_bytes (ok dtype) =
      let key_cache_block = c.block_size * c.num_kv_heads * c.head_size in
      ok (b.get_dtype_size dtype * (c.num_attention_layers * (key_cache_block + key_cache_block)))

  -- `get_cache_block_size`
  unfoldable pub get_cache_block_size : Outcome Exception ℕ
  unfolding block_bytes
  get_cache_block_size = block_bytes cache_dtype

-- One call of the backend: `swap_blocks(source, target, mapping)` or `copy_blocks(caches, mapping)`.
pub data Transfer (t : Torch) (b : Backend t) : Type 0 where
  swap_blocks : t.Array → t.Array → b.Mapping → Transfer t b
  copy_blocks : List t.Array → b.Mapping → Transfer t b

module _ (t : Torch) (b : Backend t) where
  -- The calls that a loop over the layers makes, and whether it reaches the end: `false` for an index
  -- that is out of range, an IndexError.
  unfoldable pub swap_layers :
      ℕ → List t.Array → List t.Array → b.Mapping → List (Transfer t b) × Bool
  swap_layers zero source target mapping = ([], true)
  swap_layers (suc n) (x ∷ source) (y ∷ target) mapping =
      let (calls, done) = swap_layers n source target mapping in
      (Transfer.swap_blocks x y mapping ∷ calls, done)
  swap_layers (suc n) source target mapping = ([], false)

  unfoldable pub swap_in : Config t → CacheEngine t → b.Mapping → List (Transfer t b) × Bool
  swap_in c e src_to_dst = swap_layers c.num_attention_layers e.cpu_cache e.gpu_cache src_to_dst

  unfoldable pub swap_out : Config t → CacheEngine t → b.Mapping → List (Transfer t b) × Bool
  swap_out c e src_to_dst = swap_layers c.num_attention_layers e.gpu_cache e.cpu_cache src_to_dst

  unfoldable pub copy : CacheEngine t → b.Mapping → List (Transfer t b)
  copy e src_to_dsts = Transfer.copy_blocks e.gpu_cache src_to_dsts ∷ []
