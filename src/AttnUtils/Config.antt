-- ===== src/AttnUtils/Config.antt =====
-- vLLM's configuration of the caches, as attn_utils.py reads it. Its classes are not of this
-- repository: their methods are fields, and what the code reads of their objects are records.
use edmm.Prelude.{ℕ, String, List, Option}
use edmm.Prelude.Dict.{Dict, get}
use edmm.Prelude.{String_discrete}
use edmm.Prelude.Effect.{Outcome, ok}
use edmm.Prelude.Partial.{or_raise}
use edmm.Gpu.{Exception, key_error}
use edmm.Torch.{Torch}

pub record AttentionSpec (t : Torch) : Type 0 where
  pub page_size_bytes : ℕ
  pub page_size_padded : Option ℕ
  pub block_size : ℕ
  pub storage_block_size : ℕ
  pub num_kv_heads : ℕ
  pub head_size : ℕ
  pub dtype : t.Dtype

pub record MambaSpec (t : Torch) : Type 0 where
  pub page_size_bytes : ℕ
  pub shapes : List (List ℕ)
  pub dtypes : List t.Dtype

-- What `isinstance` tells of a specification that is not one of `UniformTypeKVCacheSpecs`; of the
-- other kinds only the size of a page is read.
pub data Kind (t : Torch) : Type 0 where
  attention : AttentionSpec t → Kind t
  mamba : MambaSpec t → Kind t
  other : ℕ → Kind t

pub record Vllm (t : Torch) : Type 1 where
  -- Specifications, compared by `==`.
  pub Spec : Type 0
  pub same_spec : Discrete Spec
  pub kind : Spec → Kind t
  -- `get_dtype_size`
  pub get_dtype_size : t.Dtype → ℕ
  -- Classes of attention backends.
  pub Backend : Type 0
  pub full_cls_name : Backend → String × String
  pub cls_name : Backend → String
  -- `get_kv_cache_shape(num_blocks, block_size, num_kv_heads, head_size, cache_dtype_str=…)`
  pub get_kv_cache_shape : Backend → ℕ → ℕ → ℕ → ℕ → String → List ℕ
  -- `get_kv_cache_stride_order()`; `none` for its AttributeError or NotImplementedError.
  pub get_kv_cache_stride_order : Backend → Option (List ℕ)

module _ (t : Torch) (v : Vllm t) where
  -- A layer's module: its backend, its own specification if it needs a cache, and the layer whose
  -- cache it shares. A name that is empty counts as none.
  pub record AttnModule : Type 0 where
    pub backend : v.Backend
    pub kv_cache_spec : Option v.Spec
    pub kv_sharing_target_layer_name : Option String

  -- `UniformTypeKVCacheSpecs` has a specification for each layer.
  pub data GroupSpec : Type 0 where
    single : v.Spec → GroupSpec
    uniform : Dict String v.Spec → GroupSpec

  pub record KvCacheGroup : Type 0 where
    pub layer_names : List String
    pub kv_cache_spec : GroupSpec

  pub record KvCacheTensor : Type 0 where
    pub size : ℕ
    pub shared_by : List String

  pub record KvCacheConfig : Type 0 where
    pub kv_cache_tensors : List KvCacheTensor
    pub kv_cache_groups : List KvCacheGroup

  -- `isinstance(spec, UniformTypeKVCacheSpecs)`, and then the layer's own.
  unfoldable pub layer_spec : GroupSpec → String → Outcome Exception v.Spec
  unfolding get
  layer_spec (single spec) layer_name = ok spec
  layer_spec (uniform specs) layer_name = or_raise (get String_discrete layer_name specs) key_error
