-- ===== src/AttnUtils/Hybrid.antt =====
-- `_update_hybrid_attention_layout`, the sharing of caches at the end of `_reshape_kv_cache`, and
-- `init_kv_cache`.
use edmm.Prelude.{
  ℕ, ◌*◌, String, List, [], ◌∷◌, Option, none, some, Bool, false, if◌then◌else◌, ◌==◌,
  String_discrete, ◌&&◌,
}
use edmm.Prelude.Dict.{Dict, get, put}
use edmm.Prelude.Effect.{Outcome, ok, raised, bind}
use edmm.Prelude.Partial.{◌>>=◌, or_raise}
use edmm.Gpu.{Exception, key_error, index_error, assertion_error, attribute_error, plain}
use edmm.Torch.{Torch, Step, prod, lift}
use edmm.AttnUtils.Config.{
  Vllm, AttnModule, Kind, attention, mamba, other, GroupSpec, KvCacheGroup, KvCacheConfig,
  layer_spec,
}
use edmm.AttnUtils.Layers.{get_shared_kv_cache_layers}
use edmm.AttnUtils.Raw
use edmm.AttnUtils.Reshape.{KvCache, tensor, states, Reshaped, reshape_groups}

-- The strides of keys and values that lie beside each other in a block.
abbrev pub hybrid_strides : ℕ → List ℕ → List ℕ
hybrid_strides hidden_size rest = hidden_size ∷ 2 * hidden_size ∷ rest

-- `stride[2:]`
abbrev from_third : List ℕ → List ℕ
from_third (x ∷ y ∷ zs) = zs
from_third _ = []

module _ (t : Torch) (v : Vllm t) where
  -- A cache whose shape starts with 2 gets the strides of the other layout.
  unfoldable pub relaid : t.Array → List ℕ → List ℕ → Outcome Exception t.Array
  unfolding prod
  relaid kv_cache [] stride = raised index_error
  relaid kv_cache (first ∷ []) stride = if first == 2 then raised index_error else ok kv_cache
  relaid kv_cache (first ∷ second ∷ rest) stride =
      if first == 2
      then (if second == 2
          then raised (assertion_error (plain "Cannot determine layout"))
          else t.as_strided (first ∷ second ∷ rest) (hybrid_strides (prod rest) (from_third stride))
              none kv_cache)
      else ok kv_cache

  -- The layer's cache in place, if it is a tensor; the states of a Mamba layer are no tensor.
  unfoldable pub update_cache :
      String → KvCache t → Dict String (KvCache t) → Outcome Exception (Dict String (KvCache t))
  unfolding relaid put
  update_cache layer_name (states xs) kv_caches = raised attribute_error
  update_cache layer_name (tensor kv_cache) kv_caches = do
    updated ← relaid kv_cache (t.shape kv_cache) (t.stride kv_cache)
    ok (put String_discrete layer_name (tensor updated) kv_caches)

  unfoldable pub update_kind :
      String
      → Kind t
      → KvCache t
      → Dict String (KvCache t)
      → Outcome Exception (Dict String (KvCache t))
  unfolding update_cache
  update_kind layer_name (attention spec) kv_cache kv_caches =
      update_cache layer_name kv_cache kv_caches
  update_kind layer_name (mamba spec) kv_cache kv_caches = ok kv_caches
  update_kind layer_name (other page) kv_cache kv_caches = ok kv_caches

  -- One layer of a group; a layer that shares a cache is not there yet.
  unfoldable pub update_layer :
      GroupSpec t v
      → String
      → Option (KvCache t)
      → Dict String (KvCache t)
      → Outcome Exception (Dict String (KvCache t))
  unfolding update_kind layer_spec
  update_layer group_spec layer_name none kv_caches = ok kv_caches
  update_layer group_spec layer_name (some kv_cache) kv_caches = do
    spec ← layer_spec t v group_spec layer_name
    update_kind layer_name (v.kind spec) kv_cache kv_caches

  unfoldable pub update_names :
      GroupSpec t v
      → List String
      → Dict String (KvCache t)
      → Outcome Exception (Dict String (KvCache t))
  unfolding update_layer get
  update_names group_spec [] kv_caches = ok kv_caches
  update_names group_spec (x ∷ xs) kv_caches = do
    next ← update_layer group_spec x (get String_discrete x kv_caches) kv_caches
    update_names group_spec xs next

  -- `_update_hybrid_attention_layout`
  unfoldable pub update_hybrid_attention_layout :
      List (KvCacheGroup t v)
      → Dict String (KvCache t)
      → Outcome Exception (Dict String (KvCache t))
  unfolding update_names
  update_hybrid_attention_layout [] kv_caches = ok kv_caches
  update_hybrid_attention_layout (g ∷ gs) kv_caches = do
    next ← update_names g.kv_cache_spec g.layer_names kv_caches
    update_hybrid_attention_layout gs next

  -- `for layer_name, target_layer_name in shared_kv_cache_layers.items()`
  unfoldable pub share_caches :
      Dict String String → Dict String (KvCache t) → Outcome Exception (Dict String (KvCache t))
  unfolding get put
  share_caches [] kv_caches = ok kv_caches
  share_caches ((layer_name, target_layer_name) ∷ shared) kv_caches = do
    kv_cache ← or_raise (get String_discrete target_layer_name kv_caches) key_error
    share_caches shared (put String_discrete layer_name kv_cache kv_caches)

  unfoldable pub hybrid_layout :
      List (KvCacheGroup t v) → Reshaped t v → Outcome Exception (Dict String (KvCache t))
  unfolding update_hybrid_attention_layout
  hybrid_layout groups s =
      if s.has_attn && s.has_mamba
      then update_hybrid_attention_layout groups s.kv_caches
      else ok s.kv_caches

  -- `_reshape_kv_cache`
  unfoldable pub reshape_kv_cache :
      KvCacheConfig t v
      → Dict String t.Array
      → Dict String v.Backend
      → String
      → List ℕ
      → Dict String String
      → Outcome Exception (Dict String (KvCache t))
  unfolding reshape_groups hybrid_layout share_caches
  reshape_kv_cache kv_cache_config raw_tensors attn_backends cache_dtype kernel_block_sizes shared =
      do
        s ←
            reshape_groups t v attn_backends cache_dtype raw_tensors shared kernel_block_sizes 0
              kv_cache_config.kv_cache_groups
              (record { kv_caches = []; has_attn = false; has_mamba = false })
        kv_caches ← hybrid_layout kv_cache_config.kv_cache_groups s
        share_caches shared kv_caches

  -- `init_kv_cache`, but for `bind_kv_cache` of vLLM, which is handed the result.
  unfoldable pub init_kv_cache :
      Bool
      → KvCacheConfig t v
      → Dict String v.Backend
      → t.Device
      → String
      → List ℕ
      → Dict String (AttnModule t v)
      → Step t (Dict String (KvCache t))
  unfolding Raw.allocate_kv_cache reshape_kv_cache get_shared_kv_cache_layers
  init_kv_cache edmm_enabled kv_cache_config attn_backends device cache_dtype kernel_block_sizes
        attention_layers w =
      let shared = get_shared_kv_cache_layers t v attention_layers in
      bind (Raw.allocate_kv_cache t v edmm_enabled kv_cache_config shared device w) (λ raw_tensors.
        lift t (
          reshape_kv_cache kv_cache_config raw_tensors attn_backends cache_dtype kernel_block_sizes
            shared))
