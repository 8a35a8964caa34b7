-- ===== src/AttnUtils/Raw.antt =====
-- `_allocate_kv_cache` of the worker: a buffer for each tensor of the configuration, under the names
-- of the layers that share it.
pub mod Covers
use edmm.Prelude.{
  ℕ, String, List, [], ◌∷◌, ◌++◌, Option, none, some, Bool, true, false, if◌then◌else◌, ◌&&◌, ◌||◌,
  String_discrete,
}
use edmm.Prelude.Dict.{Dict, keys, put}
use edmm.Prelude.Sets.{member, insert}
use edmm.Prelude.Effect.{ok, raise, pure, ◌>>=◌}
use edmm.Gpu.{assertion_error, plain}
use edmm.Allocator.{allocate_vmm_kv_cache}
use edmm.Torch.{Torch, Step, lift, zeros}
use edmm.AttnUtils.Config.{Vllm, KvCacheGroup, KvCacheTensor, KvCacheConfig}

-- `for name in names: d[name] = value`
unfoldable pub put_each : {A : Type 0} → List String → A → Dict String A → Dict String A
unfolding put
put_each [] x d = d
put_each (layer_name ∷ layer_names) x d =
    put_each layer_names x (put String_discrete layer_name x d)

-- `for name in names: s.add(name)`
unfoldable pub insert_each : List String → List String → List String
unfolding insert
insert_each [] s = s
insert_each (layer_name ∷ layer_names) s =
    insert_each layer_names (insert String_discrete layer_name s)

unfoldable pub subset : List String → List String → Bool
unfolding member
subset [] s = true
subset (x ∷ xs) s = member String_discrete x s && subset xs s

-- `a == b` of sets.
abbrev pub same_set : List String → List String → Bool
same_set a b = subset a b && subset b a

module _ (t : Torch) (v : Vllm t) where
  -- The buffer of one tensor: by pages, or zeroed bytes.
  unfoldable pub raw_tensor : Bool → ℕ → t.Device → Step t t.Array
  unfolding zeros
  raw_tensor true size device = do
    tensor ← allocate_vmm_kv_cache t.driver size (t.index device)
    pure (t.of_tensor tensor)
  raw_tensor false size device = zeros t (size ∷ []) t.int8 false device

  unfoldable pub raw_tensors :
      Bool
      → t.Device
      → List (KvCacheTensor t v)
      → Dict String t.Array
      → Step t (Dict String t.Array)
  unfolding raw_tensor put_each
  raw_tensors edmm_enabled device [] made = pure made
  raw_tensors edmm_enabled device (x ∷ xs) made = do
    tensor ← raw_tensor edmm_enabled x.size device
    raw_tensors edmm_enabled device xs (put_each x.shared_by tensor made)

  -- The names of all groups.
  unfoldable pub all_layer_names : List (KvCacheGroup t v) → List String → List String
  unfolding insert_each
  all_layer_names [] s = s
  all_layer_names (g ∷ gs) s = all_layer_names gs (insert_each g.layer_names s)

  -- The assertion that every layer has a buffer or shares one, and no other has.
  unfoldable pub checked_layers :
      KvCacheConfig t v → Dict String String → Dict String t.Array → Step t (Dict String t.Array)
  unfolding all_layer_names subset insert_each
  checked_layers kv_cache_config shared_layers made =
      if same_set (all_layer_names kv_cache_config.kv_cache_groups [])
        (insert_each (keys shared_layers) (keys made))
      then pure made
      else raise (assertion_error (plain "Some layers are not correctly initialized"))

  -- `_allocate_kv_cache`
  unfoldable pub allocate_kv_cache :
      Bool → KvCacheConfig t v → Dict String String → t.Device → Step t (Dict String t.Array)
  unfolding raw_tensors checked_layers
  allocate_kv_cache edmm_enabled kv_cache_config shared_layers device = do
    made ← raw_tensors edmm_enabled device kv_cache_config.kv_cache_tensors []
    checked_layers kv_cache_config shared_layers made
