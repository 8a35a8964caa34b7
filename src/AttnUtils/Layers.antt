-- ===== src/AttnUtils/Layers.antt =====
-- `get_kv_cache_spec` and `get_shared_kv_cache_layers`: which layers have a cache of their own.
use edmm.Prelude.{String, [], ◌∷◌, Option, none, some, String_discrete}
use edmm.Prelude.Dict.{Dict, put}
use edmm.Torch.{Torch}
use edmm.AttnUtils.Config.{Vllm, AttnModule}

-- `if name:` of a name that may be missing: the name, if it is not empty.
unfoldable pub truthy : Option String → Option String
truthy none = none
truthy (some name) = elim (String_discrete name "") [ yes _ ↦ none | no _ ↦ some name ]

module _ (t : Torch) (v : Vllm t) where
  -- A round of the loop: a layer that shares a cache is passed over, and one without a specification.
  unfoldable pub add_spec :
      String → Option String → Option v.Spec → Dict String v.Spec → Dict String v.Spec
  unfolding put
  add_spec layer_name (some target) spec kv_cache_spec = kv_cache_spec
  add_spec layer_name none none kv_cache_spec = kv_cache_spec
  add_spec layer_name none (some spec) kv_cache_spec =
      put String_discrete layer_name spec kv_cache_spec

  unfoldable pub add_specs : Dict String (AttnModule t v) → Dict String v.Spec → Dict String v.Spec
  unfolding add_spec truthy
  add_specs [] kv_cache_spec = kv_cache_spec
  add_specs ((layer_name, attn_module) ∷ attn_layers) kv_cache_spec = add_specs attn_layers (
      add_spec layer_name (truthy attn_module.kv_sharing_target_layer_name)
        attn_module.kv_cache_spec kv_cache_spec)

  -- `get_kv_cache_spec`, of the layers with attention of any kind.
  unfoldable pub get_kv_cache_spec : Dict String (AttnModule t v) → Dict String v.Spec
  unfolding add_specs
  get_kv_cache_spec attn_layers = add_specs attn_layers []

  unfoldable pub add_shared : String → Option String → Dict String String → Dict String String
  unfolding put
  add_shared layer_name none shared = shared
  add_shared layer_name (some target) shared = put String_discrete layer_name target shared

  unfoldable pub add_shared_layers :
      Dict String (AttnModule t v) → Dict String String → Dict String String
  unfolding add_shared truthy
  add_shared_layers [] shared = shared
  add_shared_layers ((layer_name, attn_module) ∷ attn_layers) shared =
      add_shared_layers attn_layers
        (add_shared layer_name (truthy attn_module.kv_sharing_target_layer_name) shared)

  -- `get_shared_kv_cache_layers`, of the layers of class Attention.
  unfoldable pub get_shared_kv_cache_layers : Dict String (AttnModule t v) → Dict String String
  unfolding add_shared_layers
  get_shared_kv_cache_layers attn_layers = add_shared_layers attn_layers []
