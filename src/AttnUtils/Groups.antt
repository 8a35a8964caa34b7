-- ===== src/AttnUtils/Groups.antt =====
-- The first phase of `init_attn_backend`: attention groups are the layers of a cache group with the
-- same backend and the same specification.
pub mod Partition
use edmm.Prelude.{
  ℕ, suc, String, List, [], ◌∷◌, ◌++◌, Option, none, some, String_discrete, pair_discrete,
}
use edmm.Prelude.Dict.{Dict, get, put}
use edmm.Prelude.Effect.{Outcome, ok, raised}
use edmm.Prelude.Partial.{◌>>=◌, or_raise}
use edmm.Gpu.{Exception, key_error}
use edmm.Torch.{Torch}
use edmm.AttnUtils.Config.{Vllm, AttnModule, GroupSpec, KvCacheGroup, layer_spec}

module _ (t : Torch) (v : Vllm t) where
  pub record AttentionGroup : Type 0 where
    pub backend : v.Backend
    pub layer_names : List String
    pub kv_cache_spec : v.Spec
    pub kv_cache_group_id : ℕ

  -- `(attn_backend.full_cls_name(), layer_kv_cache_spec)`
  abbrev pub Key : Type 0
  Key = (String × String) × v.Spec

  unfoldable pub same_key : Discrete Key
  unfolding pair_discrete
  same_key = pair_discrete (pair_discrete String_discrete String_discrete) v.same_spec

  -- `attn_backends`, `group_map` and `group_order`.
  pub record Discovery : Type 0 where
    pub attn_backends : Dict String v.Backend
    pub group_map : Dict Key AttentionGroup
    pub group_order : List Key

  -- `if key not in group_map: … else: …`, by what the map has.
  unfoldable pub join_group :
      String → v.Backend → v.Spec → ℕ → Option AttentionGroup → Discovery → Discovery
  unfolding put same_key
  join_group layer_name backend spec group_id none s = record s {
    group_map =
        put same_key (v.full_cls_name backend, spec)
          (record {
            backend = backend;
            layer_names = layer_name ∷ [];
            kv_cache_spec = spec;
            kv_cache_group_id = group_id;
          })
          s.group_map;
    group_order = s.group_order ++ ((v.full_cls_name backend, spec) ∷ []);
  }
  join_group layer_name backend spec group_id (some group) s = record s {
    group_map =
        put same_key (v.full_cls_name backend, spec)
          (record group { layer_names = group.layer_names ++ (layer_name ∷ []) }) s.group_map;
  }

  -- A round of the loop over the layers' names, with the module and the specification at hand.
  unfoldable pub place_layer : String → v.Backend → v.Spec → ℕ → Discovery → Discovery
  unfolding join_group get put
  place_layer layer_name backend spec group_id s =
      join_group layer_name backend spec group_id
        (get same_key (v.full_cls_name backend, spec) s.group_map)
        (record s { attn_backends = put String_discrete layer_name backend s.attn_backends })

  unfoldable pub discover_layers :
      Dict String (AttnModule t v)
      → GroupSpec t v
      → ℕ
      → List String
      → Discovery
      → Outcome Exception Discovery
  unfolding get
  discover_layers attn_layers spec group_id [] s = ok s
  discover_layers attn_layers spec group_id (layer_name ∷ layer_names) s = do
    attn_module ← or_raise (get String_discrete layer_name attn_layers) key_error
    layer_kv_cache_spec ← layer_spec t v spec layer_name
    discover_layers attn_layers spec group_id layer_names
        (place_layer layer_name attn_module.backend layer_kv_cache_spec group_id s)

  -- `[group_map[key] for key in group_order]`
  unfoldable pub in_order :
      List Key → Dict Key AttentionGroup → Outcome Exception (List AttentionGroup)
  unfolding get
  in_order [] group_map = ok []
  in_order (key ∷ group_order) group_map = do
    group ← or_raise (get same_key key group_map) key_error
    groups ← in_order group_order group_map
    ok (group ∷ groups)

  -- One cache group: its attention groups, with the backends found so far.
  unfoldable pub discover_group :
      Dict String (AttnModule t v)
      → ℕ
      → List String
      → GroupSpec t v
      → Dict String v.Backend
      → Outcome Exception (List AttentionGroup × Dict String v.Backend)
  unfolding discover_layers in_order
  discover_group attn_layers group_id layer_names spec attn_backends = do
    s ←
        discover_layers attn_layers spec group_id layer_names
          (record { attn_backends = attn_backends; group_map = []; group_order = [] })
    groups ← in_order s.group_order s.group_map
    ok (groups, s.attn_backends)
