-- ===== src/AttnUtils/Backend.antt =====
-- `init_attn_backend`: the groups of every cache group, the sizes of kernel blocks, the builders of
-- metadata with the workspace that they share, and the least support of graphs.
use edmm.Prelude.{
  ℕ, suc, String, List, [], ◌∷◌, ◌++◌, Option, none, some, Bool, if◌then◌else◌, ltb, get_elem?,
}
use edmm.Prelude.Dict.{Dict}
use edmm.Prelude.Effect.{Outcome, ok}
use edmm.Prelude.Partial.{◌>>=◌}
use edmm.Gpu.{Exception}
use edmm.Torch.{Torch}
use edmm.AttnUtils.Config.{Vllm, AttnModule, GroupSpec, KvCacheGroup, KvCacheConfig}
use edmm.AttnUtils.Layers.{get_shared_kv_cache_layers}
use edmm.AttnUtils.Groups.{AttentionGroup, discover_group}

module _ (t : Torch) (v : Vllm t) where
  -- What vLLM's set-up of builders does, as far as the code sees it.
  pub record Builders : Type 1 where
    -- `get_layers_from_vllm_config(vllm_config, AttentionLayerBase, names)`
    pub attn_layers : List String → Dict String (AttnModule t v)
    -- `get_layers_from_vllm_config(vllm_config, Attention)`
    pub attention_layers : Dict String (AttnModule t v)
    -- `list(active.intersection(names))`
    pub intersection : List String → List String → List String
    pub add_kv_sharing_layers_to_kv_cache_groups :
        Dict String String → List (KvCacheGroup t v) → List (KvCacheGroup t v)
    pub prepare_kernel_block_sizes : KvCacheConfig t v → List (List (AttentionGroup t v)) → List ℕ
    -- A group's builder, made for a size of kernel blocks.
    pub Builder : Type 0
    pub builder : AttentionGroup t v → Option ℕ → Builder
    pub Workspace : Type 0
    -- `builder._get_workspace_buffer()`; `none` if the builder has no such attribute.
    pub get_workspace_buffer : Builder → Option Workspace
    -- `hasattr(builder, "set_workspace_buffer")`
    pub has_set_workspace_buffer : Builder → Bool
    -- `builder.get_cudagraph_support(…).value`, and the value of ALWAYS.
    pub cudagraph_support : Builder → GroupSpec t v → ℕ
    pub always : ℕ

  module _ (b : Builders) where
    -- `attn_backend_workspace`, the calls of `set_workspace_buffer`, and the support found so far.
    pub record Support : Type 0 where
      pub attn_backend_workspace : Option b.Workspace
      pub set_calls : List (b.Builder × b.Workspace)
      pub min_cg_support : ℕ
      pub min_cg_attn_backend : Option String

    -- The first workspace that a builder has is given to the builders after it.
    unfoldable pub share_workspace : b.Builder → Option b.Workspace → Support → Support
    share_workspace builder none s = record s {
      attn_backend_workspace = b.get_workspace_buffer builder;
    }
    share_workspace builder (some workspace) s =
        if b.has_set_workspace_buffer builder
        then record s { set_calls = s.set_calls ++ ((builder, workspace) ∷ []) }
        else s

    unfoldable pub lower_support : ℕ → String → Support → Support
    lower_support value name s =
        if ltb value s.min_cg_support
        then record s { min_cg_support = value; min_cg_attn_backend = some name }
        else s

    -- `for group in groups`
    unfoldable pub build_groups :
        GroupSpec t v → Option ℕ → List (AttentionGroup t v) → Support → Support
    unfolding share_workspace lower_support
    build_groups spec kernel_block_size [] s = s
    build_groups spec kernel_block_size (group ∷ groups) s =
        let builder = b.builder group kernel_block_size in
        build_groups spec kernel_block_size groups (
          lower_support (b.cudagraph_support builder spec) (v.cls_name group.backend)
            (share_workspace builder s.attn_backend_workspace s))

    -- `for kv_cache_group_id, groups in enumerate(attn_groups)`; a group has a size of kernel blocks
    -- if there are sizes enough.
    unfoldable pub build_all :
        ℕ → List ℕ → List (KvCacheGroup t v) → List (List (AttentionGroup t v)) → Support → Support
    unfolding build_groups
    build_all group_id kernel_block_sizes (spec ∷ specs) (groups ∷ attn_groups) s =
        build_all (suc group_id) kernel_block_sizes specs attn_groups
          (build_groups spec.kv_cache_spec (get_elem? kernel_block_sizes group_id) groups s)
    build_all group_id kernel_block_sizes _ _ s = s

    -- The names of a cache group, those that are active if that is given.
    abbrev pub active : Option (List String) → List String → List String
    active none layer_names = layer_names
    active (some names) layer_names = b.intersection names layer_names

    -- `for kv_cache_group_id, kv_cache_group_spec in enumerate(kv_cache_groups)`
    unfoldable pub discover_groups :
        Option (List String)
        → ℕ
        → List (KvCacheGroup t v)
        → Dict String v.Backend
        → Outcome Exception (List (List (AttentionGroup t v)) × Dict String v.Backend)
    unfolding discover_group
    discover_groups active_layer_names group_id [] attn_backends = ok ([], attn_backends)
    discover_groups active_layer_names group_id (g ∷ gs) attn_backends = do
      let layer_names = active active_layer_names g.layer_names
      found ←
          discover_group t v (b.attn_layers layer_names) group_id layer_names g.kv_cache_spec
            attn_backends
      rest ← discover_groups active_layer_names (suc group_id) gs found.1
      ok (found.0 ∷ rest.0, rest.1)

    -- What `init_attn_backend` returns, and the workspace calls.
    pub record AttnBackend : Type 0 where
      pub attn_backends : Dict String v.Backend
      pub attn_groups : List (List (AttentionGroup t v))
      pub support : Support
      pub kernel_block_sizes : List ℕ

    -- `init_attn_backend`; the sharing layers are added to the groups of the configuration, which
    -- the caller keeps.
    unfoldable pub init_attn_backend :
        KvCacheConfig t v
        → Option (List String)
        → Outcome Exception (AttnBackend × KvCacheConfig t v)
    unfolding discover_groups build_all get_shared_kv_cache_layers
    init_attn_backend kv_cache_config active_layer_names = do
      let kv_cache_groups =
          b.add_kv_sharing_layers_to_kv_cache_groups
            (get_shared_kv_cache_layers t v b.attention_layers) kv_cache_config.kv_cache_groups
      let config = record kv_cache_config { kv_cache_groups = kv_cache_groups }
      found ← discover_groups active_layer_names 0 kv_cache_groups []
      let kernel_block_sizes = b.prepare_kernel_block_sizes config found.0
      ok (
        record {
          attn_backends = found.1;
          attn_groups = found.0;
          support = build_all 0 kernel_block_sizes kv_cache_groups found.0 (record {
            attn_backend_workspace = none;
            set_calls = [];
            min_cg_support = b.always;
            min_cg_attn_backend = none;
          });
          kernel_block_sizes = kernel_block_sizes;
        },
        config,
      )
