-- ===== src/AttnUtils/Metadata.antt =====
-- `build_slot_mappings_by_layer` and `build_attn_metadata`: what each layer is handed for a step.
pub mod ByLayer
use edmm.Prelude.{
  ℕ, zero, suc, String, List, [], ◌∷◌, Option, none, some, Bool, true, false, if◌then◌else◌, take,
  get_elem?, length,
}
use edmm.Prelude.Dict.{Dict}
use edmm.Prelude.Effect.{Outcome, ok, raised}
use edmm.Prelude.Partial.{◌>>=◌, or_raise}
use edmm.Gpu.{Exception, index_error}
use edmm.Torch.{Torch}
use edmm.AttnUtils.Config.{Vllm, KvCacheGroup}
use edmm.AttnUtils.Groups.{AttentionGroup}
use edmm.AttnUtils.Raw.{put_each}

module _ (t : Torch) (v : Vllm t) where
  -- `for slot_mapping, kv_cache_group in zip(slot_mappings, kv_cache_groups)`
  unfoldable pub add_slot_mappings :
      {A : Type 0} → List A → List (KvCacheGroup t v) → Dict String A → Dict String A
  unfolding put_each
  add_slot_mappings (slot_mapping ∷ slot_mappings) (g ∷ gs) by_layer =
      add_slot_mappings slot_mappings gs (put_each g.layer_names slot_mapping by_layer)
  add_slot_mappings _ _ by_layer = by_layer

  -- `build_slot_mappings_by_layer`
  unfoldable pub build_slot_mappings_by_layer :
      {A : Type 0} → List A → List (KvCacheGroup t v) → Dict String A
  unfolding add_slot_mappings
  build_slot_mappings_by_layer slot_mappings kv_cache_groups =
      add_slot_mappings slot_mappings kv_cache_groups []

-- `xs[:n]` of a tensor that may be missing.
abbrev pub take_some : ℕ → Option (List ℕ) → Option (List ℕ)
take_some n none = none
take_some n (some xs) = some (take n xs)

module _ (t : Torch) (v : Vllm t) where
  -- The builders of metadata and the model's own additions to it, which are vLLM's; `Value` are
  -- tensors that are only handed on.
  pub record Metadata : Type 1 where
    pub Value : Type 0
    pub Extra : Type 0
    pub no_extra : Extra
    pub Built : Type 0
    pub ModelSpecific : Type 0
    pub get_extra_common_attn_kwargs : ModelSpecific → ℕ → ℕ → Extra
    pub get_extra_attn_kwargs : ModelSpecific → AttentionGroup t v → ℕ → Extra

  module _ (d : Metadata) where
    -- `CommonAttentionMetadata`
    pub record Common : Type 0 where
      pub query_start_loc : d.Value
      pub query_start_loc_cpu : d.Value
      pub seq_lens : List ℕ
      pub seq_lens_cpu_upper_bound : Option (List ℕ)
      pub max_seq_len : ℕ
      pub num_reqs : ℕ
      pub num_actual_tokens : ℕ
      pub max_query_len : ℕ
      pub block_table_tensor : d.Value
      pub slot_mapping : d.Value
      pub causal : Bool
      pub dcp_local_seq_lens : Option (List ℕ)
      pub positions : Option d.Value
      pub extra : d.Extra

    -- `attn_group.get_metadata_builder(0)`: its two ways to build.
    pub record Building : Type 0 where
      pub build_for_cudagraph_capture : AttentionGroup t v → Common → d.Built
      -- `build(common_prefix_len=…, common_attn_metadata=…, **extra)`
      pub build : AttentionGroup t v → ℕ → Common → d.Extra → d.Built

    -- The arguments of `build_attn_metadata` beside the groups.
    pub record Inputs : Type 0 where
      pub num_reqs : ℕ
      pub num_tokens : ℕ
      pub query_start_loc_gpu : d.Value
      pub query_start_loc_cpu : d.Value
      pub max_query_len : ℕ
      pub seq_lens : List ℕ
      pub max_seq_len : ℕ
      pub block_tables : List d.Value
      pub slot_mappings : List d.Value
      pub seq_lens_cpu_upper_bound : Option (List ℕ)
      pub dcp_local_seq_lens : Option (List ℕ)
      pub positions : Option d.Value
      pub model_specific_attn_metadata : Option d.ModelSpecific
      pub for_cudagraph_capture : Bool

    unfoldable pub extra_common : Option d.ModelSpecific → ℕ → ℕ → d.Extra
    extra_common none i num_reqs = d.no_extra
    extra_common (some model) i num_reqs = d.get_extra_common_attn_kwargs model i num_reqs

    unfoldable pub extra_attn : Option d.ModelSpecific → AttentionGroup t v → ℕ → d.Extra
    extra_attn none group num_reqs = d.no_extra
    extra_attn (some model) group num_reqs = d.get_extra_attn_kwargs model group num_reqs

    -- The metadata that the attention groups of cache group `i` have in common.
    unfoldable pub common : Inputs → ℕ → d.Value → d.Value → Common
    unfolding extra_common
    common a i block_table slot_mapping = record {
      query_start_loc = a.query_start_loc_gpu;
      query_start_loc_cpu = a.query_start_loc_cpu;
      seq_lens = take a.num_reqs a.seq_lens;
      seq_lens_cpu_upper_bound = take_some a.num_reqs a.seq_lens_cpu_upper_bound;
      max_seq_len = a.max_seq_len;
      num_reqs = a.num_reqs;
      num_actual_tokens = a.num_tokens;
      max_query_len = a.max_query_len;
      block_table_tensor = block_table;
      slot_mapping = slot_mapping;
      causal = true;
      dcp_local_seq_lens = take_some a.num_reqs a.dcp_local_seq_lens;
      positions = a.positions;
      extra = extra_common a.model_specific_attn_metadata i a.num_reqs;
    }

    unfoldable pub build_group : Building → Inputs → AttentionGroup t v → Common → d.Built
    unfolding extra_attn
    build_group b a group shared =
        if a.for_cudagraph_capture
        then b.build_for_cudagraph_capture group shared
        else b.build group 0 shared (extra_attn a.model_specific_attn_metadata group a.num_reqs)

    -- `for attn_group in attn_groups[i]`
    unfoldable pub build_groups :
        Building
        → Inputs
        → Common
        → List (AttentionGroup t v)
        → Dict String d.Built
        → Dict String d.Built
    unfolding build_group put_each
    build_groups b a shared [] attn_metadata = attn_metadata
    build_groups b a shared (group ∷ groups) attn_metadata =
        build_groups b a shared groups
          (put_each group.layer_names (build_group b a group shared) attn_metadata)

    -- `for i in range(i, i + n)`
    unfoldable pub build_from :
        Building
        → Inputs
        → List (List (AttentionGroup t v))
        → ℕ
        → ℕ
        → Dict String d.Built
        → Outcome Exception (Dict String d.Built)
    unfolding common build_groups
    build_from b a attn_groups zero i attn_metadata = ok attn_metadata
    build_from b a attn_groups (suc n) i attn_metadata = do
      block_table ← or_raise (get_elem? a.block_tables i) index_error
      slot_mapping ← or_raise (get_elem? a.slot_mappings i) index_error
      groups ← or_raise (get_elem? attn_groups i) index_error
      build_from b a attn_groups n (suc i)
          (build_groups b a (common a i block_table slot_mapping) groups attn_metadata)

    -- `build_attn_metadata`
    unfoldable pub build_attn_metadata :
        Building
        → Inputs
        → List (List (AttentionGroup t v))
        → List (KvCacheGroup t v)
        → Outcome Exception (Dict String d.Built)
    unfolding build_from
    build_attn_metadata b a attn_groups kv_cache_groups =
        build_from b a attn_groups (length kv_cache_groups) 0 []
