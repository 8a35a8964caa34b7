-- ===== src/AttnUtils/Tests.antt =====
-- Tests of the worker's set-up with two kinds of layers, and its theorems at concrete inputs.
use edmm.Prelude.{
  ℕ, zero, suc, ◌≡◌, refl, String, String_discrete, List, [], ◌∷◌, none, some, true, false,
  ℕ_discrete, dec_lt, pair_discrete, ◌⊎◌, arith,
}
use edmm.Prelude.Dict.{Dict, put, get, Each}
use edmm.Prelude.Sets.{member, insert}
use edmm.Prelude.Effect.{Outcome, ok, raised}
use edmm.Gpu.{invoke, check, checked, Exception, World}
use edmm.Allocator.{
  allocate_vmm_kv_cache, allocate_in_context, allocate_pages, open_pages, map_pages, get_cuda,
  ensure_driver_context,
}
use edmm.Allocator.Tests.{counting, fresh}
use edmm.Torch.{prod, zeros}
use edmm.Torch.Tests.{bytes, Strided}
use edmm.AttnUtils.Config.{
  Vllm, Kind, attention, mamba, AttnModule, single, KvCacheGroup, KvCacheConfig, layer_spec,
}
use edmm.AttnUtils.Groups.{
  AttentionGroup, same_key, join_group, place_layer, discover_layers, in_order, discover_group,
}
use edmm.AttnUtils.Groups.Partition
use edmm.AttnUtils.Groups.Partition.{PartitionOr}
use edmm.AttnUtils.Raw.{
  put_each, insert_each, subset, raw_tensor, raw_tensors, all_layer_names, checked_layers,
  allocate_kv_cache,
}
use edmm.AttnUtils.Raw.Covers
use edmm.AttnUtils.Raw.Covers.{Checked}
use edmm.AttnUtils.Reshape.{pick, index_of, inverse_from, inverse}
use edmm.AttnUtils.Reshape.Order
use edmm.AttnUtils.Metadata.{
  add_slot_mappings, build_slot_mappings_by_layer, Metadata, Building, Inputs, build_attn_metadata,
}
use edmm.AttnUtils.Metadata.ByLayer
use edmm.AttnUtils.Metadata.ByLayer.{Owned}

-- Specification 0 is of attention, with one token for a block and one head of one byte.
abbrev spec_of : ℕ → Kind bytes
spec_of zero = attention (record {
  page_size_bytes = 2;
  page_size_padded = none;
  block_size = 1;
  storage_block_size = 1;
  num_kv_heads = 1;
  head_size = 1;
  dtype = tt;
})
spec_of (suc n) = mamba (record { page_size_bytes = 4; shapes = (4 ∷ []) ∷ []; dtypes = tt ∷ [] })

abbrev vllm : Vllm bytes
vllm = record {
  Spec = ℕ;
  same_spec = ℕ_discrete;
  kind = spec_of;
  get_dtype_size = λ dtype. 1;
  Backend = String;
  full_cls_name = λ name. ("backends", name);
  cls_name = λ name. name;
  get_kv_cache_shape = λ name n size heads head dtype. 2 ∷ n ∷ size ∷ heads ∷ head ∷ [];
  get_kv_cache_stride_order = λ name. none;
}

abbrev flash : ℕ → AttnModule bytes vllm
flash spec = record {
  backend = "flash";
  kv_cache_spec = some spec;
  kv_sharing_target_layer_name = none;
}

abbrev modules : Dict String (AttnModule bytes vllm)
modules = ("a", flash 0) ∷ ("b", record (flash 0) { backend = "mla" }) ∷ ("c", flash 0) ∷ []

abbrev group : KvCacheGroup bytes vllm
group = record { layer_names = "a" ∷ "b" ∷ "c" ∷ []; kv_cache_spec = single 0 }

abbrev mambas : KvCacheGroup bytes vllm
mambas = record { layer_names = "m" ∷ []; kv_cache_spec = single 1 }

abbrev config : KvCacheConfig bytes vllm
config = record {
  kv_cache_tensors = record { size = 8; shared_by = "a" ∷ "b" ∷ [] } ∷ [];
  kv_cache_groups = group ∷ [];
}

program : Unit {0}
unfolding get put member insert ℕ_discrete dec_lt String_discrete invoke check checked
    allocate_vmm_kv_cache allocate_in_context allocate_pages open_pages map_pages get_cuda
    ensure_driver_context prod zeros layer_spec pair_discrete same_key join_group place_layer
    discover_layers in_order discover_group put_each insert_each subset raw_tensor raw_tensors
    all_layer_names checked_layers allocate_kv_cache pick index_of inverse_from add_slot_mappings
    build_slot_mappings_by_layer
program = tt

-- Layers "a" and "c" have one backend, "b" another.
abbrev first_names :
    Outcome Exception (List (AttentionGroup bytes vllm) × Dict String String) → List (List String)
first_names (raised e) = []
first_names (ok (groups, backends)) = names groups
  where
    names : List (AttentionGroup bytes vllm) → List (List String)
    names [] = []
    names (g ∷ gs) = g.layer_names ∷ names gs

two_groups :
    first_names (discover_group bytes vllm modules 0 group.layer_names (single 0) [])
    ≡ ("a" ∷ "c" ∷ []) ∷ ("b" ∷ []) ∷ []
unfolding program
two_groups = refl

-- The order of the strides (1, 0, 2) is its own inverse.
inverse_of_swap : inverse (1 ∷ 0 ∷ 2 ∷ []) ≡ ok (1 ∷ 0 ∷ 2 ∷ [])
unfolding program
inverse_of_swap = refl

discover_group-IsPartition_example :
    PartitionOr bytes vllm modules
      (single 0)
      ("a" ∷ "b" ∷ "c" ∷ [])
      (discover_group bytes vllm modules 0 ("a" ∷ "b" ∷ "c" ∷ []) (single 0) [])
discover_group-IsPartition_example =
    Partition.discover_group-IsPartition bytes vllm modules (single 0) 0 ("a" ∷ "b" ∷ "c" ∷ []) []

pick-inverse_example : pick (7 ∷ 2 ∷ 9 ∷ []) (1 ∷ 2 ∷ 0 ∷ []) ≡ ok (2 ∷ 9 ∷ 7 ∷ [])
unfolding program
pick-inverse_example =
    Order.pick-inverse (2 ∷ 9 ∷ 7 ∷ []) (2 ∷ 0 ∷ 1 ∷ []) (7 ∷ 2 ∷ 9 ∷ []) (1 ∷ 2 ∷ 0 ∷ []) refl refl
      refl

allocate-Checked_example :
    ((e : Exception) × (w' : World counting) × (raw_tensors bytes vllm true "cuda:0"
          config.kv_cache_tensors [] fresh
        ≡ (raised e, w'))
      × (allocate_kv_cache bytes vllm true config (("c", "a") ∷ []) "cuda:0" fresh
          ≡ (raised e, w')))
    ⊎ ((made : Dict String Strided) × (w' : World counting) × (raw_tensors bytes vllm true "cuda:0"
            config.kv_cache_tensors [] fresh
          ≡ (ok made, w'))
        × Checked bytes vllm config
            (("c", "a") ∷ [])
            made
            w'
            (allocate_kv_cache bytes vllm true config (("c", "a") ∷ []) "cuda:0" fresh))
allocate-Checked_example =
    Covers.allocate-Checked bytes vllm true config (("c", "a") ∷ []) "cuda:0" fresh

abbrev metadata : Metadata bytes vllm
metadata = record {
  Value = ℕ;
  Extra = Unit {0};
  no_extra = tt;
  Built = ℕ;
  ModelSpecific = Unit {0};
  get_extra_common_attn_kwargs = λ model i n. tt;
  get_extra_attn_kwargs = λ model g n. tt;
}

abbrev building : Building bytes vllm metadata
building = record {
  build_for_cudagraph_capture = λ g shared. 0;
  build = λ g n shared extra. shared.slot_mapping;
}

abbrev inputs : Inputs bytes vllm metadata
inputs = record {
  num_reqs = 1;
  num_tokens = 2;
  query_start_loc_gpu = 0;
  query_start_loc_cpu = 0;
  max_query_len = 2;
  seq_lens = 2 ∷ 0 ∷ [];
  max_seq_len = 2;
  block_tables = 5 ∷ 6 ∷ [];
  slot_mappings = 7 ∷ 8 ∷ [];
  seq_lens_cpu_upper_bound = none;
  dcp_local_seq_lens = none;
  positions = none;
  model_specific_attn_metadata = none;
  for_cudagraph_capture = false;
}

abbrev attn_groups : List (List (AttentionGroup bytes vllm))
attn_groups =
    (record {
      backend = "flash";
      layer_names = "a" ∷ "c" ∷ [];
      kv_cache_spec = 0;
      kv_cache_group_id = 0;
    }
      ∷ [])
    ∷ (record {
      backend = "mamba";
      layer_names = "m" ∷ [];
      kv_cache_spec = 1;
      kv_cache_group_id = 1;
    }
        ∷ [])
    ∷ []

build_attn_metadata-Owned_example :
    (built : Dict String ℕ) × (build_attn_metadata bytes vllm metadata building inputs attn_groups
        (group ∷ mambas ∷ [])
      ≡ ok built)
    × Each String_discrete (Owned bytes vllm metadata building inputs attn_groups) built
build_attn_metadata-Owned_example =
    ByLayer.build_attn_metadata-Owned bytes vllm metadata building inputs attn_groups
      (group ∷ mambas ∷ []) (omega arith) (omega arith) (omega arith)
