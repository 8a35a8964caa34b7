-- ===== src/CacheEngine/Tests.antt =====
-- Tests of the cache engine over an allocator whose driver counts, and its theorems at concrete
-- inputs.
use edmm.Prelude.{
  ℕ, ◌*◌, ◌≡◌, refl, String_discrete, [], ◌∷◌, Option, none, some, true, ℕ_discrete, dec_lt, length,
}
use edmm.Prelude.Dict.{put, get}
use edmm.Prelude.Effect.{ok, raised}
use edmm.Gpu.{invoke, check, checked, zero_division_error, key_error}
use edmm.Allocator.{
  allocate_vmm_kv_cache, allocate_in_context, allocate_pages, open_pages, map_pages, get_cuda,
  ensure_driver_context,
}
use edmm.Allocator.Tests.{fresh}
use edmm.Torch.{prod, zeros}
use edmm.Torch.Tests.{bytes}
use edmm.CacheEngine.{
  Config, Backend, CacheEngine, share, cache_dtype, paged_layer, zeroed_layer, layer, layers,
  allocate_kv_cache, init, get_cache_block_size, swap_layers, swap_in, swap_out, kv_cache_shape,
}
use edmm.CacheEngine.Size
use edmm.CacheEngine.Layers

abbrev blocks : Option ℕ → ℕ
blocks none = 0
blocks (some n) = n

abbrev backend : Backend bytes
backend = record {
  str_dtype_to_torch_dtype = λ name. none;
  get_dtype_size = λ dtype. 1;
  get_kv_cache_shape = λ n size heads head. 2 ∷ blocks n ∷ size ∷ heads ∷ head ∷ [];
  Mapping = ℕ;
}

abbrev config : Config bytes
config = record {
  head_size = 8;
  num_attention_layers = 2;
  num_kv_heads = 4;
  block_size = 16;
  num_gpu_blocks = some 10;
  num_cpu_blocks = some 0;
  pipeline_parallel_size = 2;
  cache_dtype = "auto";
  dtype = tt;
  device_type = "cuda:0";
  edmm_enabled = true;
}

program : Unit {0}
unfolding get put ℕ_discrete dec_lt String_discrete invoke check checked allocate_vmm_kv_cache
    allocate_in_context allocate_pages open_pages map_pages get_cuda ensure_driver_context prod
    share zeros cache_dtype paged_layer zeroed_layer layer layers allocate_kv_cache init
    get_cache_block_size swap_layers swap_in swap_out
program = tt

abbrev engine : CacheEngine bytes
engine = record {
  num_gpu_blocks = some 5;
  num_cpu_blocks = some 0;
  dtype = tt;
  gpu_cache =
      record { numel = 1; shape = []; stride = [] }
      ∷ record { numel = 2; shape = []; stride = [] }
      ∷ [];
  cpu_cache =
      record { numel = 3; shape = []; stride = [] }
      ∷ record { numel = 4; shape = []; stride = [] }
      ∷ [];
}

-- Ten blocks over two stages are five for each.
share_of_ten : share (some 10) 2 ≡ ok (some 5)
unfolding program
share_of_ten = refl

-- Each of the two layers takes one page of the driver, here at the same address.
two_layers :
    length (allocate_kv_cache bytes backend config (some 5) tt "cuda:0" fresh).1.allocations ≡ 1
unfolding program
two_layers = refl

-- Without pipeline stages, the count of blocks cannot be shared out.
init_without_stages :
    (init bytes backend (record config { pipeline_parallel_size = 0 }) fresh).0
    ≡ raised zero_division_error
unfolding program
init_without_stages = refl

init_unknown_dtype :
    (init bytes backend (record config { cache_dtype = "fp4" }) fresh).0 ≡ raised key_error
unfolding program
init_unknown_dtype = refl

swap_in_two : length (swap_in bytes backend config engine 7).0 ≡ 2
unfolding program
swap_in_two = refl

block_size-layers_example :
    (size : ℕ) × (get_cache_block_size bytes backend config ≡ ok size)
    × (2 * (prod (kv_cache_shape bytes backend config (some 5)) * 1) ≡ 5 * size)
unfolding program
block_size-layers_example = Size.block_size-layers bytes backend config tt 5 refl refl refl
