-- ===== src/CacheEngine/Size.antt =====
-- `get_cache_block_size`, against what the caches of the layers really take.
use edmm.Prelude.{ℕ, ◌+◌, ◌*◌, ◌≡◌, some, arith, ap}
use edmm.Prelude.Effect.{ok}
use edmm.Torch.{Torch, prod}
use edmm.CacheEngine.{
  Config, Backend, cache_dtype, block_bytes, get_cache_block_size, kv_cache_shape,
}

-- Keys and values have a block of the same size in each layer.
bytes_of_layers :
    (layers n size heads head bytes : ℕ)
    → layers * ((2 * n * size * heads * head) * bytes)
      ≡ n * (bytes * (layers * (size * heads * head + size * heads * head)))
bytes_of_layers layers n size heads head bytes = omega arith

-- If the shape for n blocks has 2 * n * block_size * num_kv_heads * head_size elements, and the two
-- sizes of an element that the program asks for agree, the caches of all layers with n blocks take n
-- times the bytes that get_cache_block_size gives.
pub block_size-layers :
    (t : Torch) (b : Backend t) (c : Config t) (dtype : t.Dtype) (n : ℕ)
    → cache_dtype t b c ≡ ok dtype
    → b.get_dtype_size dtype ≡ t.element_size dtype
    → prod (kv_cache_shape t b c (some n)) ≡ 2 * n * c.block_size * c.num_kv_heads * c.head_size
    → (size : ℕ) × (get_cache_block_size t b c ≡ ok size)
      × (c.num_attention_layers * (prod (kv_cache_shape t b c (some n)) * t.element_size dtype)
          ≡ n * size)
unfolding get_cache_block_size block_bytes
block_size-layers t b c dtype n named sizes shape =
    let key_cache_block = c.block_size * c.num_kv_heads * c.head_size in
    (
      b.get_dtype_size dtype * (c.num_attention_layers * (key_cache_block + key_cache_block)),
      ap (block_bytes t b c) named,
      rw (shape, sizes)
          (bytes_of_layers c.num_attention_layers n c.block_size c.num_kv_heads c.head_size _),
    )
