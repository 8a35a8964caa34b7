-- ===== src/AttnUtils/Reshape.antt =====
-- `_reshape_kv_cache`: the layers' views of their buffers.
pub mod Order
use edmm.Prelude.{
  ℕ, zero, suc, ◌+◌, ◌*◌, ◌/◌, ◌%◌, String, List, [], ◌∷◌, ◌++◌, Option, none, some, Bool, true,
  false, if◌then◌else◌, ◌==◌, ltb, length, get_elem?, set, String_discrete, ◌&&◌,
}
use edmm.Prelude.Dict.{Dict, get, put, is_some}
use edmm.Prelude.Effect.{Outcome, ok, raised}
use edmm.Prelude.Partial.{◌>>=◌, or_raise}
use edmm.Gpu.{
  Exception, key_error, index_error, zero_division_error, not_implemented_error, assertion_error,
  value_error, plain,
}
use edmm.Torch.{Torch}
use edmm.AttnUtils.Config.{
  Vllm, AttentionSpec, MambaSpec, Kind, attention, mamba, other, GroupSpec, KvCacheGroup,
  KvCacheConfig, layer_spec,
}

-- A layer's cache: one tensor, or the states of a Mamba layer.
pub data KvCache (t : Torch) : Type 0 where
  tensor : t.Array → KvCache t
  states : List t.Array → KvCache t

-- `a // b`, which raises for b = 0.
unfoldable pub floordiv : ℕ → ℕ → Outcome Exception ℕ
floordiv a zero = raised zero_division_error
floordiv a (suc b) = ok (a / suc b)

-- `tuple(xs[i] for i in order)`
unfoldable pub pick : List ℕ → List ℕ → Outcome Exception (List ℕ)
pick xs [] = ok []
pick xs (i ∷ order) = do
  x ← or_raise (get_elem? xs i) index_error
  rest ← pick xs order
  ok (x ∷ rest)

-- `order.index(i)`, which raises a ValueError if there is none.
unfoldable pub index_of : List ℕ → ℕ → Option ℕ
index_of [] i = none
index_of (j ∷ order) i =
    let rest = index_of order i in
    if j == i then some 0 else elim rest [ none ↦ none | some k ↦ some (suc k) ]

-- `[order.index(i) for i in range(start, start + n)]`
unfoldable pub inverse_from : List ℕ → ℕ → ℕ → Outcome Exception (List ℕ)
unfolding index_of
inverse_from order zero start = ok []
inverse_from order (suc n) start = do
  x ← or_raise (index_of order start) (value_error (plain "tuple.index(x): x not in tuple"))
  rest ← inverse_from order n (suc start)
  ok (x ∷ rest)

-- `inv_order`
abbrev pub inverse : List ℕ → Outcome Exception (List ℕ)
inverse order = inverse_from order (length order) 0

-- `range(start, start + n)`
unfoldable pub range_from : ℕ → ℕ → List ℕ
range_from zero start = []
range_from (suc n) start = start ∷ range_from n (suc start)

module _ (t : Torch) (v : Vllm t) where
  -- `kv_cache_shape`: blocks are divided into kernel blocks, unless the blocks as stored differ.
  unfoldable pub cache_shape :
      AttentionSpec t → v.Backend → String → ℕ → Option ℕ → Outcome Exception (List ℕ)
  unfolding floordiv
  cache_shape spec backend cache_dtype num_blocks none = ok (
      v.get_kv_cache_shape backend num_blocks
        (if spec.storage_block_size == spec.block_size
          then spec.block_size
          else spec.storage_block_size)
        spec.num_kv_heads spec.head_size cache_dtype)
  cache_shape spec backend cache_dtype num_blocks (some kernel_block_size) = do
    factor ← floordiv spec.block_size kernel_block_size
    ok (
        v.get_kv_cache_shape backend (num_blocks * factor)
          (if spec.storage_block_size == spec.block_size
            then kernel_block_size
            else spec.storage_block_size)
          spec.num_kv_heads spec.head_size cache_dtype)

  -- `kv_cache_stride_order`, the identity if the backend has none.
  unfoldable pub stride_order : Option (List ℕ) → List ℕ → Outcome Exception (List ℕ)
  unfolding range_from
  stride_order none shape = ok (range_from (length shape) 0)
  stride_order (some order) shape =
      if length order == length shape
      then ok order
      else raised (assertion_error (plain "len(kv_cache_stride_order) == len(kv_cache_shape)"))

  -- `strides[inv_order[0]] = page_stride`
  unfoldable pub padded_strides : List ℕ → List ℕ → ℕ → Outcome Exception (List ℕ)
  padded_strides [] strides page_stride = raised index_error
  padded_strides (i ∷ inv_order) strides page_stride =
      if ltb i (length strides) then ok (set strides i page_stride) else raised index_error

  -- The view of the buffer in the order of the strides.
  unfoldable pub physical_view :
      AttentionSpec t → Option ℕ → List ℕ → List ℕ → t.Array → Outcome Exception t.Array
  unfolding floordiv padded_strides
  physical_view spec none shape inv_order kv_tensor = t.view shape kv_tensor
  physical_view spec (some padded) shape inv_order kv_tensor = do
    page_stride ← floordiv spec.page_size_bytes (v.get_dtype_size spec.dtype)
    strides ← padded_strides inv_order (t.empty_stride shape) page_stride
    t.as_strided shape strides none kv_tensor

  -- The branch of a layer with attention.
  unfoldable pub reshape_attention :
      AttentionSpec t → v.Backend → String → ℕ → Option ℕ → t.Array → Outcome Exception t.Array
  unfolding cache_shape stride_order pick inverse_from physical_view
  reshape_attention spec backend cache_dtype num_blocks kernel_block_size raw = do
    kv_cache_shape ← cache_shape spec backend cache_dtype num_blocks kernel_block_size
    order ← stride_order (v.get_kv_cache_stride_order backend) kv_cache_shape
    shape ← pick kv_cache_shape order
    inv_order ← inverse order
    kv_tensor ← t.view_dtype spec.dtype raw
    kv_cache ← physical_view spec spec.page_size_padded shape inv_order kv_tensor
    t.permute inv_order kv_cache

  -- The view of one state, from its offset in the page, and the offset of the next.
  unfoldable pub state_view :
      ℕ → List ℕ → t.Dtype → ℕ → ℕ → t.Array → List ℕ → ℕ → Outcome Exception (t.Array × ℕ)
  state_view num_blocks shape dtype dtype_size num_element_per_page raw [] storage_offset_bytes =
      raised index_error
  state_view num_blocks shape dtype dtype_size num_element_per_page raw (first ∷ stride)
        storage_offset_bytes =
      do
        typed ← t.view_dtype dtype raw
        state ←
            t.as_strided (num_blocks ∷ shape) (num_element_per_page ∷ stride)
              (some (storage_offset_bytes / dtype_size)) typed
        ok (state, storage_offset_bytes + first * dtype_size)

  -- `assert storage_offset_bytes % dtype_size == 0`
  abbrev aligned : ℕ → ℕ → Outcome Exception (Unit {0})
  aligned storage_offset_bytes dtype_size =
      if (storage_offset_bytes % dtype_size) == 0
      then ok tt
      else raised (assertion_error (plain "storage_offset_bytes % dtype_size == 0"))

  -- `for shape, dtype in zip(shapes, dtypes)`
  unfoldable pub reshape_mamba :
      ℕ → ℕ → List (List ℕ) → List t.Dtype → t.Array → ℕ → Outcome Exception (List t.Array)
  unfolding floordiv state_view
  reshape_mamba num_blocks page_size_bytes (shape ∷ shapes) (dtype ∷ dtypes) raw
        storage_offset_bytes =
      do
        let dtype_size = v.get_dtype_size dtype
        num_element_per_page ← floordiv page_size_bytes dtype_size
        _ ← aligned storage_offset_bytes dtype_size
        state ←
            state_view num_blocks shape dtype dtype_size num_element_per_page raw
              (t.empty_stride (num_blocks ∷ shape)) storage_offset_bytes
        rest ← reshape_mamba num_blocks page_size_bytes shapes dtypes raw state.1
        ok (state.0 ∷ rest)
  reshape_mamba num_blocks page_size_bytes _ _ raw storage_offset_bytes = ok []

  -- `kv_caches`, `has_attn` and `has_mamba`.
  pub record Reshaped : Type 0 where
    pub kv_caches : Dict String (KvCache t)
    pub has_attn : Bool
    pub has_mamba : Bool

  module _ (attn_backends : Dict String v.Backend) (cache_dtype : String) where
    -- The branches on the kind of specification, for a buffer of `num_blocks` pages.
    unfoldable pub reshape_layer :
        String → Option ℕ → t.Array → ℕ → Kind t → Reshaped → Outcome Exception Reshaped
    unfolding get put reshape_attention reshape_mamba
    reshape_layer layer_name kernel_block_size raw num_blocks (attention spec) s = do
      backend ← or_raise (get String_discrete layer_name attn_backends) key_error
      kv_cache ← reshape_attention spec backend cache_dtype num_blocks kernel_block_size raw
      ok (record s {
        kv_caches = put String_discrete layer_name (tensor kv_cache) s.kv_caches;
        has_attn = true;
      })
    reshape_layer layer_name kernel_block_size raw num_blocks (mamba spec) s = do
      state_tensors ← reshape_mamba num_blocks spec.page_size_bytes spec.shapes spec.dtypes raw 0
      ok (record s {
        kv_caches = put String_discrete layer_name (states state_tensors) s.kv_caches;
        has_mamba = true;
      })
    reshape_layer layer_name kernel_block_size raw num_blocks (other page) s =
        raised not_implemented_error

    abbrev page_size_bytes : Kind t → ℕ
    page_size_bytes (attention spec) = spec.page_size_bytes
    page_size_bytes (mamba spec) = spec.page_size_bytes
    page_size_bytes (other page) = page

    -- `assert kv_raw_tensor.numel() % page_size_bytes == 0`, and the number of pages.
    unfoldable pub whole_pages : ℕ → ℕ → Outcome Exception ℕ
    whole_pages numel zero = raised zero_division_error
    whole_pages numel (suc page) =
        if (numel % suc page) == 0
        then ok (numel / suc page)
        else raised (assertion_error (plain "kv_raw_tensor.numel() % page_size_bytes == 0"))

    -- One layer of a group: nothing, if it shares the cache of another.
    unfoldable pub reshape_one :
        Dict String t.Array
        → Dict String String
        → GroupSpec t v
        → Option ℕ
        → String
        → Reshaped
        → Outcome Exception Reshaped
    unfolding get reshape_layer whole_pages layer_spec
    reshape_one raw_tensors shared group_spec kernel_block_size layer_name s =
        if is_some (get String_discrete layer_name shared) then ok s else (do
          spec ← layer_spec t v group_spec layer_name
          raw ← or_raise (get String_discrete layer_name raw_tensors) key_error
          num_blocks ← whole_pages (t.numel raw) (page_size_bytes (v.kind spec))
          reshape_layer layer_name kernel_block_size raw num_blocks (v.kind spec) s)

    unfoldable pub reshape_names :
        Dict String t.Array
        → Dict String String
        → GroupSpec t v
        → Option ℕ
        → List String
        → Reshaped
        → Outcome Exception Reshaped
    unfolding reshape_one
    reshape_names raw_tensors shared group_spec kernel_block_size [] s = ok s
    reshape_names raw_tensors shared group_spec kernel_block_size (x ∷ xs) s = do
      next ← reshape_one raw_tensors shared group_spec kernel_block_size x s
      reshape_names raw_tensors shared group_spec kernel_block_size xs next

    -- `for kv_cache_group_id, kv_cache_group_spec in enumerate(kv_cache_groups)`
    unfoldable pub reshape_groups :
        Dict String t.Array
        → Dict String String
        → List ℕ
        → ℕ
        → List (KvCacheGroup t v)
        → Reshaped
        → Outcome Exception Reshaped
    unfolding reshape_names
    reshape_groups raw_tensors shared kernel_block_sizes group_id [] s = ok s
    reshape_groups raw_tensors shared kernel_block_sizes group_id (g ∷ gs) s = do
      next ←
          reshape_names raw_tensors shared g.kv_cache_spec (get_elem? kernel_block_sizes group_id)
            g.layer_names s
      reshape_groups raw_tensors shared kernel_block_sizes (suc group_id) gs next
