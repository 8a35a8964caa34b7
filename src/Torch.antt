-- ===== src/Torch.antt =====
-- PyTorch, as the set-up of the key-value caches uses it. It is not part of the repository: its
-- operations are fields, each of which may raise; `zeros` takes memory, so it may move the driver.
pub mod Tests
use edmm.Prelude.{ℕ, ◌*◌, String, List, [], ◌∷◌, Bool, Option}
use edmm.Prelude.Effect.{Outcome, bind}
use edmm.Gpu.{Driver, Tensor, Exception, World, Gpu}

pub record Torch : Type 1 where
  pub driver : Driver
  pub Dtype : Type 0
  -- A tensor, with its type of elements, its shape and its strides.
  pub Array : Type 0
  pub Device : Type 0
  -- `torch.device(text)`
  pub device : String → Device
  -- `device.index`
  pub index : Device → Option ℕ
  -- `torch.tensor([], dtype=dtype).element_size()`
  pub element_size : Dtype → ℕ
  pub int8 : Dtype
  pub is_pin_memory_available : Bool
  -- `torch.zeros(shape, dtype=…, pin_memory=…, device=…)`
  pub zeros : List ℕ → Dtype → Bool → Device → driver.State → Outcome Exception Array × driver.State
  -- The tensor object whose address and size the allocator reads.
  pub of_tensor : Tensor → Array
  pub numel : Array → ℕ
  pub shape : Array → List ℕ
  pub stride : Array → List ℕ
  -- `a.view(dtype)`, `a.view(shape)` and `a.reshape(shape)`
  pub view_dtype : Dtype → Array → Outcome Exception Array
  pub view : List ℕ → Array → Outcome Exception Array
  pub reshape : List ℕ → Array → Outcome Exception Array
  -- `torch.as_strided(a, size=…, stride=…, storage_offset=…)`, and `as_strided_` in place; without an
  -- offset the tensor's own is kept.
  pub as_strided : List ℕ → List ℕ → Option ℕ → Array → Outcome Exception Array
  -- `a.permute(*order)`
  pub permute : List ℕ → Array → Outcome Exception Array
  -- `torch.empty(shape).stride()`
  pub empty_stride : List ℕ → List ℕ

-- The number of elements of a shape: `math.prod(shape)`, `shape.numel()`.
unfoldable pub prod : List ℕ → ℕ
prod [] = 1
prod (n ∷ ns) = n * prod ns

module _ (t : Torch) where
  -- A step of the set-up: it may raise, and it moves the driver and the allocator's tables.
  abbrev pub Step : Type 0 → Type 0
  Step A = Gpu t.driver A

  -- An operation that takes no memory.
  abbrev pub lift : {A : Type 0} → Outcome Exception A → Step A
  lift r w = (r, w)

  -- `torch.zeros`, which the program's log of driver calls does not show.
  unfoldable pub zeros : List ℕ → t.Dtype → Bool → t.Device → Step t.Array
  zeros shape dtype pin_memory device w =
      let (r, next) = t.zeros shape dtype pin_memory device w.driver in
      (r, record w { driver = next })
