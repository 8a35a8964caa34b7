-- ===== src/Torch/Tests.antt =====
-- An instance of torch over the driver that counts, for the tests: a tensor is its size with its
-- shape and strides, and elements have one byte.
use edmm.Prelude.{ℕ, ◌*◌, String, List, [], ◌∷◌, some, true}
use edmm.Prelude.Effect.{ok}
use edmm.Allocator.Tests.{counting}
use edmm.Torch.{Torch}

pub record Strided : Type 0 where
  pub numel : ℕ
  pub shape : List ℕ
  pub stride : List ℕ

abbrev size_of : List ℕ → ℕ
size_of [] = 1
size_of (n ∷ ns) = n * size_of ns

abbrev row_major : List ℕ → List ℕ
row_major [] = []
row_major (n ∷ ns) = size_of ns ∷ row_major ns

abbrev as_shape : List ℕ → Strided → Strided
as_shape shape a = record a { shape = shape; stride = row_major shape }

abbrev flat : ℕ → Strided
flat n = record { numel = n; shape = n ∷ []; stride = 1 ∷ [] }

abbrev pub bytes : Torch
bytes = record {
  driver = counting;
  Dtype = Unit {0};
  Array = Strided;
  Device = String;
  device = λ name. name;
  index = λ d. some 0;
  element_size = λ d. 1;
  int8 = tt;
  is_pin_memory_available = true;
  zeros = λ shape dtype pin device s. (ok (as_shape shape (flat (size_of shape))), s);
  of_tensor = λ t. flat t.numel;
  numel = λ a. a.numel;
  shape = λ a. a.shape;
  stride = λ a. a.stride;
  view_dtype = λ dtype a. ok a;
  view = λ shape a. ok (as_shape shape a);
  reshape = λ shape a. ok (as_shape shape a);
  as_strided = λ shape stride offset a. ok (record a { shape = shape; stride = stride });
  permute = λ order a. ok a;
  empty_stride = row_major;
}
