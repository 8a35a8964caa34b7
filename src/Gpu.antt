-- ===== src/Gpu.antt =====
-- The CUDA driver and runtime as vllm-integration/vllm_v1_worker_gpu/edmm_allocator.py uses them.
-- They are not part of the repository: a `Driver` answers each call, and the program's side of the
-- traffic, the sequence of calls, is kept in a log.
use edmm.Prelude.{ℕ, ℤ, String, List, [], ◌∷◌, ◌++◌, Option, Bool, if◌then◌else◌, ◌==◌}
use edmm.Prelude.Dict.{Dict}
use edmm.Prelude.Effect.{ok, M, raise, pure, ◌>>=◌}

-- `_CUmemAllocationProp` and `_CUmemAccessDesc`; the fields that the program leaves at zero are
-- left out.
pub record AllocationProp : Type 0 where
  pub type : ℕ
  pub location_type : ℕ
  pub location_id : ℕ

pub record AccessDesc : Type 0 where
  pub location_type : ℕ
  pub location_id : ℕ
  pub flags : ℕ

-- One call, with the arguments that the program passes.
pub data Call : Type 0 where
  load_library : String → Call
  init : ℕ → Call
  device_get : ℕ → Call
  primary_ctx_retain : ℕ → Call
  ctx_push_current : ℕ → Call
  get_allocation_granularity : AllocationProp → ℕ → Call
  address_reserve : ℕ → ℕ → ℕ → ℕ → Call
  mem_create : ℕ → AllocationProp → ℕ → Call
  mem_map : ℕ → ℕ → ℕ → ℕ → ℕ → Call
  mem_set_access : ℕ → ℕ → AccessDesc → ℕ → Call
  mem_unmap : ℕ → ℕ → Call
  mem_release : ℕ → Call
  address_free : ℕ → ℕ → Call
  memset : ℕ → ℕ → ℕ → Call
  synchronize : Call

-- The result code (0 is CUDA_SUCCESS) and what the call writes through its output pointer.
pub record Reply : Type 0 where
  pub code : ℕ
  pub out : ℕ

-- `_ExternalCUDABuffer`: the address and the number of bytes of its array interface.
pub record ExternalBuffer : Type 0 where
  pub ptr : ℕ
  pub nbytes : ℕ

-- What the program reads of a tensor: its address and its number of bytes.
pub record Tensor : Type 0 where
  pub data_ptr : ℕ
  pub numel : ℕ

pub record Driver : Type 1 where
  pub State : Type 0
  pub answer : State → Call → Reply × State
  -- `torch.as_tensor(buffer, device=…)`
  pub as_tensor : ExternalBuffer → ℕ → Tensor

-- Messages of exceptions, with the numbers that are formatted into them.
pub data Message : Type 0 where
  plain : String → Message
  numbered : String → ℕ → Message
  ranged : String → ℤ → ℕ → Message

pub data Exception : Type 0 where
  runtime_error : ℕ → Message → Exception
  value_error : Message → Exception
  assertion_error : Message → Exception
  os_error : String → Exception
  key_error index_error attribute_error zero_division_error not_implemented_error : Exception
  -- Not of the program: a loop of the model met its bound on rounds.
  out_of_fuel : Exception

-- `VMMAllocation`
pub record Allocation : Type 0 where
  pub va_ptr : ℕ
  pub total_bytes : ℕ
  pub page_size : ℕ
  pub handles : List ℕ
  pub tensor : Option Tensor

-- The module's globals `_cuda` (loaded or not) and `_allocations`, beside the driver and the log.
pub record World (d : Driver) : Type 0 where
  pub driver : d.State
  pub calls : List Call
  pub loaded : Bool
  pub allocations : Dict ℕ Allocation

abbrev pub Gpu : Driver → Type 0 → Type 0
Gpu d A = M (World d) Exception A

module _ (d : Driver) where
  -- One driver call: it is logged, and the driver moves on.
  unfoldable pub invoke : Call → Gpu d Reply
  invoke c w =
      let (reply, next) = d.answer w.driver c in
      (ok reply, record w { driver = next; calls = w.calls ++ (c ∷ []) })

  -- `_check`
  unfoldable pub check : ℕ → Message → Gpu d (Unit {0})
  check result msg = if result == 0 then pure tt else raise (runtime_error result msg)

  -- `_check(cuda.call(…), msg)`: what the call wrote.
  unfoldable pub checked : Call → Message → Gpu d ℕ
  unfolding invoke check
  checked c msg = do reply ← invoke c; _ ← check reply.code msg; pure reply.out
