-- ===== src/Request/Status.antt =====
-- `RequestStatus` and the finish reasons of vllm-integration/request.py.
use edmm.Prelude.{ℕ, Option, none, some, Bool, ltb}

pub data RequestStatus : Type 0 where
  waiting waiting_for_structured_output_grammar waiting_for_remote_kvs : RequestStatus
  waiting_for_streaming_req waiting_for_tool_call running preempted : RequestStatus
  finished_stopped finished_length_capped finished_aborted : RequestStatus
  finished_ignored finished_error finished_repetition : RequestStatus

-- The values that `enum.auto()` gives, in the order of the class.
unfoldable pub value : RequestStatus → ℕ
value RequestStatus.waiting = 1
value RequestStatus.waiting_for_structured_output_grammar = 2
value RequestStatus.waiting_for_remote_kvs = 3
value RequestStatus.waiting_for_streaming_req = 4
value RequestStatus.waiting_for_tool_call = 5
value RequestStatus.running = 6
value RequestStatus.preempted = 7
value RequestStatus.finished_stopped = 8
value RequestStatus.finished_length_capped = 9
value RequestStatus.finished_aborted = 10
value RequestStatus.finished_ignored = 11
value RequestStatus.finished_error = 12
value RequestStatus.finished_repetition = 13

-- `RequestStatus.is_finished`
unfoldable pub is_finished : RequestStatus → Bool
unfolding value
is_finished status = ltb (value RequestStatus.preempted) (value status)

pub data FinishReason : Type 0 where
  stop length abort error repetition : FinishReason

-- `_FINISHED_REASON_MAP.get`
unfoldable pub get_finished_reason : RequestStatus → Option FinishReason
get_finished_reason RequestStatus.finished_stopped = some FinishReason.stop
get_finished_reason RequestStatus.finished_length_capped = some FinishReason.length
get_finished_reason RequestStatus.finished_aborted = some FinishReason.abort
get_finished_reason RequestStatus.finished_ignored = some FinishReason.length
get_finished_reason RequestStatus.finished_error = some FinishReason.error
get_finished_reason RequestStatus.waiting_for_streaming_req = some FinishReason.stop
get_finished_reason RequestStatus.finished_repetition = some FinishReason.repetition
get_finished_reason status = none
