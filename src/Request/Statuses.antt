-- ===== src/Request/Statuses.antt =====
-- What the statuses say.
use edmm.Prelude.{◌≡◌, ◌↔◌, ◌⊎◌, true, arith}
use edmm.Prelude.Dict.{is_some}
use edmm.Request.Status.{RequestStatus, is_finished, get_finished_reason}

-- A status has a finish reason exactly if it is finished or waits for the next part of a stream.
pub get_finished_reason-is_finished :
    (s : RequestStatus)
    → (is_some (get_finished_reason s) ≡ true)
      ↔ ((is_finished s ≡ true) ⊎ (s ≡ RequestStatus.waiting_for_streaming_req))
unfolding get_finished_reason is_finished
get_finished_reason-is_finished RequestStatus.waiting = ground arith
get_finished_reason-is_finished s = ground arith
