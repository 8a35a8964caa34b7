-- ===== src/Scheduler/Transfers.antt =====
-- The ends of transfers that the worker reports, `_update_from_kv_xfer_finished` of
-- vllm-integration/vllm_v1_core_sched/scheduler.py.
pub mod Promoted
use edmm.Prelude.{
  String, List, [], ◌∷◌, Option, none, some, Bool, true, false, if◌then◌else◌, String_discrete,
}
use edmm.Prelude.Dict.{get}
use edmm.Prelude.Effect.{ok, raised, ◌>>=◌, ◌>>◌}
use edmm.Prelude.Sets.{insert}
use edmm.Request.{or_else}
use edmm.Request.Status.{RequestStatus, is_finished}
use edmm.Scheduler.State.{Setup, Scheduler, Ref, Action, Call, Error, assertion_error, invoke}
use edmm.Scheduler.Waiting.{same_status}
use edmm.Scheduler.Finish.{free_blocks}

-- `KVConnectorOutput`: the requests whose transfers have ended.
pub record ConnectorOutput : Type 0 where
  pub finished_recving : Option (List String)
  pub finished_sending : Option (List String)

module _ (u : Setup) where
  unfoldable pub add_finished_recving : String → Scheduler u → Scheduler u
  add_finished_recving id s = record s {
    finished_recving_kv_req_ids = insert String_discrete id s.finished_recving_kv_req_ids;
  }

  receive_known : Option Ref → String → Action u Unit
  receive_known none id s = (raised assertion_error, s)
  receive_known (some r) id s =
      if same_status (s.store r).status RequestStatus.waiting_for_remote_kvs
      then (ok tt, add_finished_recving id s)
      else if is_finished (s.store r).status
      then free_blocks u r s
      else (raised assertion_error, s)

  -- One round of the first loop.
  unfoldable pub receive_one : String → Action u Unit
  unfolding receive_known
  receive_one id s = receive_known (get String_discrete id s.requests) id s

  unfoldable pub receive_each : List String → Action u Unit
  unfolding receive_one
  receive_each [] s = (ok tt, s)
  receive_each (id ∷ ids) s = (do receive_one id; receive_each ids) s

  send_known : Option Ref → Action u Unit
  send_known none s = (raised assertion_error, s)
  send_known (some r) s = free_blocks u r s

  send_each : List String → Action u Unit
  unfolding send_known
  send_each [] s = (ok tt, s)
  send_each (id ∷ ids) s = (do send_known (get String_discrete id s.requests); send_each ids) s

  tell_connector : Scheduler u → Scheduler u
  tell_connector s = if u.has_connector then (invoke u Call.update_connector_output s).1 else s

  -- `_update_from_kv_xfer_finished`
  unfoldable pub update_from_kv_xfer_finished : ConnectorOutput → Action u Unit
  unfolding receive_each send_each tell_connector
  update_from_kv_xfer_finished output s =
      (do
        receive_each (or_else output.finished_recving [])
        send_each (or_else output.finished_sending []))
        (tell_connector s)
