-- ===== src/Scheduler/Finish.antt =====
-- The end of a request, of vllm-integration/vllm_v1_core_sched/scheduler.py: `finish_requests` and
-- what it frees.
pub mod Freed
pub mod Ended
pub mod Each
pub mod Valid
pub mod Counts
pub mod Finished
use edmm.Prelude.{
  ℕ, String, ℤ, List, [], ◌∷◌, ◌||◌, Option, none, some, Bool, true, false, if◌then◌else◌, ltb,
  ◌==◌, not, String_discrete, ℕ_discrete, length,
}
use edmm.Prelude.Dict.{Dict, get, put, erase, contains, keys}
use edmm.Prelude.Effect.{Outcome, ok, raised, raise, pure, ◌>>=◌, ◌>>◌}
use edmm.Prelude.Sets.{member, insert, discard}
use edmm.Request.{Request, or_else}
use edmm.Request.Status.{RequestStatus, is_finished}
use edmm.Scheduler.State.{
  Setup, Scheduler, Ref, Action, Call, Error, assertion_error, key_error, index_error, invoke,
  set_status, decrement,
}
use edmm.Scheduler.Waiting.{same_status, drop_finished_recving, drop_failed_recving}

-- `str | Iterable[str] | None`
pub data RequestIds : Type 0 where
  one : String → RequestIds
  several : List String → RequestIds
  all : RequestIds

module _ (u : Setup) where
  -- `del self.requests[...]`
  unfoldable pub drop_request : String → Scheduler u → Scheduler u
  drop_request id s = record s { requests = erase String_discrete id s.requests }

  free_registered : String → Action u Unit
  free_registered id s =
      if contains String_discrete id s.requests
      then (ok tt, drop_request id s)
      else (raised key_error, s)

  -- `_free_blocks`
  unfoldable pub free_blocks : Ref → Action u Unit
  unfolding free_registered
  free_blocks r s =
      if is_finished (s.store r).status
      then free_registered (s.store r).request_id (invoke u (Call.kv_free (s.store r)) s).1
      else (raised assertion_error, s)

  abbrev returned : (Bool × Option ℕ) × Scheduler u → Outcome Error (Bool × Option ℕ) × Scheduler u
  returned (reply, t) = (ok reply, t)

  -- `block_ids[0]`
  first_group : List (List ℕ) → Ref → Action u (Bool × Option ℕ)
  first_group [] r s = (raised index_error, s)
  first_group (b ∷ bs) r s = returned (invoke u (Call.request_finished (s.store r) b) s)

  notify_connector : List (List ℕ) → Ref → Action u (Bool × Option ℕ)
  unfolding first_group
  notify_connector block_ids r s =
      if u.supports_hma
      then returned (invoke u (Call.request_finished_all_groups (s.store r) block_ids) s)
      else if u.num_kv_cache_groups == 1
      then first_group block_ids r s
      else (raised assertion_error, s)

  -- `_connector_finished`
  unfoldable pub connector_finished : Ref → Action u (Bool × Option ℕ)
  unfolding notify_connector
  connector_finished r s =
      let q = s.store r in
      let s1 = (invoke u (Call.remove_skipped_blocks q.request_id q.num_computed_tokens) s).1 in
      let (block_ids, s2) = invoke u (Call.get_block_ids q.request_id) s1 in
      if u.has_connector then notify_connector block_ids r s2 else (ok (false, none), s)

  -- `self.finished_req_ids_dict[client_index].add(request_id)`, of a `defaultdict(set)`.
  abbrev pub add_finished :
      ℕ → String → Option (Dict ℕ (List String)) → Option (Dict ℕ (List String))
  add_finished client id none = none
  add_finished client id (some d) =
      some
        (put ℕ_discrete client (insert String_discrete id (or_else (get ℕ_discrete client d) [])) d)

  unfoldable pub note_finished : Ref → Scheduler u → Scheduler u
  note_finished r s = record s {
    finished_req_ids = insert String_discrete (s.store r).request_id s.finished_req_ids;
    finished_req_ids_dict =
        add_finished (s.store r).client_index (s.store r).request_id s.finished_req_ids_dict;
  }

  -- The rest of `_free_request`, from the second statement on.
  free_after : Ref → Bool → Bool × Option ℕ → Action u (Option ℕ)
  unfolding free_blocks
  free_after r delay_free_blocks (connector_delay, params) s =
      let s1 = (invoke u (Call.encoder_free (s.store r)) s).1 in
      let s2 = note_finished r s1 in
      if delay_free_blocks || connector_delay
      then (ok params, s2)
      else (do free_blocks r; pure params) s2

  -- `_free_request`
  unfoldable pub free_request : Ref → Bool → Action u (Option ℕ)
  unfolding connector_finished free_after
  free_request r delay_free_blocks s =
      if is_finished (s.store r).status
      then (do reply ← connector_finished r; free_after r delay_free_blocks reply) s
      else (raised assertion_error, s)

  add_valid : Option Ref → Scheduler u → List Ref → List Ref
  add_valid none s rest = rest
  add_valid (some r) s rest = if is_finished (s.store r).status then rest else r ∷ rest

  -- The requests of the first pass: those that are known and not finished.
  unfoldable pub valid_requests : List String → Scheduler u → List Ref
  unfolding add_valid
  valid_requests [] s = []
  valid_requests (id ∷ ids) s =
      add_valid (get String_discrete id s.requests) s (valid_requests ids s)

  -- `running_requests_to_remove` and `waiting_requests_to_remove`
  unfoldable pub running_of : List Ref → Scheduler u → List Ref
  running_of [] s = []
  running_of (r ∷ rs) s =
      let rest = running_of rs s in
      if same_status (s.store r).status RequestStatus.running then r ∷ rest else rest

  unfoldable pub waiting_of : List Ref → Scheduler u → List Ref
  waiting_of [] s = []
  waiting_of (r ∷ rs) s =
      let rest = waiting_of rs s in
      if same_status (s.store r).status RequestStatus.running then rest else r ∷ rest

  -- One less for each that waits for the next part of its stream.
  uncount : List Ref → Scheduler u → ℤ → ℤ
  uncount [] s n = n
  uncount (r ∷ rs) s n = uncount rs s (
      if same_status (s.store r).status RequestStatus.waiting_for_streaming_req
      then decrement n
      else n)

  -- `if requests:` before a removal.
  abbrev pub some_of : {A : Type 0} → List Ref → A → A → A
  some_of [] x y = y
  some_of (r ∷ rs) x y = x

  -- The removal of the requests from all queues at once.
  unfoldable pub remove_from_queues : List Ref → Scheduler u → Scheduler u
  unfolding uncount
  remove_from_queues rs s =
      let waiting = waiting_of rs s in
      let running = running_of rs s in
      record s {
        running = some_of running (u.remove_all s.running running) s.running;
        waiting = some_of waiting (u.queue_remove waiting s.waiting) s.waiting;
        skipped_waiting =
            some_of waiting (u.queue_remove waiting s.skipped_waiting) s.skipped_waiting;
        num_waiting_for_streaming_input = uncount rs s s.num_waiting_for_streaming_input;
      }

  -- One request of the second pass.
  unfoldable pub finish_one : RequestStatus → Ref → Action u (Option ℕ)
  unfolding free_request
  finish_one finished_status r s =
      let id = (s.store r).request_id in
      let receiving = same_status (s.store r).status RequestStatus.waiting_for_remote_kvs in
      let known = member String_discrete id s.finished_recving_kv_req_ids in
      if receiving
      then free_request r (not known)
          (set_status u r finished_status (drop_failed_recving u id (drop_finished_recving u id s)))
      else free_request r false (set_status u r finished_status s)

  unfoldable pub finish_each : RequestStatus → List Ref → Action u Unit
  unfolding finish_one
  finish_each finished_status [] s = (ok tt, s)
  finish_each finished_status (r ∷ rs) s =
      (do finish_one finished_status r; finish_each finished_status rs) s

  abbrev pub ids_of : RequestIds → Scheduler u → List String
  ids_of (RequestIds.one id) s = id ∷ []
  ids_of (RequestIds.several ids) s = u.iterate_set ids
  ids_of RequestIds.all s = keys s.requests

  abbrev pub clients : List Ref → Scheduler u → List (String × ℕ)
  clients [] s = []
  clients (r ∷ rs) s = ((s.store r).request_id, (s.store r).client_index) ∷ clients rs s

  -- `finish_requests`
  unfoldable pub finish_requests : RequestIds → RequestStatus → Action u (List (String × ℕ))
  unfolding finish_each
  finish_requests request_ids finished_status s =
      let rs = valid_requests (ids_of request_ids s) s in
      if is_finished finished_status
      then (do finish_each finished_status rs; λ t. (ok (clients rs t), t))
          (remove_from_queues rs s)
      else (raised assertion_error, s)
