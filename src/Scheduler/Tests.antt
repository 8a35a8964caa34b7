-- ===== src/Scheduler/Tests.antt =====
-- Tests of the scheduler, and its theorems at concrete inputs: queues are lists, and there is no
-- connector.
use edmm.Prelude.{
  ℕ, pos, String, ◌+◌, ◌≡◌, ◌-◌, ◌≢◌, refl, sym, subst, if_pos, if_neg, ◌↔◌, List, [], ◌∷◌, ◌++◌,
  none, some, true, false, if◌then◌else◌, ◌==◌, arith, length, String_discrete, ℕ_discrete, ◌<◌,
  leb,
}
use edmm.Prelude.Dict.{get}
use edmm.Prelude.Effect.{ok}
use edmm.Prelude.Sets.{insert, member, count}
use edmm.Request.{StreamingUpdate}
use edmm.Request.Tests.{sample_request, no_hashes}
use edmm.Request.Tokens.{IsConsistent}
use edmm.Request.Status.{RequestStatus, is_finished, value}
use edmm.Hook.{Hook, get_active_pause, is_tool_response_ready}
use edmm.Hook.Tests.{hundredths}
use edmm.Scheduler.State.{Setup, Scheduler, Ref, Policy, PauseState, Call, Reply}
use edmm.Scheduler.State.Laws.{Laws, NotIn, NoRepeat}
use edmm.Scheduler.Split.Aligned
use edmm.Scheduler.Waiting.{is_blocked_waiting_status, try_promote_blocked_waiting_request}
use edmm.Scheduler.Waiting.Promotion
use edmm.Scheduler.Waiting.Promotion.{Promoted}
use edmm.Scheduler.Waiting.ToolCall
use edmm.Scheduler.Encoder.{embeds_at}
use edmm.Scheduler.Finish.{RequestIds, finish_requests, valid_requests}
use edmm.Scheduler.Finish.Valid.{IsValid}
use edmm.Scheduler.Finish.Finished
use edmm.Scheduler.Finish.Finished.{Gone}
use edmm.Scheduler.Session.{update_request_as_session}
use edmm.Scheduler.Session.Tokens
use edmm.Scheduler.Transfers.{receive_one}
use edmm.Scheduler.Transfers.Promoted as Transferred
use edmm.Scheduler.Invalid.{Scan, scan}
use edmm.Scheduler.Invalid.Prefix
use edmm.Scheduler.Invalid.Handle.{handle_invalid_blocks}
use edmm.Scheduler.Invalid.Handle.Settled
use edmm.Scheduler.Step.{append_until_stop}
use edmm.Scheduler.Step.Output
use edmm.Scheduler.Preempt.{reset_prefix_cache}
use edmm.Scheduler.Preempt.Reset
use edmm.Scheduler.Preempt.Reset.{Done}

abbrev remove : List Ref → List Ref → List Ref
remove rs [] = []
remove rs (x ∷ xs) = let rest = remove rs xs in if count x rs == 0 then x ∷ rest else rest

abbrev unique : List String → List String
unique [] = []
unique (x ∷ xs) = insert String_discrete x (unique xs)

abbrev first : List Ref → Ref
first [] = 0
first (r ∷ rs) = r

abbrev rest : List Ref → List Ref
rest [] = []
rest (r ∷ rs) = rs

abbrev answer : (call : Call hundredths) → ℕ → Reply call × ℕ
answer (Call.kv_free r) n = (tt, n)
answer (Call.encoder_free r) n = (tt, n)
answer (Call.on_new_request r) n = (tt, n)
answer (Call.cache_blocks r k) n = (tt, n)
answer (Call.remove_skipped_blocks i k) n = (tt, n)
answer (Call.get_block_ids i) n = ((1 ∷ []) ∷ [], n)
answer (Call.request_finished r bs) n = ((false, none), n)
answer (Call.request_finished_all_groups r bs) n = ((false, none), n)
answer Call.reset_prefix_cache n = (true, n)
answer Call.reset_cache n = (true, n)
answer Call.update_connector_output n = (tt, n)
answer (Call.evict_blocks bs) n = (tt, n)
answer (Call.get_cached_input_ids r) n = (0 ∷ 1 ∷ [], n)
answer (Call.free_encoder_input r i) n = (tt, n)
answer (Call.check_and_update_cache r i) n = (false, n)
answer (Call.can_allocate r i budget k) n = (leb (embeds_at r.mm_features i) budget, n)
answer (Call.has_cache_item name) n = (false, n)
answer (Call.should_advance r) n = (false, n)
answer (Call.validate_tokens r ts) n = (ts, n)
answer (Call.accept_tokens r ts) n = (leb (length ts) 2, n)
answer Call.new_step_starts n = (tt, n)
answer (Call.allocate_slots r k lookahead) n = (if leb k n then some 7 else none, n - k)
answer (Call.allocate_waiting r slots) n = (some 7, n)
answer (Call.get_blocks i) n = (7, n)
answer (Call.get_computed_blocks r) n = ((3, 1), n)
answer (Call.get_num_new_matched_tokens r k) n = ((some 0, false), n)
answer (Call.update_state_after_alloc r blocks k) n = (tt, n)
answer (Call.get_num_common_prefix_blocks i) n = (0 ∷ [], n)
answer Call.take_new_block_ids n = ([], n)
answer Call.get_freed_mm_hashes n = ([], n)
answer Call.build_connector_meta n = (0, n)
answer Call.build_ec_connector_meta n = (0, n)
answer (Call.encoder_allocate r i) n = (tt, n)
answer (Call.ec_update_state_after_alloc r i) n = (tt, n)
answer (Call.grammar_bitmask store requests ids spec) n = ([], n)

abbrev pub lists : Setup
lists = record {
  floats = hundredths;
  block_hasher = no_hashes;
  Services = ℕ;
  answer = answer;
  Queue = List Ref;
  elements = λ q. q;
  queue_add = λ st r q. q ++ (r ∷ []);
  queue_prepend = λ st r q. r ∷ q;
  queue_remove = remove;
  peek = first;
  queue_pop = λ st q. rest q;
  queue_prepend_all = λ st new q. new ++ q;
  empty_queue = [];
  remove_all = λ xs rs. remove rs xs;
  check_stop = λ r n. (r, false);
  iterate_set = unique;
  policy = Policy.fcfs;
  log_stats = true;
  use_eagle = false;
  block_size = 2;
  max_model_len = 100;
  has_connector = false;
  supports_hma = false;
  num_kv_cache_groups = 1;
  edmm_enabled = true;
  use_pp = true;
  async_scheduling = false;
  recompute_kv_load_failures = true;
  is_encoder_decoder = false;
  disable_chunked_mm_input = false;
  has_ec_connector = false;
  max_num_scheduled_tokens = 8;
  max_num_running_reqs = 2;
  max_num_encoder_input_tokens = 4;
  long_prefill_token_threshold = 0;
  num_lookahead_tokens = 0;
  enable_chunked_prefill = true;
  scheduler_reserve_full_isl = false;
  max_loras = none;
  empty_blocks = 0;
  block_ids = λ blocks. (blocks ∷ []) ∷ [];
  block_ids_or_none = λ blocks. some ((blocks ∷ []) ∷ []);
  use_v2_model_runner = false;
  needs_kv_cache_zeroing = false;
  need_mamba_block_aligned_split = false;
  embeds_in_range = λ feature start end. (start, end);
}

count-remove :
    (rs q : List Ref) (r : Ref) → count r (remove rs q) ≡ (if count r rs == 0 then count r q else 0)
unfolding count
count-remove rs [] r = ground arith
count-remove rs (x ∷ xs) r = ground (arith, count-remove rs xs r)

count-snoc : (q : List Ref) (r x : Ref) → count x (q ++ (r ∷ [])) ≡ count x (r ∷ q)
unfolding count
count-snoc [] r x = refl
count-snoc (y ∷ q) r x = ground (arith, count-snoc q r x)

NotIn-insert :
    (y x : String) (s : List String) → y ≢ x → NotIn y s → NotIn y (insert String_discrete x s)
unfolding insert
NotIn-insert y x [] ne h = (ne, tt)
NotIn-insert y x (z ∷ s) ne h = elim (String_discrete z x) [
  | yes e ↦ subst (NotIn y) (sym (if_pos (String_discrete z x) e _ _)) h
  | no f ↦
      subst (NotIn y) (sym (if_neg (String_discrete z x) f _ _)) (h.0, NotIn-insert y x s ne h.1)
]

insert-NoRepeat :
    (x : String) (s : List String) → NoRepeat s → NoRepeat (insert String_discrete x s)
unfolding insert
insert-NoRepeat x [] h = (tt, tt)
insert-NoRepeat x (z ∷ s) h = elim (String_discrete z x) [
  | yes e ↦ subst NoRepeat (sym (if_pos (String_discrete z x) e _ _)) h
  | no f ↦
      subst NoRepeat (sym (if_neg (String_discrete z x) f _ _))
        (NotIn-insert z x s f h.0, insert-NoRepeat x s h.1)
]

unique-NoRepeat : (xs : List String) → NoRepeat (unique xs)
unique-NoRepeat [] = tt
unique-NoRepeat (x ∷ xs) = insert-NoRepeat x (unique xs) (unique-NoRepeat xs)

length-rest : (q : List Ref) → 0 < length q → length (rest q) + 1 ≡ length q
length-rest [] h = elim h [ ]
length-rest (r ∷ q) h = omega arith

pub lists-Laws : Laws lists
lists-Laws = record {
  count-queue_remove = count-remove;
  count-remove_all = λ xs rs r. count-remove rs xs r;
  iterate_set-NoRepeat = unique-NoRepeat;
  count-queue_add = λ st r q x. count-snoc q r x;
  count-queue_prepend = λ st r q x. refl;
  length-queue_pop = λ st q h. length-rest q h;
}

-- One request runs.
abbrev pub one_runs : Scheduler lists
one_runs = record {
  store = λ r. sample_request;
  requests = ("r", 1) ∷ [];
  waiting = [];
  skipped_waiting = [];
  running = 1 ∷ [];
  finished_req_ids = [];
  finished_req_ids_dict = none;
  prev_step_scheduled_req_ids = "r" ∷ [];
  num_waiting_for_streaming_input = pos 0;
  finished_recving_kv_req_ids = [];
  failed_recving_kv_req_ids = [];
  pause_state = PauseState.unpaused;
  edmm_hook = none;
  services = 0;
  calls = [];
}

-- The request waits for a tool, whose response has come.
abbrev answered : Hook hundredths
answered = record {
  active_pauses = [];
  tool_responses = ("r", true) ∷ [];
  cpu_load_cache = 0;
  cpu_load_cache_time = 0;
}

abbrev one_waits : Scheduler lists
one_waits = record one_runs {
  store = λ r. record sample_request { status = RequestStatus.waiting_for_tool_call };
  running = [];
  skipped_waiting = 1 ∷ [];
  edmm_hook = some answered;
}

promote-Promoted_example :
    Promoted lists 1 one_waits (try_promote_blocked_waiting_request lists 1 one_waits)
unfolding is_blocked_waiting_status
promote-Promoted_example = Promotion.promote-Promoted lists 1 one_waits refl (λ e. cc e) (λ e. cc e)

promote-ready_example : ((try_promote_blocked_waiting_request lists 1 one_waits).0 ≡ ok true) ↔ (
    (true ≡ true)
    × ((h : Hook hundredths) × (some answered ≡ some h)
        × (is_tool_response_ready hundredths h "r" ≡ true)))
promote-ready_example = ToolCall.promote-ready lists 1 one_waits refl

promote-forgets_example :
    let t = (try_promote_blocked_waiting_request lists 1 one_waits).1 in
    (h' : Hook hundredths) × (t.edmm_hook ≡ some h')
    × ((t.store 1).status ≡ RequestStatus.waiting)
    × (get_active_pause hundredths h' "r" ≡ none)
    × (is_tool_response_ready hundredths h' "r" ≡ false)
unfolding is_tool_response_ready get String_discrete
promote-forgets_example =
    ToolCall.promote-forgets lists 1 one_waits answered refl refl
      ((ToolCall.promote-ready lists 1 one_waits refl).1 (refl, (answered, refl, refl)))

one_runs-IsValid : IsValid lists one_runs
unfolding get count value
one_runs-IsValid = record {
  distinct = (refl, tt);
  keyed = λ id r h. ground arith;
  running_waits = λ r e. (refl, refl);
  waiting_runs = λ r e. cc;
}

finish-Finished_example :
    (pairs : List (String × ℕ)) × (t : Scheduler lists) × (finish_requests lists
        (RequestIds.one "r")
        RequestStatus.finished_aborted
        one_runs
      ≡ (ok pairs, t))
    × ((id : String) (r : Ref)
        → member String_discrete id ("r" ∷ []) ≡ true
        → get String_discrete id one_runs.requests ≡ some r
        → is_finished (one_runs.store r).status ≡ false
        → ((t.store r).status ≡ RequestStatus.finished_aborted)
          × (member String_discrete id t.finished_req_ids ≡ true)
          × Gone lists r t)
    × ((q : Ref)
        → count q (valid_requests lists ("r" ∷ []) one_runs) ≡ 0
        → t.store q ≡ one_runs.store q)
    × (t.edmm_hook ≡ none)
unfolding is_finished
finish-Finished_example =
    Finished.finish-Finished lists lists-Laws (RequestIds.one "r") RequestStatus.finished_aborted
      one_runs one_runs-IsValid (λ e. cc e) refl

abbrev more : StreamingUpdate hundredths
more = record {
  mm_features = [];
  prompt_token_ids = some (7 ∷ 8 ∷ []);
  max_tokens = 16;
  arrival_time = 200;
  sampling_params = none;
}

session-IsConsistent_example :
    (t : Scheduler lists) × (update_request_as_session lists 1 more one_runs ≡ (ok tt, t))
    × IsConsistent hundredths no_hashes (t.store 1)
    × ((t.store 1).all_token_ids ≡ (1 ∷ 2 ∷ 3 ∷ []) ++ (7 ∷ 8 ∷ []))
    × ((t.store 1).prompt_token_ids ≡ some (t.store 1).all_token_ids)
    × ((t.store 1).output_token_ids ≡ [])
session-IsConsistent_example =
    Tokens.session-IsConsistent lists 1 more (1 ∷ 2 ∷ 3 ∷ []) one_runs refl refl refl (omega arith)

reset-Done_example : Done lists true one_runs (reset_prefix_cache lists true true one_runs)
unfolding count value
reset-Done_example = Reset.reset-Done lists lists-Laws true one_runs (refl, refl, tt)

-- The same with a connector, and a request that waits for its transfer.
abbrev connected : Setup
connected = record lists { has_connector = true; supports_hma = true }

abbrev one_receives : Scheduler connected
one_receives = record {
  store = λ r. record sample_request { status = RequestStatus.waiting_for_remote_kvs };
  requests = ("r", 1) ∷ [];
  waiting = [];
  skipped_waiting = 1 ∷ [];
  running = [];
  finished_req_ids = [];
  finished_req_ids_dict = none;
  prev_step_scheduled_req_ids = [];
  num_waiting_for_streaming_input = pos 0;
  finished_recving_kv_req_ids = [];
  failed_recving_kv_req_ids = [];
  pause_state = PauseState.unpaused;
  edmm_hook = none;
  services = 0;
  calls = [];
}

receive-promote_example :
    (t : Scheduler connected) × (receive_one connected "r" one_receives ≡ (ok tt, t))
    × (t.store ≡ one_receives.store)
    × ((try_promote_blocked_waiting_request connected 1 t).0 ≡ ok true)
unfolding get String_discrete
receive-promote_example =
    Transferred.receive-promote connected "r" 1 one_receives refl refl refl refl

abbrev start_scan : Scan
start_scan = record {
  marked_invalid_block_ids = [];
  total_affected_tokens = 0;
  blocks_to_evict = [];
  is_affected = false;
  marked_invalid_block = false;
  num_computed_tokens = 6;
}

scan-SplitAt_example :
    Prefix.SplitAt
      (12 ∷ [])
      2
      true
      6
      []
      0
      (11 ∷ 12 ∷ 13 ∷ [])
      (scan (12 ∷ []) 2 true 6 3 0 (11 ∷ 12 ∷ 13 ∷ []) start_scan).num_computed_tokens
unfolding scan member ℕ_discrete
scan-SplitAt_example =
    Prefix.scan-SplitAt (12 ∷ []) 2 true 6 3 0 (11 ∷ 12 ∷ 13 ∷ []) start_scan refl refl

-- The second of three blocks is lost: one block's tokens stay, and two blocks go.
scan_second :
    let c = scan (12 ∷ []) 2 true 6 3 0 (11 ∷ 12 ∷ 13 ∷ []) start_scan in
    (c.num_computed_tokens ≡ 2) × (c.total_affected_tokens ≡ 4) × (c.blocks_to_evict ≡ 12 ∷ 13 ∷ [])
unfolding scan member insert ℕ_discrete
scan_second = (refl, refl, refl)

keeps_tokens : Output.KeepsTokens lists
keeps_tokens = record {
  output = λ q n. refl;
  all = λ q n. refl;
  prompt_tokens = λ q n. refl;
  prompt = λ q n. refl;
}

append_until_stop-Taken_example :
    Output.Taken lists 1 (5 ∷ 6 ∷ []) one_runs (append_until_stop lists 1 (5 ∷ 6 ∷ []) one_runs)
append_until_stop-Taken_example =
    Output.append_until_stop-Taken lists keeps_tokens 1 (5 ∷ 6 ∷ []) one_runs

handle_invalid_blocks-Settled_example :
    Settled.HandledOr lists (1 ∷ []) [] one_runs (handle_invalid_blocks lists (1 ∷ []) [] one_runs)
handle_invalid_blocks-Settled_example =
    Settled.handle_invalid_blocks-Settled lists (1 ∷ []) [] one_runs
