-- ===== src/Scheduler/Schedule.antt =====
-- `schedule`: what a step of the scheduler collects, and the requests that it preempts.
pub mod Running
pub mod Room
pub mod Waiting
pub mod Admission
pub mod Method
use edmm.Prelude.{
  ℕ, ◌+◌, ◌-◌, String, List, [], ◌∷◌, ◌++◌, Option, none, some, Bool, true, false, if◌then◌else◌,
  ◌&&◌, not, ltb, ◌==◌, get_elem?, String_discrete,
}
use Prim.Native.Nat.{Ordering}
use edmm.Prelude.Dict.{Dict, get, erase}
use edmm.Prelude.Effect.{Outcome, ok, raised, ◌>>=◌}
use edmm.Prelude.Partial.{◌>>=◌ as ◌then◌, or_raise}
use edmm.Request.{Request, MultiModalFeature, compare_ℤ}
use edmm.Scheduler.State.{
  Setup, Scheduler, Ref, Blocks, Store, Policy, Action, Call, Error, assertion_error, key_error,
  index_error, value_error, out_of_fuel, invoke,
}
use edmm.Scheduler.Preempt.{preempt_request, set_running}

-- The variables of the method. The step has no budget left when `token_budget` is 0.
pub record Progress : Type 0 where
  pub scheduled_new_reqs : List Ref
  pub scheduled_resumed_reqs : List Ref
  pub scheduled_running_reqs : List Ref
  pub preempted_reqs : List Ref
  pub req_to_new_blocks : Dict String Blocks
  pub num_scheduled_tokens : Dict String ℕ
  pub token_budget : ℕ
  pub scheduled_encoder_inputs : Dict String (List ℕ)
  pub encoder_compute_budget : ℕ
  pub scheduled_spec_decode_tokens : Dict String (List ℕ)
  pub req_index : ℕ

-- `xs.remove(x)` for an `x` that is there, `x in xs`, and `xs.pop()` with what it leaves.
abbrev pub remove_first : Ref → List Ref → List Ref
remove_first x [] = []
remove_first x (y ∷ ys) = let rest = remove_first x ys in if y == x then ys else y ∷ rest

abbrev pub is_in : Ref → List Ref → Bool
is_in x [] = false
is_in x (y ∷ ys) = if y == x then true else is_in x ys

abbrev pub last : List Ref → Option Ref
last [] = none
last (x ∷ []) = some x
last (x ∷ y ∷ ys) = last (y ∷ ys)

abbrev pub without_last : List Ref → List Ref
without_last [] = []
without_last (x ∷ []) = []
without_last (x ∷ y ∷ ys) = x ∷ without_last (y ∷ ys)

-- `sum(get_num_encoder_embeds(i) for i in inputs)`
unfoldable pub sum_embeds : List MultiModalFeature → List ℕ → Outcome Error ℕ
sum_embeds features [] = ok 0
sum_embeds features (i ∷ is) =
    or_raise (get_elem? features i) assertion_error
    then (λ m. sum_embeds features is then (λ n. ok (m.num_embeds + n)))

-- The inputs of a preempted request, `None` and `[]` alike.
abbrev pub inputs_of : Option (List ℕ) → List ℕ
inputs_of none = []
inputs_of (some is) = is

module _ (u : Setup) where
  -- `(a.priority, a.arrival_time) > (b.priority, b.arrival_time)`
  unfoldable pub is_after : Request u.floats → Request u.floats → Bool
  is_after a b = elim (compare_ℤ a.priority b.priority) [
    | Ordering.gt ↦ true
    | Ordering.lt ↦ false
    | Ordering.eq ↦
        not (u.floats.eq a.arrival_time b.arrival_time) && u.floats.lt b.arrival_time a.arrival_time
  ]

  -- `max(...)` over the requests after the best one so far.
  abbrev pub max_from : Store u.floats → Ref → List Ref → Ref
  max_from store best [] = best
  max_from store best (r ∷ rs) =
      max_from store (if is_after (store r) (store best) then r else best) rs

  abbrev pub max_request : Store u.floats → List Ref → Option Ref
  max_request store [] = none
  max_request store (r ∷ rs) = some (max_from store r rs)

  -- The variables without a request that had `n` tokens, and inputs with `embeds` embeddings.
  unfoldable pub unscheduled : Ref → String → ℕ → ℕ → Progress → Progress
  unfolding erase
  unscheduled r id n embeds p = record p {
    scheduled_running_reqs = remove_first r p.scheduled_running_reqs;
    token_budget = p.token_budget + n;
    num_scheduled_tokens = erase String_discrete id p.num_scheduled_tokens;
    req_to_new_blocks = erase String_discrete id p.req_to_new_blocks;
    scheduled_spec_decode_tokens = erase String_discrete id p.scheduled_spec_decode_tokens;
    scheduled_encoder_inputs = erase String_discrete id p.scheduled_encoder_inputs;
    encoder_compute_budget = p.encoder_compute_budget + embeds;
    req_index = p.req_index - 1;
  }

  -- A preempted request that this step had scheduled gives its budgets back.
  unfoldable pub unschedule : Ref → Request u.floats → Progress → Outcome Error Progress
  unfolding get sum_embeds unscheduled
  unschedule r q p =
      or_raise (get String_discrete q.request_id p.num_scheduled_tokens) key_error then (λ n.
        or_raise (get String_discrete q.request_id p.req_to_new_blocks) key_error then (λ blocks.
          sum_embeds q.mm_features
            (inputs_of (get String_discrete q.request_id p.scheduled_encoder_inputs))
          then (λ embeds. ok (unscheduled r q.request_id n embeds p))))

  -- The request to preempt, taken out of the running ones.
  take_by_priority : Option Ref → Progress → Action u (Ref × Progress)
  unfolding unschedule
  take_by_priority none p s = (raised value_error, s)
  take_by_priority (some r) p s = (
    (if is_in r p.scheduled_running_reqs then unschedule r (s.store r) p else ok p)
        then (λ p'. ok (r, p')),
    set_running u (remove_first r s.running) s,
  )

  take_last : Option Ref → Progress → Action u (Ref × Progress)
  take_last none p s = (raised index_error, s)
  take_last (some r) p s = (ok (r, p), set_running u (without_last s.running) s)

  unfoldable pub take_lowest : Policy → Progress → Action u (Ref × Progress)
  unfolding take_by_priority take_last
  take_lowest Policy.priority p s = take_by_priority (max_request s.store s.running) p s
  take_lowest Policy.fcfs p s = take_last (last s.running) p s

  -- The lowest request is preempted.
  unfoldable pub preempt_lowest : Progress → Action u (Ref × Progress)
  unfolding take_lowest preempt_request
  preempt_lowest p = take_lowest u.policy p >>= (λ (r, p').
      preempt_request u r
      >>= (λ _ t. (ok (r, record p' { preempted_reqs = p'.preempted_reqs ++ (r ∷ []) }), t)))

  -- `while True`: slots are asked for, and requests preempted until there are some, or until the
  -- request itself is preempted.
  unfoldable pub make_room : ℕ → Ref → ℕ → Progress → Action u (Option Blocks × Progress)
  unfolding preempt_lowest invoke
  make_room ℕ.zero r n p s = (raised out_of_fuel, s)
  make_room (ℕ.suc fuel) r n p s =
      let (blocks, t) = invoke u (Call.allocate_slots (s.store r) n u.num_lookahead_tokens) s in
      elim blocks [
        | some b ↦ (ok (some b, p), t)
        | none ↦
            (preempt_lowest p >>= (λ (x, p') v. elim (x == r) [
              | true ↦ (ok (none, p'), v)
              | false ↦ make_room fuel r n p' v
            ]))
              t
      ]
