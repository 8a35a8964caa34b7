-- ===== src/Hook/Events.antt =====
-- Sequences of calls of the hook, in any order: pauses and resumes by the scheduler, responses from
-- other threads, clean-ups, and handles that other code attaches to a pause.
use edmm.Prelude.{
  ℕ, String, ◌≡◌, ◌≢◌, refl, ap, ◌∙◌, List, [], ◌∷◌, ◌++◌, Option, none, some, Bool, true, arith,
  String_discrete,
}
use edmm.Prelude.Dict.{
  Dict, get, put, contains, is_some, get-put_ne, get-erase_ne, Each, put-Each, erase-Each, Distinct,
  put-Distinct, erase-Distinct, keys, none≢some,
}
use edmm.Floats.{Floats}
use edmm.Gpu.{Driver, World}
use edmm.Hook.{
  Hook, ToolCallState, Surroundings, SpeculationDecision, sample_cpu_load, on_tool_call_pause,
  submit_tool_response, is_tool_response_ready, get_active_pause, forget, on_tool_call_resume,
  cleanup_request, cleanup_requests, cleanup_all, decide, init,
}

pub data Event (f : Floats) : Type 0 where
  pause : String → Surroundings f → Event f
  submit : String → Event f
  resume : String → Event f
  cleanup : String → Event f
  clean_all : Event f
  -- Other code appends to `speculative_handles` of the state that `get_active_pause` gave it.
  attach : String → ℕ → Event f

module _ (f : Floats) where
  abbrev attach_to : Hook f → String → ℕ → Option ToolCallState → Hook f
  attach_to h id handle none = h
  attach_to h id handle (some state) = record h {
    active_pauses =
        put String_discrete id
          (record state { speculative_handles = state.speculative_handles ++ (handle ∷ []) })
          h.active_pauses;
  }

  -- The event has to do with another request.
  abbrev pub Avoids : String → Event f → Type 0
  Avoids id (pause j s) = j ≢ id
  Avoids id (submit j) = j ≢ id
  Avoids id (resume j) = j ≢ id
  Avoids id (cleanup j) = j ≢ id
  Avoids id clean_all = ⊥
  Avoids id (attach j handle) = j ≢ id

  abbrev pub AllAvoid : String → List (Event f) → Type 0
  AllAvoid id [] = Unit
  AllAvoid id (e ∷ es) = Avoids id e × AllAvoid id es

  -- What the hook knows of a request is the same in both.
  pub record Same (id : String) (h h' : Hook f) : Type 0 where
    pub pause : get_active_pause f h' id ≡ get_active_pause f h id
    pub response : is_tool_response_ready f h' id ≡ is_tool_response_ready f h id

  -- Each pause stands under its request's id, with a decision, and no id occurs twice.
  abbrev pub IsPause : String → ToolCallState → Type 0
  IsPause id state =
      (state.request_id ≡ id)
      × (decision : SpeculationDecision) × (state.speculation_decision ≡ some decision)

  pub record IsValid (h : Hook f) : Type 0 where
    pub pauses : Distinct String_discrete h.active_pauses
    pub responses : Distinct String_discrete h.tool_responses
    pub states : Each String_discrete IsPause h.active_pauses

  pub sample_pauses :
      (h : Hook f) (s : Surroundings f)
      → ((sample_cpu_load f h s).0.active_pauses ≡ h.active_pauses)
        × ((sample_cpu_load f h s).0.tool_responses ≡ h.tool_responses)
  unfolding sample_cpu_load
  sample_pauses h s = ground arith

  forget-Same : (id j : String) (h : Hook f) → j ≢ id → Same id h (forget f h j)
  unfolding get_active_pause is_tool_response_ready
  forget-Same id j h ne = record {
    pause = get-erase_ne String_discrete j id h.active_pauses ne;
    response = ap is_some (get-erase_ne String_discrete j id h.tool_responses ne);
  }

  attach_to-Same :
      (id j : String) (handle : ℕ) (h : Hook f) (o : Option ToolCallState)
      → j ≢ id
      → Same id h (attach_to h j handle o)
  unfolding get_active_pause is_tool_response_ready
  attach_to-Same id j handle h none ne = record { pause = refl; response = refl }
  attach_to-Same id j handle h (some state) ne = record {
    pause = get-put_ne String_discrete j id _ h.active_pauses ne;
    response = refl;
  }

  forget-IsValid : (h : Hook f) (id : String) → IsValid h → IsValid (forget f h id)
  forget-IsValid h id v = record {
    pauses = erase-Distinct String_discrete id h.active_pauses v.pauses;
    responses = erase-Distinct String_discrete id h.tool_responses v.responses;
    states = erase-Each String_discrete IsPause id h.active_pauses v.states;
  }

  attach_to-IsValid :
      (h : Hook f) (id : String) (handle : ℕ) (o : Option ToolCallState)
      → get String_discrete id h.active_pauses ≡ o
      → IsValid h
      → IsValid (attach_to h id handle o)
  attach_to-IsValid h id handle none e v = v
  attach_to-IsValid h id handle (some state) e v = record {
    pauses = put-Distinct String_discrete id _ h.active_pauses v.pauses;
    responses = v.responses;
    states = put-Each String_discrete IsPause id _ h.active_pauses (v.states id state e) v.states;
  }

  module _ (d : Driver) (importable : Bool) where
    pub step : Hook f × World d → Event f → Hook f × World d
    step (h, w) (pause id s) = ((on_tool_call_pause f h id s).0, w)
    step (h, w) (submit id) = (submit_tool_response f h id, w)
    step (h, w) (resume id) = ((on_tool_call_resume f h id).0, w)
    step (h, w) (cleanup id) = cleanup_request f d importable h id w
    step (h, w) clean_all = cleanup_all f d importable h w
    step (h, w) (attach id handle) =
        (attach_to h id handle (get String_discrete id h.active_pauses), w)

    pub run : Hook f × World d → List (Event f) → Hook f × World d
    run hw [] = hw
    run hw (e ∷ es) = run (step hw e) es

    -- An event of another request changes nothing of what the hook knows of this one.
    pub step-Same :
        (id : String) (hw : Hook f × World d) (e : Event f)
        → Avoids id e
        → Same id hw.0 (step hw e).0
    unfolding step get_active_pause is_tool_response_ready on_tool_call_pause submit_tool_response
        on_tool_call_resume cleanup_request
    step-Same id (h, w) (pause j s) ne = record {
      pause =
          get-put_ne String_discrete j id _ _ ne
          ∙ ap (λ (p : Dict String ToolCallState). get String_discrete id p) (sample_pauses h s).0;
      response = ap (λ (p : Dict String Bool). contains String_discrete id p) (sample_pauses h s).1;
    }
    step-Same id (h, w) (submit j) ne = record {
      pause = refl;
      response = ap is_some (get-put_ne String_discrete j id true h.tool_responses ne);
    }
    step-Same id (h, w) (resume j) ne = forget-Same id j h ne
    step-Same id (h, w) (cleanup j) ne = forget-Same id j h ne
    step-Same id (h, w) clean_all ne = absurd ne
    step-Same id (h, w) (attach j handle) ne = attach_to-Same id j handle h _ ne

    pub run-Same :
        (id : String) (hw : Hook f × World d) (es : List (Event f))
        → AllAvoid id es
        → Same id hw.0 (run hw es).0
    unfolding run
    run-Same id hw [] av = record { pause = refl; response = refl }
    run-Same id hw (e ∷ es) (av, avs) =
        let first = step-Same id hw e av in
        let rest = run-Same id (step hw e) es avs in
        record { pause = rest.pause ∙ first.pause; response = rest.response ∙ first.response }

    cleanup_requests-IsValid :
        (ids : List String) (h : Hook f) (w : World d)
        → IsValid h
        → IsValid (cleanup_requests f d importable ids h w).0
    unfolding cleanup_requests cleanup_request
    cleanup_requests-IsValid [] h w v = v
    cleanup_requests-IsValid (id ∷ ids) h w v =
        cleanup_requests-IsValid ids (forget f h id) _ (forget-IsValid h id v)

    -- Every event keeps the hook valid: one pause a request, each under its own id and with its
    -- decision.
    pub step-IsValid : (hw : Hook f × World d) (e : Event f) → IsValid hw.0 → IsValid (step hw e).0
    unfolding step on_tool_call_pause submit_tool_response on_tool_call_resume cleanup_request
        cleanup_all
    step-IsValid (h, w) (pause id s) v =
        let same = sample_pauses h s in
        record {
          pauses = put-Distinct String_discrete id _ _ (rw same.0 v.pauses);
          responses = rw same.1 v.responses;
          states =
              put-Each String_discrete IsPause id _ _
                (refl, decide f (sample_cpu_load f h s).1, refl) (rw same.0 v.states);
        }
    step-IsValid (h, w) (submit id) v = record {
      pauses = v.pauses;
      responses = put-Distinct String_discrete id true h.tool_responses v.responses;
      states = v.states;
    }
    step-IsValid (h, w) (resume id) v = forget-IsValid h id v
    step-IsValid (h, w) (cleanup id) v = forget-IsValid h id v
    step-IsValid (h, w) clean_all v = cleanup_requests-IsValid (keys h.active_pauses) h w v
    step-IsValid (h, w) (attach id handle) v = attach_to-IsValid h id handle _ refl v

    run-IsValid :
        (hw : Hook f × World d) (es : List (Event f)) → IsValid hw.0 → IsValid (run hw es).0
    unfolding run
    run-IsValid hw [] v = v
    run-IsValid hw (e ∷ es) v = run-IsValid (step hw e) es (step-IsValid hw e v)

    -- So it holds after any sequence of events on a new hook.
    pub run-init-IsValid : (w : World d) (es : List (Event f)) → IsValid (run (init f, w) es).0
    unfolding init get
    run-init-IsValid w es =
        run-IsValid (init f, w) es
          (record { pauses = tt; responses = tt; states = λ k v e. absurd (none≢some e) })
