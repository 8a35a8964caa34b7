-- ===== src/Hook/Lifecycle.antt =====
-- One request's pause, from the tool call to the resume, among the events of all others.
use edmm.Prelude.{String, ◌≡◌, ap, ◌∙◌, List, none, some, Bool, true, false, String_discrete}
use edmm.Prelude.Dict.{contains, is_some, get-put_self, get-erase_self}
use edmm.Floats.{Floats}
use edmm.Gpu.{Driver, World}
use edmm.Hook.{
  Hook, Surroundings, new_state, on_tool_call_pause, submit_tool_response, is_tool_response_ready,
  get_active_pause, on_tool_call_resume,
}
use edmm.Hook.Events.{Event, AllAvoid, run, run-Same, sample_pauses}

module _ (f : Floats) (d : Driver) (importable : Bool) where
  -- A request pauses; other requests pause, resume and are cleaned up, in any number and order;
  -- then its response arrives. Now it is ready, its resume returns the state that the pause stored,
  -- and afterwards neither the pause nor the response is left.
  pub pause-submit-resume :
      (h : Hook f) (w : World d) (id : String) (s : Surroundings f) (es : List (Event f))
      → AllAvoid f id es
      → let (h1, decision) = on_tool_call_pause f h id s in
        let h2 = (run f d importable (h1, w) es).0 in
        let h3 = submit_tool_response f h2 id in
        let (h4, state) = on_tool_call_resume f h3 id in
        (is_tool_response_ready f h3 id ≡ true)
        × (state ≡ some (new_state f id s.perf_counter_ns decision))
        × (get_active_pause f h4 id ≡ none)
        × (is_tool_response_ready f h4 id ≡ false)
  unfolding is_tool_response_ready on_tool_call_resume submit_tool_response get_active_pause
      on_tool_call_pause
  pause-submit-resume h w id s es av =
      let h1 = (on_tool_call_pause f h id s).0 in
      let h2 = (run f d importable (h1, w) es).0 in
      (
        ap is_some (get-put_self String_discrete id true h2.tool_responses),
        (run-Same f d importable id (h1, w) es av).pause ∙ get-put_self String_discrete id _ _,
        get-erase_self String_discrete id h2.active_pauses,
        ap is_some (get-erase_self String_discrete id _),
      )

  -- A response that comes before the pause is kept: the paused request is ready at once.
  pub submit-pause :
      (h : Hook f) (w : World d) (id : String) (s : Surroundings f) (es : List (Event f))
      → AllAvoid f id es
      → let h1 = submit_tool_response f h id in
        let h2 = (run f d importable (h1, w) es).0 in
        is_tool_response_ready f (on_tool_call_pause f h2 id s).0 id ≡ true
  unfolding is_tool_response_ready on_tool_call_pause submit_tool_response
  submit-pause h w id s es av =
      let h1 = submit_tool_response f h id in
      let h2 = (run f d importable (h1, w) es).0 in
      ap (λ r. contains String_discrete id r) (sample_pauses f h2 s).1
      ∙ ((run-Same f d importable id (h1, w) es av).response
          ∙ ap is_some (get-put_self String_discrete id true h.tool_responses))
