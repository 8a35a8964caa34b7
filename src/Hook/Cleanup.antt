-- ===== src/Hook/Cleanup.antt =====
-- What clean-up releases, and what it leaves.
use edmm.Prelude.{
  ℕ, String, ◌≡◌, refl, sym, ap, ◌∙◌, List, [], ◌∷◌, ◌++◌, none, some, true, false, append_assoc,
  append-nil, String_discrete, if_pos,
}
use edmm.Prelude.Dict.{Dict, get, erase, is_some, keys, Distinct, erase_absent, get-erase_self}
use edmm.Floats.{Floats}
use edmm.Gpu.{Call, Driver, World}
use edmm.Allocator.{release_physical_handle}
use edmm.Allocator.Pages.{after, checked_rule}
use edmm.Allocator.Context.{get_cuda_loaded}
use edmm.Allocator.Free.{release_calls}
use edmm.Hook.{
  Hook, ToolCallState, get_active_pause, is_tool_response_ready, forget, release_each,
  cleanup_request, cleanup_requests, cleanup_all, release_state, on_tool_call_resume,
}

-- The handles that the pauses hold, in the order of the dictionary.
abbrev pub held : Dict String ToolCallState → List ℕ
held [] = []
held ((id, state) ∷ p) = state.speculative_handles ++ held p

get_head :
    {V : Type 0} (k : String) (v : V) (t : Dict String V)
    → get String_discrete k ((k, v) ∷ t) ≡ some v
unfolding get
get_head k v t = if_pos (String_discrete k k) refl _ _

erase_head :
    {V : Type 0} (k : String) (v : V) (t : Dict String V)
    → get String_discrete k t ≡ none
    → erase String_discrete k ((k, v) ∷ t) ≡ t
unfolding erase
erase_head k v t e = if_pos (String_discrete k k) refl _ _ ∙ erase_absent String_discrete k t e

module _ (f : Floats) (d : Driver) where
  release_each-append :
      (xs ys : List ℕ) (w : World d)
      → release_each f d (xs ++ ys) w ≡ release_each f d ys (release_each f d xs w)
  unfolding release_each
  release_each-append [] ys w = refl
  release_each-append (x ∷ xs) ys w = release_each-append xs ys _

  release_one :
      (handle : ℕ) (w : World d)
      → w.loaded ≡ true
      → (release_physical_handle d handle w).1 ≡ after d (Call.mem_release handle) w
  unfolding release_physical_handle
  release_one handle w loaded = rw (get_cuda_loaded d w loaded) (
      checked_rule d (λ r. r.1 ≡ after d (Call.mem_release handle) w) _ _ w _ (λ _. refl)
        (λ _. refl))

  release_each-calls :
      (hs : List ℕ) (w : World d)
      → w.loaded ≡ true
      → ((release_each f d hs w).calls ≡ w.calls ++ release_calls hs)
        × ((release_each f d hs w).allocations ≡ w.allocations)
  unfolding release_each
  release_each-calls [] w loaded = (sym (append-nil w.calls), refl)
  release_each-calls (x ∷ xs) w loaded =
      let rest = release_each-calls xs (after d (Call.mem_release x) w) loaded in
      rw (release_one x w loaded, release_each) (rest.0 ∙ append_assoc w.calls _ _, rest.1)

  -- A clean-up of each key of a dictionary of pauses: all their handles, one after the other.
  cleanup_requests-release :
      (p : Dict String ToolCallState) (h : Hook f) (w : World d)
      → h.active_pauses ≡ p
      → Distinct String_discrete p
      → let (h', w') = cleanup_requests f d true (keys p) h w in
        (h'.active_pauses ≡ []) × (w' ≡ release_each f d (held p) w)
  unfolding cleanup_requests cleanup_request release_each
  cleanup_requests-release [] h w e distinct = (e, refl)
  cleanup_requests-release ((id, state) ∷ p) h w e distinct =
      let found : get String_discrete id h.active_pauses ≡ some state =
        ap (get String_discrete id) e ∙ get_head id state p in
      let left : erase String_discrete id h.active_pauses ≡ p =
        ap (erase String_discrete id) e ∙ erase_head id state p distinct.0 in
      let rest =
        cleanup_requests-release p (forget f h id)
          (release_state f d true (get String_discrete id h.active_pauses) w) left distinct.1 in
      let released : release_state f d true (get String_discrete id h.active_pauses) w
          ≡ release_each f d state.speculative_handles w =
        ap (λ o. release_state f d true o w) found in
      (
        rest.0,
        rest.1
            ∙ (ap (release_each f d (held p)) released
                ∙ sym (release_each-append state.speculative_handles (held p) w)),
      )

  -- If the driver is loaded, the allocator's module can be imported and the dictionary has distinct
  -- keys, shutting down leaves no pause, and asks the driver to release every handle that a pause holds,
  -- each once and in order, also if some of the releases fail; the registry of allocations is left
  -- alone.
  pub cleanup_all-releases :
      (h : Hook f) (w : World d)
      → Distinct String_discrete h.active_pauses
      → w.loaded ≡ true
      → let (h', w') = cleanup_all f d true h w in
        (h'.active_pauses ≡ [])
        × (w'.calls ≡ w.calls ++ release_calls (held h.active_pauses))
        × (w'.allocations ≡ w.allocations)
  unfolding cleanup_all
  cleanup_all-releases h w distinct loaded =
      let (none_left, released) = cleanup_requests-release h.active_pauses h w refl distinct in
      let (calls, same) = release_each-calls (held h.active_pauses) w loaded in
      (
        none_left,
        ap (λ (v : World d). v.calls) released ∙ calls,
        ap (λ (v : World d). v.allocations) released ∙ same,
      )

  -- If the driver is loaded and the allocator's module can be imported, cleaning up a paused request
  -- asks the driver to release its handles, each once and in order, and forgets its pause and its
  -- response.
  pub cleanup_request-releases :
      (h : Hook f) (id : String) (state : ToolCallState) (w : World d)
      → get_active_pause f h id ≡ some state
      → w.loaded ≡ true
      → let (h', w') = cleanup_request f d true h id w in
        (w'.calls ≡ w.calls ++ release_calls state.speculative_handles)
        × (get_active_pause f h' id ≡ none)
        × (is_tool_response_ready f h' id ≡ false)
  unfolding cleanup_request get_active_pause is_tool_response_ready
  cleanup_request-releases h id state w found loaded = (
    ap (λ o. (release_state f d true o w).calls) found
        ∙ (release_each-calls state.speculative_handles w loaded).0,
    get-erase_self String_discrete id h.active_pauses,
    ap is_some (get-erase_self String_discrete id h.tool_responses),
  )

  -- Once a request was resumed, no clean-up releases the handles that its pause held: the caller
  -- of the resume has to.
  pub resume-cleanup :
      (h : Hook f) (id : String) (w : World d)
      → (cleanup_request f d true (on_tool_call_resume f h id).0 id w).1 ≡ w
  unfolding cleanup_request on_tool_call_resume
  resume-cleanup h id w =
      ap (λ o. release_state f d true o w) (get-erase_self String_discrete id h.active_pauses)
