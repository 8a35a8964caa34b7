-- ===== src/Hook/Decision.antt =====
-- When the hook speculates, and when it pauses at all.
use text.Mathlib.Text.{find?}
use edmm.Prelude.{
  ℕ, zero, suc, String, ◌+◌, ◌-◌, ◌≤◌, ◌≡◌, refl, sym, ap, ◌∙◌, List, [], ◌∷◌, ◌++◌, some, true,
  arith, length, drop, min, length-append, String_discrete, ◌↔◌,
}
use edmm.Prelude.Dict.{get, get-put_self, is_some}
use edmm.Floats.{Floats}
use edmm.Hook.{
  Hook, Surroundings, SpeculationDecision, should_pause_for_tool_call, tool_sentinel_token, recent,
  cpu_load_threshold, sample_cpu_load, decide, on_tool_call_pause, new_state,
}

drop-append :
    {A : Type 0} (m k : ℕ) (xs ys : List A) → m ≡ length xs + k → drop m (xs ++ ys) ≡ drop k ys
drop-append m k [] ys e = ap (λ (n : ℕ). drop n ys) (omega arith)
drop-append zero k (x ∷ xs) ys e = absurd (omega arith)
drop-append (suc m) k (x ∷ xs) ys e = drop-append m k xs ys (omega arith)

recent-append : (xs ys : List ℕ) → 10 ≤ length ys → recent (xs ++ ys) ≡ recent ys
recent-append xs ys h =
    drop-append _ (length ys - min 10 (length ys)) xs ys (omega (arith, length-append xs ys))

should_pause-recent :
    (decode : List ℕ → String) (l : List ℕ)
    → 1 ≤ length l
    → should_pause_for_tool_call decode l ≡ is_some (find? (decode (recent l)) tool_sentinel_token)
unfolding should_pause_for_tool_call
should_pause-recent decode [] h = absurd (omega arith)
should_pause-recent decode (x ∷ l) h = refl

-- Only the last ten tokens count: what stands before them changes nothing, so a sentinel that is
-- older is not seen.
pub should_pause-append :
    (decode : List ℕ → String) (xs ys : List ℕ)
    → 10 ≤ length ys
    → should_pause_for_tool_call decode (xs ++ ys) ≡ should_pause_for_tool_call decode ys
should_pause-append decode xs ys h =
    should_pause-recent decode (xs ++ ys) (omega (arith, length-append xs ys))
    ∙ (ap (λ (l : List ℕ). is_some (find? (decode l) tool_sentinel_token)) (recent-append xs ys h)
        ∙ sym (should_pause-recent decode ys (omega arith)))

module _ (f : Floats) where
  -- A pause defers exactly if the sampled load is above the threshold, and stores its decision
  -- under the request's id.
  pub pause-decide :
      (h : Hook f) (id : String) (s : Surroundings f)
      → let (h', decision) = on_tool_call_pause f h id s in
        let load = (sample_cpu_load f h s).1 in
        ((decision ≡ SpeculationDecision.defer) ↔ (f.lt (cpu_load_threshold f) load ≡ true))
        × (get String_discrete id h'.active_pauses
            ≡ some (new_state f id s.perf_counter_ns decision))
  unfolding on_tool_call_pause decide
  pause-decide h id s = (ground arith, get-put_self String_discrete id _ _)

  -- Two pauses within a tenth of a second of the last measurement decide alike, whatever
  -- /proc/stat shows meanwhile, and the measurement is kept.
  pub pause_cached :
      (h : Hook f) (id id' : String) (s s' : Surroundings f)
      → f.lt (f.sub s.monotonic h.cpu_load_cache_time) (f.decimal 1 1) ≡ true
      → f.lt (f.sub s'.monotonic h.cpu_load_cache_time) (f.decimal 1 1) ≡ true
      → let (h', decision) = on_tool_call_pause f h id s in
        ((on_tool_call_pause f h' id' s').1 ≡ decision)
        × (h'.cpu_load_cache_time ≡ h.cpu_load_cache_time)
  unfolding on_tool_call_pause sample_cpu_load
  pause_cached h id id' s s' e e' = rw (e, e') (refl, refl)
