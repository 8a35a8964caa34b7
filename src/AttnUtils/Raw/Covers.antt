-- ===== src/AttnUtils/Raw/Covers.antt =====
-- The assertion at the end of `_allocate_kv_cache`.
use edmm.Prelude.{
  String, List, [], ◌∷◌, Bool, true, false, ◌||◌, ◌≡◌, refl, sym, ◌∙◌, ap, ◌⊎◌, inl, inr, arith,
  String_discrete, if_true, if_false, Bool-cases, if_pos,
}
use edmm.Prelude.Dict.{Dict, get, keys, is_some}
use edmm.Prelude.Sets.{member, insert, member-insert}
use edmm.Prelude.Effect.{Outcome, ok, raised, outcome_cases}
use edmm.Gpu.{Exception, World, assertion_error, plain}
use edmm.Torch.{Torch}
use edmm.AttnUtils.Config.{Vllm, KvCacheGroup, KvCacheConfig}
use edmm.AttnUtils.Raw.{
  insert_each, subset, same_set, raw_tensors, all_layer_names, checked_layers, allocate_kv_cache,
}

member-keys :
    {A : Type 0} (x : String) (d : Dict String A)
    → member String_discrete x (keys d) ≡ is_some (get String_discrete x d)
unfolding member get
member-keys x [] = refl
member-keys x ((k, v) ∷ d) = ground (arith, member-keys x d)

member-insert_each :
    (x : String) (names s : List String)
    → member String_discrete x (insert_each names s)
      ≡ (member String_discrete x names || member String_discrete x s)
unfolding insert_each member
member-insert_each x [] s = refl
member-insert_each x (y ∷ names) s = ground (
  arith,
  member-insert_each x names (insert String_discrete y s),
  member-insert String_discrete y x s,
)

subset_sound :
    (x : String) (xs s : List String)
    → subset xs s ≡ true
    → member String_discrete x xs ≡ true
    → member String_discrete x s ≡ true
unfolding subset member
subset_sound x [] s h e = cc
subset_sound x (y ∷ xs) s h e = ground (arith, subset_sound x xs s)

subset_complete :
    (xs s : List String)
    → ((x : String) → member String_discrete x xs ≡ true → member String_discrete x s ≡ true)
    → subset xs s ≡ true
unfolding subset member
subset_complete [] s h = refl
subset_complete (y ∷ xs) s h =
    let here = h y (if_pos (String_discrete y y) refl true _) in
    let later = subset_complete xs s (λ x e. h x (ground (arith, e))) in rw (here, later) refl

module _ (t : Torch) (v : Vllm t) where
  -- The layer stands in one of the groups.
  abbrev pub in_groups : String → List (KvCacheGroup t v) → Bool
  in_groups x [] = false
  in_groups x (g ∷ gs) = member String_discrete x g.layer_names || in_groups x gs

  member-all_layer_names :
      (x : String) (gs : List (KvCacheGroup t v)) (s : List String)
      → member String_discrete x (all_layer_names t v gs s)
        ≡ (in_groups x gs || member String_discrete x s)
  unfolding all_layer_names
  member-all_layer_names x [] s = refl
  member-all_layer_names x (g ∷ gs) s = ground (
    arith,
    member-all_layer_names x gs (insert_each g.layer_names s),
    member-insert_each x g.layer_names s,
  )

  -- A layer stands in a group exactly if it has a buffer or shares one.
  abbrev pub Covered : List (KvCacheGroup t v) → Dict String t.Array → Dict String String → Type 0
  Covered groups made shared =
      (x : String)
      → in_groups x groups
        ≡ (is_some (get String_discrete x made) || is_some (get String_discrete x shared))

  module _ (groups : List (KvCacheGroup t v)) (made : Dict String t.Array)
      (shared : Dict String String) where
    abbrev wanted : List String
    wanted = all_layer_names t v groups []

    abbrev present : List String
    present = insert_each (keys shared) (keys made)

    member-wanted : (x : String) → member String_discrete x wanted ≡ in_groups x groups
    unfolding member
    member-wanted x = ground (arith, member-all_layer_names x groups [])

    member-present :
        (x : String)
        → member String_discrete x present
          ≡ (is_some (get String_discrete x made) || is_some (get String_discrete x shared))
    member-present x = ground (
      arith,
      member-insert_each x (keys shared) (keys made),
      member-keys x made,
      member-keys x shared,
    )

    same_set-Covered : same_set wanted present ≡ true → Covered groups made shared
    same_set-Covered h x = ground (
      arith,
      subset_sound x wanted present,
      subset_sound x present wanted,
      member-wanted x,
      member-present x,
    )

    Covered-same_set : Covered groups made shared → same_set wanted present ≡ true
    Covered-same_set h =
        let forth =
          subset_complete wanted present
            (λ x e. member-present x ∙ sym (h x) ∙ sym (member-wanted x) ∙ e) in
        let back =
          subset_complete present wanted
            (λ x e. member-wanted x ∙ h x ∙ sym (member-present x) ∙ e) in
        rw (forth, back) refl

  abbrev message : Exception
  message = assertion_error (plain "Some layers are not correctly initialized")

  -- The allocation, when the buffers are made.
  abbrev pub Checked :
      KvCacheConfig t v
      → Dict String String
      → Dict String t.Array
      → World t.driver
      → Outcome Exception (Dict String t.Array) × World t.driver
      → Type 0
  Checked config shared made w r =
      (Covered config.kv_cache_groups made shared × (r ≡ (ok made, w)))
      ⊎ ((Covered config.kv_cache_groups made shared → ⊥) × (r ≡ (raised message, w)))

  checked_layers-Checked :
      (config : KvCacheConfig t v) (shared : Dict String String) (made : Dict String t.Array)
      (w : World t.driver)
      → Checked config shared made w (checked_layers t v config shared made w)
  unfolding checked_layers
  checked_layers-Checked config shared made w =
      elim (Bool-cases (
        same_set (wanted config.kv_cache_groups made shared)
          (present config.kv_cache_groups made shared))) [
            | inl same ↦ inl (
              same_set-Covered config.kv_cache_groups made shared same,
              ap
                  (λ (m : World t.driver
                      → Outcome Exception (Dict String t.Array) × World t.driver).
                    m w)
                  (if_true _ _ same),
            )
            | inr differ ↦ inr (
              (λ covered. cc (differ, Covered-same_set config.kv_cache_groups made shared covered)),
              ap
                  (λ (m : World t.driver
                      → Outcome Exception (Dict String t.Array) × World t.driver).
                    m w)
                  (if_false _ _ differ),
            )
          ]

  -- The worker's allocation raises what the allocation of a buffer raises. If all buffers are made,
  -- it returns them if a layer stands in a group exactly if it has a buffer or shares one, and
  -- raises the assertion's error otherwise.
  pub allocate-Checked :
      (edmm_enabled : Bool) (config : KvCacheConfig t v) (shared : Dict String String)
      (device : t.Device) (w : World t.driver)
      → ((e : Exception) × (w' : World t.driver) × (raw_tensors t v edmm_enabled device
              config.kv_cache_tensors [] w
            ≡ (raised e, w'))
          × (allocate_kv_cache t v edmm_enabled config shared device w ≡ (raised e, w')))
        ⊎ ((made : Dict String t.Array) × (w' : World t.driver) × (raw_tensors t v edmm_enabled
                device config.kv_cache_tensors [] w
              ≡ (ok made, w'))
            × Checked config shared made w'
                (allocate_kv_cache t v edmm_enabled config shared device w))
  unfolding allocate_kv_cache
  allocate-Checked edmm_enabled config shared device w =
      elim (outcome_cases (raw_tensors t v edmm_enabled device config.kv_cache_tensors [] w)) [
        | inl (made, w', e) ↦ inr (made, w', e, rw e (checked_layers-Checked config shared made w'))
        | inr (x, w', e) ↦ inl (x, w', e, rw e refl)
      ]
