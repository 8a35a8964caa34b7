-- ===== src/AttnUtils/Groups/Partition.antt =====
-- Attention groups divide the layers of a cache group by backend and specification.
use edmm.Prelude.{
  ℕ, String, List, [], ◌∷◌, ◌++◌, map, Option, none, some, true, ◌≡◌, refl, sym, subst, ap₂, ◌∙◌,
  ◌⊎◌, inl, inr, arith, String_discrete, if_pos, Option-cases, append_assoc, append-nil,
}
use edmm.Prelude.Dict.{Dict, get, put, keys, Distinct, put-Distinct}
use edmm.Prelude.Sets.{member}
use edmm.Prelude.Entries.{
  occurrences, occurrences-append, values, total, total-put_new, total-put_known, AllEntries,
  AllEntries-get, AllEntries-put, keys-put_new, keys-put_known, Found, Found-self,
}
use edmm.Prelude.Effect.{Outcome, ok, raised}
use edmm.Prelude.Partial.{◌>>=◌, or_raise}
use edmm.Gpu.{Exception, key_error}
use edmm.Torch.{Torch}
use edmm.AttnUtils.Config
use edmm.AttnUtils.Config.{Vllm, AttnModule, GroupSpec, layer_spec}
use edmm.AttnUtils.Groups.{
  AttentionGroup, Key, same_key, Discovery, join_group, place_layer, discover_layers, in_order,
  discover_group,
}

module _ (t : Torch) (v : Vllm t) (attn_layers : Dict String (AttnModule t v))
    (spec : GroupSpec t v) where
  abbrev pub key_of : AttentionGroup t v → Key t v
  key_of g = (v.full_cls_name g.backend, g.kv_cache_spec)

  -- The layer has the backend's class and the specification of the key.
  abbrev pub HasKey : Key t v → String → Type 0
  HasKey key layer_name =
      (attn_module : AttnModule t v) × (get String_discrete layer_name attn_layers
        ≡ some attn_module)
      × (layer_spec t v spec layer_name ≡ ok key.1)
      × (v.full_cls_name attn_module.backend ≡ key.0)

  abbrev pub AllHaveKey : Key t v → List String → Type 0
  AllHaveKey key [] = Unit {0}
  AllHaveKey key (layer_name ∷ layer_names) = HasKey key layer_name × AllHaveKey key layer_names

  abbrev pub EachAlike : List (AttentionGroup t v) → Type 0
  EachAlike [] = Unit {0}
  EachAlike (g ∷ gs) = AllHaveKey (key_of g) g.layer_names × EachAlike gs

  abbrev times : String → AttentionGroup t v → ℕ
  times layer_name g = occurrences String_discrete layer_name g.layer_names

  abbrev pub times_in : String → List (AttentionGroup t v) → ℕ
  times_in layer_name groups = total (times layer_name) groups

  -- The groups divide the names.
  pub record IsPartition (layer_names : List String) (groups : List (AttentionGroup t v))
      : Type 0 where
    -- Each layer stands in the groups as often as among the names.
    pub each :
        (layer_name : String)
        → times_in layer_name groups ≡ occurrences String_discrete layer_name layer_names
    -- The layers of a group have its backend's class and its specification.
    pub alike : EachAlike groups
    -- No two groups have both in common.
    pub apart : Distinct (same_key t v) (map (λ (g : AttentionGroup t v). (key_of g, g)) groups)

  abbrev Entry : Key t v → AttentionGroup t v → Type 0
  Entry key g = (key ≡ key_of g) × AllHaveKey key g.layer_names

  -- The invariant of the loop over the names.
  record Loop (done : List String) (s : Discovery t v) : Type 0 where
    pub order : s.group_order ≡ keys s.group_map
    pub distinct : Distinct (same_key t v) s.group_map
    pub entries : AllEntries Entry s.group_map
    pub each :
        (layer_name : String)
        → times_in layer_name (values s.group_map) ≡ occurrences String_discrete layer_name done

  AllHaveKey-append :
      (key : Key t v) (xs : List String) (x : String)
      → AllHaveKey key xs
      → HasKey key x
      → AllHaveKey key (xs ++ (x ∷ []))
  AllHaveKey-append key [] x h h' = (h', tt)
  AllHaveKey-append key (y ∷ xs) x h h' = (h.0, AllHaveKey-append key xs x h.1 h')

  -- One more name.
  join_group-Loop :
      (done : List String) (layer_name : String) (backend : v.Backend) (own : v.Spec) (group_id : ℕ)
      (s : Discovery t v) (found : Option (AttentionGroup t v))
      → get (same_key t v) (v.full_cls_name backend, own) s.group_map ≡ found
      → HasKey (v.full_cls_name backend, own) layer_name
      → Loop done s
      → Loop (done ++ (layer_name ∷ [])) (join_group t v layer_name backend own group_id found s)
  unfolding join_group
  join_group-Loop done layer_name backend own group_id s none absent has h = record {
    order = rw h.order (sym (keys-put_new (same_key t v) _ _ s.group_map absent));
    distinct = put-Distinct (same_key t v) _ _ s.group_map h.distinct;
    entries = AllEntries-put (same_key t v) Entry _ _ s.group_map (refl, (has, tt)) h.entries;
    each = λ x. omega (
      arith,
      total-put_new (same_key t v) (times x) _ _ s.group_map absent,
      h.each x,
      occurrences-append String_discrete x done (layer_name ∷ []),
    );
  }
  join_group-Loop done layer_name backend own group_id s (some g) here has h =
      let (same, all) = AllEntries-get (same_key t v) Entry _ g s.group_map h.entries here in
      record {
        order = h.order ∙ sym (keys-put_known (same_key t v) _ _ g s.group_map here);
        distinct = put-Distinct (same_key t v) _ _ s.group_map h.distinct;
        entries =
            AllEntries-put (same_key t v) Entry _ _ s.group_map
              (same, AllHaveKey-append _ g.layer_names layer_name all has) h.entries;
        each = λ x. omega (
          arith,
          total-put_known (same_key t v) (times x) _ _ g
              (occurrences String_discrete x (layer_name ∷ [])) s.group_map here
              (occurrences-append String_discrete x g.layer_names (layer_name ∷ [])),
          h.each x,
          occurrences-append String_discrete x done (layer_name ∷ []),
        );
      }

  -- How the loop ends: with the invariant for all names, or for want of a layer.
  abbrev LoopOr : List String → List String → Outcome Exception (Discovery t v) → Type 0
  LoopOr done rest (ok s) = Loop (done ++ rest) s
  LoopOr done rest (raised e) =
      (e ≡ key_error)
      × (layer_name : String) × (member String_discrete layer_name rest ≡ true)
      × ((get String_discrete layer_name attn_layers ≡ none)
          ⊎ (layer_spec t v spec layer_name ≡ raised key_error))

  -- A layer of which nothing is known is so for the longer list.
  LoopOr-later :
      (done rest : List String) (x : String) (r : Outcome Exception (Discovery t v))
      → LoopOr (done ++ (x ∷ [])) rest r
      → LoopOr done (x ∷ rest) r
  unfolding member
  LoopOr-later done rest x (ok s) h =
      subst (λ names. Loop names s) (append_assoc done (x ∷ []) rest) h
  LoopOr-later done rest x (raised e) (key, name, there, why) =
      (key, name, ground (arith, there), why)

  or_raise-cases :
      {A : Type 0} (found : Option A)
      → ((a : A) × (or_raise found key_error ≡ ok a))
        ⊎ (or_raise found key_error ≡ raised key_error)
  or_raise-cases none = inr refl
  or_raise-cases (some a) = inl (a, refl)

  layer_spec-cases :
      (g : GroupSpec t v) (layer_name : String)
      → ((own : v.Spec) × (layer_spec t v g layer_name ≡ ok own))
        ⊎ (layer_spec t v g layer_name ≡ raised key_error)
  unfolding layer_spec
  layer_spec-cases (Config.single own) layer_name = inl (own, refl)
  layer_spec-cases (Config.uniform specs) layer_name =
      or_raise-cases (get String_discrete layer_name specs)

  place_layer-Loop :
      (done : List String) (x : String) (m : AttnModule t v) (own : v.Spec) (group_id : ℕ)
      (s : Discovery t v)
      → get String_discrete x attn_layers ≡ some m
      → layer_spec t v spec x ≡ ok own
      → Loop done s
      → Loop (done ++ (x ∷ [])) (place_layer t v x m.backend own group_id s)
  unfolding place_layer
  place_layer-Loop done x m own group_id s known of_own h =
      join_group-Loop done x m.backend own group_id
        (record s { attn_backends = put String_discrete x m.backend s.attn_backends }) _ refl
        (m, known, of_own, refl)
        (record { order = h.order; distinct = h.distinct; entries = h.entries; each = h.each })

  discover_layers-Loop :
      (done rest : List String) (group_id : ℕ) (s : Discovery t v)
      → Loop done s
      → LoopOr done rest (discover_layers t v attn_layers spec group_id rest s)
  unfolding discover_layers member
  discover_layers-Loop done [] group_id s h =
      subst (λ names. Loop names s) (sym (append-nil done)) h
  discover_layers-Loop done (x ∷ rest) group_id s h =
      elim (Option-cases (get String_discrete x attn_layers)) [
        | inl unknown ↦ rw unknown (refl, x, if_pos (String_discrete x x) refl true _, inl unknown)
        | inr (m, known) ↦ elim (layer_spec-cases spec x) [
          | inr unknown ↦
              rw (known, unknown) (refl, x, if_pos (String_discrete x x) refl true _, inr unknown)
          | inl (own, of_own) ↦
              rw (known, of_own)
                (LoopOr-later done rest x _ (
                  discover_layers-Loop (done ++ (x ∷ [])) rest group_id _
                    (place_layer-Loop done x m own group_id s known of_own h)))
        ]
      ]

  in_order-keys :
      (e d : Dict (Key t v) (AttentionGroup t v))
      → Found (same_key t v) e d
      → in_order t v (keys e) d ≡ ok (values e)
  unfolding in_order
  in_order-keys [] d h = refl
  in_order-keys ((k, g) ∷ e) d h = rw (h.0, in_order-keys e d h.1) refl

  entries-alike :
      (d : Dict (Key t v) (AttentionGroup t v)) → AllEntries Entry d → EachAlike (values d)
  entries-alike [] h = tt
  entries-alike ((k, g) ∷ d) h =
      (subst (λ key. AllHaveKey key g.layer_names) h.0.0 h.0.1, entries-alike d h.1)

  entries-keyed :
      (d : Dict (Key t v) (AttentionGroup t v))
      → AllEntries Entry d
      → map (λ (g : AttentionGroup t v). (key_of g, g)) (values d) ≡ d
  entries-keyed [] h = refl
  entries-keyed ((k, g) ∷ d) h = ap₂ (λ key rest. (key, g) ∷ rest) (sym h.0.0) (entries-keyed d h.1)

  Loop-IsPartition :
      (layer_names : List String) (s : Discovery t v)
      → Loop layer_names s
      → IsPartition layer_names (values s.group_map)
  Loop-IsPartition layer_names s h = record {
    each = h.each;
    alike = entries-alike s.group_map h.entries;
    apart = rw (entries-keyed s.group_map h.entries) h.distinct;
  }

  abbrev pub PartitionOr :
      List String → Outcome Exception (List (AttentionGroup t v) × Dict String v.Backend) → Type 0
  PartitionOr layer_names (ok (groups, attn_backends)) = IsPartition layer_names groups
  PartitionOr layer_names (raised e) =
      (e ≡ key_error)
      × (layer_name : String) × (member String_discrete layer_name layer_names ≡ true)
      × ((get String_discrete layer_name attn_layers ≡ none)
          ⊎ (layer_spec t v spec layer_name ≡ raised key_error))

  grouped :
      (layer_names : List String) (r : Outcome Exception (Discovery t v))
      → LoopOr [] layer_names r
      → PartitionOr layer_names (
          r >>= (λ s.
            in_order t v s.group_order s.group_map >>= (λ groups. ok (groups, s.attn_backends))))
  grouped layer_names (raised e) h = h
  grouped layer_names (ok s) h =
      rw
        (
          h.order,
          in_order-keys s.group_map s.group_map (Found-self (same_key t v) s.group_map h.distinct),
        )
        (Loop-IsPartition layer_names s h)

  -- The groups that are found for a cache group divide its layers: each layer stands in them as
  -- often as among the names, the layers of a group have the class of its backend and its
  -- specification, and no two groups have both in common. A KeyError is raised only for a name
  -- among them that has no module or no specification.
  pub discover_group-IsPartition :
      (group_id : ℕ) (layer_names : List String) (attn_backends : Dict String v.Backend)
      → PartitionOr layer_names
          (discover_group t v attn_layers group_id layer_names spec attn_backends)
  unfolding discover_group occurrences
  discover_group-IsPartition group_id layer_names attn_backends = grouped layer_names _ (
      discover_layers-Loop [] layer_names group_id _
        (record { order = refl; distinct = tt; entries = tt; each = λ x. refl }))
