-- ===== src/AttnUtils/Metadata/ByLayer.antt =====
-- Each layer gets what belongs to its own cache group.
use edmm.Prelude.{
  ℕ, zero, suc, ◌+◌, String, List, [], ◌∷◌, some, true, false, ◌≡◌, refl, ◌∙◌, ap, arith,
  String_discrete, get_elem?, if◌then◌else◌, subst, inl, inr, Bool-cases, length, get_elem?_of_lt,
  ◌≤◌,
}
use edmm.Prelude.Dict.{Dict, get, put, get-put, Each, put-Each, some_injective, none≢some}
use edmm.Prelude.Sets.{member}
use edmm.Prelude.Effect.{ok}
use edmm.Torch.{Torch}
use edmm.AttnUtils.Config.{Vllm, KvCacheGroup}
use edmm.AttnUtils.Groups.{AttentionGroup}
use edmm.AttnUtils.Raw.{put_each}
use edmm.AttnUtils.Metadata.{
  add_slot_mappings, build_slot_mappings_by_layer, Metadata, Building, Inputs, common, build_group,
  build_groups, build_from, build_attn_metadata,
}

get-put_each :
    {A : Type 0} (x : String) (names : List String) (a : A) (d : Dict String A)
    → get String_discrete x (put_each names a d)
      ≡ (if member String_discrete x names then some a else get String_discrete x d)
unfolding put_each member
get-put_each x [] a d = refl
get-put_each x (y ∷ names) a d =
    ground
      (arith, get-put_each x names a (put String_discrete y a d), get-put String_discrete y x a d)

module _ (t : Torch) (v : Vllm t) where
  abbrev names_of : KvCacheGroup t v → List String
  names_of g = g.layer_names

  -- The layer stands in no group from the first on.
  abbrev Absent : String → List (KvCacheGroup t v) → Type 0
  Absent x gs =
      (j : ℕ) (g : KvCacheGroup t v)
      → get_elem? gs j ≡ some g
      → member String_discrete x g.layer_names ≡ false

  get-add-Absent :
      {A : Type 0} (x : String) (ms : List A) (gs : List (KvCacheGroup t v)) (d : Dict String A)
      → Absent x gs
      → get String_discrete x (add_slot_mappings t v ms gs d) ≡ get String_discrete x d
  unfolding add_slot_mappings
  get-add-Absent x [] gs d h = refl
  get-add-Absent x (m ∷ ms) [] d h = refl
  get-add-Absent x (m ∷ ms) (g ∷ gs) d h =
      let here = h 0 g refl in
      get-add-Absent x ms gs (put_each g.layer_names m d) (λ j. h (suc j))
      ∙ get-put_each x g.layer_names m d
      ∙ rw here refl

  get-add_mapping :
      {A : Type 0} (x : String) (ms : List A) (gs : List (KvCacheGroup t v)) (d : Dict String A)
      (i : ℕ) (m : A) (g : KvCacheGroup t v)
      → get_elem? ms i ≡ some m
      → get_elem? gs i ≡ some g
      → member String_discrete x g.layer_names ≡ true
      → ((j : ℕ) (h : KvCacheGroup t v)
          → get_elem? gs j ≡ some h
          → member String_discrete x h.layer_names ≡ true
          → j ≡ i)
      → get String_discrete x (add_slot_mappings t v ms gs d) ≡ some m
  unfolding add_slot_mappings
  get-add_mapping x [] gs d i m g em eg inside only = cc
  get-add_mapping x (m' ∷ ms) [] d i m g em eg inside only = cc
  get-add_mapping x (m' ∷ ms) (g' ∷ gs) d zero m g em eg inside only =
      let same : g'.layer_names ≡ g.layer_names = ap names_of (some_injective eg) in
      get-add-Absent x ms gs (put_each g'.layer_names m' d) (λ j h e.
        elim (Bool-cases (member String_discrete x h.layer_names)) [
          | inl there ↦ absurd (omega (arith, only (suc j) h e there))
          | inr away ↦ away
        ])
      ∙ get-put_each x g'.layer_names m' d
      ∙ rw (same, inside) em
  get-add_mapping x (m' ∷ ms) (g' ∷ gs) d (suc i) m g em eg inside only =
      get-add_mapping x ms gs (put_each g'.layer_names m' d) i m g em eg inside
        (λ j h e there. omega (arith, only (suc j) h e there))

  -- A layer that stands in one cache group only, and for whose group there is a slot mapping, gets
  -- this mapping.
  pub build_slot_mappings-own :
      {A : Type 0} (x : String) (slot_mappings : List A) (groups : List (KvCacheGroup t v)) (i : ℕ)
      (slot_mapping : A) (group : KvCacheGroup t v)
      → get_elem? slot_mappings i ≡ some slot_mapping
      → get_elem? groups i ≡ some group
      → member String_discrete x group.layer_names ≡ true
      → ((j : ℕ) (other : KvCacheGroup t v)
          → get_elem? groups j ≡ some other
          → member String_discrete x other.layer_names ≡ true
          → j ≡ i)
      → get String_discrete x (build_slot_mappings_by_layer t v slot_mappings groups)
        ≡ some slot_mapping
  unfolding build_slot_mappings_by_layer
  build_slot_mappings-own x ms gs i m g = get-add_mapping x ms gs [] i m g

module _ (t : Torch) (v : Vllm t) (d : Metadata t v) (b : Building t v d) (a : Inputs t v d)
    (attn_groups : List (List (AttentionGroup t v))) where
  -- The metadata is what the builder of an attention group of the layer makes from the block table
  -- and the slot mapping of that group's cache group.
  pub record Owned (x : String) (built : d.Built) : Type 0 where
    pub group_id : ℕ
    pub groups : List (AttentionGroup t v)
    pub index : ℕ
    pub group : AttentionGroup t v
    pub block_table : d.Value
    pub slot_mapping : d.Value
    pub of_groups : get_elem? attn_groups group_id ≡ some groups
    pub of_group : get_elem? groups index ≡ some group
    pub inside : member String_discrete x group.layer_names ≡ true
    pub of_table : get_elem? a.block_tables group_id ≡ some block_table
    pub of_mapping : get_elem? a.slot_mappings group_id ≡ some slot_mapping
    pub is_built :
        built ≡ build_group t v d b a group (common t v d a group_id block_table slot_mapping)

  put_each-Each :
      {A : Type 0} (P : String → A → Type 0) (names : List String) (value : A) (m : Dict String A)
      → ((x : String) → member String_discrete x names ≡ true → P x value)
      → Each String_discrete P m
      → Each String_discrete P (put_each names value m)
  unfolding put_each member
  put_each-Each P [] value m new h = h
  put_each-Each P (y ∷ names) value m new h =
      put_each-Each P names value (put String_discrete y value m) (λ x e. new x (ground (arith, e)))
        (put-Each String_discrete P y value m (new y (ground arith)) h)

  module _ (i : ℕ) (all : List (AttentionGroup t v)) (bt sm : d.Value)
      (eg : get_elem? attn_groups i ≡ some all) (et : get_elem? a.block_tables i ≡ some bt)
      (em : get_elem? a.slot_mappings i ≡ some sm) where
    build_groups-Owned :
        (rest : List (AttentionGroup t v)) (k : ℕ) (m : Dict String d.Built)
        → ((j : ℕ) (g : AttentionGroup t v)
            → get_elem? rest j ≡ some g
            → get_elem? all (k + j) ≡ some g)
        → Each String_discrete Owned m
        → Each String_discrete Owned (build_groups t v d b a (common t v d a i bt sm) rest m)
    unfolding build_groups
    build_groups-Owned [] k m sub h = h
    build_groups-Owned (g ∷ rest) k m sub h =
        build_groups-Owned rest (suc k) _
          (λ j g' e. subst (λ n. get_elem? all n ≡ some g') (omega arith) (sub (suc j) g' e))
          (put_each-Each Owned g.layer_names _ m
            (λ x inside. record {
              group_id = i;
              groups = all;
              index = k + 0;
              group = g;
              block_table = bt;
              slot_mapping = sm;
              of_groups = eg;
              of_group = sub 0 g refl;
              inside = inside;
              of_table = et;
              of_mapping = em;
              is_built = refl;
            })
            h)

  -- A run over `n` cache groups from one on: it returns if all three lists are long enough, and
  -- every layer's metadata is then owned.
  build_from-Owned :
      (n i : ℕ) (m : Dict String d.Built)
      → i + n ≤ length a.block_tables
      → i + n ≤ length a.slot_mappings
      → i + n ≤ length attn_groups
      → Each String_discrete Owned m
      → (built : Dict String d.Built) × (build_from t v d b a attn_groups n i m ≡ ok built)
        × Each String_discrete Owned built
  unfolding build_from
  build_from-Owned zero i m lt lm lg h = (m, refl, h)
  build_from-Owned (suc n) i m lt lm lg h =
      let (bt, et) = get_elem?_of_lt a.block_tables i (omega arith) in
      let (sm, em) = get_elem?_of_lt a.slot_mappings i (omega arith) in
      let (gs, eg) = get_elem?_of_lt attn_groups i (omega arith) in
      rw (et, em, eg)
        (build_from-Owned n (suc i) _ (omega arith) (omega arith) (omega arith) (
          build_groups-Owned i gs bt sm eg et em gs 0 m
            (λ j g e. subst (λ k. get_elem? gs k ≡ some g) (omega arith) e) h))

  -- If there are block tables, slot mappings and attention groups for every cache group, the
  -- metadata is built, and what a layer gets is built by an attention group that the layer stands
  -- in, from the block table and the slot mapping of the same cache group.
  pub build_attn_metadata-Owned :
      (groups : List (KvCacheGroup t v))
      → length groups ≤ length a.block_tables
      → length groups ≤ length a.slot_mappings
      → length groups ≤ length attn_groups
      → (built : Dict String d.Built) × (build_attn_metadata t v d b a attn_groups groups
          ≡ ok built)
        × Each String_discrete Owned built
  unfolding build_attn_metadata get
  build_attn_metadata-Owned groups lt lm lg =
      build_from-Owned (length groups) 0 [] (omega (arith, lt)) (omega (arith, lm))
        (omega (arith, lg)) (λ x value e. absurd (none≢some e))
