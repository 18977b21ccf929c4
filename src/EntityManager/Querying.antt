-- ===== src/EntityManager/Querying.antt =====
-- entity_manager.h: what the queries find.
use raccoon_ecs.Common.{
  ℕ, ◌+◌, ◌%◌, ◌≡◌, ◌≢◌, refl, true, false, List, [], ◌∷◌, ◌++◌, length, get_or, map, elem,
  ℕ_discrete, arith, ◌==◌, if◌then◌else◌, inl, inr, Bool-cases, get_or-map, ap, sym, ◌∙◌, ◌<◌,
  length-map, elem-get_or,
}
use raccoon_ecs.Outcome.{nullptr, Outcome, ok, ◌>>=◌}
use raccoon_ecs.Entity.{entity, u32_mod}
use raccoon_ecs.TypeId.{TypeId}
use raccoon_ecs.ComponentMap.{ComponentMap, component_at}
use raccoon_ecs.Indexes.SparseSet.{Index}
use raccoon_ecs.Indexes.SparseSet.Add.{has_all, components_of}
use raccoon_ecs.Indexes.{ComponentIndexes, get_or_create_index, initialize_index}
use raccoon_ecs.Indexes.Query.{IsPack, get_or_create_index-IsConsistent}
use raccoon_ecs.Indexes.TupleOrder.{tuple_order, tuple_order-get_or_create_index}
use raccoon_ecs.Indexes.Listing.{Matches, get_or_create_index-Matches, get_or_create_index_again}
use raccoon_ecs.EntityManager.{EntityManager}
use raccoon_ecs.EntityManager.Entities.{exists_at, has_entity}
use raccoon_ecs.EntityManager.Adding.{has_entity_by_id, at-get_or}
use raccoon_ecs.EntityManager.Owning.{exists-lt}
use raccoon_ecs.EntityManager.Gone.{SameEntities}
use raccoon_ecs.EntityManager.Queries.{
  EntityRow, entity_rows, get_components_with_entities, get_matching_entities_count, init_index,
}
use raccoon_ecs.EntityManager.Invariant.{IsValid}
use raccoon_ecs.EntityManager.Rows.{entity_row, entity_rows-map, skip_empty}

has_all_of_nothing :
    {K : Type 0} (dec : Discrete K) (m : ComponentMap K) (pack : List K) (x : ℕ)
    → pack ≢ []
    → ((k : K) → component_at dec m k x ≡ nullptr)
    → has_all dec m pack x ≡ false
unfolding has_all
has_all_of_nothing dec m [] x some_type gone = absurd (some_type refl)
has_all_of_nothing dec m (k ∷ ks) x some_type gone = ground (arith, gone k)

module _ {K W : Type 0} (T : TypeId K) (s : EntityManager K W) (pack : List K) (v : IsValid T s)
    (named : IsPack T pack) where
  -- The index that a query uses, and the manager that it leaves.
  ix : Index K
  ix = (get_or_create_index T s.indexes pack s.components).1

  queried : EntityManager K W
  queried = record s { indexes = (get_or_create_index T s.indexes pack s.components).0 }

  queried-IsValid : IsValid T queried
  unfolding queried
  queried-IsValid = record {
    parallel = v.parallel;
    few = v.few;
    versions_fit = v.versions_fit;
    free_unused = unfold exists_at in v.free_unused;
    free_once = v.free_once;
    owned = unfold exists_at in v.owned;
    distinct = v.distinct;
    fits = v.fits;
    consistent =
        get_or_create_index-IsConsistent T s.components s.indexes pack v.consistent v.fits named;
  }

  pub init_index-IsValid : IsValid T (init_index T s pack)
  unfolding init_index initialize_index queried
  init_index-IsValid = queried-IsValid

  matches : Matches T s.components pack ix.component_types ix.matching_entities ix.cached_components
  unfolding ix
  matches = get_or_create_index-Matches T s.components s.indexes pack v.consistent v.fits named

  -- Only entities have components, so what a query finds are entities.
  found_there : (x : ℕ) → has_all T.eq s.components pack x ≡ true → exists_at s x ≡ true
  found_there x all_there = elim (Bool-cases (exists_at s x)) [
    | inl e ↦ e
    | inr gone ↦
        let none_there =
          has_all_of_nothing T.eq s.components pack x named.0 (λ k. v.owned k x gone) in
        cc
  ]

  found_alive :
      (x : ℕ)
      → has_all T.eq s.components pack x ≡ true
      → has_entity s (entity (x % u32_mod) (get_or s.entity_versions x 0)) ≡ true
  found_alive x all_there =
      let there = found_there x all_there in
      let (inside, lt) = exists-lt T s x v there in
      ground (
        arith,
        has_entity_by_id s (entity (x % u32_mod) (get_or s.entity_versions x 0)) v.parallel,
        there,
        lt,
      )

  -- The rows of the entities that are found, in the order of the index.
  abbrev found_row : {D : Type 0} → D → ℕ → EntityRow D
  found_row d = entity_row d s.entity_versions (components_of T.eq s.components ix.component_types)

  -- Every raw id in the index is that of an entity, so its version is there to be read.
  found_version :
      (j : ℕ)
      → j < length ix.matching_entities
      → get_or ix.matching_entities j 0 < length s.entity_versions
  found_version j lt =
      let x = get_or ix.matching_entities j 0 in
      let listed = elem-get_or ix.matching_entities j 0 lt in
      let there = found_there x (sym (matches.all_and_only x) ∙ listed) in
      omega (arith, (exists-lt T s x v there).0, v.parallel)

  rows_of_entities :
      {D : Type 0} (d : D)
      → entity_rows d s.entity_versions ix.cached_components 0 ix.matching_entities
        ≡ ok (map (found_row d) ix.matching_entities)
  rows_of_entities d =
      let ids = ix.matching_entities in
      let f = components_of T.eq s.components ix.component_types in
      entity_rows-map d s.entity_versions f ix.cached_components 0 ids (λ j lt.
        let e : 0 + j ≡ j = omega arith in
        let inside : j < length (map f ids) = rw length-map (lt) in
        (
          found_version j lt,
          rw (e, matches.in_order)
              (at-get_or (map f ids) j [] inside ∙ ap ok (get_or-map f ids j 0 [] lt)),
        ))

  get_components_with_entities-queried :
      {D : Type 0} (d : D) (out : List (EntityRow D))
      → get_components_with_entities T s pack d out
        ≡ ok (queried, out ++ map (found_row d) ix.matching_entities)
  unfolding get_components_with_entities queried ix
  get_components_with_entities-queried {D} d out =
      let again = get_or_create_index_again T s.components s.indexes pack in
      let after : ComponentIndexes K × Index K → Outcome (EntityManager K W × List (EntityRow D)) =
        λ r.
          if length ix.matching_entities == 0
          then ok (queried, out)
          else (entity_rows d s.entity_versions r.1.cached_components 0 ix.matching_entities
              >>= λ found. ok (record s { indexes = r.0 }, out ++ found)) in
      ap after again
      ∙ skip_empty queried (found_row d) _ out ix.matching_entities (rows_of_entities d)

  -- The order of the tuples stays the same from then on.
  order_kept : tuple_order T queried.indexes pack ≡ tuple_order T s.indexes pack
  unfolding queried
  order_kept =
      let c = (get_or_create_index T s.indexes pack s.components).0 in
      let first = tuple_order-get_or_create_index T s.components s.indexes pack v.fits named in
      let second = tuple_order-get_or_create_index T s.components c pack v.fits named in
      sym second
      ∙ ap (λ r. r.1.component_types) (get_or_create_index_again T s.components s.indexes pack)
      ∙ first

  -- What a query finds, with the manager that it leaves.
  pub record Found (s' : EntityManager K W) (types : List K) (ids : List ℕ) : Type 0 where
    pub valid : IsValid T s'
    pub same_components : s'.components ≡ s.components
    pub same_entities : SameEntities s s'
    pub in_order : types ≡ tuple_order T s.indexes pack
    pub same_order : tuple_order T s'.indexes pack ≡ tuple_order T s.indexes pack
    pub found :
        Matches T s.components pack types ids (map (components_of T.eq s.components types) ids)
    pub alive :
        (x : ℕ)
        → elem ℕ_discrete x ids ≡ true
        → has_entity s (entity (x % u32_mod) (get_or s.entity_versions x 0)) ≡ true

  queried-Found : Found queried ix.component_types ix.matching_entities
  queried-Found = record {
    valid = queried-IsValid;
    same_components = unfold queried in refl;
    same_entities = unfold queried in (refl, refl, refl);
    in_order =
        unfold ix in tuple_order-get_or_create_index T s.components s.indexes pack v.fits named;
    same_order = order_kept;
    found = rw matches.in_order at matches;
    alive = λ x h. found_alive x (sym (matches.all_and_only x) ∙ h);
  }

  -- On a valid manager, for a pack of one type at least and none twice, `getComponentsWithEntities`
  -- returns and appends one row for each raw id that has all the components of the pack, and none else: with the
  -- extra data, the entity of that id, which the manager has, and its components, in the order of the
  -- index that was there for these types, and in that of the pack if there was none. The manager stays
  -- valid with the same entities and components, and with that order.
  pub get_components_with_entities_lem :
      {D : Type 0} (d : D) (out : List (EntityRow D))
      → (s' : EntityManager K W) × (types : List K) × (ids : List ℕ) × (get_components_with_entities
            T s pack d out
          ≡ ok (
            s',
            out ++ map (entity_row d s.entity_versions (components_of T.eq s.components types)) ids,
          ))
        × Found s' types ids
  get_components_with_entities_lem d out = (
    queried,
    ix.component_types,
    ix.matching_entities,
    get_components_with_entities-queried d out,
    queried-Found,
  )

  pub get_matching_entities_count-Found :
      (s' : EntityManager K W) × (types : List K) × (ids : List ℕ) × (get_matching_entities_count T
          s pack
        ≡ (s', length ids))
      × Found s' types ids
  unfolding get_matching_entities_count queried ix
  get_matching_entities_count-Found =
      (queried, ix.component_types, ix.matching_entities, refl, queried-Found)
