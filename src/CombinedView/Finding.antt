-- ===== src/CombinedView/Finding.antt =====
-- utils/combined_entity_manager_view.h: what the queries over several managers find.
use raccoon_ecs.Common.{
  ◌∙◌, ap, ℕ, ◌+◌, ◌%◌, ◌^◌, ◌≡◌, refl, true, List, ◌++◌, length, get_or, map, elem, ℕ_discrete,
}
use raccoon_ecs.Outcome.{Ptr, ok}
use raccoon_ecs.Entity.{entity, u32_mod}
use raccoon_ecs.TypeId.{TypeId}
use raccoon_ecs.Indexes.SparseSet.Add.{components_of}
use raccoon_ecs.Indexes.Query.{IsPack}
use raccoon_ecs.Indexes.TupleOrder.{tuple_order}
use raccoon_ecs.Indexes.Listing.{Matches}
use raccoon_ecs.EntityManager.{EntityManager}
use raccoon_ecs.EntityManager.Entities.{has_entity}
use raccoon_ecs.EntityManager.Invariant.{IsValid}
use raccoon_ecs.EntityManager.Queries.{EntityRow, process_entity_rows}
use raccoon_ecs.EntityManager.Rows.{entity_row}
use raccoon_ecs.EntityManager.Querying.{
  Found, get_matching_entities_count-Found, get_components_with_entities_lem,
}
use raccoon_ecs.EntityView.{Managers, EntityView}
use raccoon_ecs.CombinedView.{
  Record, CombinedView, get_components_with_entities_and_extra_data, get_matching_entities_count,
}
use raccoon_ecs.CombinedView.Loop.{Same, SameAll, AllValid, InRange, Runs, for_each_record-Runs}

module _ {K W : Type 0} (T : TypeId K) (pack : List K) where
  -- The raw ids are those with all the components of the pack, each once, and their entities are there.
  pub record Finds (s : EntityManager K W) (types : List K) (ids : List ℕ) : Type 0 where
    pub found :
        Matches T s.components pack types ids (map (components_of T.eq s.components types) ids)
    pub alive :
        (x : ℕ)
        → elem ℕ_discrete x ids ≡ true
        → has_entity s (entity (x % u32_mod) (get_or s.entity_versions x 0)) ≡ true
    pub in_order : types ≡ tuple_order T s.indexes pack

  -- The order of the tuples of the query in a manager.
  abbrev pub order_in : EntityManager K W → List K
  order_in s = tuple_order T s.indexes pack

  Finds-Same :
      (s s' : EntityManager K W) (types : List K) (ids : List ℕ)
      → Same order_in s s'
      → Finds s' types ids
      → Finds s types ids
  Finds-Same s s' types ids (components, (versions, flags, free), order) f = record {
    found = rw components at f.found;
    alive = unfold has_entity in rw (versions, flags) at f.alive;
    in_order = f.in_order ∙ order;
  }

  Found-Same :
      (s s' : EntityManager K W) (types : List K) (ids : List ℕ) (v : IsValid T s)
      (named : IsPack T pack)
      → Found T s pack v named s' types ids
      → IsValid T s' × Same order_in s s' × Finds s types ids
  Found-Same s s' types ids v named f = (
    f.valid,
    (f.same_components, f.same_entities, f.same_order),
    record { found = f.found; alive = f.alive; in_order = f.in_order },
  )

  -- The rows of a manager for the raw ids.
  abbrev pub rows_of : {D : Type 0} → D → EntityManager K W → List K → List ℕ → List (EntityRow D)
  rows_of d s types ids =
      map (entity_row d s.entity_versions (components_of T.eq s.components types)) ids

  -- A step appends a row for each entity of the manager that has all the components.
  abbrev pub AddsRows :
      {D : Type 0} → Record D → EntityManager K W → List (EntityRow D) → List (EntityRow D) → Type 0
  AddsRows r s a b =
      (types : List K) × (ids : List ℕ) × Finds s types ids
      × (b ≡ a ++ rows_of r.extra_data s types ids)

  -- A step adds the number of these entities, as a `size_t`.
  abbrev pub Counts : {D : Type 0} → Record D → EntityManager K W → ℕ → ℕ → Type 0
  Counts r s a b =
      (types : List K) × (ids : List ℕ) × Finds s types ids × (b ≡ (a + length ids) % 2 ^ 64)

  -- A step calls the processor for each of these entities, with a view of it.
  abbrev pub Processes :
      {D : Type 0}
      → (D → EntityView → List Ptr → W → W)
      → Record D
      → EntityManager K W
      → W
      → W
      → Type 0
  Processes processor r s a b =
      (types : List K) × (ids : List ℕ) × Finds s types ids
      × (b
          ≡ process_entity_rows
              (λ row.
                processor row.extra (record { entity = row.entity; manager = r.entity_manager })
                  row.set)
              (rows_of r.extra_data s types ids) a)

module _ {K W D : Type 0} (T : TypeId K) (pack : List K) (named : IsPack T pack)
    (view : CombinedView D) (ms : Managers K W) (all : AllValid T ms)
    (inside : InRange view ms) where
  -- On valid managers, all references of the view leading to one of them,
  -- `getComponentsWithEntitiesAndExtraData` returns; for each record in turn it appends one row for
  -- each raw id of its manager that has all the components, and none else: with the extra data of the
  -- record, the entity of that id, which the manager has, and its components. The managers stay valid,
  -- with the same entities and components, also where records share one.
  pub combined_rows :
      (out : List (EntityRow D))
      → (ms' : Managers K W) × (out' : List (EntityRow D))
        × (get_components_with_entities_and_extra_data T pack view ms out ≡ ok (ms', out'))
        × AllValid T ms'
        × SameAll (order_in T pack) ms ms'
        × Runs (AddsRows T pack) view ms out out'
  unfolding get_components_with_entities_and_extra_data
  combined_rows out =
      for_each_record-Runs T (order_in T pack) _ (AddsRows T pack)
        (λ r s a v.
          let (s', types, ids, done, found) =
            get_components_with_entities_lem T s pack v named r.extra_data a in
          let (valid, same, finds) = Found-Same T pack s s' types ids v named found in
          (s', _, done, valid, same, (types, ids, finds, refl)))
        (λ r s s' a b same (types, ids, finds, e).
          (types, ids, Finds-Same T pack s s' types ids same finds, rw (same.0, same.1.0) at e))
        view ms out all inside

  -- On valid managers, all references of the view leading to one of them, `getMatchingEntitiesCount`
  -- returns the sum of the numbers of the entities with all the components, over the records, as a
  -- `size_t` that wraps around; the managers stay valid, with the same entities and components.
  pub combined_count :
      (ms' : Managers K W) × (n : ℕ) × (get_matching_entities_count T pack view ms ≡ ok (ms', n))
      × AllValid T ms'
      × SameAll (order_in T pack) ms ms'
      × Runs (Counts T pack) view ms 0 n
  unfolding get_matching_entities_count
  combined_count =
      for_each_record-Runs T (order_in T pack) _ (Counts T pack)
        (λ r s a v.
          let (s', types, ids, count, found) = get_matching_entities_count-Found T s pack v named in
          let (valid, same, finds) = Found-Same T pack s s' types ids v named found in
          (
            s',
            _,
            ap (λ q. ok (q.0, (a + q.1) % 2 ^ 64)) count,
            valid,
            same,
            (types, ids, finds, refl),
          ))
        (λ r s s' a b same (types, ids, finds, e).
          (types, ids, Finds-Same T pack s s' types ids same finds, e))
        view ms 0 all inside
