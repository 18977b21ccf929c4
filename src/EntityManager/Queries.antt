-- ===== src/EntityManager/Queries.antt =====
-- entity_manager.h: queries for all the entities with a pack of component types. `AdditionalData...`
-- is one value of a type `D`, and a processor is a function on the surroundings.
use raccoon_ecs.Common.{
  ℕ, zero, suc, ◌+◌, ◌%◌, not, List, [], ◌∷◌, ◌++◌, map, length, get_or, min, all, ◌==◌,
  if◌then◌else◌,
}
use raccoon_ecs.Outcome.{Ptr, nullptr, Outcome, ok, ◌>>=◌}
use raccoon_ecs.Entity.{Entity, entity, u32_mod}
use raccoon_ecs.TypeId.{TypeId}
use raccoon_ecs.ComponentMap.{get_component_vector_by_id}
use raccoon_ecs.Indexes
use raccoon_ecs.Indexes.{initialize_index, get_index, get_index_size}
use raccoon_ecs.EntityManager.{EntityManager}
use raccoon_ecs.EntityManager.Entities.{at}

-- `std::tuple_cat(std::make_tuple(data...), componentSet)`
pub record Row (D : Type 0) : Type 0 where
  pub extra : D
  pub set : List Ptr

-- The same with an entity between.
pub record EntityRow (D : Type 0) : Type 0 where
  pub extra : D
  pub entity : Entity
  pub set : List Ptr

-- The loop of `getComponents`.
unfoldable pub rows : {D : Type 0} → D → List (List Ptr) → List (Row D)
rows d [] = []
rows d (set ∷ sets) = record { extra = d; set = set } ∷ rows d sets

-- The loop of `getComponentsWithEntities`, from the place `i` of the index on.
unfoldable pub entity_rows :
    {D : Type 0} → D → List ℕ → List (List Ptr) → ℕ → List ℕ → Outcome (List (EntityRow D))
unfolding at
entity_rows d versions sets i [] = ok []
entity_rows d versions sets i (id ∷ ids) = do
  version ← at versions id
  set ← at sets i
  rest ← entity_rows d versions sets (i + 1) ids
  ok (record { extra = d; entity = entity (id % u32_mod) version; set = set } ∷ rest)

-- The loop of `forEachComponentSet`.
unfoldable pub process_rows : {D W : Type 0} → (Row D → W → W) → List (Row D) → W → W
process_rows f [] w = w
process_rows f (r ∷ rs) w = process_rows f rs (f r w)

-- The loop of `forEachComponentSetWithEntity`.
unfoldable pub process_entity_rows :
    {D W : Type 0} → (EntityRow D → W → W) → List (EntityRow D) → W → W
process_entity_rows f [] w = w
process_entity_rows f (r ∷ rs) w = process_entity_rows f rs (f r w)

-- The first loop of `getEntitiesHavingComponents`: the end of the shortest vector.
unfoldable pub shortest_end : List (List Ptr) → ℕ → ℕ
shortest_end [] n = n
shortest_end (v ∷ vs) n = shortest_end vs (min n (length v))

-- Its second loop, over `n` ids from `i` on.
unfoldable pub having_loop : List (List Ptr) → List ℕ → ℕ → ℕ → Outcome (List Entity)
unfolding at
having_loop vectors versions zero i = ok []
having_loop vectors versions (suc n) i =
    let rest = having_loop vectors versions n (i + 1) in
    if all (λ v. not (get_or v i nullptr == nullptr)) vectors
    then (at versions i >>= λ version. rest >>= λ es. ok (entity (i % u32_mod) version ∷ es))
    else rest

module _ {K W : Type 0} (T : TypeId K) where
  -- `getComponents<Components...>`
  unfoldable pub get_components :
      {D : Type 0}
      → EntityManager K W
      → List K
      → D
      → List (Row D)
      → EntityManager K W × List (Row D)
  unfolding rows Indexes.get_components
  get_components s pack d out =
      let (indexes, sets) = Indexes.get_components T s.indexes pack s.components in
      (record s { indexes = indexes }, out ++ rows d sets)

  -- `getComponentsWithEntities<Components...>`
  unfoldable pub get_components_with_entities :
      {D : Type 0}
      → EntityManager K W
      → List K
      → D
      → List (EntityRow D)
      → Outcome (EntityManager K W × List (EntityRow D))
  unfolding entity_rows get_index Indexes.get_components
  get_components_with_entities s pack d out =
      let (indexes, ids) = get_index T s.indexes pack s.components in
      let (indexes', sets) = Indexes.get_components T indexes pack s.components in
      if length ids == 0
      then ok (record s { indexes = indexes }, out)
      else (entity_rows d s.entity_versions sets 0 ids >>= λ found.
          ok (record s { indexes = indexes' }, out ++ found))

  -- `forEachComponentSet<Components...>`
  unfoldable pub for_each_component_set :
      {D : Type 0} → EntityManager K W → List K → D → (Row D → W → W) → W → EntityManager K W × W
  unfolding rows process_rows Indexes.get_components
  for_each_component_set s pack d f w =
      let (indexes, sets) = Indexes.get_components T s.indexes pack s.components in
      (record s { indexes = indexes }, process_rows f (rows d sets) w)

  -- `forEachComponentSetWithEntity<Components...>`
  unfoldable pub for_each_component_set_with_entity :
      {D : Type 0}
      → EntityManager K W
      → List K
      → D
      → (EntityRow D → W → W)
      → W
      → Outcome (EntityManager K W × W)
  unfolding entity_rows process_entity_rows get_index Indexes.get_components
  for_each_component_set_with_entity s pack d f w =
      let (indexes, ids) = get_index T s.indexes pack s.components in
      let (indexes', sets) = Indexes.get_components T indexes pack s.components in
      if length ids == 0
      then ok (record s { indexes = indexes }, w)
      else (entity_rows d s.entity_versions sets 0 ids >>= λ found.
          ok (record s { indexes = indexes' }, process_entity_rows f found w))

  -- `getMatchingEntitiesCount<Components...>`
  unfoldable pub get_matching_entities_count : EntityManager K W → List K → EntityManager K W × ℕ
  unfolding get_index_size
  get_matching_entities_count s pack =
      let (indexes, n) = get_index_size T s.indexes pack s.components in
      (record s { indexes = indexes }, n)

  -- `initIndex<Components...>`
  unfoldable pub init_index : EntityManager K W → List K → EntityManager K W
  unfolding initialize_index
  init_index s pack = record s { indexes = initialize_index T s.indexes pack s.components }

  -- `getEntitiesHavingComponents`, with the greatest `RawId` as the first end.
  unfoldable pub get_entities_having_components :
      EntityManager K W → List K → List Entity → Outcome (List Entity)
  unfolding shortest_end having_loop get_component_vector_by_id
  get_entities_having_components s [] out = ok out
  get_entities_having_components s (k ∷ ks) out =
      let vectors = map (get_component_vector_by_id T.eq s.components) (k ∷ ks) in
      having_loop vectors s.entity_versions (shortest_end vectors 4294967295) 0 >>= λ found.
      ok (out ++ found)
