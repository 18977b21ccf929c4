-- ===== src/EntityManager/Components.antt =====
-- entity_manager.h: components of single entities.
use raccoon_ecs.Common.{
  ℕ, ◌+◌, Bool, false, ◌&&◌, ◌||◌, not, List, [], ◌∷◌, ◌++◌, map, length, get_or, set, resize, leb,
  ltb, ◌==◌, if◌then◌else◌, modify,
}
use raccoon_ecs.Outcome.{Ptr, nullptr, Outcome, ok, ◌>>=◌}
use raccoon_ecs.Env.{
  Env, call_creator, call_deleter, check_component_of_non_existent, add_component_to_non_existent,
  remove_component_from_non_existent, component_already_added,
}
use raccoon_ecs.Entity.{Entity}
use raccoon_ecs.TypeId.{TypeId}
use raccoon_ecs.TypedComponent.{TypedComponent}
use raccoon_ecs.ComponentMap.{
  ComponentMap, get_component_vector_by_id, get_or_create_component_vector_by_id,
  get_component_vectors,
}
use raccoon_ecs.Indexes.{on_component_added, on_component_removed}
use raccoon_ecs.EntityManager.{EntityManager}

-- The loop of `getAllEntityComponents` over the component vectors.
unfoldable pub components_at : {K : Type 0} → ComponentMap K → ℕ → List (TypedComponent K)
components_at [] i = []
components_at ((k, ps) ∷ m) i =
    if ltb i (length ps) && not (get_or ps i nullptr == nullptr)
    then record { type_id = k; component = get_or ps i nullptr } ∷ components_at m i
    else components_at m i

-- `getEmptyComponents<Components...>`
unfoldable pub get_empty_components : {K : Type 0} → List K → List Ptr
get_empty_components pack = map (λ _. nullptr) pack

-- `getEntityComponentSetInner`: nulls from the first component on that is missing.
unfoldable pub get_entity_component_set : {K : Type 0} → List K → ℕ → List (List Ptr) → List Ptr
unfolding get_empty_components
get_entity_component_set [] i vectors = []
get_entity_component_set (k ∷ ks) i [] = []
get_entity_component_set (k ∷ ks) i (v ∷ vectors) =
    if leb (length v) i
    then get_empty_components (k ∷ ks)
    else if get_or v i nullptr == nullptr
    then get_empty_components (k ∷ ks)
    else get_or v i nullptr ∷ get_entity_component_set ks i vectors

module _ {K W : Type 0} where
  -- `getAllEntityComponents`
  unfoldable pub get_all_entity_components :
      EntityManager K W → Entity → List (TypedComponent K) → List (TypedComponent K)
  unfolding components_at
  get_all_entity_components s e out =
      if ltb e.raw_id (length s.entity_existance_flags)
        && get_or s.entity_existance_flags e.raw_id false
      then out ++ components_at s.components e.raw_id
      else out

module _ {K W : Type 0} (T : TypeId K) where
  -- The end of `removeComponent`, with the vectors as they are by then.
  unfoldable pub unindex : EntityManager K W → ComponentMap K → K → ℕ → EntityManager K W
  unfolding on_component_removed
  unindex s components k i = record s {
    components = components;
    indexes = on_component_removed T s.indexes k i;
  }

  -- `getEntityComponents<Components...>`
  unfoldable pub get_entity_components : EntityManager K W → Entity → List K → List Ptr
  unfolding get_entity_component_set get_empty_components get_component_vectors
  get_entity_components s e pack =
      if leb (length s.entity_existance_flags) e.raw_id
        || not (get_or s.entity_existance_flags e.raw_id false)
      then get_empty_components pack
      else get_entity_component_set pack e.raw_id (get_component_vectors T.eq s.components pack)

module _ {K W : Type 0} (T : TypeId K) (E : Env K W) where
  -- `doesEntityHaveComponent`
  unfoldable pub does_entity_have_component : EntityManager K W → Entity → K → W → Bool × W
  does_entity_have_component s e k w =
      let i = e.raw_id in
      if ltb i (length s.entity_existance_flags) && get_or s.entity_existance_flags i false
      then (let vector = get_component_vector_by_id T.eq s.components k in
          (ltb i (length vector) && not (get_or vector i nullptr == nullptr), w))
      else (false, E.report (check_component_of_non_existent k i) w)

  -- `addComponentToEntity`
  unfoldable pub add_component_to_entity :
      EntityManager K W → ℕ → Ptr → K → W → EntityManager K W × W
  unfolding on_component_added get_component_vector_by_id get_or_create_component_vector_by_id
  add_component_to_entity s i component k w =
      let created = get_or_create_component_vector_by_id T.eq s.components k in
      let vector = get_component_vector_by_id T.eq created k in
      let resized = if leb (length vector) i then resize vector (i + 1) nullptr else vector in
      if get_or resized i nullptr == nullptr
      then (let components = modify T.eq k (λ _. set resized i component) created in
          (
            record s {
              components = components;
              indexes = on_component_added T s.indexes k i components;
            },
            w,
          ))
      else (let components = modify T.eq k (λ _. resized) created in
          (
            record s {
              components = components;
              indexes = on_component_added T s.indexes k i components;
            },
            E.report (component_already_added i k) w,
          ))

  -- `addComponent(entity, component, typeId)`
  unfoldable pub add_component : EntityManager K W → Entity → Ptr → K → W → EntityManager K W × W
  unfolding add_component_to_entity
  add_component s e component k w =
      let i = e.raw_id in
      if leb (length s.entity_existance_flags) i || not (get_or s.entity_existance_flags i false)
      then (s, E.report (add_component_to_non_existent k i) w)
      else add_component_to_entity s i component k w

  -- `addComponentByType`, and `addComponent<ComponentType>`
  unfoldable pub add_component_by_type :
      EntityManager K W → Entity → K → W → Outcome (EntityManager K W × Ptr × W)
  unfolding add_component call_creator
  add_component_by_type s e k w = do
    (component, w') ← call_creator E k w
    let (s', w'') = add_component s e component k w'
    ok (s', component, w'')

  -- `removeComponent(entity, typeId)`, and `removeComponent<ComponentType>`
  unfoldable pub remove_component :
      EntityManager K W → Entity → K → W → Outcome (EntityManager K W × W)
  unfolding unindex call_deleter get_component_vector_by_id
  remove_component s e k w =
      let i = e.raw_id in
      let vector = get_component_vector_by_id T.eq s.components k in
      if leb (length s.entity_existance_flags) i || not (get_or s.entity_existance_flags i false)
      then ok (s, E.report (remove_component_from_non_existent k i) w)
      else if ltb i (length vector)
      then (do
        w' ← call_deleter E k (get_or vector i nullptr) w
        ok (unindex T s (modify T.eq k (λ ps. set ps i nullptr) s.components) k i, w'))
      else ok (unindex T s s.components k i, w)
