-- ===== src/EntityManager/Single.antt =====
-- entity_manager.h: what `getEntityComponents` and `doesEntityHaveComponent` answer for one entity.
use raccoon_ecs.Common.{
  ℕ, ◌≡◌, refl, true, false, not, List, [], ◌∷◌, map, arith, get_or, ◌==◌, if◌then◌else◌,
  get_or_beyond, ap,
}
use raccoon_ecs.Outcome.{Ptr, nullptr}
use raccoon_ecs.Env.{Env, check_component_of_non_existent}
use raccoon_ecs.Entity.{Entity}
use raccoon_ecs.TypeId.{TypeId}
use raccoon_ecs.ComponentMap.{
  ComponentMap, component_at, get_component_vector_by_id, get_component_vectors,
}
use raccoon_ecs.Indexes.SparseSet.Add.{has_all, components_of}
use raccoon_ecs.EntityManager.{EntityManager}
use raccoon_ecs.EntityManager.Entities.{exists_at}
use raccoon_ecs.EntityManager.Components.{
  get_entity_components, get_entity_component_set, get_empty_components, does_entity_have_component,
}

-- The pointers before the first null, and nulls from there on.
abbrev pub until_missing : List Ptr → List Ptr
until_missing [] = []
until_missing (p ∷ ps) =
    if p == nullptr then nullptr ∷ map (λ _. nullptr) ps else p ∷ until_missing ps

map_nulls :
    {K : Type 0} (f : K → Ptr) (ks : List K) → map (λ _. nullptr) (map f ks) ≡ map (λ _. nullptr) ks
map_nulls f [] = refl
map_nulls f (k ∷ ks) = ap (λ ps. nullptr ∷ ps) (map_nulls f ks)

module _ {K : Type 0} (dec : Discrete K) (m : ComponentMap K) where
  get_entity_component_set-until_missing :
      (ks : List K) (i : ℕ)
      → get_entity_component_set ks i (map (get_component_vector_by_id dec m) ks)
        ≡ until_missing (components_of dec m ks i)
  unfolding get_entity_component_set get_empty_components components_of component_at
  get_entity_component_set-until_missing [] i = refl
  get_entity_component_set-until_missing (k ∷ ks) i = ground (
    arith,
    get_or_beyond (get_component_vector_by_id dec m k) i nullptr,
    map_nulls (λ j. get_or (get_component_vector_by_id dec m j) i nullptr) ks,
    get_entity_component_set-until_missing ks i,
  )

  get_component_vectors-until_missing :
      (ks : List K) (i : ℕ)
      → get_entity_component_set ks i (get_component_vectors dec m ks)
        ≡ until_missing (components_of dec m ks i)
  unfolding get_entity_component_set get_empty_components components_of component_at
      get_component_vectors get_component_vector_by_id
  get_component_vectors-until_missing [] i = refl
  get_component_vectors-until_missing (k ∷ ks) i = ground (
    arith,
    map_nulls (λ j. get_or (get_component_vector_by_id dec m j) i nullptr) ks,
    get_entity_component_set-until_missing (k ∷ ks) i,
  )

  until_missing-has_all :
      (ks : List K) (i : ℕ)
      → has_all dec m ks i ≡ true
      → until_missing (components_of dec m ks i) ≡ components_of dec m ks i
  unfolding has_all components_of
  until_missing-has_all [] i h = refl
  until_missing-has_all (k ∷ ks) i h = ground (arith, until_missing-has_all ks i)

module _ {K W : Type 0} (T : TypeId K) (E : Env K W) (s : EntityManager K W) (e : Entity) where
  -- For an id with an entity `getEntityComponents` gives the components in the order of the pack up
  -- to the first that the entity lacks, and nulls from there on, so all of them if the entity has
  -- all; for any other id it gives nulls alone.
  pub get_entity_components_lem :
      (pack : List K)
      → (get_entity_components T s e pack ≡ (
          if exists_at s e.raw_id
          then until_missing (components_of T.eq s.components pack e.raw_id)
          else map (λ _. nullptr) pack))
        × (exists_at s e.raw_id ≡ true
            → has_all T.eq s.components pack e.raw_id ≡ true
            → get_entity_components T s e pack ≡ components_of T.eq s.components pack e.raw_id)
  unfolding get_entity_components get_empty_components exists_at
  get_entity_components_lem pack = (
    ground (
      arith,
      get_component_vectors-until_missing T.eq s.components pack e.raw_id,
      get_or_beyond s.entity_existance_flags e.raw_id false,
    ),
    λ there all_there. ground (
      arith,
      get_component_vectors-until_missing T.eq s.components pack e.raw_id,
      until_missing-has_all T.eq s.components pack e.raw_id,
      get_or_beyond s.entity_existance_flags e.raw_id false,
    ),
  )

  -- `doesEntityHaveComponent` answers whether the component map has a component of the type at the
  -- id, and reports an error and answers false if the id has no entity.
  pub does_entity_have_component_lem :
      (k : K) (w : W)
      → does_entity_have_component T E s e k w ≡ (
          if exists_at s e.raw_id
          then (not (component_at T.eq s.components k e.raw_id == nullptr), w)
          else (false, E.report (check_component_of_non_existent k e.raw_id) w))
  unfolding does_entity_have_component exists_at component_at
  does_entity_have_component_lem k w = ground (
    arith,
    get_or_beyond (get_component_vector_by_id T.eq s.components k) e.raw_id nullptr,
    get_or_beyond s.entity_existance_flags e.raw_id false,
  )
