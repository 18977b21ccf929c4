-- ===== src/Tests/Components.antt =====
-- Components of concrete managers, and queries for them.
use raccoon_ecs.Common.{
  ◌⊎◌, ℕ, ◌≡◌, refl, true, List, [], ◌++◌, map, if◌then◌else◌, ◌==◌, ite, ℕ_discrete, find,
}
use raccoon_ecs.Outcome.{ok, nullptr}
use raccoon_ecs.Env.{call_deleter}
use raccoon_ecs.Entity.{Entity, entity}
use raccoon_ecs.ComponentMap.{component_at}
use raccoon_ecs.Indexes.SparseSet.Add.{components_of}
use raccoon_ecs.EntityManager.{EntityManager, new_manager}
use raccoon_ecs.EntityManager.Entities.{has_entity, exists_at}
use raccoon_ecs.EntityManager.Components.{add_component, remove_component}
use raccoon_ecs.EntityManager.Invariant.{IsValid}
use raccoon_ecs.EntityManager.Owning.{add_component_lem, remove_component_lem}
use raccoon_ecs.EntityManager.Queries.{get_components_with_entities, init_index}
use raccoon_ecs.EntityManager.Rows.{entity_row}
use raccoon_ecs.EntityManager.Querying.{Found, get_components_with_entities_lem}
use raccoon_ecs.Tests.Concrete.{
  World, world, env, known, type_ids, indexed, indexed-IsValid, moving_entity,
  moving_entity-IsValid, pack, pack-IsPack, velocity,
}

add_component_lem_example :
    (s' : EntityManager ℕ World) × (add_component type_ids env indexed
        (entity 0 0)
        103
        velocity
        world
      ≡ (s', world))
    × IsValid type_ids s'
    × ((j : ℕ) (x : ℕ)
        → component_at ℕ_discrete s'.components j x
          ≡ ite
              (ℕ_discrete velocity j)
              (if 0 == x then 103 else component_at ℕ_discrete indexed.components j x)
              (component_at ℕ_discrete indexed.components j x))
    × ((e' : Entity) → has_entity s' e' ≡ has_entity indexed e')
unfolding init_index exists_at new_manager component_at find ℕ_discrete
add_component_lem_example =
    add_component_lem type_ids env indexed (entity 0 0) velocity world indexed-IsValid 103 refl refl

remove_component_lem_example :
    (s' : EntityManager ℕ World) × (w' : World) × (remove_component type_ids env indexed
        (entity 1 0)
        velocity
        world
      ≡ ok (s', w'))
    × IsValid type_ids s'
    × ((j : ℕ) (x : ℕ)
        → component_at ℕ_discrete s'.components j x
          ≡ ite
              (ℕ_discrete velocity j)
              (if 1 == x then nullptr else component_at ℕ_discrete indexed.components j x)
              (component_at ℕ_discrete indexed.components j x))
    × ((e' : Entity) → has_entity s' e' ≡ has_entity indexed e')
    × ((call_deleter env velocity (component_at ℕ_discrete indexed.components velocity 1) world
          ≡ ok w')
        ⊎ ((component_at ℕ_discrete indexed.components velocity 1 ≡ nullptr) × (w' ≡ world)))
unfolding init_index exists_at new_manager
remove_component_lem_example =
    remove_component_lem type_ids env indexed (entity 1 0) velocity world indexed-IsValid refl
      (known 3)

get_components_with_entities_lem_example :
    (s' : EntityManager ℕ World) × (types : List ℕ) × (ids : List ℕ) × (get_components_with_entities
        type_ids moving_entity pack true []
      ≡ ok (
        s',
        []
            ++ map
                (entity_row true moving_entity.entity_versions
                  (components_of ℕ_discrete moving_entity.components types))
                ids,
      ))
    × Found type_ids moving_entity pack moving_entity-IsValid pack-IsPack s' types ids
get_components_with_entities_lem_example =
    get_components_with_entities_lem type_ids moving_entity pack moving_entity-IsValid pack-IsPack
      true []
