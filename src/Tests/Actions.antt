-- ===== src/Tests/Actions.antt =====
-- Single entities, lists of entities, scheduled actions and transfers of concrete managers.
use raccoon_ecs.Common.{
  ℕ, ◌≡◌, refl, true, false, List, [], ◌∷◌, ◌++◌, ◌%◌, ◌&&◌, map, elem, Unique, ltb, if◌then◌else◌,
  ◌==◌, inr, arith, get_or, ℕ_discrete, find,
}
use raccoon_ecs.Outcome.{ok, nullptr}
use raccoon_ecs.Entity.{Entity, entity, u32_mod, eq_entity}
use raccoon_ecs.ComponentMap.{component_at, get_component_vector_by_id}
use raccoon_ecs.Delegates.{broadcast}
use raccoon_ecs.Indexes.SparseSet.Add.{has_all, components_of}
use raccoon_ecs.EntityManager.{EntityManager, new_manager}
use raccoon_ecs.EntityManager.Entities.{has_entity, exists_at, collect_all_entities}
use raccoon_ecs.EntityManager.Invariant.{IsValid}
use raccoon_ecs.EntityManager.Components.{get_entity_components}
use raccoon_ecs.EntityManager.Queries.{get_entities_having_components}
use raccoon_ecs.EntityManager.Single.{until_missing, get_entity_components_lem}
use raccoon_ecs.EntityManager.Collecting.{
  listed, ListedOnce, collect_all_entities_lem, get_entities_having_components_lem,
}
use raccoon_ecs.EntityManager.Schedule.{
  schedule_add_component, schedule_remove_component, schedule_remove_entity,
  execute_scheduled_actions,
}
use raccoon_ecs.EntityManager.Scheduled.{rescheduled-IsValid}
use raccoon_ecs.EntityManager.Planned.{planned}
use raccoon_ecs.EntityManager.Executing.{execute_scheduled_actions_lem}
use raccoon_ecs.EntityManager.Transfer.{transfer_entity_to}
use raccoon_ecs.EntityManager.Transferring.{moved, transfer_entity_to_lem}
use raccoon_ecs.Tests.Concrete.{
  World, world, env, known, type_ids, two_entities, two_entities-IsValid, moving_entity,
  moving_entity-IsValid, pack, position, velocity,
}

get_entity_components_lem_example :
    (get_entity_components type_ids moving_entity (entity 1 0) pack ≡ (
      if exists_at moving_entity 1
      then until_missing (components_of ℕ_discrete moving_entity.components pack 1)
      else map (λ _. nullptr) pack))
    × (exists_at moving_entity 1 ≡ true
        → has_all ℕ_discrete moving_entity.components pack 1 ≡ true
        → get_entity_components type_ids moving_entity (entity 1 0) pack
          ≡ components_of ℕ_discrete moving_entity.components pack 1)
get_entity_components_lem_example =
    get_entity_components_lem type_ids env moving_entity (entity 1 0) pack

collect_all_entities_lem_example :
    (es : List Entity) × (collect_all_entities moving_entity ≡ ok es)
    × ((e : Entity) → listed e es ≡ has_entity moving_entity e)
    × ListedOnce es
collect_all_entities_lem_example =
    collect_all_entities_lem type_ids moving_entity moving_entity-IsValid

get_entities_having_components_lem_example :
    (ids : List ℕ) × (get_entities_having_components type_ids moving_entity pack []
      ≡ ok ([] ++ map (λ x. entity (x % u32_mod) (get_or moving_entity.entity_versions x 0)) ids))
    × Unique ℕ_discrete ids
    × ((x : ℕ)
        → elem ℕ_discrete x ids
          ≡ (ltb x 4294967295 && has_all ℕ_discrete moving_entity.components pack x))
get_entities_having_components_lem_example =
    get_entities_having_components_lem type_ids moving_entity position (velocity ∷ []) []
      moving_entity-IsValid

-- A velocity for the first entity, no velocity for the second, which is to go.
abbrev scheduled : EntityManager ℕ World
scheduled =
    schedule_remove_entity
      (schedule_remove_component (schedule_add_component moving_entity (entity 0 0) 103 velocity)
        (entity 1 0) velocity)
      (entity 1 0)

scheduled-IsValid : IsValid type_ids scheduled
unfolding schedule_remove_entity schedule_remove_component schedule_add_component
scheduled-IsValid =
    rescheduled-IsValid type_ids moving_entity moving_entity-IsValid
      scheduled.scheduled_component_additions scheduled.scheduled_component_removals
      scheduled.scheduled_entity_removals

execute_scheduled_actions_lem_example :
    (s' : EntityManager ℕ World) × (w' : World) × (execute_scheduled_actions type_ids env scheduled
        world
      ≡ ok (s', w'))
    × IsValid type_ids s'
    × ((e : Entity)
        → has_entity s' e ≡ (
            if listed e scheduled.scheduled_entity_removals then false else has_entity scheduled e))
    × (s'.scheduled_component_additions ≡ [])
    × (s'.scheduled_component_removals ≡ [])
    × (s'.scheduled_entity_removals ≡ [])
    × ((j : ℕ) (x : ℕ) → component_at ℕ_discrete s'.components j x ≡ planned type_ids j x scheduled)
unfolding schedule_remove_entity schedule_remove_component schedule_add_component new_manager
    component_at get_component_vector_by_id find ℕ_discrete
execute_scheduled_actions_lem_example =
    execute_scheduled_actions_lem type_ids env known scheduled world scheduled-IsValid (refl, tt)

transfer_entity_to_lem_example :
    (s' target' : EntityManager ℕ World) × (e' : Entity) × (transfer_entity_to type_ids env false
        moving_entity two_entities
        (entity 1 0)
        world
      ≡ ok (s', target', e', broadcast two_entities.on_entity_added tt world))
    × IsValid type_ids s'
    × IsValid type_ids target'
    × (has_entity two_entities e' ≡ false)
    × ((x : Entity)
        → has_entity s' x
          ≡ (if eq_entity (entity 1 0) x then false else has_entity moving_entity x))
    × ((x : Entity)
        → has_entity target' x ≡ (if eq_entity e' x then true else has_entity two_entities x))
    × ((k : ℕ) (x : ℕ)
        → component_at ℕ_discrete s'.components k x
          ≡ (if 1 == x then nullptr else component_at ℕ_discrete moving_entity.components k x))
    × ((k : ℕ) (x : ℕ)
        → component_at ℕ_discrete target'.components k x
          ≡ moved ℕ_discrete moving_entity.components 1 e'.raw_id two_entities k x)
unfolding has_entity new_manager
transfer_entity_to_lem_example =
    transfer_entity_to_lem type_ids env moving_entity two_entities (entity 1 0) world
      moving_entity-IsValid two_entities-IsValid refl (inr (omega arith))
