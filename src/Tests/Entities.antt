-- ===== src/Tests/Entities.antt =====
-- Entities of concrete managers.
use raccoon_ecs.Common.{
  ℕ, ◌≡◌, refl, true, false, [], ◌∷◌, if◌then◌else◌, ◌==◌, inl, inr, arith, get_or, ℕ_discrete,
}
use raccoon_ecs.Outcome.{ok, nullptr}
use raccoon_ecs.Env.{entity_already_removed, remove_non_existent_entity}
use raccoon_ecs.Entity.{Entity, entity, eq_entity}
use raccoon_ecs.ComponentMap.{component_at}
use raccoon_ecs.Delegates.{broadcast}
use raccoon_ecs.EntityManager.{EntityManager, new_manager}
use raccoon_ecs.EntityManager.Entities.{has_entity, add_entity, remove_entity, exists_at}
use raccoon_ecs.EntityManager.Invariant.{IsValid}
use raccoon_ecs.EntityManager.Adding.{add_entity_fresh}
use raccoon_ecs.EntityManager.Removing.{remove_entity_lem, remove_entity_refused}
use raccoon_ecs.EntityManager.History.{start, later, entity_added, Steps-IsValid, stale_handle}
use raccoon_ecs.EntityManager.Queries.{init_index}
use raccoon_ecs.EntityManager.Storage.{clear, clear_caches}
use raccoon_ecs.EntityManager.Clearing.{clear_lem, clear_caches_lem}
use raccoon_ecs.Tests.Concrete.{
  World, world, env, known, type_ids, two_entities, two_entities-IsValid, indexed, indexed-IsValid,
  moving_entity, moving_entity-IsValid, reached,
}

add_entity_fresh_example :
    (s' : EntityManager ℕ World) × (e : Entity) × (add_entity env two_entities world
      ≡ ok (s', e, broadcast two_entities.on_entity_added tt world))
    × IsValid type_ids s'
    × (has_entity two_entities e ≡ false)
    × ((e' : Entity)
        → has_entity s' e' ≡ (if eq_entity e e' then true else has_entity two_entities e'))
    × (s'.components ≡ two_entities.components)
add_entity_fresh_example =
    add_entity_fresh type_ids env two_entities world two_entities-IsValid (inr (omega arith))

remove_entity_lem_example :
    (s' : EntityManager ℕ World) × (w' : World) × (remove_entity env moving_entity
        (entity 1 0)
        world
      ≡ ok (s', w'))
    × IsValid type_ids s'
    × ((e' : Entity)
        → has_entity s' e'
          ≡ (if eq_entity (entity 1 0) e' then false else has_entity moving_entity e'))
    × ((k : ℕ) (j : ℕ)
        → component_at ℕ_discrete s'.components k j
          ≡ (if 1 == j then nullptr else component_at ℕ_discrete moving_entity.components k j))
unfolding has_entity new_manager
remove_entity_lem_example =
    remove_entity_lem type_ids env moving_entity (entity 1 0) world moving_entity-IsValid refl
      (known 7, (known 3, tt))

remove_entity_refused_example :
    remove_entity env two_entities (entity 1 5) world
    ≡ ok (
      two_entities,
      env.report
          (if exists_at two_entities 1
            then entity_already_removed 1 (get_or two_entities.entity_versions 1 0) 5
            else remove_non_existent_entity 1)
          world,
    )
unfolding has_entity new_manager
remove_entity_refused_example =
    remove_entity_refused type_ids env two_entities (entity 1 5) world two_entities-IsValid refl

Steps-IsValid_example : IsValid type_ids indexed
Steps-IsValid_example = Steps-IsValid type_ids env known indexed reached

-- Two entities of which the second is gone, and its id in use again.
abbrev second_removed : EntityManager ℕ World
second_removed = record two_entities {
  entity_versions = 0 ∷ 1 ∷ [];
  entity_existance_flags = true ∷ false ∷ [];
  free_entity_ids = 1 ∷ [];
}

abbrev second_again : EntityManager ℕ World
second_again = record second_removed {
  entity_existance_flags = true ∷ true ∷ [];
  free_entity_ids = [];
}

stale_handle_example : has_entity second_again (entity 1 0) ≡ false
unfolding has_entity remove_entity add_entity new_manager
stale_handle_example =
    stale_handle type_ids env known two_entities second_removed second_again (entity 1 0) world
      world two_entities-IsValid refl refl
      (later start (entity_added (entity 1 1) world world (inl (omega arith)) refl))

clear_lem_example :
    (s' : EntityManager ℕ World) × (w' : World) × (clear env indexed world ≡ ok (s', w'))
    × IsValid type_ids s'
    × ((e : Entity) → has_entity s' e ≡ false)
    × (s'.components ≡ [])
    × (s'.scheduled_entity_removals ≡ indexed.scheduled_entity_removals)
unfolding init_index
clear_lem_example = clear_lem type_ids env indexed world (known 7, (known 3, tt))

clear_caches_lem_example :
    IsValid type_ids (clear_caches indexed)
    × ((k : ℕ) (i : ℕ)
        → component_at ℕ_discrete (clear_caches indexed).components k i
          ≡ component_at ℕ_discrete indexed.components k i)
    × ((e : Entity) → has_entity (clear_caches indexed) e ≡ has_entity indexed e)
clear_caches_lem_example = clear_caches_lem type_ids env indexed indexed-IsValid
