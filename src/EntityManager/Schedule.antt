-- ===== src/EntityManager/Schedule.antt =====
-- entity_manager.h: actions that wait for `executeScheduledActions`.
use raccoon_ecs.Common.{List, [], ◌∷◌, ◌++◌}
use raccoon_ecs.Outcome.{Ptr, Outcome, ok, ◌>>=◌}
use raccoon_ecs.Env.{Env, call_creator}
use raccoon_ecs.Entity.{Entity}
use raccoon_ecs.TypeId.{TypeId}
use raccoon_ecs.EntityManager.{EntityManager, ComponentToAdd, ComponentToRemove}
use raccoon_ecs.EntityManager.Entities.{remove_entity}
use raccoon_ecs.EntityManager.Components.{add_component, remove_component}

module _ {K W : Type 0} where
  -- `scheduleAddComponent(entity, component, typeId)`
  unfoldable pub schedule_add_component : EntityManager K W → Entity → Ptr → K → EntityManager K W
  schedule_add_component s e component k = record s {
    scheduled_component_additions =
        s.scheduled_component_additions
        ++ record { entity = e; component = component; type_id = k } ∷ [];
  }

  -- `scheduleRemoveComponent`
  unfoldable pub schedule_remove_component : EntityManager K W → Entity → K → EntityManager K W
  schedule_remove_component s e k = record s {
    scheduled_component_removals =
        s.scheduled_component_removals ++ record { entity = e; type_id = k } ∷ [];
  }

  -- `scheduleRemoveEntity`
  unfoldable pub schedule_remove_entity : EntityManager K W → Entity → EntityManager K W
  schedule_remove_entity s e = record s {
    scheduled_entity_removals = s.scheduled_entity_removals ++ e ∷ [];
  }

module _ {K W : Type 0} (T : TypeId K) (E : Env K W) where
  -- `scheduleAddComponent<ComponentType>`
  unfoldable pub schedule_new_component :
      EntityManager K W → Entity → K → W → Outcome (EntityManager K W × Ptr × W)
  unfolding schedule_add_component call_creator
  schedule_new_component s e k w = do
    (component, w') ← call_creator E k w
    ok (schedule_add_component s e component k, component, w')

  -- The three loops of `executeScheduledActions`.
  unfoldable pub add_scheduled :
      List (ComponentToAdd K) → EntityManager K W → W → EntityManager K W × W
  unfolding add_component
  add_scheduled [] s w = (s, w)
  add_scheduled (a ∷ rest) s w =
      let (s', w') = add_component T E s a.entity a.component a.type_id w in
      add_scheduled rest s' w'

  unfoldable pub remove_scheduled_components :
      List (ComponentToRemove K) → EntityManager K W → W → Outcome (EntityManager K W × W)
  unfolding remove_component
  remove_scheduled_components [] s w = ok (s, w)
  remove_scheduled_components (r ∷ rest) s w = do
    (s', w') ← remove_component T E s r.entity r.type_id w
    remove_scheduled_components rest s' w'

  unfoldable pub remove_scheduled_entities :
      List Entity → EntityManager K W → W → Outcome (EntityManager K W × W)
  unfolding remove_entity
  remove_scheduled_entities [] s w = ok (s, w)
  remove_scheduled_entities (e ∷ rest) s w = do
    (s', w') ← remove_entity E s e w
    remove_scheduled_entities rest s' w'

  -- `executeScheduledActions`
  unfoldable pub execute_scheduled_actions : EntityManager K W → W → Outcome (EntityManager K W × W)
  unfolding add_scheduled remove_scheduled_components remove_scheduled_entities
  execute_scheduled_actions s w = do
    let (s1, w1) = add_scheduled s.scheduled_component_additions s w
    let s2 = record s1 { scheduled_component_additions = [] }
    (s3, w3) ← remove_scheduled_components s2.scheduled_component_removals s2 w1
    let s4 = record s3 { scheduled_component_removals = [] }
    (s5, w5) ← remove_scheduled_entities s4.scheduled_entity_removals s4 w3
    ok (record s5 { scheduled_entity_removals = [] }, w5)
