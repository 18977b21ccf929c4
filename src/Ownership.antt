-- ===== src/Ownership.antt =====
-- entity_manager.h, component_factory.h and component_pool.h together: a client of one manager whose
-- components are in the pools of its factory.
pub mod Holding
pub mod Vectors
pub mod State
pub mod EntityCalls
pub mod ComponentCalls
pub mod Clearing
pub mod Scheduled
pub mod Client
pub mod Freeing
use raccoon_ecs.Common.{List, [], ◌∷◌}
use raccoon_ecs.Outcome.{Outcome, ok, ◌>>=◌}
use raccoon_ecs.Env.{Env}
use raccoon_ecs.Entity.{Entity}
use raccoon_ecs.TypeId.{TypeId}
use raccoon_ecs.EntityManager.{EntityManager}
use raccoon_ecs.EntityManager.Entities.{add_entity, remove_entity}
use raccoon_ecs.EntityManager.Components.{add_component_by_type, remove_component}
use raccoon_ecs.EntityManager.Storage.{clear}
use raccoon_ecs.EntityManager.Schedule.{
  schedule_remove_component, schedule_remove_entity, execute_scheduled_actions,
}

-- A call of a client: `addEntity`, `removeEntity`, `addComponent<ComponentType>`,
-- `removeComponent<ComponentType>`, `clear`, `scheduleRemoveComponent`, `scheduleRemoveEntity` or
-- `executeScheduledActions`.
pub data Call (K : Type 0) : Type 0 where
  new_entity : Call K
  old_entity : Entity → Call K
  new_component : Entity → K → Call K
  old_component : Entity → K → Call K
  clear_all : Call K
  later_old_component : Entity → K → Call K
  later_old_entity : Entity → Call K
  execute : Call K

module _ {K W : Type 0} (T : TypeId K) (E : Env K W) where
  unfoldable pub run : Call K → EntityManager K W → W → Outcome (EntityManager K W × W)
  unfolding add_entity remove_entity add_component_by_type remove_component clear
      schedule_remove_component schedule_remove_entity execute_scheduled_actions
  run new_entity s w = do (s', e, w') ← add_entity E s w; ok (s', w')
  run (old_entity e) s w = remove_entity E s e w
  run (new_component e k) s w = do (s', p, w') ← add_component_by_type T E s e k w; ok (s', w')
  run (old_component e k) s w = remove_component T E s e k w
  run clear_all s w = clear E s w
  run (later_old_component e k) s w = ok (schedule_remove_component s e k, w)
  run (later_old_entity e) s w = ok (schedule_remove_entity s e, w)
  run execute s w = execute_scheduled_actions T E s w

  unfoldable pub run_all : List (Call K) → EntityManager K W → W → Outcome (EntityManager K W × W)
  unfolding run
  run_all [] s w = ok (s, w)
  run_all (c ∷ cs) s w = do (s', w') ← run c s w; run_all cs s' w'
