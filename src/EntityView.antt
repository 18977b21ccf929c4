-- ===== src/EntityView.antt =====
-- utils/entity_view.h. The managers that views refer to are a list, and a reference is a position of
-- it; a reference that leads nowhere would be dangling.
pub mod Calls
use raccoon_ecs.Common.{ℕ, Bool, List, set}
use raccoon_ecs.Outcome.{Ptr, Outcome, ok, ◌>>=◌}
use raccoon_ecs.Env.{Env}
use raccoon_ecs.Entity.{Entity}
use raccoon_ecs.TypeId.{TypeId}
use raccoon_ecs.EntityManager.{EntityManager}
use raccoon_ecs.EntityManager.Entities.{at}
use raccoon_ecs.EntityManager.Components
use raccoon_ecs.EntityManager.Components.{
  add_component_by_type, get_entity_components, does_entity_have_component,
}
use raccoon_ecs.EntityManager.Schedule
use raccoon_ecs.EntityManager.Schedule.{schedule_new_component}

abbrev pub Managers : Type 0 → Type 0 → Type 0
Managers K W = List (EntityManager K W)

-- `EntityViewImpl`: `getEntity` and `getManager` are the fields.
pub record EntityView : Type 0 where
  pub entity : Entity
  pub manager : ℕ

module _ {K W : Type 0} where
  -- A call of a method of the manager behind a reference.
  unfoldable pub call_manager {ℓ} :
      {A : Type ℓ}
      → ℕ
      → Managers K W
      → (EntityManager K W → Outcome (EntityManager K W × A))
      → Outcome (Managers K W × A)
  unfolding at
  call_manager reference ms method = do
    s ← at ms reference
    (s', a) ← method s
    ok (set ms reference s', a)

module _ {K W : Type 0} (T : TypeId K) (E : Env K W) (view : EntityView) where
  -- `addComponent<ComponentType>`
  unfoldable pub add_component : K → Managers K W → W → Outcome (Managers K W × (Ptr × W))
  unfolding call_manager add_component_by_type
  add_component k ms w =
      call_manager view.manager ms
        (λ s. do (s', p, w') ← add_component_by_type T E s view.entity k w; ok (s', (p, w')))

  -- `removeComponent<ComponentType>`
  unfoldable pub remove_component : K → Managers K W → W → Outcome (Managers K W × W)
  unfolding call_manager Components.remove_component
  remove_component k ms w =
      call_manager view.manager ms (λ s. Components.remove_component T E s view.entity k w)

  -- `hasComponent<Component>`
  unfoldable pub has_component : K → Managers K W → W → Outcome (Bool × W)
  unfolding at does_entity_have_component
  has_component k ms w = do
    s ← at ms view.manager
    ok (does_entity_have_component T E s view.entity k w)

  -- `scheduleAddComponent<ComponentType>`
  unfoldable pub schedule_add_component : K → Managers K W → W → Outcome (Managers K W × (Ptr × W))
  unfolding call_manager schedule_new_component
  schedule_add_component k ms w =
      call_manager view.manager ms
        (λ s. do (s', p, w') ← schedule_new_component T E s view.entity k w; ok (s', (p, w')))

module _ {K W : Type 0} (view : EntityView) where
  -- `getComponents<Components...>`
  unfoldable pub get_components : TypeId K → List K → Managers K W → Outcome (List Ptr)
  unfolding at get_entity_components
  get_components T pack ms = do
    s ← at ms view.manager
    ok (get_entity_components T s view.entity pack)

  -- `scheduleRemoveComponent<ComponentType>`
  unfoldable pub schedule_remove_component : K → Managers K W → Outcome (Managers K W × Unit {0})
  unfolding call_manager Schedule.schedule_remove_component
  schedule_remove_component k ms =
      call_manager view.manager ms
        (λ s. ok (Schedule.schedule_remove_component s view.entity k, tt))

  -- `scheduleRemoveEntity`
  unfoldable pub schedule_remove_entity : Managers K W → Outcome (Managers K W × Unit {0})
  unfolding call_manager Schedule.schedule_remove_entity
  schedule_remove_entity ms =
      call_manager view.manager ms (λ s. ok (Schedule.schedule_remove_entity s view.entity, tt))
