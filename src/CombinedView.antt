-- ===== src/CombinedView.antt =====
-- utils/combined_entity_manager_view.h: calls of several entity managers at once.
pub mod Loop
pub mod Finding
pub mod Acting
pub mod Listing
use raccoon_ecs.Common.{ℕ, ◌+◌, ◌%◌, ◌^◌, List, [], ◌∷◌, map, set, length, ◌==◌, if◌then◌else◌}
use raccoon_ecs.Outcome.{Ptr, Outcome, ok, ◌>>=◌}
use raccoon_ecs.Env.{Env}
use raccoon_ecs.Entity.{Entity}
use raccoon_ecs.TypeId.{TypeId}
use raccoon_ecs.TypedComponent.{TypedComponent}
use raccoon_ecs.EntityManager.{EntityManager}
use raccoon_ecs.EntityManager.Entities.{at}
use raccoon_ecs.EntityManager.Components
use raccoon_ecs.EntityManager.Queries
use raccoon_ecs.EntityManager.Queries.{Row, EntityRow}
use raccoon_ecs.EntityManager.Schedule
use raccoon_ecs.EntityView.{Managers, EntityView, call_manager}

pub record Record (D : Type 0) : Type 0 where
  pub entity_manager : ℕ
  pub extra_data : D

-- `CombinedEntityManagerView`
abbrev pub CombinedView : Type 0 → Type 0
CombinedView D = List (Record D)

-- `CombinedEntityManagerView(const std::vector<EntityManagerRef>&)`, with `nullptr` as the extra data.
unfoldable pub from_references : List ℕ → CombinedView (Unit {0})
from_references refs = map (λ r. record { entity_manager = r; extra_data = tt }) refs

module _ {K W D : Type 0} where
  -- `for (Record& record : mRecords)`, with a call of the manager of each record.
  unfoldable pub for_each_record :
      {A : Type 0}
      → (Record D → EntityManager K W → A → Outcome (EntityManager K W × A))
      → CombinedView D
      → Managers K W
      → A
      → Outcome (Managers K W × A)
  unfolding call_manager
  for_each_record method [] ms a = ok (ms, a)
  for_each_record method (r ∷ rs) ms a = do
    (ms', a') ← call_manager r.entity_manager ms (λ s. method r s a)
    for_each_record method rs ms' a'

  -- `getAllEntityComponents`
  unfoldable pub get_all_entity_components :
      CombinedView D
      → Managers K W
      → Entity
      → List (TypedComponent K)
      → Outcome (List (TypedComponent K))
  unfolding at Components.get_all_entity_components
  get_all_entity_components [] ms e out = ok out
  get_all_entity_components (r ∷ rs) ms e out = do
    s ← at ms r.entity_manager
    let out' = Components.get_all_entity_components s e out
    if length out' == 0 then get_all_entity_components rs ms e out' else ok out'

module _ {K W D : Type 0} (T : TypeId K) (E : Env K W) where
  -- `executeScheduledActions`
  unfoldable pub execute_scheduled_actions :
      CombinedView D → Managers K W → W → Outcome (Managers K W × W)
  unfolding for_each_record Schedule.execute_scheduled_actions
  execute_scheduled_actions view ms w =
      for_each_record (λ r s u. Schedule.execute_scheduled_actions T E s u) view ms w

module _ {K W D : Type 0} (T : TypeId K) (pack : List K) (view : CombinedView D)
    (ms : Managers K W) where
  -- `getComponents<Components...>`
  unfoldable pub get_components :
      List (Row (Unit {0})) → Outcome (Managers K W × List (Row (Unit {0})))
  unfolding for_each_record Queries.get_components
  get_components out =
      for_each_record (λ r s rows. ok (Queries.get_components T s pack tt rows)) view ms out

  -- `getComponentsWithExtraData<Components...>`
  unfoldable pub get_components_with_extra_data :
      List (Row D) → Outcome (Managers K W × List (Row D))
  unfolding for_each_record Queries.get_components
  get_components_with_extra_data out =
      for_each_record (λ r s rows. ok (Queries.get_components T s pack r.extra_data rows)) view ms
        out

  -- `getComponentsWithEntitiesAndExtraData<Components...>`
  unfoldable pub get_components_with_entities_and_extra_data :
      List (EntityRow D) → Outcome (Managers K W × List (EntityRow D))
  unfolding for_each_record Queries.get_components_with_entities
  get_components_with_entities_and_extra_data out =
      for_each_record (λ r s rows. Queries.get_components_with_entities T s pack r.extra_data rows)
        view ms out

  -- `forEachComponentSet<Components...>`
  unfoldable pub for_each_component_set : (List Ptr → W → W) → W → Outcome (Managers K W × W)
  unfolding for_each_record Queries.for_each_component_set
  for_each_component_set processor w =
      for_each_record
        (λ r s u. ok (Queries.for_each_component_set T s pack tt (λ row. processor row.set) u)) view
        ms w

  -- `forEachComponentSetWithEntity<Components...>`
  unfoldable pub for_each_component_set_with_entity :
      (EntityView → List Ptr → W → W) → W → Outcome (Managers K W × W)
  unfolding for_each_record Queries.for_each_component_set_with_entity
  for_each_component_set_with_entity processor w =
      for_each_record
        (λ r s u.
          Queries.for_each_component_set_with_entity T s pack tt
            (λ row. processor (record { entity = row.entity; manager = r.entity_manager }) row.set)
            u)
        view ms w

  -- `forEachComponentSetWithExtraData<Components...>`
  unfoldable pub for_each_component_set_with_extra_data :
      (D → List Ptr → W → W) → W → Outcome (Managers K W × W)
  unfolding for_each_record Queries.for_each_component_set
  for_each_component_set_with_extra_data processor w =
      for_each_record
        (λ r s u. ok (
          Queries.for_each_component_set T s pack r.extra_data (λ row. processor row.extra row.set)
            u))
        view ms w

  -- `forEachComponentSetWithEntityAndExtraData<Components...>`
  unfoldable pub for_each_component_set_with_entity_and_extra_data :
      (D → EntityView → List Ptr → W → W) → W → Outcome (Managers K W × W)
  unfolding for_each_record Queries.for_each_component_set_with_entity
  for_each_component_set_with_entity_and_extra_data processor w =
      for_each_record
        (λ r s u.
          Queries.for_each_component_set_with_entity T s pack r.extra_data
            (λ row.
              processor row.extra (record { entity = row.entity; manager = r.entity_manager })
                row.set)
            u)
        view ms w

  -- `getMatchingEntitiesCount<Components...>`
  unfoldable pub get_matching_entities_count : Outcome (Managers K W × ℕ)
  unfolding for_each_record Queries.get_matching_entities_count
  get_matching_entities_count =
      for_each_record
        (λ r s total.
          let (s', n) = Queries.get_matching_entities_count T s pack in
          ok (s', (total + n) % 2 ^ 64))
        view ms 0
