-- ===== src/Tests/Views.antt =====
-- Views of two managers, one of them twice, and copies of a manager.
use raccoon_ecs.Common.{
  ℕ_discrete, some-injective, subst, ℕ, zero, suc, ◌≡◌, refl, true, List, [], ◌∷◌, ◌++◌, some,
  get_elem?, arith, find,
}
use raccoon_ecs.Outcome.{Ptr, ok}
use raccoon_ecs.Env.{call_creator}
use raccoon_ecs.Entity.{entity}
use raccoon_ecs.TypedComponent.{TypedComponent}
use raccoon_ecs.ComponentMap.{component_at}
use raccoon_ecs.EntityManager.{EntityManager, new_manager}
use raccoon_ecs.EntityManager.Entities.{exists_at}
use raccoon_ecs.EntityManager.Invariant.{IsValid}
use raccoon_ecs.EntityManager.Queries.{init_index}
use raccoon_ecs.EntityManager.Scheduled.{AddsFresh, rescheduled-IsValid}
use raccoon_ecs.EntityManager.Components
use raccoon_ecs.EntityManager.Listing.{Lists, get_all_entity_components_lem}
use raccoon_ecs.EntityView.{Managers, EntityView, add_component, has_component, get_components}
use raccoon_ecs.EntityView.Calls.{OthersSame, view-add_component}
use raccoon_ecs.CombinedView.{
  CombinedView, get_matching_entities_count, execute_scheduled_actions, get_all_entity_components,
}
use raccoon_ecs.CombinedView.Loop.{SameAll, AllValid, InRange, Runs}
use raccoon_ecs.CombinedView.Finding.{order_in, Counts, combined_count}
use raccoon_ecs.CombinedView.Acting.{AllFresh, Executed, combined_execution}
use raccoon_ecs.CombinedView.Listing.{FirstLists, combined_listing}
use raccoon_ecs.Tests.Concrete.{
  World, world, env, known, type_ids, moving_entity, moving_entity-IsValid, indexed,
  indexed-IsValid, pack, pack-IsPack, velocity,
}

-- An entity that is scheduled to be removed.
abbrev leaving : EntityManager ℕ World
leaving = record moving_entity { scheduled_entity_removals = entity 1 0 ∷ [] }

leaving-IsValid : IsValid type_ids leaving
unfolding new_manager
leaving-IsValid =
    rescheduled-IsValid type_ids moving_entity moving_entity-IsValid [] [] (entity 1 0 ∷ [])

abbrev managers : Managers ℕ World
managers = indexed ∷ leaving ∷ []

-- The first manager twice, with other extra data.
abbrev view : CombinedView ℕ
view =
    record { entity_manager = 0; extra_data = 10 }
    ∷ record { entity_manager = 1; extra_data = 20 }
    ∷ record { entity_manager = 0; extra_data = 30 }
    ∷ []

all_valid : AllValid type_ids managers
all_valid zero s e = subst (IsValid type_ids) (some-injective e) indexed-IsValid
all_valid (suc zero) s e = subst (IsValid type_ids) (some-injective e) leaving-IsValid
all_valid (suc (suc i)) s e = absurd (ground (arith, e))

in_range : InRange view managers
in_range = (omega arith, (omega arith, (omega arith, tt)))

combined_count_example :
    (ms' : Managers ℕ World) × (n : ℕ) × (get_matching_entities_count type_ids pack view managers
      ≡ ok (ms', n))
    × AllValid type_ids ms'
    × SameAll (order_in type_ids pack) managers ms'
    × Runs (Counts type_ids pack) view managers 0 n
combined_count_example = combined_count type_ids pack pack-IsPack view managers all_valid in_range

-- Each call of the processor is noted as a deletion of the first pointer that it gets.
abbrev note : ℕ → EntityView → List Ptr → World → World
note d v [] w = w
note d v (p ∷ ps) w = record w { deleted = p ∷ w.deleted }

all_fresh : AllFresh type_ids env managers
unfolding init_index new_manager
all_fresh zero s e w =
    subst (λ t. AddsFresh type_ids env t.scheduled_component_additions t w) (some-injective e) tt
all_fresh (suc zero) s e w =
    subst (λ t. AddsFresh type_ids env t.scheduled_component_additions t w) (some-injective e) tt
all_fresh (suc (suc i)) s e w = absurd (ground (arith, e))

combined_execution_example :
    (ms' : Managers ℕ World) × (w' : World) × (execute_scheduled_actions type_ids env view managers
        world
      ≡ ok (ms', w'))
    × AllValid type_ids ms'
    × ((i : ℕ) (s' : EntityManager ℕ World)
        → get_elem? ms' i ≡ some s'
        → (s : EntityManager ℕ World) × (get_elem? managers i ≡ some s)
          × Executed type_ids env view i s s')
combined_execution_example =
    combined_execution type_ids env known view managers world all_valid all_fresh in_range

combined_listing_example :
    (cs : List (TypedComponent ℕ)) × (get_all_entity_components view managers (entity 1 0) []
      ≡ ok cs)
    × FirstLists type_ids managers (entity 1 0) view cs
combined_listing_example = combined_listing type_ids managers (entity 1 0) view all_valid in_range

get_all_entity_components_lem_example :
    (cs : List (TypedComponent ℕ)) × (Components.get_all_entity_components moving_entity
        (entity 1 0)
        []
      ≡ [] ++ cs)
    × Lists type_ids moving_entity 1 cs
get_all_entity_components_lem_example =
    get_all_entity_components_lem type_ids moving_entity (entity 1 0) [] moving_entity-IsValid

abbrev here : EntityView
here = record { entity = entity 0 0; manager = 1 }

view-add_component_example :
    (ms' : Managers ℕ World) × (s' : EntityManager ℕ World) × (add_component type_ids env here
        velocity managers world
      ≡ ok (ms', (200, record world { next = 201 })))
    × (get_elem? ms' 1 ≡ some s')
    × IsValid type_ids s'
    × (has_component type_ids env here velocity ms' (record world { next = 201 })
        ≡ ok (true, record world { next = 201 }))
    × (get_components here type_ids (velocity ∷ []) ms' ≡ ok (200 ∷ []))
    × OthersSame here managers ms'
unfolding exists_at component_at find ℕ_discrete call_creator
view-add_component_example =
    view-add_component type_ids env here velocity managers leaving world refl leaving-IsValid refl
      200 (record world { next = 201 }) refl refl (λ e. omega (arith, e))
