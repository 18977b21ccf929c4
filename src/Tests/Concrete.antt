-- ===== src/Tests/Concrete.antt =====
-- A concrete factory and error handler, and managers that are made with them.
use raccoon_ecs.EntityManager.Cloners.{HasCloner}
use raccoon_ecs.Common.{
  ◌==◌, if◌then◌else◌, ℕ, ◌+◌, refl, true, List, [], ◌∷◌, some, arith, ltb, ℕ_discrete, inr, find,
  ensure, modify, elem,
}
use raccoon_ecs.Outcome.{Ptr, nullptr}
use raccoon_ecs.Env.{Env, Error}
use raccoon_ecs.Env.Deleting.{HasDeleter}
use raccoon_ecs.Entity.{entity}
use raccoon_ecs.TypeId.{TypeId}
use raccoon_ecs.ComponentMap.{component_at}
use raccoon_ecs.Indexes.Query.{IsPack}
use raccoon_ecs.EntityManager.{EntityManager, new_manager}
use raccoon_ecs.EntityManager.Entities.{add_entity}
use raccoon_ecs.EntityManager.Components.{add_component}
use raccoon_ecs.EntityManager.Queries.{init_index}
use raccoon_ecs.EntityManager.History.{
  Step, entity_added, component_added, index_made, Steps, start, later, Steps-IsValid,
}
use raccoon_ecs.EntityManager.Invariant.{IsValid}

pub record World : Type 0 where
  pub next : Ptr
  pub errors : List (Error ℕ)
  pub deleted : List Ptr

abbrev pub world : World
world = record { next = 200; errors = []; deleted = [] }

-- A clone of a pointer: null stays null.
abbrev clone_pointer : Ptr → World → Ptr × World
clone_pointer p u =
    if p == nullptr then (nullptr, u) else (u.next + 1, record u { next = u.next + 1 })

abbrev pub env : Env ℕ World
env = record {
  report = λ e w. record w { errors = e ∷ w.errors };
  get_creation_fn = λ k w. (some (λ u. (u.next, record u { next = u.next + 1 })), w);
  get_deletion_fn = λ k w. (some (λ p u. record u { deleted = p ∷ u.deleted }), w);
  get_clone_fn = λ k w. (some clone_pointer, w);
}

pub known : (k : ℕ) → HasDeleter env k
known k w = (λ p u. record u { deleted = p ∷ u.deleted }, refl)

pub cloners : (k : ℕ) → HasCloner env k
cloners k w = (clone_pointer, refl, λ u. refl)

abbrev pub type_ids : TypeId ℕ
type_ids = record {
  eq = ℕ_discrete;
  hash = λ k. k;
  less = ltb;
  less_irrefl = λ a. ground arith;
  less_trans = λ a b c. ground arith;
  less_total = λ a b. ground arith;
}

-- The position, and the velocity, of things that move.
abbrev pub position : ℕ
position = 7

abbrev pub velocity : ℕ
velocity = 3

abbrev pub pack : List ℕ
pack = position ∷ velocity ∷ []

pub pack-IsPack : IsPack type_ids pack
unfolding elem ℕ_discrete
pack-IsPack = (λ e. ground (arith, e), (refl, (refl, tt)))

abbrev pub one_entity : EntityManager ℕ World
unfolding new_manager
one_entity = record new_manager { entity_versions = 0 ∷ []; entity_existance_flags = true ∷ [] }

abbrev pub two_entities : EntityManager ℕ World
two_entities = record one_entity {
  entity_versions = 0 ∷ 0 ∷ [];
  entity_existance_flags = true ∷ true ∷ [];
}

-- The second entity has a position.
abbrev pub placed_entity : EntityManager ℕ World
placed_entity = record two_entities { components = (position, nullptr ∷ 101 ∷ []) ∷ [] }

-- And a velocity.
abbrev pub moving_entity : EntityManager ℕ World
moving_entity = record two_entities {
  components = (position, nullptr ∷ 101 ∷ []) ∷ (velocity, nullptr ∷ 102 ∷ []) ∷ [];
}

-- The client has asked for all that moves.
abbrev pub indexed : EntityManager ℕ World
indexed = init_index type_ids moving_entity pack

to_one_entity : Step type_ids env new_manager one_entity
unfolding add_entity new_manager
to_one_entity = entity_added (entity 0 0) world world (inr (omega arith)) refl

to_two_entities : Step type_ids env one_entity two_entities
unfolding add_entity new_manager
to_two_entities = entity_added (entity 1 0) world world (inr (omega arith)) refl

to_placed_entity : Step type_ids env two_entities placed_entity
unfolding add_component new_manager component_at find ensure modify ℕ_discrete
to_placed_entity = component_added (entity 1 0) 101 position world world refl refl

to_moving_entity : Step type_ids env placed_entity moving_entity
unfolding add_component new_manager component_at find ensure modify ℕ_discrete
to_moving_entity = component_added (entity 1 0) 102 velocity world world refl refl

to_indexed : Step type_ids env moving_entity indexed
to_indexed = index_made pack pack-IsPack refl

pub reached_two : Steps type_ids env new_manager two_entities
reached_two = later (later start to_one_entity) to_two_entities

pub reached : Steps type_ids env new_manager indexed
reached = later (later (later reached_two to_placed_entity) to_moving_entity) to_indexed

pub two_entities-IsValid : IsValid type_ids two_entities
two_entities-IsValid = Steps-IsValid type_ids env known two_entities reached_two

pub moving_entity-IsValid : IsValid type_ids moving_entity
moving_entity-IsValid =
    Steps-IsValid type_ids env known moving_entity
      (later (later reached_two to_placed_entity) to_moving_entity)

pub indexed-IsValid : IsValid type_ids indexed
indexed-IsValid = Steps-IsValid type_ids env known indexed reached
