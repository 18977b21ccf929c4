-- ===== src/EntityManager.antt =====
-- entity_manager.h: the state of `EntityManagerImpl`. `Components...` packs are lists of type ids, and
-- the error handler, the component factory and the callbacks are the state `W` of an `Env`.
pub mod Entities
pub mod Invariant
pub mod Adding
pub mod Leaving
pub mod Removing
pub mod Components
pub mod Owning
pub mod Queries
pub mod Rows
pub mod Querying
pub mod Schedule
pub mod Planned
pub mod Transfer
pub mod Storage
pub mod Clearing
pub mod Gone
pub mod History
pub mod Single
pub mod Collecting
pub mod Scheduled
pub mod Executing
pub mod Transferring
pub mod Quiet
pub mod Listing
pub mod Cloners
pub mod Copying
use raccoon_ecs.Common.{ℕ, Bool, List, []}
use raccoon_ecs.Outcome.{Ptr}
use raccoon_ecs.Entity.{Entity}
use raccoon_ecs.ComponentMap.{ComponentMap}
use raccoon_ecs.Indexes.{ComponentIndexes, no_indexes}
use raccoon_ecs.Delegates.{MulticastDelegate, no_functions}

pub record ComponentToAdd (K : Type 0) : Type 0 where
  pub entity : Entity
  pub component : Ptr
  pub type_id : K

pub record ComponentToRemove (K : Type 0) : Type 0 where
  pub entity : Entity
  pub type_id : K

pub record EntityManager (K W : Type 0) : Type 0 where
  pub components : ComponentMap K
  pub indexes : ComponentIndexes K
  pub entity_existance_flags : List Bool
  pub entity_versions : List ℕ
  pub free_entity_ids : List ℕ
  pub scheduled_component_additions : List (ComponentToAdd K)
  pub scheduled_component_removals : List (ComponentToRemove K)
  pub scheduled_entity_removals : List Entity
  pub on_entity_added : MulticastDelegate (Unit {0}) W
  pub on_entity_removed : MulticastDelegate (Unit {0}) W

-- `EntityManagerImpl(const ComponentFactory&)`
unfoldable pub new_manager : {K W : Type 0} → EntityManager K W
unfolding no_indexes no_functions
new_manager = record {
  components = [];
  indexes = no_indexes;
  entity_existance_flags = [];
  entity_versions = [];
  free_entity_ids = [];
  scheduled_component_additions = [];
  scheduled_component_removals = [];
  scheduled_entity_removals = [];
  on_entity_added = no_functions;
  on_entity_removed = no_functions;
}
