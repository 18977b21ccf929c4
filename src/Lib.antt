-- ===== src/Lib.antt =====
-- Raccoon-ecs, a header-only entity component system in C++: the entity manager with its entities,
-- components and indexes, and the smaller parts around it.
--
-- How the program is put together. An `EntityManagerImpl` (entity_manager.h) hands out `Entity`
-- handles (entity.h), each a raw id with a version; an id that is free again gets its next version,
-- and an id whose versions are used up is left out. Components are untyped pointers in a
-- `ComponentMapImpl` (component_map.h): a vector for each component type, indexed by raw id.
-- Queries for all entities with a pack of component types go through `ComponentIndexes`
-- (component_indexes.h): for each pack that was asked for there is an `Index`, a sparse set of the
-- raw ids with all the components and their cached pointers, which the manager keeps up to date at
-- every change. The manager makes and deletes components through the `ComponentFactoryImpl`
-- (component_factory.h), reports errors to a global handler (error_handling.h) and tells listeners
-- by a `MulticastDelegate` (delegates.h). `ComponentSetHolderImpl` (component_set_holder.h) keeps
-- components of something that is no entity, and `SystemsManager` (utils/systems_manager.h) runs
-- the systems of a game. The factory has a `ComponentPool` (component_pool.h) for each component type
-- with data, and closures on it that make, delete and clone components. `EntityViewImpl`
-- (utils/entity_view.h) is an entity with its manager, and `CombinedEntityManagerView`
-- (utils/combined_entity_manager_view.h) makes one call of several managers.
--
-- Which module models what.
--   Entity: `Entity` and `OptionalEntity` of entity.h; Entity/Order their comparisons.
--   ComponentMap: component_map.h; Vectors, Without and Placing say what is read after each write.
--   Indexes/SparseSet: the class `Index` of component_indexes.h. Invariant has what its dense and
--     sparse arrays owe to one another and the partial map that they stand for; Remove, Add and
--     Populate compare each operation with that map.
--   Indexes/Key: `IndexKey` and the sorted type lists. Indexes: `ComponentIndexes`, all of its methods;
--     Exact, Registry, Events, Query, Listing and Rebuilding carry the invariant that every index says what
--     the component map says; Sorting has the sorted keys, and TupleOrder the order of the tuples.
--   EntityManager: the state of `EntityManagerImpl`, one field for each member. Entities has `addEntity`,
--     `removeEntity`, `hasEntity`, `hasAnyEntity` and `collectAllEntities`; Components the methods on
--     components of one entity; Queries the methods on packs; Schedule the scheduled actions; Transfer
--     `transferEntityTo`; Storage `clear`, `clearCaches`, copying and `overrideBy`. Invariant is the
--     invariant of the manager; Adding, Leaving, Removing, Owning, Rows, Querying, Clearing, Single,
--     Collecting, Planned, Scheduled, Executing, Transferring, Listing, Cloners, Copying, Quiet, Gone and
--     History have the proofs.
--   ComponentPool: component_pool.h, with its slots as one heap; Slots, Allocating, FreeList and Growth
--     have the proofs.
--   ComponentFactory: component_factory.h. The closures of the factory are data that say which pool they
--     captured, and the pools of all types are in one heap; `factory_env` makes the factory an `Env`.
--     Sound is the invariant of the memory; Making, Creating, Deleting, AddingPool, Registering and
--     Cloning have the proofs.
--   Ownership: a client of a manager over such a factory. Holding says which slots are in use for
--     which pointers, and State what a manager owns; Vectors goes over the vectors of the manager;
--     EntityCalls, ComponentCalls, Scheduled and Clearing have one call each, Client any calls, and
--     Freeing what a last `clear` leaves.
--   EntityView: utils/entity_view.h, with the proofs in Calls. The managers are a list, and a reference
--     to one is its number.
--   CombinedView: utils/combined_entity_manager_view.h. Loop is the loop over the records, for calls that
--     change only indexes; Finding, Acting and Listing have what the methods do.
--   SetHolder, Delegates, Systems, TypedComponent: the header of that name; SetHolder/Laws, SetHolder/Copying
--     and Delegates/Handles have proofs.
--   Env: the interface of error_handling.h and component_factory.h as the containers use it. TypeId: the
--     template parameter `ComponentTypeId`.
--   Common: lists, association lists and tests on numbers. Tests: concrete runs.
-- A method `camelCase` of the source is the function `camel_case`, with `this` as an argument and a
-- result; a pack `Components...` is a list of type ids.
--
-- How the model is made. A `void*` is a number, with 0 for `nullptr`. All that lies outside of a
-- container (the component pools, the error log, what callbacks change) is a state `W`, threaded
-- through every call; the factory and the error handler are functions on it, so a callback cannot
-- call back into the container that runs it. A call of an empty `std::function`, a read or a
-- write of the entity vectors or of the rows of a query past the end, the use of a pool slot in
-- the wrong state and an `int` that overflows give a fault. There are no other stops: every loop
-- goes over a list or counts down a number, with no fuel. Ids and versions are 32 bits wide:
-- casts to `RawId` and the increment of a version keep their `% 2 ^ 32`; sizes are 64 bits wide,
-- with 2 ^ 64 - 1 as `InvalidIndex`. An `unordered_map` is an association list, in the order of
-- insertion; what depends on the order of iteration in the source is thus one of the orders that
-- it can have. A `BaseIndex*` is the place of the index in the list of all. `std::hash` and
-- `operator<` of type ids are parameters, with the laws of a strict total order for the latter.
--
-- What is not modelled: memory but for the slots of the pools (capacities, `reserve`, a failed
-- allocation), destructors of the components and of the factory, what an unknown component type
-- does to the shared error handler beyond its message, the compiler glue of msvc_fix.h, and
-- exceptions other than the faults above. `overrideBy` of a component set holder takes another
-- holder; that of a manager is told whether the original is the manager itself. The constructors
-- of the combined view from a vector or a span copy it.
pub mod Common
pub mod Entity
pub mod Outcome
pub mod TypeId
pub mod ComponentFactory
pub mod ComponentMap
pub mod Indexes
pub mod Env
pub mod TypedComponent
pub mod Delegates
pub mod SetHolder
pub mod ComponentPool
pub mod EntityView
pub mod CombinedView
pub mod Ownership
pub mod Systems
pub mod EntityManager
pub mod Tests
