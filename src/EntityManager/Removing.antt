-- ===== src/EntityManager/Removing.antt =====
-- entity_manager.h: `removeEntity`.
use raccoon_ecs.Common.{ℕ, ◌≡◌, true, false, [], get_or, arith, ◌==◌, if◌then◌else◌, get_or_beyond}
use raccoon_ecs.Outcome.{nullptr, ok}
use raccoon_ecs.Env.{Env, entity_already_removed, remove_non_existent_entity}
use raccoon_ecs.Entity.{Entity, eq_entity}
use raccoon_ecs.TypeId.{TypeId}
use raccoon_ecs.ComponentMap.{ComponentMap, component_at}
use raccoon_ecs.Delegates.{broadcast}
use raccoon_ecs.EntityManager.{EntityManager}
use raccoon_ecs.EntityManager.Entities.{exists_at, has_entity, remove_existing, remove_entity}
use raccoon_ecs.EntityManager.Adding.{at-get_or, has_entity_by_id}
use raccoon_ecs.EntityManager.Invariant.{IsValid}
use raccoon_ecs.EntityManager.Leaving.{
  KnowsTypes, Removes, remove_components-without_id, known-Removes, without_entity,
  component_at-without_entity, without_entity-IsValid, has_entity-without_entity,
}

module _ {K W : Type 0} (T : TypeId K) (E : Env K W) (s : EntityManager K W) (e : Entity) (w : W)
    (v : IsValid T s) where
  pub remove_entity-without_entity :
      (P : ComponentMap K → W → Type 0)
      → Removes E e.raw_id P
      → has_entity s e ≡ true
      → P s.components w
      → (w' : W) × (remove_entity E s e w
          ≡ ok (without_entity T s e.raw_id, broadcast s.on_entity_removed tt w'))
        × P [] w'
  unfolding remove_entity remove_existing without_entity exists_at
  remove_entity-without_entity P r has before =
      let (w', deleted, after) =
        remove_components-without_id E e.raw_id P r s.components w before in
      (
        w',
        ground (
          arith,
          has_entity_by_id s e v.parallel,
          deleted,
          at-get_or s.entity_versions e.raw_id 0,
          v.parallel,
          get_or_beyond s.entity_existance_flags e.raw_id false,
        ),
        after,
      )

  -- On a valid manager that has the entity, and whose component types are all known to the factory,
  -- `removeEntity` returns and leaves a valid manager that no longer has the entity nor any component
  -- of it; it has the same other entities, with the same components.
  pub remove_entity_lem :
      has_entity s e ≡ true
      → KnowsTypes E s.components
      → (s' : EntityManager K W) × (w' : W) × (remove_entity E s e w ≡ ok (s', w'))
        × IsValid T s'
        × ((e' : Entity) → has_entity s' e' ≡ (if eq_entity e e' then false else has_entity s e'))
        × ((k : K) (j : ℕ)
            → component_at T.eq s'.components k j
              ≡ (if e.raw_id == j then nullptr else component_at T.eq s.components k j))
  remove_entity_lem has known =
      let i = e.raw_id in
      let there : exists_at s i ≡ true = ground (arith, has_entity_by_id s e v.parallel) in
      let (w', removed, done) =
        remove_entity-without_entity (λ m u. KnowsTypes E m) (known-Removes E i) has known in
      (
        without_entity T s i,
        broadcast s.on_entity_removed tt w',
        removed,
        without_entity-IsValid T s i v there,
        has_entity-without_entity T s i v there e has,
        component_at-without_entity T s i v there,
      )

  -- On a valid manager that does not have the entity, `removeEntity` changes nothing and reports one
  -- error: that the entity was already removed if its id has an entity now (with another version),
  -- and that it does not exist if not.
  pub remove_entity_refused :
      has_entity s e ≡ false
      → remove_entity E s e w
        ≡ ok (
          s,
          E.report
              (if exists_at s e.raw_id
                then entity_already_removed e.raw_id (get_or s.entity_versions e.raw_id 0) e.version
                else remove_non_existent_entity e.raw_id)
              w,
        )
  unfolding remove_entity exists_at
  remove_entity_refused missing = ground (
    arith,
    has_entity_by_id s e v.parallel,
    at-get_or s.entity_versions e.raw_id 0,
    v.parallel,
    get_or_beyond s.entity_existance_flags e.raw_id false,
  )
