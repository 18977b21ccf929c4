-- ===== src/EntityManager/Gone.antt =====
-- entity_manager.h: when an entity handle can never be given out again, and what keeps it so.
use raccoon_ecs.Common.{ℕ, ◌<◌, ◌≡◌, true, false, length, get_or, elem, ℕ_discrete, arith, ◌⊎◌}
use raccoon_ecs.Outcome.{Ptr, nullptr, ok}
use raccoon_ecs.Env.{Env}
use raccoon_ecs.Env.Deleting.{HasDeleter, call_deleter-HasDeleter}
use raccoon_ecs.Entity.{Entity}
use raccoon_ecs.TypeId.{TypeId}
use raccoon_ecs.ComponentMap.{get_component_vector_by_id}
use raccoon_ecs.EntityManager.{EntityManager}
use raccoon_ecs.EntityManager.Entities.{has_entity, exists_at}
use raccoon_ecs.EntityManager.Components.{
  add_component, add_component_to_entity, remove_component, unindex,
}
use raccoon_ecs.EntityManager.Adding.{
  HasRoom, next_id_free, with_entity, version-with_entity, free-with_entity, exists-with_entity,
  length-with_entity, with_entity-IsValid, has_entity_by_id,
}
use raccoon_ecs.EntityManager.Leaving.{
  without_entity, exists-without_entity, version-without_entity, free-without_entity,
  length-without_entity, without_entity-IsValid, retired-without_entity,
}
use raccoon_ecs.EntityManager.Invariant.{IsValid}

module _ {K W : Type 0} where
  -- No operation gives this entity out again: its id has a greater version, or is used up.
  pub record IsGone (s : EntityManager K W) (e : Entity) : Type 0 where
    pub inside : e.raw_id < length s.entity_versions
    pub outdated :
        (e.version < get_or s.entity_versions e.raw_id 0)
        ⊎ ((exists_at s e.raw_id ≡ false) × (elem ℕ_discrete e.raw_id s.free_entity_ids ≡ false))

  -- The operation touched no entity.
  abbrev pub SameEntities : EntityManager K W → EntityManager K W → Type 0
  SameEntities s s' =
      (s'.entity_versions ≡ s.entity_versions)
      × (s'.entity_existance_flags ≡ s.entity_existance_flags)
      × (s'.free_entity_ids ≡ s.free_entity_ids)

  pub IsGone-same :
      (s s' : EntityManager K W) (e : Entity) → SameEntities s s' → IsGone s e → IsGone s' e
  unfolding exists_at
  IsGone-same s s' e (versions, flags, free) g = record {
    inside = rw versions g.inside;
    outdated = rw (versions, flags, free) g.outdated;
  }

  pub record Keeps (T : TypeId K) (s s' : EntityManager K W) : Type 0 where
    pub valid : IsValid T s'
    pub gone : (e : Entity) → IsGone s e → IsGone s' e

has_entity-inside :
    {K W : Type 0} (s : EntityManager K W) (e : Entity)
    → has_entity s e ≡ true
    → e.raw_id < length s.entity_versions
unfolding has_entity
has_entity-inside s e has = ground arith

module _ {K W : Type 0} (T : TypeId K) (s : EntityManager K W) (v : IsValid T s) where
  pub with_entity-Keeps : (E : Env K W) (w : W) → HasRoom s → Keeps T s (with_entity s)
  with_entity-Keeps E w room = record {
    valid = with_entity-IsValid T E s w v room;
    gone = λ e g. record {
      inside = omega (arith, g.inside, length-with_entity T E s w v room);
      outdated = ground (
        arith,
        g.outdated,
        version-with_entity T E s w v room e.raw_id,
        exists-with_entity T E s w v room e.raw_id,
        free-with_entity T E s w v room e.raw_id,
        g.inside,
        next_id_free T E s w v room e.raw_id g.inside,
      );
    };
  }

  pub without_entity-Keeps : (i : ℕ) → exists_at s i ≡ true → Keeps T s (without_entity T s i)
  without_entity-Keeps i there = record {
    valid = without_entity-IsValid T s i v there;
    gone = λ e g. record {
      inside = omega (arith, g.inside, length-without_entity T s i v there);
      outdated = ground (
        arith,
        g.outdated,
        there,
        version-without_entity T s i v there e.raw_id,
        exists-without_entity T s i v there e.raw_id,
        (free-without_entity T s i v there).1 e.raw_id,
        v.versions_fit e.raw_id,
        retired-without_entity T s i v there,
      );
    };
  }

  -- The entity that is removed is gone.
  pub without_entity-IsGone :
      (e : Entity) → has_entity s e ≡ true → IsGone (without_entity T s e.raw_id) e
  without_entity-IsGone e has =
      let i = e.raw_id in
      let by_id = has_entity_by_id s e v.parallel in
      let there : exists_at s i ≡ true = ground (arith, by_id) in
      record {
        inside = omega (arith, has_entity-inside s e has, length-without_entity T s i v there);
        outdated = ground (
          arith,
          by_id,
          version-without_entity T s i v there i,
          exists-without_entity T s i v there i,
          v.versions_fit i,
          retired-without_entity T s i v there,
        );
      }

pub IsGone-absent :
    {K W : Type 0} (s : EntityManager K W) (e : Entity) → IsGone s e → has_entity s e ≡ false
unfolding has_entity exists_at
IsGone-absent s e g = ground (arith, g.outdated)

module _ {K W : Type 0} (T : TypeId K) (E : Env K W) (s : EntityManager K W) (e : Entity) where
  pub add_component-SameEntities :
      (p : Ptr) (k : K) (w : W) → SameEntities s (add_component T E s e p k w).0
  unfolding add_component add_component_to_entity
  add_component-SameEntities p k w = ground arith

  pub remove_component-SameEntities :
      (k : K) (w : W)
      → HasDeleter E k
      → (s' : EntityManager K W) (w' : W) → remove_component T E s e k w ≡ ok (s', w')
      → SameEntities s s'
  unfolding remove_component unindex
  remove_component-SameEntities k w known s' w' done =
      let i = e.raw_id in
      let vector = get_component_vector_by_id T.eq s.components k in
      let (w1, deleted) = call_deleter-HasDeleter E k (get_or vector i nullptr) w known in
      ground (arith, deleted, done)
