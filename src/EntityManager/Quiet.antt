-- ===== src/EntityManager/Quiet.antt =====
-- entity_manager.h: a manager whose delegates have no callbacks, and with no component that waits to be
-- added.
use raccoon_ecs.Common.{◌≡◌, refl, [], arith}
use raccoon_ecs.Outcome.{Ptr, ok}
use raccoon_ecs.Env.{Env}
use raccoon_ecs.Entity.{Entity}
use raccoon_ecs.Common.{ℕ}
use raccoon_ecs.TypeId.{TypeId}
use raccoon_ecs.Delegates.{MulticastDelegate, broadcast, call_each}
use raccoon_ecs.EntityManager.{EntityManager}
use raccoon_ecs.EntityManager.Components.{
  add_component, add_component_to_entity, remove_component, unindex,
}
use raccoon_ecs.EntityManager.Adding.{with_entity}
use raccoon_ecs.EntityManager.Leaving.{without_entity}

pub broadcast_quiet :
    {W : Type 0} (d : MulticastDelegate (Unit {0}) W) (w : W)
    → d.functions ≡ []
    → broadcast d tt w ≡ w
unfolding broadcast call_each
broadcast_quiet d w quiet = rw quiet refl

module _ {K W : Type 0} where
  -- Nothing is bound to the delegates of the manager, and no component is scheduled to be added.
  abbrev pub IsQuiet : EntityManager K W → Type 0
  IsQuiet s =
      (s.on_entity_added.functions ≡ [])
      × (s.on_entity_removed.functions ≡ [])
      × (s.scheduled_component_additions ≡ [])

  pub KeepsQuiet : EntityManager K W → EntityManager K W → Type 0
  KeepsQuiet s s' =
      (s'.on_entity_added ≡ s.on_entity_added)
      × (s'.on_entity_removed ≡ s.on_entity_removed)
      × (s'.scheduled_component_additions ≡ s.scheduled_component_additions)

  pub IsQuiet-KeepsQuiet : (s s' : EntityManager K W) → KeepsQuiet s s' → IsQuiet s → IsQuiet s'
  unfolding KeepsQuiet
  IsQuiet-KeepsQuiet s s' (added, removed, waiting) q = rw (added, removed, waiting) q

  pub add_component-KeepsQuiet :
      (T : TypeId K) (E : Env K W) (s : EntityManager K W) (e : Entity) (p : Ptr) (k : K) (w : W)
      → KeepsQuiet s (add_component T E s e p k w).0
  unfolding KeepsQuiet add_component add_component_to_entity
  add_component-KeepsQuiet T E s e p k w = ground arith

  pub remove_component-KeepsQuiet :
      (T : TypeId K) (E : Env K W) (s s' : EntityManager K W) (e : Entity) (k : K) (w w' : W)
      → remove_component T E s e k w ≡ ok (s', w')
      → KeepsQuiet s s'
  unfolding KeepsQuiet remove_component unindex
  remove_component-KeepsQuiet T E s s' e k w w' done = ground (arith, done)

  pub with_entity-KeepsQuiet : (s : EntityManager K W) → KeepsQuiet s (with_entity s)
  unfolding KeepsQuiet with_entity
  with_entity-KeepsQuiet s = ground arith

  pub without_entity-KeepsQuiet :
      (T : TypeId K) (s : EntityManager K W) (i : ℕ) → KeepsQuiet s (without_entity T s i)
  unfolding KeepsQuiet without_entity
  without_entity-KeepsQuiet T s i = (refl, refl, refl)
