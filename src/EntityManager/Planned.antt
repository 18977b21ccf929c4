-- ===== src/EntityManager/Planned.antt =====
-- entity_manager.h: what `executeScheduledActions` makes of one component.
use raccoon_ecs.Common.{
  ℕ, ◌≡◌, refl, Bool, false, List, [], ◌∷◌, ◌&&◌, ◌||◌, arith, ◌==◌, if◌then◌else◌, ite, ap,
}
use raccoon_ecs.Outcome.{Ptr, nullptr}
use raccoon_ecs.Entity.{Entity, eq_entity}
use raccoon_ecs.Entity.Order.{eq_entity_iff}
use raccoon_ecs.TypeId.{TypeId}
use raccoon_ecs.ComponentMap.{component_at}
use raccoon_ecs.EntityManager.{EntityManager, ComponentToAdd, ComponentToRemove}
use raccoon_ecs.EntityManager.Entities.{has_entity, exists_at}

-- Whether one of the entities is there and has this id.
abbrev pub removes : (Entity → Bool) → List Entity → ℕ → Bool
removes has [] x = false
removes has (e ∷ es) x = (has e && e.raw_id == x) || removes has es x

pub removes_same :
    (has later : Entity → Bool) (es : List Entity) (x : ℕ)
    → ((e : Entity) → later e ≡ has e)
    → removes later es x ≡ removes has es x
removes_same has later [] x same = refl
removes_same has later (e ∷ es) x same = rw (same e, removes_same has later es x same) refl

-- An entity that is removed first does not count again.
pub removes_later :
    (has : Entity → Bool) (later : Entity → Bool) (e : Entity) (es : List Entity) (x : ℕ)
    → ((e' : Entity) → later e' ≡ (if eq_entity e e' then false else has e'))
    → (has e && e.raw_id == x) ≡ false
    → removes later es x ≡ removes has es x
removes_later has later e [] x h other = refl
removes_later has later e (e' ∷ es) x h other = ground (
  arith,
  removes_later has later e es x h other,
  h e',
  (eq_entity_iff e e').0.0,
  ap has,
  ap (λ (y : Entity). y.raw_id),
)

module _ {K : Type 0} (T : TypeId K) (j : K) (x : ℕ) where
  -- The component of the type `j` of the id `x` after the additions, if the id has an entity.
  abbrev pub added : Bool → List (ComponentToAdd K) → Ptr → Ptr
  added there [] p = p
  added there (a ∷ rest) p =
      added there rest
        (ite (T.eq a.type_id j) (if there && a.entity.raw_id == x then a.component else p) p)

  -- The same after the removals of components.
  abbrev pub dropped : List (ComponentToRemove K) → Ptr → Ptr
  dropped [] p = p
  dropped (r ∷ rest) p =
      dropped rest (ite (T.eq r.type_id j) (if r.entity.raw_id == x then nullptr else p) p)

  -- What all that is scheduled makes of it.
  abbrev pub planned : {W : Type 0} → EntityManager K W → Ptr
  planned s =
      if removes (has_entity s) s.scheduled_entity_removals x
      then nullptr
      else dropped s.scheduled_component_removals (
          added (exists_at s x) s.scheduled_component_additions
            (component_at T.eq s.components j x))
