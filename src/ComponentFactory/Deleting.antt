-- ===== src/ComponentFactory/Deleting.antt =====
-- component_factory.h: what the deletion closures do to the memory.
use raccoon_ecs.Common.{ℕ, ◌<◌, ◌≡◌, refl, length, arith, get_elem?_inside}
use raccoon_ecs.Outcome.{Ptr, nullptr}
use raccoon_ecs.TypeId.{TypeId}
use raccoon_ecs.ComponentFactory.{Maker, flag, pooled, Memory, delete, release_to}
use raccoon_ecs.ComponentFactory.Creating.{NotStatic}
use raccoon_ecs.ComponentFactory.Sound.{IsUsed, used_real, IsSound}
use raccoon_ecs.ComponentFactory.Making.{Deleted, release_to-Deleted}

module _ {K V : Type 0} (T : TypeId K) (m : Memory K V) (s : IsSound T m) where
  -- The deletion closure of a pooled type.
  pub delete-Deleted :
      (i : ℕ) (p : Ptr)
      → i < length m.component_pools
      → IsUsed m p
      → NotStatic T m p
      → Deleted T m p (delete (pooled i) p m)
  unfolding delete
  delete-Deleted i p lt used not_static =
      let (pool, at) = get_elem?_inside m.component_pools i lt in
      let real = used_real m p used in
      let done : delete (pooled i) p m ≡ release_to i p m = ground (arith, real) in
      rw done (release_to-Deleted T m s i pool p at used not_static)

  -- Null is not deleted.
  pub delete_null : (maker : Maker) → delete maker nullptr m ≡ m
  unfolding delete
  delete_null flag = refl
  delete_null (pooled i) = ground arith
