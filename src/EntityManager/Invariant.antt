-- ===== src/EntityManager/Invariant.antt =====
-- entity_manager.h: the invariant of an entity manager.
use raccoon_ecs.Common.{
  ℕ, ◌≤◌, ◌<◌, ◌≡◌, refl, true, false, [], length, get_or, elem, Unique, Distinct, ℕ_discrete,
  arith, find,
}
use raccoon_ecs.Outcome.{nullptr}
use raccoon_ecs.Entity.{u32_mod}
use raccoon_ecs.TypeId.{TypeId}
use raccoon_ecs.ComponentMap.{component_at, get_component_vector_by_id}
use raccoon_ecs.Indexes.Registry.{IsConsistent, no_indexes-IsConsistent}
use raccoon_ecs.Indexes.Query.{FitsIds}
use raccoon_ecs.EntityManager.{EntityManager, new_manager}
use raccoon_ecs.EntityManager.Entities.{exists_at}

module _ {K W : Type 0} (T : TypeId K) where
  pub record IsValid (s : EntityManager K W) : Type 0 where
    pub parallel : length s.entity_versions ≡ length s.entity_existance_flags
    -- no more ids than a `RawId` can tell apart
    pub few : length s.entity_versions ≤ u32_mod
    pub versions_fit : (i : ℕ) → get_or s.entity_versions i 0 < u32_mod
    -- the ids to be used again are ids of no entity, each listed once
    pub free_unused :
        (i : ℕ)
        → elem ℕ_discrete i s.free_entity_ids ≡ true
        → (i < length s.entity_existance_flags) × (exists_at s i ≡ false)
    pub free_once : Unique ℕ_discrete s.free_entity_ids
    -- only entities own components
    pub owned :
        (k : K) (i : ℕ) → exists_at s i ≡ false → component_at T.eq s.components k i ≡ nullptr
    pub distinct : Distinct T.eq s.components
    pub fits : FitsIds T s.components
    pub consistent : IsConsistent T s.components s.indexes

  -- A new manager satisfies the invariant.
  pub new_manager-IsValid : IsValid new_manager
  unfolding new_manager elem component_at get_component_vector_by_id find exists_at
  new_manager-IsValid = record {
    parallel = refl;
    few = omega arith;
    versions_fit = λ i. omega arith;
    free_unused = λ i h. absurd (ground arith);
    free_once = tt;
    owned = λ k i h. refl;
    distinct = tt;
    fits = λ k. omega arith;
    consistent = no_indexes-IsConsistent T [];
  }
