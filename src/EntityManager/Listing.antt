-- ===== src/EntityManager/Listing.antt =====
-- entity_manager.h: `getAllEntityComponents`.
use mathlib.Core.List.{append-nil}
use raccoon_ecs.Common.{
  ℕ, ◌≡◌, false, List, [], ◌∷◌, ◌++◌, none, some, map, arith, ◌==◌, if◌then◌else◌, find, Distinct,
  get_or_beyond, inl, inr, Bool-cases,
}
use raccoon_ecs.Outcome.{Ptr, nullptr}
use raccoon_ecs.Entity.{Entity}
use raccoon_ecs.TypeId.{TypeId}
use raccoon_ecs.TypedComponent.{TypedComponent}
use raccoon_ecs.ComponentMap.{ComponentMap, component_at, get_component_vector_by_id}
use raccoon_ecs.EntityManager.{EntityManager}
use raccoon_ecs.EntityManager.Entities.{exists_at}
use raccoon_ecs.EntityManager.Components.{components_at, get_all_entity_components}
use raccoon_ecs.EntityManager.Invariant.{IsValid}

-- A list of typed components as an association list.
abbrev pub by_type : {K : Type 0} → List (TypedComponent K) → List (K × Ptr)
by_type cs = map (λ c. (c.type_id, c.component)) cs

module _ {K : Type 0} (T : TypeId K) where
  pub find-components_at :
      (m : ComponentMap K) (i : ℕ) (k : K)
      → Distinct T.eq m
      → find T.eq k (by_type (components_at m i))
        ≡ (if component_at T.eq m k i == nullptr then none else some (component_at T.eq m k i))
  unfolding find components_at component_at get_component_vector_by_id
  find-components_at [] i k d = ground arith
  find-components_at ((j, ps) ∷ m) i k d =
      ground (arith, find-components_at m i k d.1, get_or_beyond ps i nullptr, d.0)

  Distinct-components_at :
      (m : ComponentMap K) (i : ℕ) → Distinct T.eq m → Distinct T.eq (by_type (components_at m i))
  unfolding components_at component_at get_component_vector_by_id find
  Distinct-components_at [] i d = tt
  Distinct-components_at ((j, ps) ∷ m) i d =
      ground (arith, find-components_at m i j d.1, Distinct-components_at m i d.1, d.0)

module _ {K W : Type 0} (T : TypeId K) where
  -- One entry for each type of which the id has a component, with that component.
  abbrev pub Lists : EntityManager K W → ℕ → List (TypedComponent K) → Type 0
  Lists s i cs =
      Distinct T.eq (by_type cs)
      × ((k : K)
          → find T.eq k (by_type cs) ≡ (
              if component_at T.eq s.components k i == nullptr
              then none
              else some (component_at T.eq s.components k i)))

  -- On a valid manager `getAllEntityComponents` appends, for an id with an entity, one entry for each
  -- type of which the entity has a component, with that component, and no entry for any other type;
  -- for an id with no entity it appends nothing.
  pub get_all_entity_components_lem :
      (s : EntityManager K W) (e : Entity) (out : List (TypedComponent K))
      → IsValid T s
      → (cs : List (TypedComponent K)) × (get_all_entity_components s e out ≡ out ++ cs)
        × Lists s e.raw_id cs
  unfolding get_all_entity_components
  get_all_entity_components_lem s e out v = elim (Bool-cases (exists_at s e.raw_id)) [
    | inl there ↦ (
      components_at s.components e.raw_id,
      unfold exists_at in
          ground (arith, there, get_or_beyond s.entity_existance_flags e.raw_id false),
      (
        Distinct-components_at T s.components e.raw_id v.distinct,
        λ k. find-components_at T s.components e.raw_id k v.distinct,
      ),
    )
    | inr missing ↦ (
      [],
      unfold exists_at in ground (arith, missing, append-nil out),
      (tt, λ k. unfold find in ground (arith, v.owned k e.raw_id missing)),
    )
  ]
