-- ===== src/Tests/Indexes.antt =====
-- Indexes over the components of concrete managers.
use raccoon_ecs.Common.{
  ℕ, elem, ℕ, ◌≡◌, refl, true, [], ◌∷◌, none, some, if◌then◌else◌, ◌==◌, arith, ℕ_discrete, ◌↔◌,
}
use raccoon_ecs.ComponentMap.{ComponentMap}
use raccoon_ecs.Indexes.SparseSet.{
  Index, make_index, try_add_entity, try_remove_entity, invalid_index,
}
use raccoon_ecs.Indexes.SparseSet.Invariant.{IsValid, view, make_index-IsValid}
use raccoon_ecs.Indexes.SparseSet.Remove.{view-try_remove_entity}
use raccoon_ecs.Indexes.SparseSet.Add.{has_all, components_of, view-try_add_entity}
use raccoon_ecs.Indexes.Key.{create_key, eq_key}
use raccoon_ecs.Indexes.Rebuilding.{keys_of, rebuild-IsConsistent}
use raccoon_ecs.Indexes.Registry.{types_at}
use raccoon_ecs.Indexes.Sorting.{eq_key-same_types}
use raccoon_ecs.EntityManager.{new_manager}
use raccoon_ecs.EntityManager.Invariant.{new_manager-IsValid}
use raccoon_ecs.Indexes.Registry.{IsConsistent}
use raccoon_ecs.Indexes.Query.{get_or_create_index-Exact}
use raccoon_ecs.Indexes.{rebuild, ComponentIndexes, get_or_create_index}
use raccoon_ecs.EntityManager.Queries.{init_index}
use raccoon_ecs.Tests.Concrete.{
  World, type_ids, indexed, indexed-IsValid, moving_entity, moving_entity-IsValid, pack,
  pack-IsPack, position, velocity,
}

abbrev m : ComponentMap ℕ
m = moving_entity.components

abbrev c : ComponentIndexes ℕ
c = indexed.indexes

c-IsConsistent : IsConsistent type_ids m c
unfolding init_index
c-IsConsistent = indexed-IsValid.consistent

abbrev ix : Index ℕ
ix = (get_or_create_index type_ids c pack m).1

ix-IsValid : IsValid ix
ix-IsValid =
    (get_or_create_index-Exact type_ids m c pack c-IsConsistent moving_entity-IsValid.fits
      pack-IsPack).0.valid

view-try_remove_entity_example :
    IsValid (try_remove_entity ix 1)
    × ((j : ℕ) → view (try_remove_entity ix 1) j ≡ (if 1 == j then none else view ix j))
view-try_remove_entity_example = view-try_remove_entity ix 1 ix-IsValid

view-try_add_entity_example :
    IsValid (try_add_entity ℕ_discrete (make_index pack) 1 m)
    × ((j : ℕ)
        → view (try_add_entity ℕ_discrete (make_index pack) 1 m) j ≡ (
            if 1 == j
            then if has_all ℕ_discrete m (make_index pack).component_types 1
              then some (components_of ℕ_discrete m (make_index pack).component_types 1)
              else none
            else view (make_index pack) j))
unfolding make_index view invalid_index
view-try_add_entity_example =
    view-try_add_entity ℕ_discrete (make_index pack) 1 m (make_index-IsValid pack) (omega arith)
      refl

eq_key-same_types_example :
    (eq_key type_ids (create_key type_ids pack) (create_key type_ids (velocity ∷ position ∷ []))
      ≡ true)
    ↔ ((t : ℕ) → elem ℕ_discrete t pack ≡ elem ℕ_discrete t (velocity ∷ position ∷ []))
unfolding elem ℕ_discrete
eq_key-same_types_example =
    eq_key-same_types type_ids pack (velocity ∷ position ∷ []) (refl, (refl, tt)) (refl, (refl, tt))

-- The indexes after all components are gone.
rebuild-IsConsistent_example :
    IsConsistent type_ids [] (rebuild type_ids c [])
    × (keys_of (rebuild type_ids c []).indexes ≡ keys_of c.indexes)
    × ((p : ℕ) → types_at (rebuild type_ids c []).indexes p ≡ types_at c.indexes p)
    × ((rebuild type_ids c []).indexes_having_component ≡ c.indexes_having_component)
unfolding new_manager
rebuild-IsConsistent_example =
    rebuild-IsConsistent type_ids m [] c c-IsConsistent
      (new_manager-IsValid {W = World} type_ids).fits
