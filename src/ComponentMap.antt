-- ===== src/ComponentMap.antt =====
-- component_map.h: a vector of component pointers for each component type, indexed by raw entity id.
pub mod Vectors
pub mod Without
pub mod Placing
use raccoon_ecs.Common.{
  ℕ, ◌≡◌, refl, List, [], ◌∷◌, map, none, some, arith, get_or, find, ensure, modify, from_option,
  Distinct,
}
use raccoon_ecs.Outcome.{Ptr, nullptr}

-- `mData`. `mEmptyVector`, which is never written, is the empty list where a key is missing.
abbrev pub ComponentMap : Type 0 → Type 0
ComponentMap K = List (K × List Ptr)

-- `cleanEmptyVectors`
unfoldable pub clean_empty_vectors : {K : Type 0} → ComponentMap K → ComponentMap K
clean_empty_vectors [] = []
clean_empty_vectors ((k, []) ∷ m) = clean_empty_vectors m
clean_empty_vectors ((k, p ∷ ps) ∷ m) = (k, p ∷ ps) ∷ clean_empty_vectors m

module _ {K : Type 0} (dec : Discrete K) where
  -- `getComponentVectorById`
  unfoldable pub get_component_vector_by_id : ComponentMap K → K → List Ptr
  get_component_vector_by_id m k = from_option [] (find dec k m)

  -- `getOrCreateComponentVectorById`: the map with the entry there, to be written by `modify`.
  unfoldable pub get_or_create_component_vector_by_id : ComponentMap K → K → ComponentMap K
  get_or_create_component_vector_by_id m k = ensure dec k [] m

  -- `getComponentVectors<Components...>`: if the first type has no vector, all come out empty.
  unfoldable pub get_component_vectors : ComponentMap K → List K → List (List Ptr)
  unfolding get_component_vector_by_id
  get_component_vectors m [] = []
  get_component_vectors m (k ∷ ks) = elim (find dec k m) [
    | none ↦ [] ∷ map (λ _. []) ks
    | some ps ↦ ps ∷ map (get_component_vector_by_id m) ks
  ]

  -- What the map holds for a type at a raw id; null where there is no entry.
  unfoldable pub component_at : ComponentMap K → K → ℕ → Ptr
  unfolding get_component_vector_by_id
  component_at m k i = get_or (get_component_vector_by_id m k) i nullptr
